-- ===== src/App/Package/Meaning.antt =====
-- Where the names lead that path.Clean gives: the same way as the names that it is given.
use mathlib.Core.List.{reverse-append}
use suzuran.Prelude.{
  ℕ, ◌≡◌, refl, ◌∙◌, ap, inl, inr, Bool, true, false, List, [], ◌∷◌, ◌++◌, reverse, All, All-map,
  All-append_one, ◌==◌, Bool-cases, if◌then◌else◌,
}
use suzuran.Prelude.Text.{Text, text_eq}
use suzuran.App.Package.{
  onto_first, segments, dot_dot, is_nothing, go_up, clean_step, clean_segments, join, is_rooted,
  or_dot, clean,
}
use suzuran.App.Package.Paths.{leave, walk_step, walk}

abbrev no_slash : Text → Bool
no_slash [] = true
no_slash (c ∷ t) = if c == b'/' then false else no_slash t

abbrev Plain : Text → Type 0
Plain s = no_slash s ≡ true

onto_first-Plain :
    (c : ℕ) (segs : List Text)
    → (c == b'/') ≡ false
    → All Plain segs
    → All Plain (onto_first c segs)
onto_first-Plain c [] h p = (rw h refl, tt)
onto_first-Plain c (s ∷ t) h p = (rw h p.0, p.1)

segments-Plain : (t : Text) → All Plain (segments t)
unfolding segments
segments-Plain [] = (refl, tt)
segments-Plain (c ∷ t) = elim (Bool-cases (c == b'/')) [
  | inl e ↦ rw e (refl, segments-Plain t)
  | inr e ↦ rw e (onto_first-Plain c (segments t) e (segments-Plain t))
]

segments-cons : (t : Text) → (s : Text) × (r : List Text) × (segments t ≡ s ∷ r)
unfolding segments
segments-cons [] = ([], [], refl)
segments-cons (c ∷ t) = elim (Bool-cases (c == b'/')) [
  | inl e ↦ ([], segments t, rw e refl)
  | inr e ↦ let (s, r, q) = segments-cons t in (c ∷ s, r, rw (e, q) refl)
]

pub segments-++ : (d t : Text) → segments (d ++ b'/' ∷ t) ≡ segments d ++ segments t
unfolding segments
segments-++ [] t = refl
segments-++ (c ∷ d) t = elim (Bool-cases (c == b'/')) [
  | inl e ↦ rw e (ap (λ r. [] ∷ r) (segments-++ d t))
  | inr e ↦
      let (s, r, q) = segments-cons d in rw e (ap (onto_first c) (segments-++ d t) ∙ rw q refl)
]

segments_one : (s : Text) → Plain s → segments s ≡ s ∷ []
unfolding segments
segments_one [] h = refl
segments_one (c ∷ s) h = elim (Bool-cases (c == b'/')) [
  | inl e ↦ absurd (let bad : false ≡ true = rw e at h in let no : ⊥ = cc in no)
  | inr e ↦ rw e (ap (onto_first c) (segments_one s (rw e at h)))
]

segments-join :
    (s : Text) (segs : List Text) → All Plain (s ∷ segs) → segments (join (s ∷ segs)) ≡ s ∷ segs
segments-join s [] h = segments_one s h.0
segments-join s (r ∷ segs) h =
    segments-++ s (join (r ∷ segs))
    ∙ ap (λ a. a ++ segments (join (r ∷ segs))) (segments_one s h.0)
    ∙ ap (λ a. s ∷ a) (segments-join r segs h.1)

pub walk-++ : (dir a b : List Text) → walk dir (a ++ b) ≡ walk (walk dir a) b
walk-++ dir [] b = refl
walk-++ dir (s ∷ a) b = walk-++ (walk_step dir s) a b

-- A printed list of segments is the way along them.
walk-join :
    (dir segs : List Text)
    → All Plain segs
    → walk dir (segments (or_dot (join segs))) ≡ walk dir segs
unfolding segments
walk-join dir [] h = refl
walk-join dir (s ∷ segs) h = as_printed (join (s ∷ segs)) ∙ ap (walk dir) (segments-join s segs h)
  where
    as_printed : (t : Text) → walk dir (segments (or_dot t)) ≡ walk dir (segments t)
    as_printed [] = refl
    as_printed (c ∷ t) = refl

reverse-cons : (k : Text) (kept : List Text) → reverse (k ∷ kept) ≡ reverse kept ++ k ∷ []
reverse-cons k kept = reverse-append (k ∷ []) kept

reverse-Plain : (kept : List Text) → All Plain kept → All Plain (reverse kept)
reverse-Plain [] h = tt
reverse-Plain (k ∷ kept) h =
    rw (reverse-cons k kept) (All-append_one Plain (reverse kept) k (reverse-Plain kept h.1) h.0)

-- the directory at the end of the segments that are kept
abbrev kept_dir : List Text → List Text → List Text
kept_dir dir [] = dir
kept_dir dir (k ∷ kept) = walk_step (kept_dir dir kept) k

walk-reverse : (dir kept : List Text) → walk dir (reverse kept) ≡ kept_dir dir kept
walk-reverse dir [] = refl
walk-reverse dir (k ∷ kept) =
    ap (walk dir) (reverse-cons k kept)
    ∙ walk-++ dir (reverse kept) (k ∷ [])
    ∙ ap (λ d. walk_step d k) (walk-reverse dir kept)

-- A segment that is kept has no slash and is neither empty nor ".".
abbrev Kept : Text → Type 0
Kept s = Plain s × (is_nothing s ≡ false)

dot_dot-Kept : Kept dot_dot
dot_dot-Kept = (refl, refl)

go_up-Kept :
    (dir kept : List Text)
    → All Kept kept
    → All Kept (go_up false kept) × (kept_dir dir (go_up false kept) ≡ leave (kept_dir dir kept))
go_up-Kept dir [] h = ((dot_dot-Kept, tt), refl)
go_up-Kept dir (k ∷ kept) h = elim (Bool-cases (text_eq k dot_dot)) [
  | inl e ↦ rw e ((dot_dot-Kept, h), rw (h.0.1, e) refl)
  | inr e ↦ rw e (h.1, rw h.0.1 refl)
]

clean_step-Kept :
    (dir kept : List Text) (s : Text)
    → Plain s
    → All Kept kept
    → All Kept (clean_step false kept s)
      × (kept_dir dir (clean_step false kept s) ≡ walk_step (kept_dir dir kept) s)
clean_step-Kept dir kept s p h = elim (Bool-cases (is_nothing s)) [
  | inl e ↦ rw e (h, refl)
  | inr e ↦ elim (Bool-cases (text_eq s dot_dot)) [
    | inl d ↦ rw (e, d) (go_up-Kept dir kept h)
    | inr d ↦ rw (e, d) (((p, e), h), rw (e, d) refl)
  ]
]

clean_segments-Kept :
    (dir kept segs : List Text)
    → All Plain segs
    → All Kept kept
    → All Kept (clean_segments false kept segs)
      × (kept_dir dir (clean_segments false kept segs) ≡ walk (kept_dir dir kept) segs)
clean_segments-Kept dir kept [] p h = (h, refl)
clean_segments-Kept dir kept (s ∷ segs) p h =
    let (now, step) = clean_step-Kept dir kept s p.0 h in
    let (all, rest) = clean_segments-Kept dir (clean_step false kept s) segs p.1 now in
    (all, rest ∙ ap (λ d. walk d segs) step)

-- A relative name that path.Clean gives leads where the name itself leads, from every directory.
pub walk-clean :
    (dir : List Text) (t : Text)
    → is_rooted t ≡ false
    → walk dir (segments (clean t)) ≡ walk dir (segments t)
unfolding clean
walk-clean dir t h =
    let (all, ends) = clean_segments-Kept dir [] (segments t) (segments-Plain t) tt in
    let kept = clean_segments false [] (segments t) in
    rw h (
      walk-join dir (reverse kept) (reverse-Plain kept (All-map Kept Plain kept (λ s k. k.0) all))
      ∙ walk-reverse dir kept
      ∙ ends)
