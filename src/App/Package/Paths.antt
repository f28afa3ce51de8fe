-- ===== src/App/Package/Paths.antt =====
-- The names of the entries that parseAppZip of backend/internal/service/app_import_service.go lets
-- through.
use mathlib.Core.List.{reverse-append}
use suzuran.Prelude.{
  ◌≡◌, refl, sym, ◌∙◌, ap, ◌⊎◌, inl, inr, Bool, true, false, List, [], ◌∷◌, ◌++◌, reverse,
  Bool-cases, if◌then◌else◌, arith,
}
use suzuran.Prelude.Text.{Text, text_eq}
use suzuran.App.Package.{
  segments, dot_dot, is_nothing, go_up, clean_step, clean_segments, join, is_rooted, or_dot, clean,
  is_unsafe,
}

-- Where a walk along the segments ends, from a directory that is the list of its segments, the
-- innermost first: `..` leaves a directory, and the root's parent is the root.
abbrev pub leave : List Text → List Text
leave [] = []
leave (s ∷ dir) = dir

abbrev pub walk_step : List Text → Text → List Text
walk_step dir s = if is_nothing s then dir else if text_eq s dot_dot then leave dir else s ∷ dir

abbrev pub walk : List Text → List Text → List Text
walk dir [] = dir
walk dir (s ∷ t) = walk (walk_step dir s) t

text_eq_sound : (a b : Text) → text_eq a b ≡ true → a ≡ b
text_eq_sound [] [] h = refl
text_eq_sound [] (y ∷ b) h = ground arith
text_eq_sound (x ∷ a) [] h = ground arith
text_eq_sound (x ∷ a) (y ∷ b) h = ground (arith, text_eq_sound a b)

-- No segment is a `..`.
abbrev pub no_dots : List Text → Bool
no_dots [] = true
no_dots (s ∷ t) = if text_eq s dot_dot then false else no_dots t

go_up_dotted :
    (kept : List Text)
    → (above : List Text) × (go_up false (kept ++ dot_dot ∷ []) ≡ above ++ dot_dot ∷ [])
go_up_dotted [] = (dot_dot ∷ [], refl)
go_up_dotted (k ∷ kept) = elim (Bool-cases (text_eq k dot_dot)) [
  | inl e ↦ (dot_dot ∷ k ∷ kept, rw e refl)
  | inr e ↦ (kept, rw e refl)
]

step_dotted :
    (kept : List Text) (s : Text)
    → (above : List Text) × (clean_step false (kept ++ dot_dot ∷ []) s ≡ above ++ dot_dot ∷ [])
step_dotted kept s = elim (Bool-cases (is_nothing s)) [
  | inl e ↦ (kept, rw e refl)
  | inr e ↦ elim (Bool-cases (text_eq s dot_dot)) [
    | inl d ↦ let (above, q) = go_up_dotted kept in (above, rw (e, d) q)
    | inr d ↦ (s ∷ kept, rw (e, d) refl)
  ]
]

-- A `..` at the bottom of the kept segments stays there.
stays_dotted :
    (kept : List Text) (segs : List Text)
    → (above : List Text) × (clean_segments false (kept ++ dot_dot ∷ []) segs
        ≡ above ++ dot_dot ∷ [])
stays_dotted kept [] = (kept, refl)
stays_dotted kept (s ∷ t) =
    let (above, q) = step_dotted kept s in
    let (top, r) = stays_dotted above t in (top, ap (λ k. clean_segments false k t) q ∙ r)

-- A step keeps this, or puts a `..` at the bottom.
keeps_step :
    (kept dir : List Text) (s : Text)
    → no_dots kept ≡ true
    → (clean_step false kept s ≡ [] ++ dot_dot ∷ [])
      ⊎ ((no_dots (clean_step false kept s) ≡ true)
          × (walk_step (kept ++ dir) s ≡ clean_step false kept s ++ dir))
keeps_step kept dir s h = elim (Bool-cases (is_nothing s)) [
  | inl e ↦ inr (rw e h, rw e refl)
  | inr e ↦ elim (Bool-cases (text_eq s dot_dot)) [
    | inr d ↦ inr (rw e (rw d (rw d h)), rw (e, d) refl)
    | inl d ↦ rw (e, d) (up kept h)
  ]
]
  where
    up :
        (kept : List Text)
        → no_dots kept ≡ true
        → (go_up false kept ≡ [] ++ dot_dot ∷ [])
          ⊎ ((no_dots (go_up false kept) ≡ true) × (leave (kept ++ dir) ≡ go_up false kept ++ dir))
    up [] h = inl refl
    up (k ∷ kept) h = elim (Bool-cases (text_eq k dot_dot)) [
      | inl q ↦ absurd (let bad : ⊥ = ground arith in bad)
      | inr q ↦ inr (rw q (rw q at h), rw q refl)
    ]

-- Until then the kept segments are the way from where the walk began.
keeps_walk :
    (kept dir segs : List Text)
    → no_dots kept ≡ true
    → ((above : List Text) × (clean_segments false kept segs ≡ above ++ dot_dot ∷ []))
      ⊎ ((no_dots (clean_segments false kept segs) ≡ true)
          × (walk (kept ++ dir) segs ≡ clean_segments false kept segs ++ dir))
keeps_walk kept dir [] h = inr (h, refl)
keeps_walk kept dir (s ∷ t) h = elim (keeps_step kept dir s h) [
  | inl q ↦ let (top, r) = stays_dotted [] t in inl (top, ap (λ k. clean_segments false k t) q ∙ r)
  | inr q ↦ elim (keeps_walk (clean_step false kept s) dir t q.0) [
    | inl r ↦ inl r
    | inr r ↦ inr (r.0, ap (λ d. walk d t) q.1 ∙ r.1)
  ]
]

-- A cleaned name that starts with `..` is refused.
unsafe_dotted : (rest : List Text) → is_unsafe (or_dot (join (dot_dot ∷ rest))) ≡ true
unsafe_dotted [] = refl
unsafe_dotted (r ∷ rest) = refl

unsafe_rooted : (t : Text) → is_unsafe (b'/' ∷ t) ≡ true
unsafe_rooted t = refl

module _ (name : Text) (safe : is_unsafe (clean name) ≡ false) where
  pub relative : is_rooted name ≡ false
  unfolding clean
  relative = elim (Bool-cases (is_rooted name)) [
    | inr e ↦ e
    | inl e ↦ absurd (let bad : true ≡ false = rw e at safe in let no : ⊥ = cc in no)
  ]

  -- An entry whose name parseAppZip lets through lies in the directory that it is unpacked to, or
  -- is that directory: a walk along the name's segments from any directory ends below it, on a way
  -- without `..`.
  pub safe_name_stays :
      (dir : List Text)
      → (below : List Text) × (no_dots below ≡ true) × (walk dir (segments name) ≡ below ++ dir)
  unfolding clean
  safe_name_stays dir = elim (keeps_walk [] dir (segments name) refl) [
    | inr h ↦ (clean_segments false [] (segments name), h.0, h.1)
    | inl h ↦
        let kept : is_unsafe (or_dot (join (reverse (clean_segments false [] (segments name)))))
            ≡ false =
          rw relative at safe in
        let climbs : is_unsafe (or_dot (join (dot_dot ∷ reverse h.0))) ≡ false =
          rw (h.1, reverse-append h.0 (dot_dot ∷ [])) at kept in
        absurd (
          let bad : true ≡ false = sym (unsafe_dotted (reverse h.0)) ∙ climbs in
          let no : ⊥ = cc in no)
  ]
