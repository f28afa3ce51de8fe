-- ===== src/Gorm/Rows.antt =====
-- Rows and their primary keys: what a statement leaves of the rows that it is not about.
use mathlib.Core.Path.{sym, subst}
use mathlib.Core.Option.{some-injective}
use suzuran.Prelude.{
  ℕ, ◌≡◌, ◌≢◌, refl, inl, inr, Bool, true, Option, some, List, [], ◌∷◌, ◌++◌, find?, All, ◌==◌,
  ==_iff, Bool-cases, if◌then◌else◌, arith,
}
use suzuran.Prelude.{◌∙◌}
use suzuran.Prelude.Result.{ok, ok-injective}
use suzuran.Gorm.{Gorm, IsGorm, upsert}

module _ {Row : Type 0} where
  -- the row with the key `k`
  abbrev pub row_at : (Row → ℕ) → ℕ → List Row → Option Row
  row_at key k t = find? (λ x. key x == k) t

  -- no two rows have the same key
  abbrev pub Unique : (Row → ℕ) → List Row → Type 0
  Unique key [] = Unit
  Unique key (x ∷ t) = All (λ y. key y ≢ key x) t × Unique key t

  pub find?-holds : (p : Row → Bool) (t : List Row) (r : Row) → find? p t ≡ some r → p r ≡ true
  find?-holds p [] r h = ground arith
  find?-holds p (x ∷ t) r h = ground (arith, find?-holds p t r)

  All-find? :
      (P : Row → Type 0) (p : Row → Bool) (t : List Row) (r : Row)
      → All P t
      → find? p t ≡ some r
      → P r
  All-find? P p [] r a h = ground arith
  All-find? P p (x ∷ t) r a h = elim (Bool-cases (p x)) [
    | inl e ↦ subst P (some-injective x r (rw e at h)) a.0
    | inr e ↦ All-find? P p t r a.1 (rw e at h)
  ]

  pub row_at-find? :
      (key : Row → ℕ) (p : Row → Bool) (t : List Row) (r : Row)
      → Unique key t
      → find? p t ≡ some r
      → row_at key (key r) t ≡ some r
  row_at-find? key p [] r u h = ground arith
  row_at-find? key p (x ∷ t) r u h =
      ground (arith, row_at-find? key p t r, All-find? (λ y. key y ≢ key x) p t r u.0)

  pub row_at-upsert :
      (key : Row → ℕ) (r : Row) (k : ℕ) (t : List Row)
      → row_at key k (upsert key r t) ≡ (if key r == k then some r else row_at key k t)
  row_at-upsert key r k [] = refl
  row_at-upsert key r k (x ∷ t) = ground (arith, row_at-upsert key r k t)

  All-upsert :
      (P : Row → Type 0) (key : Row → ℕ) (r : Row) (t : List Row)
      → P r
      → All P t
      → All P (upsert key r t)
  All-upsert P key r [] h a = (h, tt)
  All-upsert P key r (x ∷ t) h a = elim (Bool-cases (key x == key r)) [
    | inl e ↦ rw e (h, a.1)
    | inr e ↦ rw e (a.0, All-upsert P key r t h a.1)
  ]

  Unique-upsert :
      (key : Row → ℕ) (r : Row) (t : List Row) → Unique key t → Unique key (upsert key r t)
  Unique-upsert key r [] u = (tt, tt)
  Unique-upsert key r (x ∷ t) u = elim (Bool-cases (key x == key r)) [
    | inl e ↦ rw e ((rw (← (==_iff _ _).0 e) u.0), u.1)
    | inr e ↦
        rw e (All-upsert (λ y. key y ≢ key x) key r t (ground arith) u.0, Unique-upsert key r t u.1)
  ]

  All-append_one : (P : Row → Type 0) (t : List Row) (r : Row) → All P t → P r → All P (t ++ r ∷ [])
  All-append_one P [] r a h = (h, tt)
  All-append_one P (x ∷ t) r a h = (a.0, All-append_one P t r a.1 h)

  Unique-append_one :
      (key : Row → ℕ) (t : List Row) (r : Row)
      → All (λ x. key x ≢ key r) t
      → Unique key t
      → Unique key (t ++ r ∷ [])
  Unique-append_one key [] r a u = (tt, tt)
  Unique-append_one key (x ∷ t) r a u = (
    All-append_one (λ y. key y ≢ key x) t r u.0 (λ e. a.0 (sym e)),
    Unique-append_one key t r a.1 u.1,
  )

  find?-append_one :
      (p : Row → Bool) (t : List Row) (r x : Row)
      → find? p t ≡ some x
      → find? p (t ++ r ∷ []) ≡ some x
  find?-append_one p [] r x h = ground arith
  find?-append_one p (y ∷ t) r x h = ground (arith, find?-append_one p t r x)

-- A created row is found at its fresh key.
pub row_at-append_one :
    {Row : Type 0} (key : Row → ℕ) (k : ℕ) (t : List Row) (r : Row)
    → All (λ x. key x ≢ k) t
    → key r ≡ k
    → row_at key k (t ++ r ∷ []) ≡ some r
row_at-append_one key k [] r fresh h = ground (arith, ==_iff (key r) k)
row_at-append_one key k (x ∷ t) r fresh h =
    ground (arith, row_at-append_one key k t r fresh.1 h, ==_iff (key x) k, fresh.0)

-- The table has unique keys, and holds the row `x` at the key `k`.
pub record Holds {Row : Type 0} (key : Row → ℕ) (k : ℕ) (x : Row) (t : List Row) : Type 0 where
  pub unique : Unique key t
  pub held : row_at key k t ≡ some x

-- A row that was saved is there.
pub Holds-upsert :
    {Row : Type 0} (key : Row → ℕ) (r : Row) (t : List Row)
    → Unique key t
    → Holds key (key r) r (upsert key r t)
Holds-upsert key r t u = record {
  unique = Unique-upsert key r t u;
  held = ground (arith, row_at-upsert key r (key r) t);
}

module _ (g : Gorm) (law : IsGorm g) {Row : Type 0} (key : Row → ℕ) (k : ℕ) (x : Row)
    (t : List Row) where
  -- A Save of a row with another key leaves the row at `k` alone, whether it fails or not.
  pub Holds-save : (r : Row) → key r ≢ k → Holds key k x t → Holds key k x (g.save key r t).1
  Holds-save r ne h = elim (law.save_law key r t) [
    | inl e ↦ rw e h
    | inr e ↦ rw e (record {
      unique = Unique-upsert key r t h.unique;
      held = ground (arith, row_at-upsert key r k t, h.held);
    })
  ]

  -- So does a Create.
  pub Holds-create :
      (mk : ℕ → Row)
      → ((n : ℕ) → key (mk n) ≡ n)
      → Holds key k x t
      → Holds key k x (g.create key mk t).1
  Holds-create mk keyed h = elim (law.create_law key mk t) [
    | inl e ↦ rw e h
    | inr e ↦ rw e (record {
      unique =
          Unique-append_one key t (mk (g.next_id key t)) (rw keyed (law.next_id_fresh key t))
            h.unique;
      held = find?-append_one _ t _ x h.held;
    })
  ]

  -- The key of a created row is not `k`.
  pub Holds-next_id : Holds key k x t → g.next_id key t ≢ k
  Holds-next_id h q =
      let at_k : (key x == k) ≡ true = find?-holds _ t x h.held in
      All-find? (λ r. key r ≢ g.next_id key t) _ t x (law.next_id_fresh key t) h.held (ground arith)

  -- A row that is found and has the key `k` is `x`.
  pub Holds-first :
      (p : Row → Bool) (r : Row)
      → g.first p t ≡ ok (some r)
      → Holds key k x t
      → (p r ≡ true) × (key r ≡ k → r ≡ x)
  Holds-first p r found h = elim (law.first_law p t) [
    | inl q ↦ cc
    | inr q ↦
        let hit : find? p t ≡ some r = ok-injective (sym q ∙ found) in
        (find?-holds p t r hit, λ same. ground (arith, row_at-find? key p t r h.unique hit, h.held))
  ]
