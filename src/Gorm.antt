-- ===== src/Gorm.antt =====
-- What the repositories (backend/internal/repository) use of the object mapper gorm and of the
-- database behind it. They are no code of this repository: the operations are a parameter of the
-- model, and `IsGorm` states the behaviour that gorm documents for each statement. A table is the
-- list of its rows in the order of their primary keys.
pub mod Rows
pub mod Memory
use suzuran.Prelude.{
  ℕ, ◌≡◌, ◌≢◌, ◌⊎◌, Bool, not, Option, List, [], ◌∷◌, ◌++◌, map, find?, filter, All, ◌==◌,
  if◌then◌else◌,
}
use suzuran.Prelude.Error.{Error}
use suzuran.Prelude.Result.{Result, ok, err}

pub record Gorm : Type 1 where
  -- Where(p).First; the repositories turn `ErrRecordNotFound` into nil
  pub first : {Row : Type 0} → (Row → Bool) → List Row → Result (Option Row)
  -- Where(p).Find
  pub find : {Row : Type 0} → (Row → Bool) → List Row → Result (List Row)
  -- the key that the next created row gets
  pub next_id : {Row : Type 0} → (Row → ℕ) → List Row → ℕ
  -- Create of a row that waits for its primary key
  pub create : {Row : Type 0} → (Row → ℕ) → (ℕ → Row) → List Row → Result Row × List Row
  -- Create of a row that brings its primary key
  pub insert : {Row : Type 0} → Row → List Row → Result (Unit {0}) × List Row
  -- Save of a row, by its primary key
  pub save : {Row : Type 0} → (Row → ℕ) → Row → List Row → Result (Unit {0}) × List Row
  -- Where(p).Update
  pub update : {Row : Type 0} → (Row → Bool) → (Row → Row) → List Row → Result (Unit {0}) × List Row
  -- Where(p).Delete
  pub delete : {Row : Type 0} → (Row → Bool) → List Row → Result (Unit {0}) × List Row

module _ {Row : Type 0} where
  -- All columns of the row with the key of `r` are written; a key that is not there is inserted.
  abbrev pub upsert : (Row → ℕ) → Row → List Row → List Row
  upsert key r [] = r ∷ []
  upsert key r (x ∷ t) = let rest = upsert key r t in if key x == key r then r ∷ t else x ∷ rest

  abbrev pub update_where : (Row → Bool) → (Row → Row) → List Row → List Row
  update_where p f t = map (λ r. if p r then f r else r) t

  abbrev pub delete_where : (Row → Bool) → List Row → List Row
  delete_where p t = filter (λ r. not (p r)) t

-- A statement is refused and changes nothing, or does what SQL says of it.
pub record IsGorm (g : Gorm) : Type 1 where
  pub first_law :
      {Row : Type 0} (p : Row → Bool) (t : List Row)
      → (g.first p t ≡ err Error.db) ⊎ (g.first p t ≡ ok (find? p t))
  pub find_law :
      {Row : Type 0} (p : Row → Bool) (t : List Row)
      → (g.find p t ≡ err Error.db) ⊎ (g.find p t ≡ ok (filter p t))
  pub next_id_fresh :
      {Row : Type 0} (key : Row → ℕ) (t : List Row) → All (λ r. key r ≢ g.next_id key t) t
  pub create_law :
      {Row : Type 0} (key : Row → ℕ) (mk : ℕ → Row) (t : List Row)
      → (g.create key mk t ≡ (err Error.db, t))
        ⊎ (g.create key mk t ≡ (ok (mk (g.next_id key t)), t ++ mk (g.next_id key t) ∷ []))
  pub insert_law :
      {Row : Type 0} (r : Row) (t : List Row)
      → (g.insert r t ≡ (err Error.db, t)) ⊎ (g.insert r t ≡ (ok tt, t ++ r ∷ []))
  pub save_law :
      {Row : Type 0} (key : Row → ℕ) (r : Row) (t : List Row)
      → (g.save key r t ≡ (err Error.db, t)) ⊎ (g.save key r t ≡ (ok tt, upsert key r t))
  pub update_law :
      {Row : Type 0} (p : Row → Bool) (f : Row → Row) (t : List Row)
      → (g.update p f t ≡ (err Error.db, t)) ⊎ (g.update p f t ≡ (ok tt, update_where p f t))
  pub delete_law :
      {Row : Type 0} (p : Row → Bool) (t : List Row)
      → (g.delete p t ≡ (err Error.db, t)) ⊎ (g.delete p t ≡ (ok tt, delete_where p t))
