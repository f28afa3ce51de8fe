-- ===== src/Gorm/Memory.antt =====
-- A database in memory that refuses no statement: it shows that `IsGorm` can be met, and the
-- examples run on it.
use Prim.Native.Nat.{max}
use suzuran.Prelude.{ℕ, suc, ◌<◌, ◌≢◌, refl, inr, List, [], ◌∷◌, ◌++◌, All, find?, filter, arith}
use suzuran.Prelude.Result.{ok}
use suzuran.Gorm.{Gorm, IsGorm, upsert, update_where, delete_where}

abbrev max_key : {Row : Type 0} → (Row → ℕ) → List Row → ℕ
max_key key [] = 0
max_key key (r ∷ t) = max (key r) (max_key key t)

All-below :
    {Row : Type 0} (key : Row → ℕ) (n : ℕ) (t : List Row)
    → max_key key t < n
    → All (λ r. key r ≢ n) t
All-below key n [] h = tt
All-below key n (r ∷ t) h = (omega arith, All-below key n t (omega arith))

abbrev pub memory : Gorm
memory = record {
  first = λ p t. ok (find? p t);
  find = λ p t. ok (filter p t);
  next_id = λ key t. suc (max_key key t);
  create = λ key mk t. (ok (mk (suc (max_key key t))), t ++ mk (suc (max_key key t)) ∷ []);
  insert = λ r t. (ok tt, t ++ r ∷ []);
  save = λ key r t. (ok tt, upsert key r t);
  update = λ p f t. (ok tt, update_where p f t);
  delete = λ p t. (ok tt, delete_where p t);
}

pub memory-IsGorm : IsGorm memory
memory-IsGorm = record {
  first_law = λ p t. inr refl;
  find_law = λ p t. inr refl;
  next_id_fresh = λ key t. All-below key (suc (max_key key t)) t (omega arith);
  create_law = λ key mk t. inr refl;
  insert_law = λ r t. inr refl;
  save_law = λ key r t. inr refl;
  update_law = λ p f t. inr refl;
  delete_law = λ p t. inr refl;
}
