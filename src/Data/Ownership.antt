-- ===== src/Data/Ownership.antt =====
-- Who reaches the tables of backend/internal/service/data_service.go.
use suzuran.Prelude.{ℕ, ◌≡◌, inl, inr, refl, none, List, find?}
use suzuran.Prelude.Error.{Error, table_missing}
use suzuran.Prelude.Result.{Result, err}
use suzuran.Prelude.Exec.{Exec, ◌>>=◌}
use suzuran.Prelude.Text.{Text}
use suzuran.Gorm.{IsGorm}
use suzuran.Data.Model.{Env, DataColumn}
use suzuran.Data.Statements.{Data}
use suzuran.Data.Service.{
  Store, is_table, get_table_metadata, drop_table, describe_table, insert, batch_insert, query,
  update, delete, count, add_column,
}

-- The call fails, and neither the metadata nor the database has changed.
abbrev pub Refused : {e : Env} {A : Type 0} → Store e → Result A × Store e → Type 0
Refused s out = (x : Error) × (out ≡ (err x, s))

module _ (e : Env) (law : IsGorm e.gorm) (app : Text) (org : ℕ) (name : Text) (s : Store e) where
  module _ (unowned : find? (is_table e app name org) s.tables ≡ none) where
    missing : Refused s (get_table_metadata e app name org s)
    unfolding get_table_metadata ◌>>=◌
    missing = elim (law.first_law (is_table e app name org) s.tables) [
      | inl q ↦ (Error.db, rw q refl)
      | inr q ↦ (table_missing, rw (q, unowned) refl)
    ]

    bind-Refused :
        {A B : Type 0} (f : B → Exec (Store e) A) (m : Exec (Store e) B)
        → Refused s (m s)
        → Refused s ((m >>= f) s)
    unfolding ◌>>=◌
    bind-Refused f m (x, q) = (x, rw q refl)

    -- Without a row of metadata for the application, the table and the organisation of the caller,
    -- Insert, BatchInsert, Query, Update, Delete, Count, AddColumn, DescribeTable and DropTable of
    -- the table fail and change nothing. ExecRaw, which reads no metadata, is not among them.
    pub unowned-Refused :
        (filters row : Data e) (rows : List (Data e)) (order : Text) (limit offset : ℕ)
        (col : DataColumn e)
        → Refused s (insert e app org name row s)
          × Refused s (batch_insert e app org name rows s)
          × Refused s (query e app org name filters order limit offset s)
          × Refused s (update e app org name filters row s)
          × Refused s (delete e app org name filters s)
          × Refused s (count e app org name filters s)
          × Refused s (add_column e app org name col s)
          × Refused s (describe_table e app org name s)
          × Refused s (drop_table e app org name s)
    unfolding insert batch_insert query update delete count add_column describe_table drop_table
    unowned-Refused filters row rows order limit offset col = (
      bind-Refused _ _ missing,
      bind-Refused _ _ missing,
      bind-Refused _ _ missing,
      bind-Refused _ _ missing,
      bind-Refused _ _ missing,
      bind-Refused _ _ missing,
      bind-Refused _ _ missing,
      missing,
      bind-Refused _ _ missing,
    )
