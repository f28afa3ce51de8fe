-- ===== src/Data/Scope.antt =====
-- The texts of the statements of backend/internal/repository/data_repository.go for the rows of a
-- table: which rows they are about.
use suzuran.Prelude.{ℕ, ◌≡◌, some, List, [], ◌∷◌, ◌++◌, length, ltb, if◌then◌else◌}
use suzuran.Prelude.Text.{Text}
use suzuran.Data.Model.{Env}
use suzuran.Data.Statements.{
  pg_quote, join_with, equations, Data, Bindings, org_column, inserted, assigned, insert_sql,
}
use suzuran.Data.Service.{on_engine, exec_delete, exec_count, exec_query, exec_update, exec_insert}
use suzuran.Data.Bindings.{meaning, entries}

module _ (e : Env) where
  -- `column = $n`
  abbrev pub compares : Text × ℕ → Text
  compares c = c.0 ++ (e.bytes " = $" ++ e.decimal c.1)

  abbrev pub and_each : List (Text × ℕ) → Text
  and_each [] = []
  and_each (c ∷ t) = e.bytes " AND " ++ (compares c ++ and_each t)

  -- the rows that meet the first comparison and each of the others
  abbrev pub where_all : List (Text × ℕ) → Text
  where_all [] = e.bytes " WHERE "
  where_all (c ∷ t) = e.bytes " WHERE " ++ (compares c ++ and_each t)

  -- a part of a query that is there if the number is not 0
  abbrev pub if_any : ℕ → Text → Text
  if_any k t = if ltb 0 k then t else []

  -- the end of a query
  abbrev pub paging : Text → ℕ → ℕ → Text
  paging order limit offset =
      if_any (length order) (e.bytes " ORDER BY " ++ pg_quote order)
      ++ (if_any limit (e.bytes " LIMIT " ++ e.decimal limit)
          ++ if_any offset (e.bytes " OFFSET " ++ e.decimal offset))

  -- the assignments of an update
  abbrev pub assignments : List (Text × ℕ) → Text
  assignments sets =
      join_with (e.bytes ", ") (equations e sets ++ e.bytes "updated_at = CURRENT_TIMESTAMP" ∷ [])

  -- What the calls of the repository send to the database: `b`, `u` and `i` are the clauses with the
  -- values of their placeholders.
  pub record IsBound (table : Text) (org : ℕ) (filters row : Data e) (order : Text)
      (limit offset : ℕ) : Type 0 where
    pub b : Bindings e
    pub means : meaning e b.0 b.1 ≡ (org_column e, some (e.of_int org)) ∷ entries e filters
    pub deletes :
        exec_delete e table org filters
        ≡ on_engine e (e.exec (e.bytes "DELETE FROM " ++ (pg_quote table ++ where_all b.0)) b.1)
    pub counts :
        exec_count e table org filters
        ≡ on_engine e
            (e.scan_int (e.bytes "SELECT COUNT(*) FROM " ++ (pg_quote table ++ where_all b.0)) b.1)
    pub queries :
        exec_query e table org filters order limit offset
        ≡ on_engine e (
            e.query_rows
              (e.bytes "SELECT * FROM "
                ++ (pg_quote table ++ (where_all b.0 ++ paging order limit offset)))
              b.1)
    pub u : Bindings e
    pub sets : List (Text × ℕ)
    pub u_means : meaning e u.0 u.1 ≡ (org_column e, some (e.of_int org)) ∷ entries e filters
    pub sets_mean : meaning e sets u.1 ≡ entries e (assigned e row)
    pub updates :
        exec_update e table org filters row
        ≡ on_engine e (
            e.exec
              (e.bytes "UPDATE "
                ++ (pg_quote table ++ (e.bytes " SET " ++ (assignments sets ++ where_all u.0))))
              u.1)
    pub i : Bindings e
    pub i_means :
        meaning e i.0 i.1 ≡ (org_column e, some (e.of_int org)) ∷ entries e (inserted e row)
    pub inserts : exec_insert e table org row ≡ on_engine e (e.scan_int (insert_sql e table i) i.1)
