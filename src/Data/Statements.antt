-- ===== src/Data/Statements.antt =====
-- The statements that backend/internal/repository/data_repository.go writes for the tables of an
-- application. A Go map is the list of its entries in the order that the loop ranges over them.
use suzuran.Prelude.{
  ℕ, suc, Bool, true, false, not, Option, none, some, String, List, [], ◌∷◌, ◌++◌, length, filter,
  ltb, ◌==◌, if◌then◌else◌,
}
use suzuran.Prelude.Error.{unsupported_type}
use suzuran.Prelude.Result.{Result, ok, err, ◌>>=◌}
use suzuran.Prelude.Text.{Text}
use suzuran.Data.Model.{Env, DataColumn}
use suzuran.Data.Names.{one_of}

-- strings.ReplaceAll(name, `"`, `""`)
abbrev pub doubled : Text → Text
doubled [] = []
doubled (c ∷ t) = let rest = doubled t in if c == b'"' then b'"' ∷ b'"' ∷ rest else c ∷ rest

unfoldable pub pg_quote : Text → Text
pg_quote name = b'"' ∷ (doubled name ++ b'"' ∷ [])

-- strings.Join
abbrev pub join_with : Text → List Text → Text
join_with sep [] = []
join_with sep (s ∷ []) = s
join_with sep (s ∷ r ∷ t) = s ++ (sep ++ join_with sep (r ∷ t))

module _ (e : Env) where
  abbrev pub Data : Type 0
  Data = List (Text × e.Value)

  -- What a builder has collected: a column and the number of its placeholder for each clause, and
  -- the values, of which the number counts from 1.
  abbrev pub Bindings : Type 0
  Bindings = List (Text × ℕ) × List e.Value

  abbrev pub bind : Bindings → Text → e.Value → Bindings
  bind (clauses, values) column value =
      (clauses ++ (column, suc (length values)) ∷ [], values ++ value ∷ [])

  -- the loop over a map
  abbrev pub bind_all : Bindings → Data → Bindings
  bind_all b [] = b
  bind_all b ((k, v) ∷ t) = bind_all (bind b (pg_quote k) (e.marshal v)) t

  abbrev pub org_column : Text
  org_column = e.bytes "org_id"

  -- the conditions of a statement, after the values that are there already
  unfoldable pub conditions : List e.Value → ℕ → Data → Bindings
  conditions values org filters = bind_all (bind ([], values) org_column (e.of_int org)) filters

  abbrev is_column : List String → Text × e.Value → Bool
  is_column names entry = one_of e.bytes names entry.0

  -- the entries of a row that Insert and Update take over
  abbrev pub inserted : Data → Data
  inserted = filter (λ x. not (is_column ("id" ∷ "org_id" ∷ "created_at" ∷ "updated_at" ∷ []) x))

  abbrev pub assigned : Data → Data
  assigned = filter (λ x. not (is_column ("id" ∷ "org_id" ∷ []) x))

  unfoldable pub insert_bindings : ℕ → Data → Bindings
  insert_bindings org row = bind_all (bind ([], []) org_column (e.of_int org)) (inserted row)

  unfoldable pub set_bindings : Data → Bindings
  set_bindings row = bind_all ([], []) (assigned row)

  -- `%s = $%d`
  abbrev pub equation : Text × ℕ → Text
  equation (column, n) = column ++ (e.bytes " = $" ++ e.decimal n)

  abbrev pub equations : List (Text × ℕ) → List Text
  equations [] = []
  equations (c ∷ t) = equation c ∷ equations t

  abbrev columns_of : List (Text × ℕ) → List Text
  columns_of [] = []
  columns_of (c ∷ t) = c.0 ∷ columns_of t

  abbrev placeholders : List (Text × ℕ) → List Text
  placeholders [] = []
  placeholders (c ∷ t) = (b'$' ∷ e.decimal c.1) ∷ placeholders t

  abbrev pub conjunction : Bindings → Text
  conjunction b = join_with (e.bytes " AND ") (equations b.0)

  unfoldable pub insert_sql : Text → Bindings → Text
  insert_sql table b =
      e.bytes "INSERT INTO "
      ++ (pg_quote table
          ++ (e.bytes " ("
              ++ (join_with (e.bytes ", ") (columns_of b.0)
                  ++ (e.bytes ") VALUES ("
                      ++ (join_with (e.bytes ", ") (placeholders b.0)
                          ++ e.bytes ") RETURNING id")))))

  abbrev pub optional : Bool → Text → Text
  optional true t = t
  optional false t = []

  unfoldable pub query_sql : Text → Bindings → Text → ℕ → ℕ → Text
  query_sql table b order limit offset =
      e.bytes "SELECT * FROM "
      ++ (pg_quote table
          ++ (e.bytes " WHERE "
              ++ (conjunction b
                  ++ (optional (ltb 0 (length order)) (e.bytes " ORDER BY " ++ pg_quote order)
                      ++ (optional (ltb 0 limit) (e.bytes " LIMIT " ++ e.decimal limit)
                          ++ optional (ltb 0 offset) (e.bytes " OFFSET " ++ e.decimal offset))))))

  unfoldable pub update_sql : Text → Bindings → Bindings → Text
  update_sql table sets wheres =
      e.bytes "UPDATE "
      ++ (pg_quote table
          ++ (e.bytes " SET "
              ++ (join_with (e.bytes ", ")
                    (equations sets.0 ++ e.bytes "updated_at = CURRENT_TIMESTAMP" ∷ [])
                  ++ (e.bytes " WHERE " ++ conjunction wheres))))

  unfoldable pub delete_sql : Text → Bindings → Text
  delete_sql table b =
      e.bytes "DELETE FROM " ++ (pg_quote table ++ (e.bytes " WHERE " ++ conjunction b))

  unfoldable pub count_sql : Text → Bindings → Text
  count_sql table b =
      e.bytes "SELECT COUNT(*) FROM " ++ (pg_quote table ++ (e.bytes " WHERE " ++ conjunction b))

  -- The first list that has the type, lower-cased, gives its name in PostgreSQL.
  abbrev first_kind : Text → List (List String × String) → Option Text
  first_kind t [] = none
  first_kind t ((names, pg) ∷ kinds) =
      if one_of e.bytes names t then some (e.bytes pg) else first_kind t kinds

  unfoldable pub map_column_type : Text → Option Text
  map_column_type kind = first_kind (e.to_lower kind) (
      ("text" ∷ "string" ∷ [], "TEXT")
      ∷ ("integer" ∷ "int" ∷ [], "INTEGER")
      ∷ ("boolean" ∷ "bool" ∷ [], "BOOLEAN")
      ∷ ("timestamp" ∷ "datetime" ∷ [], "TIMESTAMP")
      ∷ ("jsonb" ∷ "json" ∷ [], "JSONB")
      ∷ ("numeric" ∷ "decimal" ∷ "float" ∷ [], "NUMERIC")
      ∷ ("date" ∷ [], "DATE")
      ∷ [])

  abbrev supported : Option Text → Result Text
  supported none = err unsupported_type
  supported (some t) = ok t

  abbrev default_of : Option e.Value → Text
  default_of none = []
  default_of (some v) = e.bytes " DEFAULT " ++ e.show v

  -- a column with its type, NOT NULL and DEFAULT
  unfoldable pub column_sql : DataColumn e → Result Text
  column_sql col = do
    kind ← supported (map_column_type col.kind)
    ok (
        pg_quote col.name
        ++ (b' '
            ∷ (kind
                ++ (optional (not col.nullable) (e.bytes " NOT NULL")
                    ++ default_of col.default_value))))

  unfoldable pub column_defs : List (DataColumn e) → Result (List Text)
  column_defs [] = ok []
  column_defs (col ∷ cols) =
      let rest = column_defs cols in
      if one_of e.bytes ("id" ∷ "org_id" ∷ "created_at" ∷ "updated_at" ∷ []) col.name
      then rest
      else (do d ← column_sql col; defs ← rest; ok (d ∷ defs))

  unfoldable pub create_table_sql : Text → List (DataColumn e) → Result Text
  create_table_sql table cols = do
    defs ← column_defs cols
    ok (
        e.bytes "CREATE TABLE IF NOT EXISTS "
        ++ (pg_quote table
            ++ (e.bytes " ("
                ++ (join_with (e.bytes ", ") (
                      e.bytes "id SERIAL PRIMARY KEY"
                      ∷ e.bytes "org_id INTEGER NOT NULL"
                      ∷ (defs
                          ++ e.bytes "created_at TIMESTAMP DEFAULT CURRENT_TIMESTAMP"
                            ∷ e.bytes "updated_at TIMESTAMP DEFAULT CURRENT_TIMESTAMP"
                            ∷ []))
                    ++ e.bytes ")"))))

  unfoldable pub drop_table_sql : Text → Text
  drop_table_sql table = e.bytes "DROP TABLE IF EXISTS " ++ pg_quote table

  unfoldable pub add_column_sql : Text → DataColumn e → Result Text
  add_column_sql table col = do
    d ← column_sql col
    ok (e.bytes "ALTER TABLE " ++ (pg_quote table ++ (e.bytes " ADD COLUMN " ++ d)))
