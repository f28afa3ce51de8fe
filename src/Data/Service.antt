-- ===== src/Data/Service.antt =====
-- backend/internal/service/data_service.go over backend/internal/repository/data_repository.go: the
-- store is the table of metadata and the database with the tables of the applications.
use suzuran.Prelude.{ℕ, Bool, ◌&&◌, List, [], ◌∷◌, ◌==◌}
use suzuran.Prelude.Error.{table_missing}
use suzuran.Prelude.Result.{Result, ok, err}
use suzuran.Prelude.Exec.{Exec, pure, lift, require, ignoring, raise, ◌>>=◌, ◌>>◌}
use suzuran.Prelude.Text.{Text, text_eq}
use suzuran.Data.Model.{Env, DataColumn, DataTable}
use suzuran.Data.Names.{validate_table_name, validate_column_type, validate_raw_sql, physical_name}
use suzuran.Data.Statements.{
  Data, conditions, insert_bindings, set_bindings, insert_sql, query_sql, update_sql, delete_sql,
  count_sql, create_table_sql, drop_table_sql, add_column_sql,
}

pub record Store (e : Env) : Type 0 where
  pub tables : List (DataTable e)
  pub engine : e.Engine

module _ (e : Env) where
  abbrev pub on_engine : {A : Type 0} → Exec e.Engine A → Exec (Store e) A
  on_engine m s = let (r, t) = m s.engine in (r, record s { engine = t })

  -- the number of rows, of which the caller wants only the error
  abbrev run : Text → List e.Value → Exec (Store e) (Unit {0})
  run sql values = do on_engine (e.exec sql values); pure tt

  -- DataRepository

  abbrev pub is_table : Text → Text → ℕ → DataTable e → Bool
  is_table app name org t = text_eq t.app_id app && text_eq t.logical_name name && t.org_id == org

  unfoldable pub create_table_metadata : (ℕ → DataTable e) → Exec (Store e) (Unit {0})
  create_table_metadata mk s =
      let (r, t) = e.gorm.create (λ (x : DataTable e). x.id) mk s.tables in
      (elim r [ ok x ↦ ok tt | err x ↦ err x ], record s { tables = t })

  unfoldable pub list_tables_by_app : Text → ℕ → Exec (Store e) (List (DataTable e))
  list_tables_by_app app org s =
      (e.gorm.find (λ t. text_eq t.app_id app && t.org_id == org) s.tables, s)

  -- Here a missing row is an error.
  unfoldable pub get_table_metadata : Text → Text → ℕ → Exec (Store e) (DataTable e)
  get_table_metadata app name org = do
    found ← (λ s. (e.gorm.first (is_table app name org) s.tables, s))
    require table_missing found

  unfoldable pub delete_table_metadata : Text → Text → ℕ → Exec (Store e) (Unit {0})
  delete_table_metadata app name org s =
      let (r, t) = e.gorm.delete (is_table app name org) s.tables in (r, record s { tables = t })

  unfoldable pub exec_create_table : Text → List (DataColumn e) → Exec (Store e) (Unit {0})
  exec_create_table table cols = do sql ← lift (create_table_sql e table cols); run sql []

  unfoldable pub exec_drop_table : Text → Exec (Store e) (Unit {0})
  exec_drop_table table = run (drop_table_sql e table) []

  unfoldable pub exec_insert : Text → ℕ → Data e → Exec (Store e) ℕ
  exec_insert table org row =
      let b = insert_bindings e org row in on_engine (e.scan_int (insert_sql e table b) b.1)

  -- The rows before one that fails stay, and the identifiers are lost with the error here.
  unfoldable pub exec_batch_insert : Text → ℕ → List (Data e) → Exec (Store e) (List ℕ)
  exec_batch_insert table org [] = pure []
  exec_batch_insert table org (row ∷ rows) = do
    id ← exec_insert table org row
    ids ← exec_batch_insert table org rows
    pure (id ∷ ids)

  unfoldable pub exec_query : Text → ℕ → Data e → Text → ℕ → ℕ → Exec (Store e) (List e.Row)
  exec_query table org filters order limit offset =
      let b = conditions e [] org filters in
      on_engine (e.query_rows (query_sql e table b order limit offset) b.1)

  unfoldable pub exec_update : Text → ℕ → Data e → Data e → Exec (Store e) ℕ
  exec_update table org filters row =
      let sets = set_bindings e row in
      let b = conditions e sets.1 org filters in on_engine (e.exec (update_sql e table sets b) b.1)

  unfoldable pub exec_delete : Text → ℕ → Data e → Exec (Store e) ℕ
  exec_delete table org filters =
      let b = conditions e [] org filters in on_engine (e.exec (delete_sql e table b) b.1)

  unfoldable pub exec_count : Text → ℕ → Data e → Exec (Store e) ℕ
  exec_count table org filters =
      let b = conditions e [] org filters in on_engine (e.scan_int (count_sql e table b) b.1)

  unfoldable pub exec_add_column : Text → DataColumn e → Exec (Store e) (Unit {0})
  exec_add_column table col = do sql ← lift (add_column_sql e table col); run sql []

  -- DataService

  unfoldable pub validate_columns : List (DataColumn e) → Result (Unit {0})
  validate_columns [] = ok tt
  validate_columns (col ∷ cols) = elim (validate_column_type e col.kind) [
    | err x ↦ err x
    | ok u ↦ validate_columns cols
  ]

  -- The metadata of a new table; when they cannot be saved the table is dropped again.
  abbrev saved : Text → Result (Unit {0}) → Exec (Store e) (Unit {0})
  saved table (ok u) = pure tt
  saved table (err x) = ignoring (exec_drop_table table) (raise x)

  abbrev save_metadata : Text → (ℕ → DataTable e) → Exec (Store e) (Unit {0})
  save_metadata table mk s = let (r, t) = create_table_metadata mk s in saved table r t

  abbrev pub new_table : Text → ℕ → Text → List (DataColumn e) → ℕ → DataTable e
  new_table app org name cols id = record {
    id = id;
    app_id = app;
    org_id = org;
    logical_name = name;
    columns = cols;
  }

  unfoldable pub create_table : Text → ℕ → Text → List (DataColumn e) → Exec (Store e) (Unit {0})
  create_table app org name cols = do
    lift (validate_table_name name)
    lift (validate_columns cols)
    exec_create_table (physical_name app name) cols
    save_metadata (physical_name app name) (new_table app org name cols)

  unfoldable pub drop_table : Text → ℕ → Text → Exec (Store e) (Unit {0})
  drop_table app org name = do
    t ← get_table_metadata app name org
    exec_drop_table (physical_name t.app_id name)
    delete_table_metadata app name org

  unfoldable pub list_tables : Text → ℕ → Exec (Store e) (List (DataTable e))
  list_tables app org = list_tables_by_app app org

  unfoldable pub describe_table : Text → ℕ → Text → Exec (Store e) (DataTable e)
  describe_table app org name = get_table_metadata app name org

  -- what Insert, BatchInsert, Query, Update, Delete and Count begin with
  abbrev pub on_table :
      {A : Type 0} → Text → ℕ → Text → (Text → Exec (Store e) A) → Exec (Store e) A
  on_table app org name act = do
    t ← get_table_metadata app name org
    act (physical_name t.app_id name)

  unfoldable pub insert : Text → ℕ → Text → Data e → Exec (Store e) ℕ
  insert app org name row = on_table app org name (λ table. exec_insert table org row)

  unfoldable pub batch_insert : Text → ℕ → Text → List (Data e) → Exec (Store e) (List ℕ)
  batch_insert app org name rows = on_table app org name (λ table. exec_batch_insert table org rows)

  unfoldable pub query : Text → ℕ → Text → Data e → Text → ℕ → ℕ → Exec (Store e) (List e.Row)
  query app org name filters order limit offset =
      on_table app org name (λ table. exec_query table org filters order limit offset)

  unfoldable pub update : Text → ℕ → Text → Data e → Data e → Exec (Store e) ℕ
  update app org name filters row =
      on_table app org name (λ table. exec_update table org filters row)

  unfoldable pub delete : Text → ℕ → Text → Data e → Exec (Store e) ℕ
  delete app org name filters = on_table app org name (λ table. exec_delete table org filters)

  unfoldable pub count : Text → ℕ → Text → Data e → Exec (Store e) ℕ
  count app org name filters = on_table app org name (λ table. exec_count table org filters)

  unfoldable pub add_column : Text → ℕ → Text → DataColumn e → Exec (Store e) (Unit {0})
  add_column app org name col = do
    t ← get_table_metadata app name org
    lift (validate_column_type e col.kind)
    exec_add_column (physical_name t.app_id name) col

  unfoldable pub exec_raw : Text → ℕ → Text → List e.Value → Exec (Store e) (List e.Row)
  exec_raw app org sql params = do
    lift (validate_raw_sql e sql app)
    on_engine (e.query_rows sql params)
