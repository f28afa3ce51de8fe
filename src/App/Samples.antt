-- ===== src/App/Samples.antt =====
-- A small environment for the examples: an engine that counts its containers, a storage and a disk
-- that list what is written, and one archive with a manifest.
use suzuran.Prelude.{ℕ, suc, true, false, none, some, String, List, [], ◌∷◌}
use suzuran.Prelude.Int.{pos}
use suzuran.Prelude.Result.{ok}
use suzuran.Prelude.Text.{Text}
use suzuran.Gorm.Memory.{memory}
use suzuran.App.Model.{Application}
use suzuran.App.Package.{eof, chunk, ZipEntry, AppManifest, Formats}
use suzuran.App.Store.{Docker, Files, Quantity, Env, Store}

abbrev pub counter : Docker
counter = record {
  Engine = ℕ;
  pull = λ i n. (ok tt, n);
  create = λ c n. (ok "c1", suc n);
  start = λ i n. (ok tt, n);
  stop = λ i t n. (ok tt, n);
  restart = λ i t n. (ok tt, n);
  remove = λ i n. (ok tt, n);
  inspect = λ i n. (ok "running", n);
  addresses = λ i n. (ok [], n);
  logs = λ i t n. (ok [], n);
  create_network = λ name labels n. (ok "n1", n);
  remove_network = λ i n. (ok tt, n);
  remove_volume = λ v n. (ok tt, n);
}

abbrev pub lists : Files
lists = record {
  Objects = List String;
  upload = λ k zip o. (ok tt, k ∷ o);
  download = λ k o. (ok (1 ∷ []), o);
  Disk = List Text;
  remove_all = λ t d. (ok tt, d);
  mkdir_all = λ t d. (ok tt, d);
  write_file = λ t c d. (ok tt, t ∷ d);
}

abbrev pub whole : Quantity
whole = record { Carrier = ℕ; parse = λ t. none; times = λ x n. x; truncate = λ x. pos x }

-- "app.json"
abbrev pub manifest_file : ZipEntry
manifest_file = record {
  name = b'a' ∷ b'p' ∷ b'p' ∷ b'.' ∷ b'j' ∷ b's' ∷ b'o' ∷ b'n' ∷ [];
  uncompressed_size = 2;
  is_dir = false;
  content = some (chunk (b'{' ∷ b'}' ∷ []) eof);
}

abbrev pub manifest : AppManifest
manifest = record {
  name = "crm";
  version = "1";
  runtime = "node";
  entrypoint = "run";
  port = pos 3000;
  resources = [];
  mcp_scopes = [];
}

abbrev pub formats : Formats
formats = record { open_zip = λ zip. some (manifest_file ∷ []); unmarshal = λ bytes. some manifest }

abbrev pub env : Env
env = record {
  gorm = memory;
  docker = counter;
  files = lists;
  formats = formats;
  quantity = whole;
  has_docker = true;
  has_runtime = true;
  has_storage = true;
  bytes = λ s. b'x' ∷ [];
  decimal = λ n. "1";
}

abbrev pub stopped : Application
stopped = record {
  id = "a1";
  org_id = 1;
  name = "old";
  version = "1";
  runtime = "node";
  entrypoint = "run";
  port = pos 3000;
  cpu_quota = "";
  memory_quota = "";
  db_conn_quota = 0;
  mcp_scopes = [];
  source_key = "k";
  status = "stopped";
  container_id = "c0";
  oauth_token = "";
}

abbrev pub store : Store env
store = record { apps = stopped ∷ []; deployments = []; engine = 0; objects = []; disk = [] }
