-- ===== src/Tests/Data.antt =====
-- A store with a session of two sandboxes, and a world around it.
use sleigh.Prelude.{Text, Bool, true, false, none, some, List, [], ◌∷◌, codes}
use sleigh.Prelude.Int.{pos}
use sleigh.Errors.{ok}
use sleigh.Store.Schema.{Db, SandboxRecord, ExecTaskRow, WarmPoolEntry, empty_db}
use sleigh.Service.Types.{World, Backend, Policy, Metadata, ExecOutput, ExecTask}
use sleigh.Service.Memory.{not_expanded}

abbrev pub box : Text → Text → SandboxRecord
box id session = record {
  id = id;
  session_id = session;
  image = codes "python";
  status = codes "running";
  labels = [];
  created = codes "2024-01-01";
  last_accessed = codes "2024-01-01";
}

abbrev pub task_row : Text → Text → Text → ExecTaskRow
task_row id sandbox_id started = record {
  id = id;
  sandbox_id = sandbox_id;
  command = codes "ls";
  status = codes "succeeded";
  stdout = [];
  stderr = [];
  exit_code = some (pos 0);
  error = [];
  recovery = [];
  started_at = started;
  completed_at = some started;
}

abbrev pub pooled : Text → Text → WarmPoolEntry
pooled id created = record {
  sandbox_id = id;
  image = codes "python";
  memory_mb = pos 256;
  created_at = created;
}

abbrev pub two_boxes : Db
two_boxes = record empty_db {
  sandboxes = box (codes "a") (codes "s") ∷ box (codes "b") [] ∷ box (codes "c") [] ∷ [];
  exec_tasks =
      task_row (codes "e1") (codes "a") (codes "1")
      ∷ task_row (codes "e2") (codes "a") (codes "2")
      ∷ task_row (codes "e3") (codes "a") (codes "2")
      ∷ [];
  warm_pool = pooled (codes "b") (codes "2") ∷ pooled (codes "c") (codes "1") ∷ [];
}

abbrev pub policy : Policy
policy = record {
  min_expand_mb = pos 64;
  max_expand_mb = pos 4096;
  max_expand_step_mb = pos 1024;
  exec_memory_poll_interval_seconds = pos 1;
  exec_ttl_days = pos 14;
  mount_allowed_root = codes "/srv";
  warm_pool_size = pos 3;
  warm_pool_image = codes "python";
  warm_pool_memory_mb = pos 256;
  snapshot_root_dir = codes "/snapshots";
  cursor_token_secret = codes "k";
  cursor_token_ttl_seconds = pos 60;
  sandbox_idle_ttl_days = pos 14;
  snapshot_retention_days = pos 0;
  prune_dangling_images = false;
}

abbrev pub live : Text → Metadata
live id = record {
  id = id;
  image = codes "python";
  status = codes "running";
  memory_limit_mb = pos 256;
  labels = [];
  created = codes "2024-01-02";
  image_pull_triggered = false;
}

-- A runtime that grants every request and keeps nothing.
abbrev pub calm : Backend (Unit {0})
calm = record {
  image_exists = λ image s. (ok true, s);
  create = λ req s. (ok (live req.id), s);
  get = λ id s. (ok (live id), s);
  delete = λ id s. (ok tt, s);
  update_mounts = λ id mounts s. (ok tt, s);
  ensure_running = λ id s. (ok tt, s);
  get_memory_pressure = λ id s. (ok (record { near_limit = false; reason = [] }), s);
  expand_memory = λ id mb s. (ok not_expanded, s);
  delete_image_if_unused = λ image s. (ok (true, []), s);
  prune_dangling_images = λ s. (ok tt, s);
  create_snapshot = λ id snap s. (ok tt, s);
  rollback_to_snapshot = λ id snap s. (ok (live id), s);
}

abbrev pub task : Text → Text → ExecTask
task id status = record {
  result = record {
    id = id;
    sandbox_id = codes "a";
    command = codes "ls";
    status = status;
    stdout = [];
    stderr = [];
    exit_code = none;
    error = [];
    started_at = codes "1";
    completed_at = [];
    recovery = [];
  };
  cancel = true;
  canceled = false;
}

abbrev pub world : List Bool → List ExecTask → World (Unit {0})
world faults tasks = record {
  db = two_boxes;
  faults = faults;
  runtime = tt;
  exec_map = tasks;
  warm_pool_hits = 0;
  warm_pool_misses = 0;
  warm_pool_refill_total = 0;
  entropy = some (1 ∷ []) ∷ some (2 ∷ []) ∷ [];
  clock = λ n. codes "2024-02-01";
  ticks = 0;
  reporting = true;
  sent = [];
  jobs = [];
}

-- A command that ran to its end.
abbrev pub done : ExecOutput
done = record { stdout = codes "x"; stderr = []; exit_code = pos 0 }
