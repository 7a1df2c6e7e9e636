-- ===== src/Service/Effects.antt =====
-- How a method of the service reaches the database, the runtime, the clock and the random source.
use sleigh.Prelude.{
  ℕ, ◌+◌, ◌/◌, ◌%◌, ltb, Text, Bool, true, false, Option, none, some, List, [], ◌∷◌, ◌++◌, codes,
  if◌then◌else◌,
}
use sleigh.Errors.{ok, err, failure}
use sleigh.Action.{Action}
use sleigh.Store.Schema.{Db}
use sleigh.Service.Types.{Svc, Job}

module _ {R A : Type 0} where
  abbrev pub run_sql : Action Db A → Svc R A
  run_sql q w = let (r, db) = q w.db in (r, record w { db = db })

  abbrev pub sql_with : List Bool → Action Db A → Svc R A
  sql_with [] q w = run_sql q w
  sql_with (true ∷ fs) q w =
      (err (failure (codes "database call failed")), record w { faults = fs })
  sql_with (false ∷ fs) q w = run_sql q (record w { faults = fs })

  -- A database call: the driver fails it, or the query is made.
  unfoldable pub sql : Action Db A → Svc R A
  sql q w = sql_with w.faults q w

  -- A call of the container runtime.
  abbrev pub call : Action R A → Svc R A
  call m w = let (r, x) = m w.runtime in (r, record w { runtime = x })

module _ {R : Type 0} where
  -- time.Now().UTC().Format(time.RFC3339)
  unfoldable pub read_clock : Svc R Text
  read_clock w = (ok (w.clock w.ticks), record w { ticks = w.ticks + 1 })

  -- `go f()`
  abbrev pub spawn : Job → Svc R (Unit {0})
  spawn j w = (ok tt, record w { jobs = w.jobs ++ j ∷ [] })

-- hex.EncodeToString
abbrev pub hex_digit : ℕ → ℕ
hex_digit d = if ltb d 10 then 48 + d else 87 + d

unfoldable pub hex : List ℕ → Text
hex [] = []
hex (b ∷ bs) = hex_digit (b / 16) ∷ hex_digit (b % 16) ∷ hex bs

module _ {R : Type 0} where
  abbrev pub draw : Text → List (Option (List ℕ)) → Svc R Text
  draw prefix [] w = (err (failure (codes "generate id")), w)
  draw prefix (none ∷ es) w = (err (failure (codes "generate id")), record w { entropy = es })
  draw prefix (some bytes ∷ es) w = (ok (prefix ++ hex bytes), record w { entropy = es })

  -- id.New: the prefix and the random bytes in hexadecimal, or the failure of the source.
  unfoldable pub new_id : Text → Svc R Text
  unfolding hex
  new_id prefix w = draw prefix w.entropy w
