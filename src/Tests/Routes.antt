-- ===== src/Tests/Routes.antt =====
-- Requests, lines for a shell, outputs that are cut and edits of a file.
use sleigh.Prelude.{
  ℕ, trim_space, has_prefix, to_lower, Text, true, false, none, some, List, [], ◌∷◌, ◌++◌, ◌==◌,
  ◌≡◌, ◌⊎◌, ◌≤◌, refl, codes, map, length,
}
use sleigh.Prelude.Int.{pos}
use sleigh.Errors.{Error, ok, err}
use sleigh.Service.Mounts.{Files, missing}
use sleigh.Router.Shell.{
  word, between, sh_tokens, directory_change, build_read_command_line,
  sh_tokens-build_read_command_line,
}
use sleigh.Router.Limits.{apply_output_limits}
use sleigh.Router.Limits.Kept.{Limited, apply_output_limits-Limited}
use sleigh.Router.Edit.{find_all_indexes, apply_context_edit}
use sleigh.Router.Edit.Replaced.{Edited}
use sleigh.Router.Edit.Edited.{AreBlocks, IsNumber, IsRefused, apply_context_edit-Edited}
use sleigh.Router.Replies.{Request, answer}
use sleigh.Router.Sandboxes.{enough}
use sleigh.Router.Guarded.{Guard}
use sleigh.Router.Guarded.Routes.{Server, delete_route, serve, session_of_route, serve-Guard}
use sleigh.Router.Workflow.{StepRequest}
use sleigh.Router.Workflow.Run.{run_workflow}
use sleigh.Router.Workflow.Traced.{TraceOf, run_workflow-TraceOf}
use sleigh.Router.Quality.{python_quality_command, parse_apply_numstat_files}
use sleigh.Tests.Data.{world, calm, policy}
use sleigh.Tests.Trees.{no_disk}

abbrev say : List Text
say = codes "it's" ∷ codes "$HOME" ∷ []

sh_tokens_example :
    sh_tokens between (build_read_command_line (codes "grep") say (codes " a b "))
    ≡ some (directory_change (codes " a b ") ++ map word (codes "grep" ∷ say))
sh_tokens_example = sh_tokens-build_read_command_line (codes "grep") say (codes " a b ")

abbrev three_lines : Text
three_lines = codes "one\ntwo\nthree"

abbrev nine : ℕ
nine = 9

apply_output_limits_example :
    Limited three_lines 2 (apply_output_limits three_lines nine 2)
    × ((nine ≡ 0) ⊎ (length (apply_output_limits three_lines nine 2).0 ≤ nine))
apply_output_limits_example = apply_output_limits-Limited three_lines nine 2

test_edit_second :
    apply_context_edit (codes "x=1;x=1") (codes "x=") (codes "1") (codes "2") [] (pos 2)
    ≡ ok (codes "x=1;x=2")
unfolding apply_context_edit find_all_indexes ◌==◌ trim_space
test_edit_second = refl

apply_context_edit_example :
    (searched : Text) × (written : Text) × (k : ℕ) × AreBlocks
      (codes "x=")
      (codes "1")
      (codes "2")
      []
      searched
      written
    × IsNumber (pos 2) k
    × (((updated : Text) × (apply_context_edit
              (codes "x=1;x=1")
              (codes "x=")
              (codes "1")
              (codes "2")
              []
              (pos 2)
            ≡ ok updated)
          × Edited (codes "x=1;x=1") searched written k updated)
        ⊎ ((e : Error) × (apply_context_edit
                (codes "x=1;x=1")
                (codes "x=")
                (codes "1")
                (codes "2")
                []
                (pos 2)
              ≡ err e)
            × IsRefused (codes "x=1;x=1") searched k))
apply_context_edit_example =
    apply_context_edit-Edited (codes "x=1;x=1") (codes "x=") (codes "1") (codes "2") [] (pos 2)

abbrev no_files : Files
no_files = record {
  is_abs = λ path. true;
  clean = λ path. path;
  eval_symlinks = λ path. none;
  rel = λ root path. none;
  stat = λ path. missing;
}

abbrev server : Server (Unit {0})
server = record {
  backend = calm;
  policy = policy;
  disk = no_disk;
  files = no_files;
  memory = enough;
  overflow = pos 0;
  scheme = λ url. none;
  client_pause = λ w. (ok false, w);
  poll_pause = λ w. (ok tt, w);
  rounds = λ seconds. 3;
}

abbrev request : Text → Request
request token = record {
  readable = true;
  body_token = some token;
  query_token = [];
  query_limit = [];
  query_cursor = [];
  path_id = codes "a";
  path_exec_id = [];
  path_mount_id = [];
  path_session_id = [];
}

serve_example :
    Guard
      (session_of_route delete_route (request (codes "s")))
      (codes "a")
      (world [] [])
      (answer (serve server delete_route (request (codes "s"))) (world [] []))
unfolding trim_space
serve_example = serve-Guard server delete_route (request (codes "s")) (world [] [])

abbrev step : Text → Text → StepRequest
step action sandbox_id = record {
  action = action;
  sandbox_id = sandbox_id;
  image = [];
  labels = [];
  memory_limit_mb = pos 0;
  command = codes "ls";
  wait = none;
  wait_timeout_seconds = pos 0;
  snapshot_id = [];
  webhook_url = [];
}

-- The last step has no sandbox: the one that the workflow made is deleted.
abbrev plan : List StepRequest
plan =
    step (codes "create") []
    ∷ step (codes "Exec") []
    ∷ step (codes "delete") []
    ∷ step (codes "exec") []
    ∷ []

run_workflow_example :
    TraceOf plan
      (run_workflow calm policy no_disk server.poll_pause server.rounds server.scheme
        (codes "s")
        plan
        (world [] [])).0
run_workflow_example =
    run_workflow-TraceOf calm policy no_disk server.poll_pause server.rounds server.scheme
      (codes "s") plan (world [] [])

test_python :
    python_quality_command no_files (codes "covid_analysis.py" ∷ [])
    ≡ codes "python -m py_compile 'covid_analysis.py'"
unfolding python_quality_command trim_space ◌==◌ has_prefix to_lower
test_python = refl

test_not_python :
    python_quality_command no_files (codes "README.md" ∷ []) ≡ codes "python -m compileall -q ."
unfolding python_quality_command trim_space ◌==◌ has_prefix to_lower
test_not_python = refl

test_numstat :
    parse_apply_numstat_files (codes "1 2 a.go\n3 4 b.go\n5 6 a.go\n")
    ≡ codes "a.go" ∷ codes "b.go" ∷ []
unfolding parse_apply_numstat_files trim_space ◌==◌
test_numstat = refl
