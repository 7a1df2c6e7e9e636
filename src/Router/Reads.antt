-- ===== src/Router/Reads.antt =====
-- router.go: readOp. The duration is left out.
use sleigh.Prelude.{
  ℕ, ◌+◌, Text, Bool, true, false, not, ◌&&◌, ◌||◌, [], ◌++◌, codes, length, trim_space, ◌==◌,
  if◌then◌else◌,
}
use sleigh.Prelude.Int.{ℤ, pos, pos_part, leb_ℤ}
use sleigh.Prelude.Decimal.{decimal_ℤ}
use sleigh.Prelude.Machine.{add_int64}
use sleigh.Errors.{Result}
use sleigh.Action.{pure, ◌>>=◌}
use sleigh.Service.Types.{Svc, ExecResult}
use sleigh.Service.Execs.{execute}
use sleigh.Router.Shell.{build_read_command_line, is_allowed_read_command}
use sleigh.Router.Limits.{apply_output_limits}
use sleigh.Router.Tasks.{wait_seconds, wait_exec_result}
use sleigh.Router.Replies.{
  ReadReply, reply, ReadBody, Request, Handler, require, with_body, read_result,
}

abbrev output_limit : ℤ → ℤ
output_limit n = if leb_ℤ n (pos 0) then pos 262144 else n

abbrev next_offset_if : Bool → ℤ → ℕ → ℤ
next_offset_if true offset size = add_int64 offset (pos size)
next_offset_if false offset size = pos 0

abbrev with_status : ℤ → ExecResult → ReadReply → ReadReply
with_status seconds current resp =
    if resp.timed_out
    then record resp {
      status = codes "running";
      error =
          codes "read command still running after timeout ("
          ++ decimal_ℤ seconds
          ++ codes "s); poll get_exec with exec_id="
          ++ current.id;
    }
    else if current.status == codes "failed" || current.status == codes "cancelled"
    then record resp { status = codes "error"; error = current.error }
    else resp

-- The reply, from the outputs after the limits: what is left, how much is omitted, and whether any is.
abbrev limited_reply : ReadBody → ExecResult → Bool → Text × ℕ × Bool → Text × ℕ × Bool → ReadReply
limited_reply body current timed_out (out, out_omitted, out_cut) (errors, err_omitted, err_cut) =
    record {
      status = codes "ok";
      timed_out = timed_out;
      truncated = out_cut || err_cut;
      exec_id = current.id;
      stdout = out;
      stderr = errors;
      exit_code = current.exit_code;
      error = [];
      omitted_bytes = out_omitted + err_omitted;
      next_offset =
          next_offset_if (out_cut || err_cut) body.output_offset (length out + length errors);
    }

unfoldable pub read_reply : ReadBody → ExecResult × Bool → ReadReply
unfolding apply_output_limits add_int64
read_reply body (current, timed_out) =
    let max_bytes = pos_part (output_limit body.max_output_bytes) in
    with_status (wait_seconds body.timeout_seconds) current (
      limited_reply body current timed_out
        (apply_output_limits current.stdout max_bytes (pos_part body.max_lines))
        (apply_output_limits current.stderr max_bytes (pos_part body.max_lines)))

module _ {R : Type 0} where
  abbrev run_read : Svc R (Unit {0}) → (ℤ → ℕ) → Text → Text → ReadBody → Handler R
  run_read pause rounds sandbox_id command body = do
    started ← execute sandbox_id (build_read_command_line command body.args body.cwd)
    waited ← wait_exec_result pause (rounds (wait_seconds body.timeout_seconds)) sandbox_id started
    pure (reply 200 (read_result (read_reply body waited)))

  unfoldable pub handle_read_op : Svc R (Unit {0}) → (ℤ → ℕ) → Request → Result ReadBody → Handler R
  unfolding build_read_command_line is_allowed_read_command read_reply
  handle_read_op pause rounds req decoded =
      with_body req decoded (λ body. body.session_token)
        (λ session_id sandbox_id body.
          let command = trim_space body.command in
          require (not (command == []) && is_allowed_read_command command) 400
            (codes "unsupported read command") (run_read pause rounds sandbox_id command body))
