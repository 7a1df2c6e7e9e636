-- ===== src/Router/Creation.antt =====
-- router.go: the handler createSandbox, with the gates on the host's memory and on the image.
use sleigh.Prelude.{
  Text, Bool, true, false, ◌||◌, [], ◌++◌, codes, trim_space, is_blank, to_lower, contains, ◌==◌,
  if◌then◌else◌,
}
use sleigh.Prelude.Int.{pos}
use sleigh.Errors.{Result, ok, err, bad_request, message}
use sleigh.Action.{pure, raise, attempt, ◌>>=◌}
use sleigh.Store.Schema.{Labels}
use sleigh.Service.Types.{Backend, Policy}
use sleigh.Service.Pool.{create, normalize_create_defaults, is_create_image_cached}
use sleigh.Router.Replies.{
  reply, write_error, CreateBody, Handler, require, decoded_or, image_pull_needed, a_sandbox,
}
use sleigh.Router.Sandboxes.{HostMemory, unknown, enough, low, tight, set_label}

module _ {R : Type 0} (b : Backend R) (policy : Policy) where
  -- Creation on a host with little memory.
  abbrev memory_gate : HostMemory → Bool → Handler R → Handler R
  memory_gate unknown confirmed h = h
  memory_gate enough confirmed h = h
  memory_gate (low ratio) confirmed h = pure (
      write_error 503 (
        codes "host memory available ratio "
        ++ ratio
        ++ codes "% is below 10%; sandbox creation is blocked"))
  memory_gate (tight ratio) true h = h
  memory_gate (tight ratio) false h = pure (
      write_error 409 (
        codes "host memory available ratio "
        ++ ratio
        ++ codes "% is below 15%; resend with confirm_low_memory=true to continue"))

  -- The policy "notify" creates a sandbox only if the image is on the host. `late` is whether the
  -- context of the check is past its deadline.
  abbrev image_gate : Bool → Text → Result (Bool × Text) → Handler R → Handler R
  image_gate late image (ok (true, resolved)) h = h
  image_gate late image (ok (false, resolved)) h = pure (reply 409 (image_pull_needed image))
  image_gate late image (err e) h =
      if late || contains (to_lower (message e)) (codes "context deadline exceeded")
      then pure (reply 409 (image_pull_needed image))
      else raise e

  abbrev resolved_image : Text → Text
  resolved_image image =
      let normalized =
        (normalize_create_defaults policy
          (record { id = []; image = image; labels = []; memory_limit_mb = pos 0 })).0 in
      if is_blank normalized then trim_space image else normalized

  abbrev pull_policy : Text → Text
  pull_policy raw = let p = to_lower (trim_space raw) in if p == [] then codes "wait" else p

  abbrev create_labels : CreateBody → Text → Labels
  create_labels body session_id = set_label (codes "session_id") session_id (
      if body.auto_expand_memory
      then set_label (codes "auto_expand_memory") (codes "true") body.labels
      else body.labels)

  abbrev create_checked : HostMemory → CreateBody → Text → Handler R
  create_checked memory body session_id = memory_gate memory body.confirm_low_memory (do
    meta ← create b policy (record {
      id = [];
      image = body.image;
      labels = create_labels body session_id;
      memory_limit_mb = body.memory_limit_mb;
    })
    pure (reply 201 (a_sandbox meta)))

  abbrev create_if_cached : Bool → HostMemory → CreateBody → Text → Handler R
  create_if_cached late memory body session_id = do
    cached ← attempt (is_create_image_cached b policy body.image)
    image_gate late (resolved_image body.image) cached (create_checked memory body session_id)

  abbrev create_by_policy : Bool → HostMemory → CreateBody → Text → Handler R
  create_by_policy late memory body session_id =
      if pull_policy body.image_pull_policy == codes "notify"
      then create_if_cached late memory body session_id
      else create_checked memory body session_id

  unfoldable pub handle_create_sandbox : Bool → HostMemory → Result CreateBody → Handler R
  handle_create_sandbox late memory decoded = decoded_or decoded (λ body.
      let session_id = trim_space body.session_token in
      let p = pull_policy body.image_pull_policy in
      if session_id == []
      then raise bad_request
      else require (p == codes "wait" || p == codes "notify") 400
          (codes "image_pull_policy must be one of: wait, notify")
          (create_by_policy late memory body session_id))
