-- ===== src/Router/Changes.antt =====
-- router.go: the handlers listSandboxes, listSnapshots, createSnapshot, rollbackSandbox and
-- expandMemory.
use sleigh.Prelude.{
  Text, Bool, true, false, not, ◌&&◌, ◌||◌, List, [], ◌∷◌, ◌++◌, codes, trim_space, is_blank, ◌==◌,
  if◌then◌else◌,
}
use sleigh.Prelude.Int.{ℤ, pos, leb_ℤ}
use sleigh.Errors.{Error, Result, ok, err, bad_request, is_not_found, is_bad_request}
use sleigh.Action.{pure, raise, lift, attempt, ◌>>=◌, ◌>>◌}
use sleigh.Service.Types.{Svc, Backend, Policy, Metadata, Snapshot, AutoExpandResult}
use sleigh.Service.Access.{get, list_by_session, authorize_sandbox_access}
use sleigh.Service.Memory.{expand_memory, auto_expand_memory}
use sleigh.Service.Snapshots.{Disk, create_snapshot, list_snapshots, rollback}
use sleigh.Router.Replies.{
  reply, write_error, RollbackBody, ExpandBody, Request, Handler, session_token_from_request,
  require, with_sandbox, with_body, decoded_or, a_sandbox, sandboxes, a_snapshot, snapshots,
  expansion,
}
use sleigh.Router.Sandboxes.{HostMemory, allow_auto_expand, wants_expansion}

module _ {R : Type 0} (b : Backend R) (policy : Policy) where
  -- `pause` is the wait of 120 ms: what the others do meanwhile, and whether the client still waits.
  abbrev again_if_empty : {A : Type 0} → Svc R Bool → Svc R (List A) → List A → Svc R (List A)
  again_if_empty pause query (x ∷ xs) = pure (x ∷ xs)
  again_if_empty pause query [] = do
    waits ← pause
    if not waits
        then pure []
        else do more ← attempt query; pure (elim more [ ok items ↦ items | err e ↦ [] ])

  unfoldable pub handle_list_sandboxes : Svc R Bool → Request → Handler R
  unfolding session_token_from_request
  handle_list_sandboxes pause req = do
    session_id ← lift (session_token_from_request req)
    first ← list_by_session b session_id
    items ← again_if_empty pause (list_by_session b session_id) first
    pure (reply 200 (sandboxes items))

  unfoldable pub handle_list_snapshots : Svc R Bool → Request → Handler R
  handle_list_snapshots pause req = with_sandbox req (λ session_id sandbox_id. do
    first ← list_snapshots sandbox_id
    items ← again_if_empty pause (list_snapshots sandbox_id) first
    pure (reply 200 (snapshots items)))

  unfoldable pub handle_create_snapshot : Disk R → Request → Handler R
  handle_create_snapshot disk req = with_sandbox req (λ session_id sandbox_id. do
    snapshot ← create_snapshot disk b policy sandbox_id
    pure (reply 201 (a_snapshot snapshot)))

  -- Memory is expanded where the request or the sandbox asks for it and the host has memory; a refusal
  -- as a bad request is passed over.
  abbrev expansion_error : Result AutoExpandResult → Result (Unit {0})
  expansion_error (ok r) = ok tt
  expansion_error (err e) = if is_bad_request e then ok tt else err e

  abbrev expand_quietly : ℤ → Text → Svc R (Unit {0})
  expand_quietly overflow sandbox_id = do
    r ← attempt (auto_expand_memory b policy overflow sandbox_id)
    lift (expansion_error r)

  abbrev expand_before : ℤ → HostMemory → Text → Bool → Svc R (Unit {0})
  expand_before overflow memory sandbox_id wanted =
      if wanted && (allow_auto_expand memory (codes "rollback")).0
      then expand_quietly overflow sandbox_id
      else pure tt

  abbrev label_wants : Result Metadata → Bool
  label_wants (ok meta) = wants_expansion meta
  label_wants (err e) = false

  abbrev wants_or_label : Bool → Text → Svc R Bool
  wants_or_label true sandbox_id = pure true
  wants_or_label false sandbox_id = do meta ← attempt (get b sandbox_id); pure (label_wants meta)

  abbrev join_ids : List Snapshot → Text
  join_ids [] = []
  join_ids (s ∷ []) = s.id
  join_ids (s ∷ t ∷ ss) = s.id ++ codes ", " ++ join_ids (t ∷ ss)

  abbrev not_found_reply : Text → Error → Result (List Snapshot) → Handler R
  not_found_reply snapshot_id e (err _) = raise e
  not_found_reply snapshot_id e (ok items) = pure (
      write_error 404 (
        codes "snapshot not found: "
        ++ snapshot_id
        ++ codes "; available snapshot ids: "
        ++ join_ids items))

  abbrev list_for_not_found : Text → Text → Error → Handler R
  list_for_not_found sandbox_id snapshot_id e = do
    items ← attempt (list_snapshots sandbox_id)
    not_found_reply snapshot_id e items

  abbrev rollback_reply : Text → Text → Result Metadata → Handler R
  rollback_reply sandbox_id snapshot_id (ok meta) = pure (reply 200 (a_sandbox meta))
  rollback_reply sandbox_id snapshot_id (err e) =
      if is_not_found e then list_for_not_found sandbox_id snapshot_id e else raise e

  unfoldable pub handle_rollback_sandbox :
      Disk R → ℤ → HostMemory → Request → Result RollbackBody → Handler R
  handle_rollback_sandbox disk overflow memory req decoded =
      with_body req decoded (λ body. body.session_token)
        (λ session_id sandbox_id body. do
          wanted ← wants_or_label body.auto_expand sandbox_id
          expand_before overflow memory sandbox_id wanted
          rolled ← attempt (rollback disk b policy sandbox_id body.snapshot_id)
          rollback_reply sandbox_id body.snapshot_id rolled)

  abbrev note_pressure : Text → AutoExpandResult → AutoExpandResult
  note_pressure warning r =
      if warning == []
      then r
      else if is_blank r.reason
      then record r { reason = warning }
      else record r { reason = r.reason ++ codes "; " ++ warning }

  abbrev expand_by_request : ℤ → Bool → Text → ℤ → Svc R AutoExpandResult
  expand_by_request overflow true sandbox_id target =
      auto_expand_memory b policy overflow sandbox_id
  expand_by_request overflow false sandbox_id target = expand_memory b policy sandbox_id target

  abbrev expand_allowed : ℤ → Bool → Text → ℤ → Bool × Text → Handler R
  expand_allowed overflow auto sandbox_id target (false, warning) = pure (write_error 503 warning)
  expand_allowed overflow auto sandbox_id target (true, warning) = do
    result ← expand_by_request overflow auto sandbox_id target
    pure (reply 200 (expansion (note_pressure warning result)))

  -- The label is read only where the request gives no target.
  abbrev wants_auto : Bool → Bool → Text → Svc R Bool
  wants_auto auto true sandbox_id = wants_or_label auto sandbox_id
  wants_auto auto false sandbox_id = pure auto

  -- The sandbox is looked up before the session is checked.
  unfoldable pub handle_expand_memory : ℤ → HostMemory → Request → Result ExpandBody → Handler R
  handle_expand_memory overflow memory req decoded =
      let sandbox_id = trim_space req.path_id in
      require (not (sandbox_id == [])) 400 (codes "sandbox id is required") (
        decoded_or decoded (λ body. do
          auto ← wants_auto body.auto_expand (leb_ℤ body.target_mb (pos 0)) sandbox_id
          require (not (leb_ℤ body.target_mb (pos 0)) || auto) 400
              (codes "target_mb must be greater than 0")
              (do
                let session_id = trim_space body.session_token
                if session_id == []
                    then raise bad_request
                    else authorize_sandbox_access session_id sandbox_id
                expand_allowed overflow auto sandbox_id body.target_mb
                    (allow_auto_expand memory (codes "memory expand")))))
