-- ===== src/Router/Guarded/Heads.antt =====
-- router.go: the heads of the handlers of one sandbox let only its owner pass.
use sleigh.Prelude.{
  ℕ, Text, Bool, true, false, not, ◌||◌, leb, [], codes, trim_space, ◌==◌, ◌≡◌, inl, inr, refl,
  Bool-cases, if◌then◌else◌,
}
use sleigh.Errors.{Result, ok, err, bad_request, message}
use sleigh.Action.{raise, lift, ◌>>=◌, ◌>>◌}
use sleigh.Service.Types.{World}
use sleigh.Service.Access.{authorize_sandbox_access}
use sleigh.Router.Replies.{
  write_error, Request, Handler, session_token_from_request, answer, require, with_sandbox,
  with_sandbox_and, with_body, decoded_or,
}
use sleigh.Router.Guarded.{Refused, Guard, same, status_of-error, authorized}

-- The session that a body names.
abbrev pub body_session : {B : Type 0} → (B → Text) → Result B → Result Text
body_session token (err e) = err e
body_session token (ok body) = ok (trim_space (token body))

module _ {R : Type 0} where
  refuse :
      (status : ℕ) (text : Text) (w : World R)
      → leb 400 status ≡ true
      → Refused w (write_error status text, w)
  refuse status text w h = record { is_error = h; unchanged = same w }

  authorized-Guard :
      (session : Result Text) (session_id sandbox_id : Text) (h : Handler R) (w : World R)
      → session ≡ ok session_id
      → Guard session sandbox_id w (answer (authorize_sandbox_access session_id sandbox_id >> h) w)
  authorized-Guard session session_id sandbox_id h w e =
      elim (authorized session_id sandbox_id h w) [ inl o ↦ inl (session_id, e, o) | inr r ↦ inr r ]

  required-Guard :
      (b : Bool) (text : Text) (session : Result Text) (session_id sandbox_id : Text)
      (h : Handler R) (w : World R)
      → session ≡ ok session_id
      → Guard session sandbox_id w
          (answer (require b 400 text (authorize_sandbox_access session_id sandbox_id >> h)) w)
  required-Guard true text session session_id sandbox_id h w e =
      authorized-Guard session session_id sandbox_id h w e
  required-Guard false text session session_id sandbox_id h w e = inr (refuse 400 text w refl)

  token-Guard :
      (session session' : Result Text) (b : Bool) (text sandbox_id : Text) (h : Text → Handler R)
      (w : World R)
      → session ≡ session'
      → Guard session sandbox_id w (
          answer
            (lift session' >>= λ session_id.
              require b 400 text (authorize_sandbox_access session_id sandbox_id >> h session_id))
            w)
  token-Guard session (err e) b text sandbox_id h w eq =
      inr (record { is_error = status_of-error e; unchanged = same w })
  token-Guard session (ok session_id) b text sandbox_id h w eq =
      required-Guard b text session session_id sandbox_id (h session_id) w eq

  pub with_sandbox-Guard :
      (req : Request) (h : Text → Text → Handler R) (w : World R)
      → Guard
          (session_token_from_request req)
          (trim_space req.path_id)
          w
          (answer (with_sandbox req h) w)
  unfolding with_sandbox
  with_sandbox-Guard req h w =
      token-Guard (session_token_from_request req) (session_token_from_request req)
        (not (trim_space req.path_id == [])) (codes "sandbox id is required")
        (trim_space req.path_id) (λ session_id. h session_id (trim_space req.path_id)) w refl

  pub with_sandbox_and-Guard :
      (req : Request) (other text : Text) (h : Text → Text → Handler R) (w : World R)
      → Guard
          (session_token_from_request req)
          (trim_space req.path_id)
          w
          (answer (with_sandbox_and req other text h) w)
  unfolding with_sandbox_and
  with_sandbox_and-Guard req other text h w =
      token-Guard (session_token_from_request req) (session_token_from_request req)
        (not (trim_space req.path_id == [] || trim_space other == [])) text (trim_space req.path_id)
        (λ session_id. h (trim_space req.path_id) (trim_space other)) w refl

  body-Guard :
      {B : Type 0} (sandbox_id : Text) (decoded : Result B) (token : B → Text)
      (h : Text → Text → B → Handler R) (w : World R)
      → Guard (body_session token decoded) sandbox_id w (
          answer
            (decoded_or decoded (λ b. do
              let session_id = trim_space (token b)
              if session_id == []
                  then raise bad_request
                  else authorize_sandbox_access session_id sandbox_id
              h session_id sandbox_id b))
            w)
  body-Guard sandbox_id (err e) token h w = inr (refuse 400 (message e) w refl)
  body-Guard sandbox_id (ok body) token h w = elim (Bool-cases (trim_space (token body) == [])) [
    | inl e ↦ rw e (inr (record { is_error = status_of-error bad_request; unchanged = same w }))
    | inr e ↦ rw e (
        authorized-Guard (ok (trim_space (token body))) (trim_space (token body)) sandbox_id
          (h (trim_space (token body)) sandbox_id body) w refl)
  ]

  pub with_body-Guard :
      {B : Type 0} (req : Request) (decoded : Result B) (token : B → Text)
      (h : Text → Text → B → Handler R) (w : World R)
      → Guard
          (body_session token decoded)
          (trim_space req.path_id)
          w
          (answer (with_body req decoded token h) w)
  unfolding with_body
  with_body-Guard req decoded token h w = elim (Bool-cases (trim_space req.path_id == [])) [
    | inl e ↦ rw e (inr (refuse 400 (codes "sandbox id is required") w refl))
    | inr e ↦ rw e (body-Guard (trim_space req.path_id) decoded token h w)
  ]
