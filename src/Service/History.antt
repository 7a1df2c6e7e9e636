-- ===== src/Service/History.antt =====
-- cursor.go, and ListExecHistory of service.go. JSON, base64 and HMAC are parameters, over bytes.
pub mod Cursor
use sleigh.Prelude.{
  ℕ, zero, suc, eqb, Text, Bool, true, false, not, ◌&&◌, ◌||◌, Option, none, some, List, [], ◌∷◌,
  ◌++◌, map, codes, trim_space, is_blank, contains, ◌==◌, if◌then◌else◌,
}
use sleigh.Prelude.Int.{ℤ, pos, negsuc, pos_part, leb_ℤ, ltb_ℤ, eqb_ℤ}
use sleigh.Prelude.Machine.{add_int64}
use sleigh.Errors.{Result, ok, err, failure, bad_request}
use sleigh.Action.{pure, lift, guard, attempt, ◌>>=◌, ◌>>◌}
use sleigh.Store.Schema.{ExecTaskRecord}
use sleigh.Store.Execs.{list_exec_tasks_by_session}
use sleigh.Service.Types.{Svc, Policy, ExecResult}
use sleigh.Service.Effects.{sql}
use sleigh.Service.Execs.{result_of_record}

pub record CursorPayload : Type 0 where
  pub version : ℤ
  pub session_id : Text
  pub started_at : Text
  pub exec_id : Text
  pub limit : ℤ
  pub issued_at : ℤ
  pub expires_at : ℤ

-- json.Marshal and Unmarshal, base64.RawURLEncoding, and HMAC-SHA256 under a secret.
pub record Codec : Type 0 where
  pub to_json : CursorPayload → Text
  pub of_json : Text → Option CursorPayload
  pub encode : Text → Text
  pub decode : Text → Option Text
  pub mac : Text → Text → Text

abbrev pub dot : ℕ
dot = 46

abbrev pub bar : ℕ
bar = 124

abbrev pub cons_head : ℕ → List Text → List Text
cons_head c [] = (c ∷ []) ∷ []
cons_head c (w ∷ ws) = (c ∷ w) ∷ ws

-- strings.Split(s, sep) for a separator of one character.
unfoldable pub split_on : ℕ → Text → List Text
split_on sep [] = [] ∷ []
split_on sep (c ∷ s) =
    let rest = split_on sep s in if eqb c sep then [] ∷ rest else cons_head c rest

-- strings.SplitN(s, sep, 2) where `sep` occurs: what stands before it and behind it.
unfoldable pub split_first : ℕ → Text → Text × Text
split_first sep [] = ([], [])
split_first sep (c ∷ s) =
    let rest = split_first sep s in if eqb c sep then ([], s) else (c ∷ rest.0, rest.1)

-- -n, for the differences of int64 numbers that are not the least one.
abbrev pub negate : ℤ → ℤ
negate (pos zero) = pos zero
negate (pos (suc n)) = negsuc n
negate (negsuc n) = pos (suc n)

module _ (codec : Codec) where
  unfoldable pub token_of : Text → CursorPayload → Text
  token_of secret payload =
      let body = codec.to_json payload in
      codec.encode body ++ dot ∷ codec.encode (codec.mac secret body)

  -- `now` is time.Now().Unix().
  unfoldable pub payload_at : ℤ → Text → Text → Text → ℤ → ℤ → CursorPayload
  payload_at now session_id started_at exec_id limit ttl = record {
    version = pos 1;
    session_id = session_id;
    started_at = started_at;
    exec_id = exec_id;
    limit = limit;
    issued_at = now;
    expires_at = if ltb_ℤ (pos 0) ttl then add_int64 now ttl else pos 0;
  }

  unfoldable pub build_cursor_token : ℤ → Text → Text → Text → ℤ → Text → ℤ → Result Text
  unfolding token_of payload_at
  build_cursor_token now session_id started_at exec_id limit secret ttl =
      if is_blank started_at || is_blank exec_id
      then ok []
      else if is_blank secret
      then err (failure (codes "cursor secret is required"))
      else ok (token_of secret (payload_at now session_id started_at exec_id limit ttl))

  abbrev pub check_version : Option CursorPayload → Result CursorPayload
  check_version none = err (failure (codes "unmarshal cursor payload"))
  check_version (some payload) =
      if eqb_ℤ payload.version (pos 1)
      then ok payload
      else err (failure (codes "unsupported cursor version"))

  abbrev pub check_signed : Text → Option Text → Option Text → Result CursorPayload
  check_signed secret none signature = err (failure (codes "decode cursor payload"))
  check_signed secret (some body) none = err (failure (codes "decode cursor signature"))
  check_signed secret (some body) (some signature) =
      if signature == codec.mac secret body
      then check_version (codec.of_json body)
      else err (failure (codes "cursor signature mismatch"))

  abbrev pub check_parts : Text → List Text → Result CursorPayload
  check_parts secret (a ∷ b ∷ []) = check_signed secret (codec.decode a) (codec.decode b)
  check_parts secret _ = err (failure (codes "invalid cursor token format"))

  unfoldable pub parse_cursor_token : Text → Text → Result CursorPayload
  unfolding split_on
  parse_cursor_token token secret = check_parts secret (split_on dot token)

  -- The checks of parseCursor on a payload; the clock is read as `now`.
  unfoldable pub accept : ℤ → Text → ℤ → ℤ → CursorPayload → Result (Text × Text)
  accept now session_id limit ttl p =
      if not (p.session_id == session_id)
      then err (failure (codes "cursor session mismatch"))
      else if ltb_ℤ (pos 0) p.expires_at && ltb_ℤ p.expires_at now
      then err (failure (codes "cursor expired"))
      else if ltb_ℤ (pos 0) ttl
          && ltb_ℤ (pos 0) p.issued_at
          && ltb_ℤ (add_int64 ttl ttl) (add_int64 now (negate p.issued_at))
      then err (failure (codes "cursor too old"))
      else if p.started_at == [] || p.exec_id == []
      then err (failure (codes "cursor missing fields"))
      else if ltb_ℤ (pos 0) p.limit && ltb_ℤ (pos 0) limit && not (eqb_ℤ p.limit limit)
      then err (failure (codes "cursor limit mismatch"))
      else ok (p.started_at, p.exec_id)

  abbrev pub accept_parsed : ℤ → Text → ℤ → ℤ → Result CursorPayload → Result (Text × Text)
  accept_parsed now session_id limit ttl (err e) = err e
  accept_parsed now session_id limit ttl (ok p) = accept now session_id limit ttl p

  -- The older form: started_at|exec_id.
  abbrev pub legacy : Text × Text → Result (Text × Text)
  legacy (started_at, exec_id) =
      if is_blank started_at || is_blank exec_id
      then err (failure (codes "invalid legacy cursor"))
      else ok (started_at, exec_id)

  unfoldable pub parse_cursor : ℤ → Text → Text → ℤ → Text → ℤ → Result (Text × Text)
  unfolding split_first parse_cursor_token accept
  parse_cursor now session_id text limit secret ttl =
      let cursor = trim_space text in
      if cursor == []
      then ok ([], [])
      else if contains cursor (bar ∷ [])
      then legacy (split_first bar cursor)
      else if is_blank secret
      then err (failure (codes "cursor secret is required"))
      else accept_parsed now session_id limit ttl (parse_cursor_token cursor secret)

abbrev pub last_row : List ExecTaskRecord → Option ExecTaskRecord
last_row [] = none
last_row (r ∷ []) = some r
last_row (r ∷ s ∷ rows) = last_row (s ∷ rows)

-- An error of parseCursor is a bad request.
abbrev pub or_bad_request : Result (Text × Text) → Result (Text × Text)
or_bad_request (ok c) = ok c
or_bad_request (err e) = err bad_request

module _ (codec : Codec) (policy : Policy) (now : ℤ) where
  abbrev pub next_cursor : Text → ℤ → Option ExecTaskRecord → Result Text
  next_cursor session_id limit none = ok []
  next_cursor session_id limit (some last) =
      build_cursor_token codec now session_id last.started_at last.id limit
        policy.cursor_token_secret policy.cursor_token_ttl_seconds

module _ {R : Type 0} (codec : Codec) (policy : Policy) (now : ℤ) where
  -- The items of the page and the cursor of the next.
  unfoldable pub list_exec_history : Text → ℤ → Text → Svc R (List ExecResult × Text)
  unfolding build_cursor_token parse_cursor result_of_record
  list_exec_history session limit cursor = do
    let session_id = trim_space session
    guard (not (session_id == [])) bad_request
    (started_at, exec_id) ← lift (
        or_bad_request (
          parse_cursor codec now session_id cursor limit policy.cursor_token_secret
            policy.cursor_token_ttl_seconds))
    rows ← sql (list_exec_tasks_by_session session_id limit started_at exec_id)
    next ← lift (next_cursor codec policy now session_id limit (last_row rows))
    pure (map result_of_record rows, next)
