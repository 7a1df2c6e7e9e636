-- ===== src/Store/Sequences.antt =====
-- The session_event_sequences table of internal/store/sqlite/store.go.
use sleigh.Prelude.{
  ℕ, ◌+◌, Text, Option, none, some, List, [], ◌∷◌, ◌++◌, ◌==◌, any, find?, update_where, codes,
  if◌then◌else◌,
}
use sleigh.Errors.{ok, err, failure}
use sleigh.Action.{Action}
use sleigh.Store.Schema.{Db, SequenceRow}

-- INSERT … ON CONFLICT(session_id) DO NOTHING
unfoldable pub upsert_sequence : Text → List SequenceRow → List SequenceRow
unfolding any
upsert_sequence session_id rows =
    if any (λ r. r.session_id == session_id) rows
    then rows
    else rows ++ record { session_id = session_id; last_seq = 0 } ∷ []

-- UPDATE … SET last_seq = last_seq + 1
unfoldable pub increment_sequence : Text → List SequenceRow → List SequenceRow
unfolding update_where
increment_sequence session_id =
    update_where (λ r. r.session_id == session_id) (λ r. record r { last_seq = r.last_seq + 1 })

unfoldable pub find_sequence : Text → List SequenceRow → Option SequenceRow
unfolding find?
find_sequence session_id = find? (λ r. r.session_id == session_id)

-- The end of the transaction: the number read back is committed; no row rolls it back.
abbrev pub commit_sequence : List SequenceRow → Option SequenceRow → Action Db ℕ
commit_sequence rows none db = (err (failure (codes "query session sequence")), db)
commit_sequence rows (some r) db = (ok r.last_seq, record db { sequences = rows })

unfoldable pub next_session_sequence : Text → Action Db ℕ
next_session_sequence session_id db =
    let rows = increment_sequence session_id (upsert_sequence session_id db.sequences) in
    commit_sequence rows (find_sequence session_id rows) db
