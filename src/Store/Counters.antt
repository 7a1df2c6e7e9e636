-- ===== src/Store/Counters.antt =====
-- NextSessionSequence: the event numbers of a session.
use sleigh.Prelude.{
  ℕ, ◌+◌, Text, ◌==◌, ◌≡◌, refl, ap, ◌∙◌, true, false, some, List, [], ◌∷◌, ◌++◌, arith, any,
  if◌then◌else◌, text_eq_iff, Bool-cases, inl, inr,
}
use sleigh.Errors.{ok}
use sleigh.Store.Schema.{Db, SequenceRow}
use sleigh.Store.Sequences.{
  upsert_sequence, increment_sequence, find_sequence, next_session_sequence,
}

-- The last number given out to a session; 0 before the first.
abbrev pub last_seq : Text → List SequenceRow → ℕ
last_seq s [] = 0
last_seq s (r ∷ rs) = if r.session_id == s then r.last_seq else last_seq s rs

last_seq-append_zero :
    (s t : Text) (rows : List SequenceRow)
    → last_seq t (rows ++ record { session_id = s; last_seq = 0 } ∷ []) ≡ last_seq t rows
last_seq-append_zero s t [] = ground arith
last_seq-append_zero s t (r ∷ rows) = ground (arith, last_seq-append_zero s t rows)

last_seq-upsert :
    (s t : Text) (rows : List SequenceRow) → last_seq t (upsert_sequence s rows) ≡ last_seq t rows
unfolding upsert_sequence
last_seq-upsert s t rows = ground (arith, last_seq-append_zero s t rows)

any-append_zero :
    (s : Text) (rows : List SequenceRow)
    → any (λ r. r.session_id == s) (rows ++ record { session_id = s; last_seq = 0 } ∷ []) ≡ true
unfolding any
any-append_zero s [] = ground (arith, text_eq_iff s s)
any-append_zero s (r ∷ rows) = ground (arith, any-append_zero s rows)

any-upsert :
    (s : Text) (rows : List SequenceRow)
    → any (λ r. r.session_id == s) (upsert_sequence s rows) ≡ true
unfolding upsert_sequence
any-upsert s rows = ground (arith, any-append_zero s rows)

find-increment :
    (s : Text) (rows : List SequenceRow)
    → any (λ r. r.session_id == s) rows ≡ true
    → (r : SequenceRow) × (find_sequence s (increment_sequence s rows) ≡ some r)
      × (r.last_seq ≡ last_seq s rows + 1)
unfolding find_sequence increment_sequence any
find-increment s [] h = ground arith
find-increment s (r ∷ rows) h = elim (Bool-cases (r.session_id == s)) [
  | inl e ↦ (record r { last_seq = r.last_seq + 1 }, rw (e, e) refl, rw e refl)
  | inr e ↦ let (x, f, l) = find-increment s rows (ground arith) in (x, rw (e, e) f, rw e l)
]

last_seq-increment_ne :
    (s t : Text) (rows : List SequenceRow)
    → (s == t) ≡ false
    → last_seq t (increment_sequence s rows) ≡ last_seq t rows
unfolding increment_sequence
last_seq-increment_ne s t [] h = refl
last_seq-increment_ne s t (r ∷ rows) h = ground (
  arith,
  last_seq-increment_ne s t rows,
  text_eq_iff r.session_id s,
  text_eq_iff r.session_id t,
  text_eq_iff s t,
)

last_seq-increment :
    (s t : Text) (rows : List SequenceRow)
    → any (λ r. r.session_id == s) rows ≡ true
    → last_seq t (increment_sequence s rows)
      ≡ (if s == t then last_seq s rows + 1 else last_seq t rows)
unfolding increment_sequence any
last_seq-increment s t [] h = ground arith
last_seq-increment s t (r ∷ rows) h = ground (
  arith,
  last_seq-increment s t rows,
  last_seq-increment_ne s t rows,
  text_eq_iff r.session_id s,
  text_eq_iff r.session_id t,
  text_eq_iff s t,
)

-- Each call gives the session its next number, and leaves the number of any other session `t`.
pub next_session_sequence_lem :
    (s t : Text) (db : Db)
    → ((next_session_sequence s db).0 ≡ ok (last_seq s db.sequences + 1))
      × (last_seq t (next_session_sequence s db).1.sequences
          ≡ (if s == t then last_seq s db.sequences + 1 else last_seq t db.sequences))
unfolding next_session_sequence
next_session_sequence_lem s t db =
    let rows = upsert_sequence s db.sequences in
    let (r, f, l) = find-increment s rows (any-upsert s db.sequences) in
    (
      rw f (ap ok (l ∙ ap (λ n. n + 1) (last_seq-upsert s s db.sequences))),
      rw (f, last_seq-increment s t rows (any-upsert s db.sequences))
          (rw (last_seq-upsert s s db.sequences, last_seq-upsert s t db.sequences) refl),
    )
