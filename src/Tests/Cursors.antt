-- ===== src/Tests/Cursors.antt =====
-- A codec that keeps its promises, and a cursor built and read with it.
use sleigh.Prelude.{
  ℕ, zero, suc, ◌+◌, ◌-◌, ◌≡◌, eqb, refl, ap, Text, true, false, Option, none, some, [], ◌∷◌, ◌++◌,
  codes, arith, All, length, take, drop, trim_space, is_blank, is_space, ◌==◌,
}
use sleigh.Prelude.Int.{ℤ, pos, negsuc}
use sleigh.Errors.{ok}
use sleigh.Service.History.{
  CursorPayload, Codec, dot, token_of, payload_at, build_cursor_token, parse_cursor,
}
use sleigh.Service.History.Cursor.{is_plain, IsCodec, parse_cursor-build_cursor_token}

-- Characters moved past every white space.
abbrev up : Text → Text
up [] = []
up (c ∷ s) = (c + 16384) ∷ up s

abbrev down : Text → Text
down [] = []
down (c ∷ s) = (c - 16384) ∷ down s

down-up : (s : Text) → down (up s) ≡ s
down-up [] = refl
down-up (c ∷ s) = rw (down-up s) (ap (λ d. d ∷ s) (omega arith))

up-plain : (s : Text) → All (λ c. is_plain c ≡ true) (up s)
unfolding is_plain is_space
up-plain [] = tt
up-plain (c ∷ s) = (ground arith, up-plain s)

up-dotless : (s : Text) → All (λ c. eqb c dot ≡ false) (up s)
up-dotless [] = tt
up-dotless (c ∷ s) = (ground arith, up-dotless s)

abbrev sign : ℤ → ℕ
sign (pos n) = 0
sign (negsuc n) = 1

abbrev size : ℤ → ℕ
size (pos n) = n
size (negsuc n) = n

abbrev int_of : ℕ → ℕ → ℤ
int_of zero n = pos n
int_of (suc s) n = negsuc n

int_of-sign : (a : ℤ) → int_of (sign a) (size a) ≡ a
int_of-sign (pos n) = refl
int_of-sign (negsuc n) = refl

take-front : (s t : Text) → take (length s) (s ++ t) ≡ s
take-front [] t = refl
take-front (c ∷ s) t = rw (take-front s t) refl

drop-front : (s t : Text) → drop (length s) (s ++ t) ≡ t
drop-front [] t = refl
drop-front (c ∷ s) t = drop-front s t

abbrev written : CursorPayload → Text
written p =
    sign p.version
    ∷ size p.version
    ∷ sign p.limit
    ∷ size p.limit
    ∷ sign p.issued_at
    ∷ size p.issued_at
    ∷ sign p.expires_at
    ∷ size p.expires_at
    ∷ length p.session_id
    ∷ length p.started_at
    ∷ (p.session_id ++ (p.started_at ++ p.exec_id))

abbrev readback : Text → Option CursorPayload
readback (a ∷ b ∷ c ∷ d ∷ e ∷ f ∷ g ∷ h ∷ l ∷ m ∷ rest) = some (record {
  version = int_of a b;
  session_id = take l rest;
  started_at = take m (drop l rest);
  exec_id = drop m (drop l rest);
  limit = int_of c d;
  issued_at = int_of e f;
  expires_at = int_of g h;
})
readback _ = none

readback-written : (p : CursorPayload) → readback (written p) ≡ some p
readback-written p =
    rw
      (
        int_of-sign p.version,
        int_of-sign p.limit,
        int_of-sign p.issued_at,
        int_of-sign p.expires_at,
        take-front p.session_id (p.started_at ++ p.exec_id),
        drop-front p.session_id (p.started_at ++ p.exec_id),
        take-front p.started_at p.exec_id,
        drop-front p.started_at p.exec_id,
      )
      refl

abbrev codec : Codec
codec = record {
  to_json = written;
  of_json = readback;
  encode = up;
  decode = λ s. some (down s);
  mac = λ secret body. secret ++ body;
}

codec-IsCodec : IsCodec codec
codec-IsCodec = record {
  json = readback-written;
  base64 = λ b. ap some (down-up b);
  plain = up-plain;
  dotless = up-dotless;
}

abbrev token : Text
token =
    token_of codec (codes "k")
      (payload_at codec (pos 1000) (codes "s") (codes "1") (codes "e1") (pos 20) (pos 60))

built :
    build_cursor_token codec
      (pos 1000)
      (codes "s")
      (codes "1")
      (codes "e1")
      (pos 20)
      (codes "k")
      (pos 60)
    ≡ ok token
unfolding build_cursor_token trim_space ◌==◌
built = refl

start_shown : is_blank (codes "1") ≡ false
unfolding trim_space ◌==◌
start_shown = refl

id_shown : is_blank (codes "e1") ≡ false
unfolding trim_space ◌==◌
id_shown = refl

secret_shown : is_blank (codes "k") ≡ false
unfolding trim_space ◌==◌
secret_shown = refl

parse_cursor_example :
    parse_cursor codec (pos 1030) (codes "s") token (pos 20) (codes "k") (pos 60)
    ≡ ok (codes "1", codes "e1")
parse_cursor_example =
    parse_cursor-build_cursor_token codec (codes "s") (codes "1") (codes "e1") (pos 20)
      codec-IsCodec 1000 30 60 (codes "k") token start_shown id_shown secret_shown (omega arith)
      (omega arith) (omega arith) built
