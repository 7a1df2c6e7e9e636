-- ===== src/Errors.antt =====
-- internal/errors/errors.go: the sentinel errors, and the results of operations that may fail.
use sleigh.Prelude.{Text, Bool, true, false, codes, ◌++◌}

-- The sentinels, `context.Canceled`, any other error by its text, `fmt.Errorf("…: %w", err)` and
-- `fmt.Errorf("%w: …", err)`.
pub data Error : Type 0 where
  not_found bad_request forbidden canceled : Error
  failure : Text → Error
  wrapped : Text → Error → Error
  noted : Error → Text → Error

pub data Result {ℓ} (A : Type ℓ) : Type ℓ where
  ok : A → Result A
  err : Error → Result A

-- errors.Is(err, ErrNotFound), and so for the others: it looks through the wrappers.
unfoldable pub is_not_found : Error → Bool
is_not_found not_found = true
is_not_found (wrapped _ e) = is_not_found e
is_not_found (noted e _) = is_not_found e
is_not_found _ = false

unfoldable pub is_bad_request : Error → Bool
is_bad_request bad_request = true
is_bad_request (wrapped _ e) = is_bad_request e
is_bad_request (noted e _) = is_bad_request e
is_bad_request _ = false

unfoldable pub is_forbidden : Error → Bool
is_forbidden forbidden = true
is_forbidden (wrapped _ e) = is_forbidden e
is_forbidden (noted e _) = is_forbidden e
is_forbidden _ = false

unfoldable pub is_canceled : Error → Bool
is_canceled canceled = true
is_canceled (wrapped _ e) = is_canceled e
is_canceled (noted e _) = is_canceled e
is_canceled _ = false

-- err.Error()
unfoldable pub message : Error → Text
message not_found = codes "resource not found"
message bad_request = codes "bad request"
message forbidden = codes "forbidden"
message canceled = codes "context canceled"
message (failure m) = m
message (wrapped m e) = m ++ codes ": " ++ message e
message (noted e m) = message e ++ codes ": " ++ m
