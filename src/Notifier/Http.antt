-- ===== src/Notifier/Http.antt =====
-- internal/notifier/http.go: how HTTPReporter.Report tells the failures apart. What the HTTP client
-- returns is a parameter.
use sleigh.Prelude.{
  ℕ, Text, Bool, not, ◌||◌, leb, eqb, Option, none, some, [], ◌++◌, codes, trim_space, take, ◌==◌,
  if◌then◌else◌,
}
use sleigh.Prelude.Decimal.{decimal}
use sleigh.Notifier.{ReportError, delivery_error, other}

-- How far a report comes: the event or the request cannot be built, the client returns an error, which
-- may be the caller's cancellation, or the target answers.
pub data Sent : Type 0 where
  not_marshalled not_built : (cause : Text) → Sent
  client_failed : (is_canceled : Bool) (cause : Text) → Sent
  answered : (status : ℕ) (body : Text) → Sent

pub record DeliveryError : Type 0 where
  pub status_code : ℕ
  pub retryable : Bool
  pub message : Text
  pub cause : Option Text

pub data HttpError : Type 0 where
  plain : Text → HttpError
  delivery : DeliveryError → HttpError

-- DeliveryError.Error
unfoldable pub delivery_message : DeliveryError → Text
delivery_message e = if not (e.message == []) then e.message else cause_or e.cause
  where
    cause_or : Option Text → Text
    cause_or none = codes "delivery failed"
    cause_or (some cause) = cause

abbrev with_body_text : Text → Text → Text
with_body_text message body = if body == [] then message else message ++ codes ": " ++ body

unfoldable pub is_retryable_status : ℕ → Bool
is_retryable_status status = eqb status 429 || leb 500 status

abbrev refused_error : ℕ → Text → HttpError
refused_error status body = delivery (record {
  status_code = status;
  retryable = is_retryable_status status;
  message =
      with_body_text (codes "session manager returned status " ++ decimal status)
        (trim_space (take 2048 body));
  cause = none;
})

unfoldable pub http_report : Sent → Option HttpError
unfolding is_retryable_status
http_report (not_marshalled cause) = some (plain (codes "marshal event: " ++ cause))
http_report (not_built cause) = some (plain (codes "build request: " ++ cause))
http_report (client_failed is_canceled cause) = some (
    delivery (record {
      status_code = 0;
      retryable = not is_canceled;
      message = codes "send event: " ++ cause;
      cause = some cause;
    }))
http_report (answered status body) =
    if leb 400 status then some (refused_error status body) else none

-- What the retries see of it.
abbrev pub seen_error : Option HttpError → Option ReportError
seen_error none = none
seen_error (some (plain text)) = some other
seen_error (some (delivery e)) = some (delivery_error e.retryable)
