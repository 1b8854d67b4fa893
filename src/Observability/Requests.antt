-- ===== src/Observability/Requests.antt =====
-- src/observability.rs: the ID of a request, and the levels at which requests and stages are logged.
use dn42_autopeer.Base.{
  ℕ, ◌+◌, ◌%◌, ◌^◌, ◌-◌, [], ◌∷◌, ◌++◌, Bool, not, ◌&&◌, ◌||◌, Option, none, some, all, ltb, leb,
  if◌then◌else◌, ◌==◌, nat_eq, text_eq,
}
use dn42_autopeer.Base.Text.{Text, utf8_len}
use dn42_autopeer.Base.Decimal.{lower_hex}
use dn42_autopeer.Result.{Result, ok, err}

-- `REQUEST_SEQUENCE.fetch_add(1)`: the number of this request, and the counter after it.
unfoldable pub next_sequence : ℕ → ℕ × ℕ
next_sequence counter = (counter, (counter + 1) % 2 ^ 64)

-- `request_id`, from the ID of the process, the clock in nanoseconds, and the number.
unfoldable pub request_id : ℕ → ℕ → ℕ → Text
request_id process_id nanos sequence =
    lower_hex process_id ++ b'-' ∷ (lower_hex nanos ++ b'-' ∷ lower_hex sequence)

-- `u8::is_ascii_alphanumeric`
unfoldable pub is_ascii_alphanumeric : ℕ → Bool
is_ascii_alphanumeric c =
    (leb b'0' c && leb c b'9') || (leb b'A' c && leb c b'Z') || (leb b'a' c && leb c b'z')

-- `cloudflare_ray`, from the header if it is there and a text.
unfoldable pub cloudflare_ray : Option Text → Option Text
cloudflare_ray none = none
cloudflare_ray (some value) =
    if not (value == [])
      && (leb (utf8_len value) 64 && all (λ c. is_ascii_alphanumeric c || c == b'-') value)
    then some value
    else none

pub data LogLevel : Type 0 where
  debug info warn error : LogLevel

-- `elapsed_ms`, from the milliseconds as a number of 128 bits.
unfoldable pub elapsed_ms : ℕ → ℕ
elapsed_ms millis = if ltb millis (2 ^ 64 - 1) then millis else 2 ^ 64 - 1

-- `StatusCode::is_server_error` and `is_client_error`
abbrev pub is_server_error : ℕ → Bool
is_server_error status = leb 500 status && leb status 599

abbrev pub is_client_error : ℕ → Bool
is_client_error status = leb 400 status && leb status 499

-- The level of "request_completed" in `log_request`. SLOW_REQUEST is five seconds.
unfoldable pub request_level : ℕ → ℕ → LogLevel
request_level status millis =
    if is_server_error status
    then error
    else if leb 5000 millis || is_client_error status
    then warn
    else info

-- The level of "stage_completed" in `observe`. SLOW_STAGE is one second.
unfoldable pub stage_level : {A : Type 0} → Result A → ℕ → LogLevel
stage_level (ok a) millis = if leb 1000 millis then warn else debug
stage_level (err e) millis = warn
