-- ===== src/Error/Response.antt =====
-- src/error.rs and src/observability.rs: `log_info`, `into_response`, and the level of the log line.
use dn42_autopeer.Base.{
  ℕ, Bool, ◌&&◌, Option, none, some, ◌++◌, ◌==◌, text_eq, ltb, leb, if◌then◌else◌, ◌||◌, all,
  length, nat_eq,
}
use dn42_autopeer.Base.Int.{ℤ}
use dn42_autopeer.Base.Text.{Text, text, starts_with}
use dn42_autopeer.Base.Decimal.{decimal}
use dn42_autopeer.Error.Types.{SqlError, PeerError}

pub record ErrorInfo : Type 0 where
  pub code : Text
  pub kind : Text
  pub io_code : Option ℤ
  pub sqlstate : Option Text
  pub http_status : Option ℕ

-- `ErrorInfo::new`
error_info : Text → Text → ErrorInfo
error_info code kind = record {
  code = code;
  kind = kind;
  io_code = none;
  sqlstate = none;
  http_status = none;
}

is_ascii_alphanumeric : ℕ → Bool
is_ascii_alphanumeric c =
    (leb b'0' c && leb c b'9') || (leb b'a' c && leb c b'z') || (leb b'A' c && leb c b'Z')

-- The filter on an SQLSTATE code.
valid_sqlstate : Option Text → Option Text
valid_sqlstate none = none
valid_sqlstate (some code) =
    if length code == 5 && all is_ascii_alphanumeric code then some code else none

sql_log_info : SqlError → ErrorInfo
sql_log_info SqlError.pool_timed_out = error_info (text "database") (text "pool_timeout")
sql_log_info SqlError.pool_closed = error_info (text "database") (text "pool_closed")
sql_log_info (SqlError.io e) = record (error_info (text "database") (text "io")) {
  io_code = e.raw_os_error;
}
sql_log_info (SqlError.tls s) = error_info (text "database") (text "tls")
sql_log_info (SqlError.database code s) = record (error_info (text "database") (text "server")) {
  sqlstate = valid_sqlstate code;
}
sql_log_info (SqlError.other s) = error_info (text "database") (text "other")

-- The match that gives `code`; a database error returns before it, with the code "database".
error_code : PeerError → Text
error_code (PeerError.database source) = text "database"
error_code (PeerError.netlink source iface) = text "netlink"
error_code (PeerError.bird_config_io source path) = text "bird_io"
error_code (PeerError.bird_reload stderr) = text "bird_reload"
error_code (PeerError.nftables detail) = text "nftables"
error_code (PeerError.registry_unavailable detail) = text "registry_unavailable"
error_code PeerError.registry_mismatch = text "registry_mismatch"
error_code (PeerError.unauthorized_challenge detail) = text "unauthorized_challenge"
error_code (PeerError.signature_verification_failed detail) = text "signature_verification_failed"
error_code (PeerError.validation detail) = text "validation_failed"
error_code (PeerError.not_found asn name) = text "not_found"
error_code (PeerError.already_exists asn name) = text "already_exists"
error_code (PeerError.invalid_ip source ip) = text "invalid_ip"
error_code (PeerError.invalid_asn asn) = text "invalid_asn"
error_code (PeerError.invalid_wg_pubkey_length len) = text "invalid_wg_pubkey_length"
error_code (PeerError.invalid_wg_pubkey_base64 source) = text "invalid_wg_pubkey_base64"

-- The match that gives `kind`.
error_kind : PeerError → Text → Text
error_kind (PeerError.registry_unavailable detail) code =
    if detail == text "The registry check timed out"
    then text "timeout"
    else if detail == text "Too many registry checks are active"
    then text "concurrency_limit"
    else code
error_kind (PeerError.bird_reload stderr) code =
    if stderr == text "BIRD did not respond within 10 seconds" then text "timeout" else code
error_kind (PeerError.nftables detail) code =
    if detail == text "nft did not finish within 10 seconds" then text "timeout" else code
error_kind (PeerError.validation detail) code =
    if starts_with detail (text "DNS lookup timed out for endpoint ") then text "timeout" else code
error_kind _ code = code

unfoldable pub log_info : PeerError → ErrorInfo
unfolding sql_log_info error_info error_code error_kind valid_sqlstate is_ascii_alphanumeric
log_info (PeerError.database source) = sql_log_info source
log_info (PeerError.netlink source iface) = record (error_info (text "netlink") (text "netlink")) {
  io_code = source.raw_os_error;
}
log_info (PeerError.bird_config_io source path) =
    record (error_info (text "bird_io") (text "bird_io")) { io_code = source.raw_os_error }
log_info e = error_info (error_code e) (error_kind e (error_code e))

pub data Level : Type 0 where
  warn error : Level

-- The level at which `emit_failure` logs.
unfoldable pub failure_level : Option ℕ → Level
failure_level (some status) = if ltb status 500 then warn else error
failure_level none = error

-- The body `ErrorResponse` with its status, and the level of the line that `log_api_failure` logs.
pub record Response : Type 0 where
  pub status : ℕ
  pub error : Text
  pub detail : Option Text
  pub level : Level

respond : ℕ → Text → Option Text → Response
respond status code detail = record {
  status = status;
  error = code;
  detail = detail;
  level = failure_level (some status);
}

internal_error : Response
internal_error = respond 500 (text "internal_error") none

unfoldable pub into_response : PeerError → Response
unfolding respond internal_error failure_level
into_response (PeerError.unauthorized_challenge detail) =
    respond 403 (text "unauthorized_challenge") (some detail)
into_response (PeerError.invalid_ip source ip) =
    respond 400 (text "invalid_ip") (some (text "ip '" ++ (ip ++ text "' is not parseable")))
into_response (PeerError.invalid_asn asn) =
    respond 400 (text "invalid_asn")
      (some (text "asn " ++ (decimal asn ++ text " not in dn42 range")))
into_response (PeerError.invalid_wg_pubkey_length len) =
    respond 400 (text "invalid_wg_pubkey_length")
      (some (text "WireGuard public key length must be 44, got " ++ decimal len))
into_response (PeerError.invalid_wg_pubkey_base64 source) =
    respond 400 (text "invalid_wg_pubkey_base64")
      (some (text "WireGuard public key must be valid base64: " ++ source))
into_response (PeerError.validation detail) = respond 400 (text "validation_failed") (some detail)
into_response (PeerError.signature_verification_failed detail) =
    respond 400 (text "signature_verification_failed") (some detail)
into_response PeerError.registry_mismatch =
    respond 403 (text "registry_mismatch")
      (some (text "Provided SSH key is not identical with DN42 registry records"))
into_response (PeerError.registry_unavailable detail) =
    respond 503 (text "registry_unavailable") (some detail)
into_response (PeerError.not_found asn peer_name) = respond 404 (text "not_found") (
    some
      (text "Peer '" ++ (peer_name ++ (text "' with ASN " ++ (decimal asn ++ text " not found")))))
into_response (PeerError.already_exists asn peer_name) = respond 409 (text "already_exists") (
    some (
      text "Peer '"
      ++ (peer_name ++ (text "' with ASN " ++ (decimal asn ++ text " already exists")))))
into_response (PeerError.netlink source iface) = internal_error
into_response (PeerError.bird_config_io source path) = internal_error
into_response (PeerError.bird_reload stderr) = internal_error
into_response (PeerError.nftables detail) = internal_error
into_response (PeerError.database source) = internal_error
