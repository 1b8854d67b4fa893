-- ===== src/Error/Types.antt =====
-- src/error.rs: `PeerError` and its `Display`, with the foreign errors that it holds.
use dn42_autopeer.Base.{ℕ, Bool, Option, ◌++◌}
use dn42_autopeer.Base.Int.{ℤ}
use dn42_autopeer.Base.Text.{Text, text}
use dn42_autopeer.Base.Decimal.{decimal}

-- `std::io::Error`: whether its kind is `NotFound`, `raw_os_error()`, and its `Display`.
pub record IoError : Type 0 where
  pub is_not_found : Bool
  pub raw_os_error : Option ℤ
  pub message : Text

-- `sqlx::Error`, as far as `log_info` tells its cases apart, each with its `Display`.
pub data SqlError : Type 0 where
  pool_timed_out pool_closed : SqlError
  io : IoError → SqlError
  tls : Text → SqlError
  database : Option Text → Text → SqlError
  other : Text → SqlError

pub data PeerError : Type 0 where
  invalid_wg_pubkey_length : ℕ → PeerError
  invalid_wg_pubkey_base64 : Text → PeerError
  invalid_ip : Text → Text → PeerError
  invalid_asn : ℕ → PeerError
  netlink : IoError → Text → PeerError
  bird_config_io : IoError → Text → PeerError
  bird_reload : Text → PeerError
  nftables : Text → PeerError
  unauthorized_challenge : Text → PeerError
  validation : Text → PeerError
  database : SqlError → PeerError
  signature_verification_failed : Text → PeerError
  registry_mismatch : PeerError
  registry_unavailable : Text → PeerError
  not_found : ℕ → Text → PeerError
  already_exists : ℕ → Text → PeerError

sql_message : SqlError → Text
sql_message pool_timed_out = text "pool timed out while waiting for an open connection"
sql_message pool_closed = text "attempted to acquire a connection on a closed pool"
sql_message (io e) = text "error communicating with database: " ++ e.message
sql_message (tls s) = text "error occurred while attempting to establish a TLS connection: " ++ s
sql_message (database c s) = text "error returned from database: " ++ s
sql_message (other s) = s

named : ℕ → Text → Text → Text
named asn name tail = text "Peer '" ++ (name ++ (text "' with ASN " ++ (decimal asn ++ tail)))

-- `Display`, from the `snafu(display)` attributes.
unfoldable pub display_error : PeerError → Text
unfolding sql_message named
display_error (invalid_wg_pubkey_length len) =
    text "Invalid WireGuard public key: length must be exactly 44, got " ++ decimal len
display_error (invalid_wg_pubkey_base64 source) =
    text "Failed to base64 decode WireGuard public key: " ++ source
display_error (invalid_ip source ip) =
    text "failed to parse ip address '" ++ (ip ++ (text "': " ++ source))
display_error (invalid_asn asn) =
    text "peer asn " ++ (decimal asn ++ text " is not allowed (must be in dn42 range)")
display_error (netlink source iface_name) =
    text "failed to manipulate netlink interface '"
    ++ (iface_name ++ (text "': " ++ source.message))
display_error (bird_config_io source path) =
    text "failed to write bird config to " ++ (path ++ (text ": " ++ source.message))
display_error (bird_reload stderr) = text "bird syntax check or reload failed. stderr: " ++ stderr
display_error (nftables detail) = text "nftables synchronization failed: " ++ detail
display_error (unauthorized_challenge detail) = text "challenge verification failed: " ++ detail
display_error (validation detail) = text "invalid request: " ++ detail
display_error (database source) = text "Database error: " ++ sql_message source
display_error (signature_verification_failed detail) =
    text "SSH signature verification failed: " ++ detail
display_error registry_mismatch =
    text "Provided SSH key is not identical with DN42 registry records"
display_error (registry_unavailable detail) = text "The DN42 registry is unavailable: " ++ detail
display_error (not_found asn peer_name) = named asn peer_name (text " not found")
display_error (already_exists asn peer_name) = named asn peer_name (text " already exists")
