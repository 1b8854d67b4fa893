-- ===== src/Handle/Parse.antt =====
-- src/handle.rs: the validation of the fields of a request.
use dn42_autopeer.Base.{
  ℕ, ◌+◌, [], ◌∷◌, ◌++◌, map, Bool, true, false, not, ◌&&◌, ◌||◌, Option, none, some, all, ltb, leb,
  if◌then◌else◌, ◌==◌, nat_eq, text_eq,
}
use dn42_autopeer.Base.Text.{Text, text, trim, utf8_len, join}
use dn42_autopeer.Base.Decimal.{decimal}
use dn42_autopeer.Ipv6.{Ipv6, ipv6_eq, display, parse_ipv6, is_unicast_link_local}
use dn42_autopeer.Error.{PeerError}
use dn42_autopeer.Result.{Result, ok, err, ok_or, traverse, ◌>>=◌}
use dn42_autopeer.External.{External, Url, Host, domain, ipv4, ipv6}

unfoldable pub is_lower_or_digit : ℕ → Bool
is_lower_or_digit c = (leb b'a' c && leb c b'z') || (leb b'0' c && leb c b'9')

abbrev pub is_name_char : ℕ → Bool
is_name_char c = is_lower_or_digit c || c == b'-'

-- `valid_first` and `valid_rest`: the iterator has passed the first character.
unfoldable pub valid_first : Text → Bool
valid_first [] = false
valid_first (c ∷ rest) = is_lower_or_digit c

unfoldable pub valid_rest : Text → Bool
valid_rest [] = true
valid_rest (c ∷ rest) = all is_name_char rest

unfoldable pub parse_peer_name : Text → Result Text
unfolding valid_first valid_rest is_lower_or_digit
parse_peer_name peer_name =
    let name = trim peer_name in
    if not (valid_first name) || (not (valid_rest name) || ltb 32 (utf8_len name))
    then err (PeerError.validation (text "peer_name must match [a-z0-9][a-z0-9-]{0,31}"))
    else ok name

-- The address of a request: it is required, parsed, and link-local.
unfoldable pub parse_link_local_address : Text → Option Text → Result Ipv6
parse_link_local_address name value = do
  given ← ok_or value (PeerError.validation (name ++ text " is required when manual_lla=true"))
  address ←
      ok_or (parse_ipv6 (trim given))
        (PeerError.validation (name ++ text " must be a valid IPv6 address"))
  if not (is_unicast_link_local address)
      then err (PeerError.validation (name ++ text " must be an IPv6 link-local address"))
      else ok address

abbrev is_some {ℓ} : {A : Type ℓ} → Option A → Bool
is_some none = false
is_some (some a) = true

unfoldable pub parse_link_local : Bool → Option Text → Option Text → Result (Option (Ipv6 × Ipv6))
parse_link_local false local_ll_ip remote_ll_ip =
    if is_some local_ll_ip || is_some remote_ll_ip
    then err (PeerError.validation (text "local_ll_ip and remote_ll_ip require manual_lla=true"))
    else ok none
parse_link_local true local_ll_ip remote_ll_ip = do
  here ← parse_link_local_address (text "local_ll_ip") local_ll_ip
  there ← parse_link_local_address (text "remote_ll_ip") remote_ll_ip
  if here == there
      then err (PeerError.validation (text "local_ll_ip and remote_ll_ip must differ"))
      else ok (some (here, there))

-- `to_ascii_lowercase`
unfoldable pub to_ascii_lowercase : Text → Text
to_ascii_lowercase s = map (λ c. if leb b'A' c && leb c b'Z' then c + 32 else c) s

unfoldable pub host_port : Host → ℕ → Text
host_port (domain host) port = to_ascii_lowercase host ++ (text ":" ++ decimal port)
host_port (ipv4 a b c d) port =
    join (text ".") (decimal a ∷ decimal b ∷ decimal c ∷ decimal d ∷ [])
    ++ (text ":" ++ decimal port)
host_port (ipv6 a) port = text "[" ++ (display a ++ (text "]:" ++ decimal port))

-- The parts that a HOST:PORT does not have.
unfoldable pub has_other_parts : Url → Bool
has_other_parts url =
    not (url.username == [])
    || (is_some url.password
        || (not (url.path == []) || (is_some url.query || is_some url.fragment)))

module _ ⦃lib : External⦄ where
  unfoldable pub parse_endpoint_value : Text → Result Text
  parse_endpoint_value endpoint = do
    url ←
        ok_or (lib.parse_url (text "udp://" ++ trim endpoint))
          (PeerError.validation (text "The endpoint must use the HOST:PORT format"))
    if has_other_parts url
        then err (PeerError.validation (text "The endpoint must use the HOST:PORT format"))
        else (do
          port ← ok_or url.port (PeerError.validation (text "The endpoint must include a port"))
          host ←
              ok_or url.host
                (PeerError.validation (text "The endpoint must include an IP address or hostname"))
          ok (host_port host port))

  unfoldable pub parse_endpoint : Option Text → Result (Option Text)
  parse_endpoint endpoint = traverse parse_endpoint_value endpoint
