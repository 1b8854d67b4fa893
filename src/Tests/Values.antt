-- ===== src/Tests/Values.antt =====
-- The theorems on values, texts and lists at concrete inputs.
use dn42_autopeer.Base.{
  ℕ, ◌≡◌, ◌≢◌, ◌↔◌, ◌⊎◌, ◌≤◌, ◌&&◌, refl, List, [], ◌∷◌, ◌++◌, true, none, some, inr, any, ◌==◌,
  nat_eq, text_eq, All, arith,
}
use dn42_autopeer.Base.Int.{pos}
use dn42_autopeer.Base.Text.{text, trim, utf8_len}
use dn42_autopeer.Ipv6.{Ipv6}
use dn42_autopeer.Result.{ok}
use dn42_autopeer.Error.{PeerError, IoError, log_info, into_response, Level}
use dn42_autopeer.Error.Laws.{IsInternal, into_response-log}
use dn42_autopeer.WgPubKey.{try_from, as_str, try_from_iff}
use dn42_autopeer.Peer.{Peer, is_desired}
use dn42_autopeer.Template.{write_escaped_str, escaped}
use dn42_autopeer.Template.Escape.{
  each, IsPlain, unescape, write_escaped_str-each, escaped-IsPlain, unescape-escaped,
}
use dn42_autopeer.Handle.{parse_peer_name}
use dn42_autopeer.Handle.Names.{IsPeerName, parse_peer_name_iff}
use dn42_autopeer.Manager.{desired_ports}
use dn42_autopeer.Manager.Ports.{IsIncreasing, is_member, desired_ports-exact}
use dn42_autopeer.Challenge.{build_create_message, build_update_message}
use dn42_autopeer.Challenge.Ambiguity.{AreLinkLocal, build_create_message-ambiguous}
use dn42_autopeer.Handle.{parse_link_local}
use dn42_autopeer.Handle.LinkLocal.{Holds, parse_link_local_iff}
use dn42_autopeer.Manager.Addresses.{asn_link_local_inj}
use dn42_autopeer.Observability.Ids.{request_id_inj}
use dn42_autopeer.Tests.Fixtures.{link_local, crates, peer, key, stored_nonce}

io : IoError
io = record { is_not_found = true; raw_os_error = none; message = [] }

into_response-log_example :
    (400 ≤ (into_response PeerError.registry_mismatch).status)
    × ((into_response PeerError.registry_mismatch).status ≤ 503)
    × (((into_response PeerError.registry_mismatch).level ≡ Level.error)
        ↔ (500 ≤ (into_response PeerError.registry_mismatch).status))
    × (IsInternal PeerError.registry_mismatch
        ⊎ ((into_response PeerError.registry_mismatch).error
            ≡ (log_info PeerError.registry_mismatch).code))
into_response-log_example = into_response-log PeerError.registry_mismatch

try_from_iff_example : (try_from ⦃lib = crates⦄ key.value ≡ ok key) ↔ (
    (utf8_len key.value ≡ 44)
    × ((bytes : List ℕ) × (crates.base64_decode key.value ≡ inr bytes))
    × (as_str key ≡ key.value))
try_from_iff_example = try_from_iff ⦃lib = crates⦄ key.value key

write_escaped_str-each_example :
    write_escaped_str [] (b'"' ∷ b'a' ∷ []) ≡ [] ++ each (b'"' ∷ b'a' ∷ [])
write_escaped_str-each_example = write_escaped_str-each [] (b'"' ∷ b'a' ∷ [])

escaped-IsPlain_example : All IsPlain (escaped (0xa ∷ 0x1b ∷ b'a' ∷ []))
escaped-IsPlain_example = escaped-IsPlain (0xa ∷ 0x1b ∷ b'a' ∷ [])

unescape-escaped_example : unescape (escaped (b'"' ∷ b'\\' ∷ b'a' ∷ [])) ≡ b'"' ∷ b'\\' ∷ b'a' ∷ []
unescape-escaped_example = unescape-escaped (b'"' ∷ b'\\' ∷ b'a' ∷ []) (refl, (refl, (refl, tt)))

parse_peer_name_iff_example :
    (parse_peer_name (0x20 ∷ b'a' ∷ b'-' ∷ []) ≡ ok (b'a' ∷ b'-' ∷ []))
    ↔ (((b'a' ∷ b'-' ∷ []) ≡ trim (0x20 ∷ b'a' ∷ b'-' ∷ [])) × IsPeerName (b'a' ∷ b'-' ∷ []))
parse_peer_name_iff_example = parse_peer_name_iff (0x20 ∷ b'a' ∷ b'-' ∷ []) (b'a' ∷ b'-' ∷ [])

desired_ports-exact_example :
    IsIncreasing (desired_ports (peer ∷ []))
    × (is_member 20001 (desired_ports (peer ∷ []))
        ≡ any (λ (p : Peer). is_desired p && p.listen_port == 20001) (peer ∷ []))
desired_ports-exact_example = desired_ports-exact (peer ∷ []) 20001

build_create_message-ambiguous_example :
    (p q : Ipv6 × Ipv6) × ((p ≢ q)
      × (AreLinkLocal p × AreLinkLocal q)
      × (build_create_message 1 stored_nonce key none (some p) none stored_nonce (pos 400)
          ≡ build_create_message 1 stored_nonce key none (some q) none stored_nonce (pos 400))
      × (build_update_message 1 stored_nonce key none (some p) none stored_nonce (pos 400)
          ≡ build_update_message 1 stored_nonce key none (some q) none stored_nonce (pos 400)))
build_create_message-ambiguous_example =
    build_create_message-ambiguous 1 stored_nonce key none none none none stored_nonce (pos 400)

asn_link_local_inj_example : ◌≡◌ {A = ℕ} 4242420001 4242420001
asn_link_local_inj_example =
    asn_link_local_inj 4242420001 4242420001 (omega arith) (omega arith) refl

parse_link_local_iff_example :
    (parse_link_local true (some (text "fe80::1")) (some (text "fe80::2"))
      ≡ ok (some (link_local 1, link_local 2)))
    ↔ ((true ≡ true)
        × Holds (some (text "fe80::1")) (link_local 1)
        × Holds (some (text "fe80::2")) (link_local 2)
        × (link_local 1 ≢ link_local 2))
parse_link_local_iff_example =
    parse_link_local_iff true (some (text "fe80::1")) (some (text "fe80::2")) (link_local 1)
      (link_local 2)

request_id_inj_example : (◌≡◌ {A = ℕ} 1 1) × (◌≡◌ {A = ℕ} 20 20) × (◌≡◌ {A = ℕ} 3 3)
request_id_inj_example = request_id_inj 1 20 3 1 20 3 refl
