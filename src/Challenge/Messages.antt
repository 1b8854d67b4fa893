-- ===== src/Challenge/Messages.antt =====
-- src/challenge.rs: the messages that a client signs.
use dn42_autopeer.Base.{ℕ, ◌++◌, Option, none, some}
use dn42_autopeer.Base.Int.{ℤ}
use dn42_autopeer.Base.Text.{Text, text}
use dn42_autopeer.Base.Decimal.{decimal, decimal_ℤ}
use dn42_autopeer.Ipv6.{Ipv6, display}
use dn42_autopeer.WgPubKey.{WgPubKey, as_str}

unfoldable pub link_local_message : Option (Ipv6 × Ipv6) → Text
link_local_message none = text "auto"
link_local_message (some (here, there)) =
    text "manual:" ++ (display here ++ (text ":" ++ display there))

-- `endpoint.unwrap_or("none")`
unfoldable pub create_endpoint : Option Text → Text
create_endpoint none = text "none"
create_endpoint (some value) = value

unfoldable pub create_mtu : Option ℕ → Text
create_mtu none = text "default"
create_mtu (some value) = decimal value

unfoldable pub update_endpoint : Option (Option Text) → Text
update_endpoint none = text "unchanged"
update_endpoint (some none) = text "clear"
update_endpoint (some (some value)) = text "set:" ++ value

unfoldable pub update_mtu : Option (Option ℕ) → Text
update_mtu none = text "unchanged"
update_mtu (some none) = text "default"
update_mtu (some (some value)) = text "set:" ++ decimal value

-- The last two lines of every message.
unfoldable pub message_end : Text → ℤ → Text
message_end nonce expires_at =
    text "\nnonce:" ++ (nonce ++ (text "\nexpires_at:" ++ decimal_ℤ expires_at))

-- The lines of the two messages that carry settings.
unfoldable pub settings : Text → ℕ → Text → WgPubKey → Text → Text → Text → Text → ℤ → Text
settings header asn peer_name pubkey endpoint link_local mtu nonce expires_at =
    header
    ++ (decimal asn
        ++ (text "\npeer_name:"
            ++ (peer_name
                ++ (text "\npubkey:"
                    ++ (as_str pubkey
                        ++ (text "\nendpoint:"
                            ++ (endpoint
                                ++ (text "\nlink_local:"
                                    ++ (link_local
                                        ++ (text "\nmtu:"
                                            ++ (mtu ++ message_end nonce expires_at)))))))))))

unfoldable pub build_create_message :
    ℕ → Text → WgPubKey → Option Text → Option (Ipv6 × Ipv6) → Option ℕ → Text → ℤ → Text
unfolding settings message_end
build_create_message asn peer_name pubkey endpoint link_local mtu nonce expires_at =
    settings (text "DN42-AUTOPEER-V3\noperation:create\nasn:") asn peer_name pubkey
      (create_endpoint endpoint) (link_local_message link_local) (create_mtu mtu) nonce expires_at

unfoldable pub build_update_message :
    ℕ
    → Text
    → WgPubKey
    → Option (Option Text)
    → Option (Ipv6 × Ipv6)
    → Option (Option ℕ)
    → Text
    → ℤ
    → Text
unfolding settings message_end
build_update_message asn peer_name pubkey endpoint link_local mtu nonce expires_at =
    settings (text "DN42-AUTOPEER-V3\noperation:update\nasn:") asn peer_name pubkey
      (update_endpoint endpoint) (link_local_message link_local) (update_mtu mtu) nonce expires_at

unfoldable pub build_delete_message : ℕ → Text → Text → ℤ → Text
unfolding message_end
build_delete_message asn peer_name nonce expires_at =
    text "DN42-AUTOPEER-V3\noperation:delete\nasn:"
    ++ (decimal asn ++ (text "\npeer_name:" ++ (peer_name ++ message_end nonce expires_at)))
