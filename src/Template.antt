-- ===== src/Template.antt =====
-- src/template.rs and templates/peer.conf: the BIRD configuration of a peer and its escaping.
pub mod Escape
use dn42_autopeer.Base.{ℕ, ◌++◌, List, [], ◌∷◌, Bool, ◌||◌, ltb, if◌then◌else◌, ◌==◌, nat_eq}
use dn42_autopeer.Base.Text.{Text, text}
use dn42_autopeer.Base.Decimal.{decimal}
use dn42_autopeer.Ipv6.{Ipv6, display}

pub record PeerTemplate : Type 0 where
  pub peer_id : ℕ
  pub peer_name : Text
  pub asn : ℕ
  pub local_asn : ℕ
  pub iface : Text
  pub local_ll_ip : Ipv6
  pub remote_ll_ip : Ipv6

-- `char::is_ascii_control`
abbrev pub is_ascii_control : ℕ → Bool
is_ascii_control c = ltb c 0x20 || c == 0x7f

-- `write_escaped_char`: what is written for a character.
unfoldable pub write_escaped_char : ℕ → Text
write_escaped_char c =
    if c == b'"'
    then b'\\' ∷ b'"' ∷ []
    else if c == b'\\'
    then b'\\' ∷ b'\\' ∷ []
    else if c == 0xa || c == 0xd
    then 0x20 ∷ []
    else if is_ascii_control c
    then []
    else c ∷ []

-- `write_escaped_str`: the loop over the characters, with what has been written.
unfoldable pub write_escaped_str : Text → Text → Text
write_escaped_str dest [] = dest
write_escaped_str dest (c ∷ s) =
    write_escaped_str
      (if c == b'"'
        then dest ++ b'\\' ∷ b'"' ∷ []
        else if c == b'\\'
        then dest ++ b'\\' ∷ b'\\' ∷ []
        else if c == 0xa || c == 0xd
        then dest ++ 0x20 ∷ []
        else if is_ascii_control c
        then dest
        else dest ++ c ∷ [])
      s

-- An expression `{{ x }}` writes the `Display` of its value through the escaper.
abbrev pub escaped : Text → Text
escaped s = write_escaped_str [] s

-- A part of the template: fixed text, or an expression with the text of its value.
pub data Part : Type 0 where
  fixed : Text → Part
  value : Text → Part

unfoldable pub parts : PeerTemplate → List Part
parts t =
    fixed (text "# Dynamically generated by DN42 Autopeer for AS")
    ∷ value (decimal t.asn)
    ∷ fixed (text "\n# Peer name: ")
    ∷ value t.peer_name
    ∷ fixed (text " (ID ")
    ∷ value (decimal t.peer_id)
    ∷ fixed (text ")\n# Interface: ")
    ∷ value t.iface
    ∷ fixed (text "\n\nprotocol bgp dn42_")
    ∷ value (decimal t.asn)
    ∷ fixed (text "_")
    ∷ value (decimal t.peer_id)
    ∷ fixed (text " {\n  local ")
    ∷ value (display t.local_ll_ip)
    ∷ fixed (text " as ")
    ∷ value (decimal t.local_asn)
    ∷ fixed (text ";\n  neighbor ")
    ∷ value (display t.remote_ll_ip)
    ∷ fixed (text " % '")
    ∷ value t.iface
    ∷ fixed (text "' as ")
    ∷ value (decimal t.asn)
    ∷ fixed (
        text
          ";\n  \n  ipv6 {\n    table dn42_v6;\n    import table;\n    import where dn42_import_from_peer(")
    ∷ value (decimal t.asn)
    ∷ fixed (text ", ")
    ∷ value (decimal t.peer_id)
    ∷ fixed (text ");\n    export where dn42_export_to_peer(")
    ∷ value (decimal t.asn)
    ∷ fixed (text ", ")
    ∷ value (decimal t.peer_id)
    ∷ fixed (
        text
          ");\n  };\n  ipv4 {\n    table dn42_v4;\n    import table;\n    import where dn42_import_from_peer_v4(")
    ∷ value (decimal t.asn)
    ∷ fixed (text ", ")
    ∷ value (decimal t.peer_id)
    ∷ fixed (text ");\n    export where dn42_export_to_peer_v4(")
    ∷ value (decimal t.asn)
    ∷ fixed (text ", ")
    ∷ value (decimal t.peer_id)
    ∷ fixed (text ");\n    extended next hop on;\n  };\n}")
    ∷ []

unfoldable pub render_parts : List Part → Text
render_parts [] = []
render_parts (fixed s ∷ rest) = s ++ render_parts rest
render_parts (value s ∷ rest) = escaped s ++ render_parts rest

-- `render()`
unfoldable pub render : PeerTemplate → Text
unfolding parts render_parts
render t = render_parts (parts t)
