-- ===== src/Netlink.antt =====
-- src/netlink.rs: the WireGuard links, as a release build has it.
pub mod Keeps
pub mod InUse
pub mod Gone
use dn42_autopeer.Base.{
  ℕ, ◌++◌, List, [], ◌∷◌, Bool, true, false, Option, none, some, keep, find, map, ◌==◌, text_eq,
  nat_eq, option_beq, if◌then◌else◌,
}
use dn42_autopeer.Base.Int.{pos}
use dn42_autopeer.Base.Text.{Text, text, starts_with}
use dn42_autopeer.Base.Decimal.{decimal}
use dn42_autopeer.Ipv6.{Ipv6, ipv6_eq}
use dn42_autopeer.Error.{PeerError, IoError}
use dn42_autopeer.Result.{Result, ok, err, ok_or}
use dn42_autopeer.External.{External}
use dn42_autopeer.WgPubKey.{WgPubKey, as_str}
use dn42_autopeer.World.Types.{World, Answer, Failure, Link, WgPeer}
use dn42_autopeer.World.Action.{Action, pure, raise, lift, call, ask, ◌>>=◌, ◌>>◌}

abbrev pub netlink_error : Text → Failure → PeerError
netlink_error iface_name f = PeerError.netlink f.io iface_name

-- `new_connection()`
connect : Text → Action Unit
connect iface_name = call (λ a w. w) (netlink_error iface_name)

abbrev pub is_called : Text → Link → Bool
is_called name link = link.name == name

unfoldable pub find_link : Text → Action (Option Link)
find_link iface_name =
    ask (λ a w. ok (find (is_called iface_name) w.links)) (netlink_error iface_name)

-- The links of a name, changed.
unfoldable pub change_links : Text → (Link → Link) → List Link → List Link
change_links name f [] = []
change_links name f (link ∷ links) =
    let rest = change_links name f links in if link.name == name then f link ∷ rest else link ∷ rest

-- `link().add(LinkWireguard::new(name))`
new_link : Text → Link
new_link name = record {
  name = name;
  is_wireguard = true;
  alias = none;
  link_mtu = 1420;
  is_up = false;
  private_key = none;
  port = none;
  wg_peers = [];
  addresses = [];
}

missing : Text → IoError
missing message = record { is_not_found = true; raw_os_error = none; message = message }

-- A device that is no WireGuard device is refused by the kernel.
not_wireguard : IoError
not_wireguard = record {
  is_not_found = false;
  raw_os_error = some (pos 95);
  message = text "Operation not supported";
}

abbrev pub alias_prefix : Text
alias_prefix = text "dn42-autopeer:"

is_managed : Link → Bool
is_managed link = elim link.alias [ none ↦ false | some alias ↦ starts_with alias alias_prefix ]

-- `Device::get`
device : Text → Option Link → Result Link
device iface_name none = err (PeerError.netlink (missing (text "No such device")) iface_name)
device iface_name (some link) =
    if link.is_wireguard then ok link else err (PeerError.netlink not_wireguard iface_name)

get_device : Text → Text → Action Link
unfolding device missing not_wireguard
get_device iface_name name =
    ask (λ a w. device iface_name (find (is_called name) w.links)) (netlink_error iface_name)

module _ ⦃lib : External⦄ where
  parse_interface_name : Text → Result Text
  parse_interface_name iface_name =
      if lib.valid_interface_name iface_name
      then ok iface_name
      else err (PeerError.validation (text "The interface name is invalid"))

  create_or_check : Text → Option Link → Action Unit
  create_or_check iface_name none =
      call (λ a w. record w { links = w.links ++ new_link iface_name ∷ [] })
        (netlink_error iface_name)
  create_or_check iface_name (some link) = do
    name ← lift (parse_interface_name iface_name)
    get_device iface_name name
    pure tt

  unfoldable pub ensure_wg_interface : Text → ℕ → ℕ → Action Unit
  unfolding connect create_or_check new_link missing get_device parse_interface_name
  ensure_wg_interface iface_name peer_id mtu = do
    connect iface_name
    existing ← find_link iface_name
    create_or_check iface_name existing
    link ← find_link iface_name
    lift (
        ok_or link (
          PeerError.netlink (missing (text "The interface disappeared after creation")) iface_name))
    call
        (λ a w. record w {
          links =
              change_links iface_name
                (λ l. record l {
                  link_mtu = mtu;
                  alias = some (alias_prefix ++ decimal peer_id);
                  is_up = true;
                })
                w.links;
        })
        (netlink_error iface_name)

  -- The three allowed networks of a peer.
  allowed_networks : List (Text × ℕ)
  allowed_networks = (text "fe80::", 64) ∷ (text "::", 0) ∷ (text "0.0.0.0", 0) ∷ []

  unfoldable pub configure_peer : Text → Text → ℕ → WgPubKey → Option Text → Action Unit
  unfolding parse_interface_name allowed_networks
  configure_peer iface_name private_key listen_port peer_pubkey endpoint = do
    priv_key ← lift (
        ok_or (lib.key_from_base64 private_key)
          (PeerError.validation (text "The local WireGuard private key is invalid")))
    peer_key ← lift (
        ok_or (lib.key_from_base64 (as_str peer_pubkey))
          (PeerError.validation (text "The peer WireGuard public key is invalid")))
    interface_name ← lift (parse_interface_name iface_name)
    call
        (λ a w. record w {
          links =
              change_links interface_name
                (λ l. record l {
                  private_key = some priv_key;
                  port = some listen_port;
                  wg_peers =
                      record {
                        public_key = peer_key;
                        wg_endpoint = endpoint;
                        allowed_ips = allowed_networks;
                      }
                      ∷ [];
                })
                w.links;
        })
        (netlink_error iface_name)

unfoldable pub managed_names : List Link → List Text
unfolding is_managed
managed_names links = map (λ (l : Link). l.name) (keep is_managed links)

unfoldable pub list_managed_interfaces : Action (List Text)
unfolding connect
list_managed_interfaces = do
  connect (text "all managed interfaces")
  ask (λ a w. ok (managed_names w.links)) (netlink_error (text "all managed interfaces"))

-- `address().add(…).replace()`
add_address : Ipv6 → Link → Link
add_address address link = record link {
  addresses =
      keep (λ (a : Ipv6 × ℕ). if a.0 == address then false else true) link.addresses
      ++ (address, 64) ∷ [];
}

unfoldable pub configure_local_address : Text → Ipv6 → Action Unit
unfolding connect missing add_address
configure_local_address iface_name address = do
  connect iface_name
  link ← find_link iface_name
  lift (ok_or link (PeerError.netlink (missing (text "Interface not found")) iface_name))
  call (λ a w. record w { links = change_links iface_name (add_address address) w.links })
      (netlink_error iface_name)

-- The loop over the devices.
port_loop : ℕ → Option Text → List Text → Action Bool
port_loop port except [] = pure false
port_loop port except (name ∷ names) = elim (option_beq except (some name)) [
  | true ↦ port_loop port except names
  | false ↦ do
    device ← get_device name name
    elim (option_beq device.port (some port)) [
      | true ↦ pure true
      | false ↦ port_loop port except names
    ]
]

unfoldable pub device_names : List Link → List Text
device_names links = map (λ (l : Link). l.name) (keep (λ (l : Link). l.is_wireguard) links)

unfoldable pub listen_port_in_use : ℕ → Option Text → Action Bool
unfolding port_loop get_device device
listen_port_in_use port except = do
  names ← ask (λ a w. ok (device_names w.links)) (netlink_error (text "all WireGuard interfaces"))
  port_loop port except names

remove_link : Text → Option Link → Action Unit
remove_link iface_name none = pure tt
remove_link iface_name (some link) =
    call
      (λ a w. record w {
        links = keep (λ l. if is_called iface_name l then false else true) w.links;
      })
      (netlink_error iface_name)

unfoldable pub delete_interface : Text → Action Unit
unfolding connect remove_link
delete_interface iface_name = do
  connect iface_name
  link ← find_link iface_name
  remove_link iface_name link
