-- ===== src/Netlink/Keeps.antt =====
-- src/netlink.rs: no operation on the links touches the database.
use dn42_autopeer.Base.{ℕ, List, [], ◌∷◌, true, false, Option, none, some}
use dn42_autopeer.Base.Text.{Text}
use dn42_autopeer.External.{External}
use dn42_autopeer.Ipv6.{Ipv6}
use dn42_autopeer.WgPubKey.{WgPubKey}
use dn42_autopeer.World.Types.{World, Db, Link}
use dn42_autopeer.World.Keeps.{
  Keeps, IsStable, Keeps-elim_Bool, Keeps-bind, Keeps-pure, Keeps-call, keeps_rules,
}
use dn42_autopeer.Netlink.{
  find_link, get_device, create_or_check, ensure_wg_interface, configure_peer,
  configure_local_address, port_loop, list_managed_interfaces, listen_port_in_use, remove_link,
  delete_interface,
}

-- The search for a port only reads, so it keeps what any call keeps.
module _ (P : World → Type 0) (stable : IsStable P) where
  read_device-Keeps : (iface_name name : Text) → Keeps P (get_device iface_name name)
  unfolding get_device
  read_device-Keeps iface_name name = search (keeps_rules, stable)

  port_loop-Keeps :
      (port : ℕ) (except : Option Text) (names : List Text) → Keeps P (port_loop port except names)
  unfolding port_loop
  port_loop-Keeps port except [] = Keeps-pure false
  port_loop-Keeps port except (name ∷ names) =
      let later = port_loop-Keeps port except names in
      Keeps-elim_Bool _ _ _ later (
        Keeps-bind _ _ (read_device-Keeps name name)
          λ device. Keeps-elim_Bool _ _ _ (Keeps-pure true) later)

  pub listen_port_in_use-Reads :
      (port : ℕ) (except : Option Text) → Keeps P (listen_port_in_use port except)
  unfolding listen_port_in_use
  listen_port_in_use-Reads port except = search (keeps_rules, stable, port_loop-Keeps) depth 9

module _ (P : Db → Type 0) where
  stable : IsStable (λ w. P w.db)
  stable = record { advances = λ w h. h }

  find_link-Keeps : (name : Text) → Keeps (λ w. P w.db) (find_link name)
  unfolding find_link
  find_link-Keeps name = search (keeps_rules, stable)

  get_device-Keeps : (iface_name name : Text) → Keeps (λ w. P w.db) (get_device iface_name name)
  unfolding get_device
  get_device-Keeps iface_name name = search (keeps_rules, stable)

  remove_link-Keeps :
      (name : Text) (link : Option Link) → Keeps (λ w. P w.db) (remove_link name link)
  unfolding remove_link
  remove_link-Keeps name none = search keeps_rules
  remove_link-Keeps name (some link) = search (keeps_rules, Keeps-call, stable)

  pub delete_interface-Keeps : (name : Text) → Keeps (λ w. P w.db) (delete_interface name)
  unfolding delete_interface
  delete_interface-Keeps name =
      search (keeps_rules, Keeps-call, stable, find_link-Keeps, remove_link-Keeps) depth 9

  pub list_managed_interfaces-Keeps : Keeps (λ w. P w.db) list_managed_interfaces
  unfolding list_managed_interfaces
  list_managed_interfaces-Keeps = search (keeps_rules, Keeps-call, stable) depth 9

  pub configure_local_address-Keeps :
      (name : Text) (address : Ipv6) → Keeps (λ w. P w.db) (configure_local_address name address)
  unfolding configure_local_address
  configure_local_address-Keeps name address =
      search (keeps_rules, Keeps-call, stable, find_link-Keeps) depth 9

  pub listen_port_in_use-Keeps :
      (port : ℕ) (except : Option Text) → Keeps (λ w. P w.db) (listen_port_in_use port except)
  listen_port_in_use-Keeps = listen_port_in_use-Reads (λ w. P w.db) stable

  module _ ⦃lib : External⦄ where
    create_or_check-Keeps :
        (name : Text) (link : Option Link) → Keeps (λ w. P w.db) (create_or_check name link)
    unfolding create_or_check
    create_or_check-Keeps name none = search (keeps_rules, Keeps-call, stable)
    create_or_check-Keeps name (some link) = search (keeps_rules, get_device-Keeps) depth 9

    pub ensure_wg_interface-Keeps :
        (name : Text) (peer_id mtu : ℕ) → Keeps (λ w. P w.db) (ensure_wg_interface name peer_id mtu)
    unfolding ensure_wg_interface
    ensure_wg_interface-Keeps name peer_id mtu =
        search (keeps_rules, Keeps-call, stable, find_link-Keeps, create_or_check-Keeps) depth 12

    pub configure_peer-Keeps :
        (name key : Text) (port : ℕ) (pubkey : WgPubKey) (endpoint : Option Text)
        → Keeps (λ w. P w.db) (configure_peer name key port pubkey endpoint)
    unfolding configure_peer
    configure_peer-Keeps name key port pubkey endpoint =
        search (keeps_rules, Keeps-call, stable) depth 12
