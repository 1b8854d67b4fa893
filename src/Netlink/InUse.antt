-- ===== src/Netlink/InUse.antt =====
-- src/netlink.rs: what `listen_port_in_use` finds.
use dn42_autopeer.Base.{
  ℕ, ◌≡◌, refl, ◌∙◌, ap, sym, List, [], ◌∷◌, Bool, true, false, Option, none, some, any, find,
  option_beq, nat_eq, if◌then◌else◌,
}
use dn42_autopeer.Base.Text.{Text}
use dn42_autopeer.Error.{PeerError, IoError}
use dn42_autopeer.Result.{ok, err}
use dn42_autopeer.World.Types.{World, Link}
use dn42_autopeer.World.Keeps.{IsStable}
use dn42_autopeer.World.Triple.{Ends, Triple, Triple-bind, Triple-pure, Triple-fact, Triple-after}
use dn42_autopeer.World.Calls.{Triple-ask, Triple-elim_Bool}
use dn42_autopeer.Netlink.{
  is_called, device_names, device, not_wireguard, get_device, port_loop, listen_port_in_use,
}

abbrev device_listens : ℕ → Option Link → Bool
device_listens port none = false
device_listens port (some link) = option_beq link.port (some port)

-- A device of this name listens on the port.
abbrev named_listens : ℕ → List Link → Text → Bool
named_listens port links name = device_listens port (find (is_called name) links)

-- A WireGuard device, looked up by its name, listens on the port.
abbrev pub listens : ℕ → List Link → Bool
listens port links = any (named_listens port links) (device_names links)

module _ (P : World → Type 0) (stable : IsStable P) (links : List Link)
    (shown : (w : World) → P w → w.links ≡ links) (E : PeerError → World → Type 0)
    (fails : (source : IoError) (name : Text) (w : World)
      → E (PeerError.netlink source name) w) where
  device-Ends :
      (iface_name : Text) (o p : Option Link) (w : World)
      → o ≡ p
      → P w
      → Ends (λ d w. (p ≡ some d) × P w) E (device iface_name o) w
  unfolding device
  device-Ends iface_name none p w e h = fails _ _ w
  device-Ends iface_name (some link) p w e h = either link.is_wireguard
    where
      either :
          (b : Bool)
          → Ends
              (λ d w. (p ≡ some d) × P w)
              E
              (if b then ok link else err (PeerError.netlink not_wireguard iface_name))
              w
      either true = (sym e, h)
      either false = fails _ _ w

  get_device-Gives :
      (iface_name name : Text)
      → Triple P
          (get_device iface_name name)
          (λ d w. (find (is_called name) links ≡ some d) × P w)
          E
  unfolding get_device
  get_device-Gives iface_name name =
      Triple-ask _ _ stable
        (λ a w h. device-Ends iface_name _ _ w (ap (find (is_called name)) (shown w h)) h)
        (λ f w. fails _ _ w)

  port_loop-Gives :
      (port : ℕ) (names : List Text)
      → Triple P
          (port_loop port none names)
          (λ b w. (b ≡ any (named_listens port links) names) × P w)
          E
  unfolding port_loop
  port_loop-Gives port [] = Triple-pure false (λ w h. (refl, h))
  port_loop-Gives port (name ∷ names) = Triple-bind _ _ (get_device-Gives name name) λ d.
      Triple-fact _ λ e.
        Triple-elim_Bool (option_beq d.port (some port)) _ _
          (λ t. Triple-pure true (λ w h. (here d e t, h)))
          (λ t. Triple-after _ _ (λ b w h. (h.0 ∙ there d e t, h.1)) (port_loop-Gives port names))
    where
      here :
          (d : Link)
          → find (is_called name) links ≡ some d
          → option_beq d.port (some port) ≡ true
          → true ≡ any (named_listens port links) (name ∷ names)
      here d e t = rw (e, t) refl

      there :
          (d : Link)
          → find (is_called name) links ≡ some d
          → option_beq d.port (some port) ≡ false
          → any (named_listens port links) names ≡ any (named_listens port links) (name ∷ names)
      there d e t = rw (e, t) refl

  -- The answer is that of the links, and the errors are those of the kernel.
  pub listen_port_in_use-Gives :
      (port : ℕ) → Triple P (listen_port_in_use port none) (λ b w. (b ≡ listens port links) × P w) E
  unfolding listen_port_in_use
  listen_port_in_use-Gives port =
      Triple-bind _ _
        (Triple-ask {Q = λ names w. (names ≡ device_names links) × P w} _ _ stable
          (λ a w h. (ap device_names (shown w h), h)) (λ f w. fails _ _ w))
        λ names. Triple-fact _ λ e. rw e (port_loop-Gives port (device_names links))
