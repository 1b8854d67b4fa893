-- ===== src/Netlink/Gone.antt =====
-- src/netlink.rs: what `delete_interface` leaves.
use dn42_autopeer.Base.{
  ◌≡◌, refl, List, [], ◌∷◌, true, false, Option, none, some, any, find, keep, arith, nat_eq,
  text_eq, if◌then◌else◌,
}
use dn42_autopeer.Base.Text.{Text}
use dn42_autopeer.World.Types.{World, Link}
use dn42_autopeer.World.Keeps.{IsStable}
use dn42_autopeer.World.Triple.{Partial, Triple-bind, Triple-pure, Triple-before}
use dn42_autopeer.World.Calls.{Triple-ask, Triple-call}
use dn42_autopeer.Netlink.{is_called, connect, find_link, remove_link, delete_interface}

-- No link has the name.
abbrev pub NoLink : Text → World → Type 0
NoLink name w = any (is_called name) w.links ≡ false

pub NoLink-IsStable : (name : Text) → IsStable (NoLink name)
NoLink-IsStable name = record { advances = λ w h. h }

anything : IsStable (λ w. Unit)
anything = record { advances = λ w h. h }

none_found :
    (name : Text) (links : List Link)
    → none ≡ find (is_called name) links
    → any (is_called name) links ≡ false
none_found name [] e = refl
none_found name (l ∷ links) e = ground (arith, e, none_found name links)

none_kept :
    (name : Text) (links : List Link)
    → any (is_called name) (keep (λ l. if is_called name l then false else true) links) ≡ false
none_kept name [] = refl
none_kept name (l ∷ links) = ground (arith, none_kept name links)

remove_link-NoLink :
    (name : Text) (link : Option Link)
    → Partial (λ w. link ≡ find (is_called name) w.links) (remove_link name link) (λ _. NoLink name)
unfolding remove_link
remove_link-NoLink name none = Triple-pure tt (λ w h. none_found name w.links h)
remove_link-NoLink name (some link) =
    Triple-before _ (λ w h. tt)
      (Triple-call _ _ anything (λ a w h. none_kept name w.links) (λ f w. tt))

-- After a deletion that succeeds no link has the name.
pub delete_interface-NoLink :
    (name : Text) → Partial (λ _. Unit) (delete_interface name) (λ _. NoLink name)
unfolding delete_interface connect find_link
delete_interface-NoLink name =
    Triple-bind _ _ (Triple-call _ _ anything (λ a w h. tt) (λ f w. tt)) λ _.
      Triple-bind _ _
        (Triple-ask {Q = λ link w. link ≡ find (is_called name) w.links} _ _ anything
          (λ a w h. refl) (λ f w. tt))
        (remove_link-NoLink name)
