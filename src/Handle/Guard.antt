-- ===== src/Handle/Guard.antt =====
-- src/handle.rs: a request whose challenge holds a nonce that is not stored.
use dn42_autopeer.External.{External}
use dn42_autopeer.World.Types.{World}
use dn42_autopeer.World.Keeps.{Keeps-lift}
use dn42_autopeer.World.Refuses.{
  IsSame, IsErr, Refuses, Refuses-after, Refuses-first, Refuses-refusal,
}
use dn42_autopeer.Challenge.Guard.{IsUnknown, authorize-Refuses}
use dn42_autopeer.Handle.Requests.{CreatePeerReq, UpdatePeerReq, DeletePeerReq, AppState}
use dn42_autopeer.Handle.Handlers.{authorize, create_peer, update_peer, delete_peer}

module _ ⦃lib : External⦄ (state : AppState) (before : World) where
  create_peer-Refuses :
      (payload : CreatePeerReq)
      → IsUnknown payload.challenge.nonce before
      → Refuses before (create_peer state payload)
  unfolding create_peer authorize
  create_peer-Refuses payload unknown = Refuses-after _ _ (Keeps-lift _) λ peer_name.
      Refuses-after _ _ (Keeps-lift _) λ endpoint.
        Refuses-after _ _ (Keeps-lift _)
          λ link_local. Refuses-first _ _ (authorize-Refuses _ before unknown _ _ _ _ _ _)

  update_peer-Refuses :
      (payload : UpdatePeerReq)
      → IsUnknown payload.challenge.nonce before
      → Refuses before (update_peer state payload)
  unfolding update_peer authorize
  update_peer-Refuses payload unknown = Refuses-after _ _ (Keeps-lift _) λ peer_name.
      Refuses-after _ _ (Keeps-lift _) λ endpoint.
        Refuses-after _ _ (Keeps-lift _)
          λ link_local. Refuses-first _ _ (authorize-Refuses _ before unknown _ _ _ _ _ _)

  delete_peer-Refuses :
      (payload : DeletePeerReq)
      → IsUnknown payload.challenge.nonce before
      → Refuses before (delete_peer state payload)
  unfolding delete_peer authorize
  delete_peer-Refuses payload unknown =
      Refuses-after _ _ (Keeps-lift _)
        λ peer_name. Refuses-first _ _ (authorize-Refuses _ before unknown _ _ _ _ _ _)

-- A creation whose nonce is not stored is refused: the handler returns an error, and leaves the
-- database, the links, the configuration of BIRD and the port set as they were.
pub create_peer-refuses :
    ⦃lib : External⦄ (state : AppState) (payload : CreatePeerReq) (w : World)
    → IsUnknown payload.challenge.nonce w
    → IsErr (create_peer state payload w).0 × IsSame w (create_peer state payload w).1
create_peer-refuses state payload w h = Refuses-refusal _ (create_peer-Refuses state w payload h)

-- An update whose nonce is not stored is refused: the handler returns an error, and leaves the
-- database, the links, the configuration of BIRD and the port set as they were.
pub update_peer-refuses :
    ⦃lib : External⦄ (state : AppState) (payload : UpdatePeerReq) (w : World)
    → IsUnknown payload.challenge.nonce w
    → IsErr (update_peer state payload w).0 × IsSame w (update_peer state payload w).1
update_peer-refuses state payload w h = Refuses-refusal _ (update_peer-Refuses state w payload h)

-- A deletion whose nonce is not stored is refused: the handler returns an error, and leaves the
-- database, the links, the configuration of BIRD and the port set as they were.
pub delete_peer-refuses :
    ⦃lib : External⦄ (state : AppState) (payload : DeletePeerReq) (w : World)
    → IsUnknown payload.challenge.nonce w
    → IsErr (delete_peer state payload w).0 × IsSame w (delete_peer state payload w).1
delete_peer-refuses state payload w h = Refuses-refusal _ (delete_peer-Refuses state w payload h)
