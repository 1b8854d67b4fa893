-- ===== src/Manager/DryRun.antt =====
-- src/manager.rs and src/persist.rs: a creation under the ASN of the server is a test, which leaves
-- the tables and the configuration as they are.
use dn42_autopeer.Base.{
  ℕ, zero, suc, arith, ◌+◌, ◌≡◌, refl, subst, true, Option, inl, inr, ◌⊎◌, if◌then◌else◌, ◌==◌,
  nat_eq, beq_refl, Bool-cases, ltb, ◌^◌, sym,
}
use dn42_autopeer.Base.Text.{Text}
use dn42_autopeer.Error.{SqlError}
use dn42_autopeer.External.{External}
use dn42_autopeer.Ipv6.{Ipv6}
use dn42_autopeer.WgPubKey.{WgPubKey}
use dn42_autopeer.Peer.{Peer}
use dn42_autopeer.World.Types.{World, Db}
use dn42_autopeer.World.Action.{pure}
use dn42_autopeer.World.Keeps.{
  Keeps, IsStable, Leaves, Keeps-bind, Keeps-pure, Keeps-raise, Keeps-call, Keeps-execute,
  Keeps-elim_Bool, Keeps-if, Keeps-acquire, keeps_rules,
}
use dn42_autopeer.Persist.{
  pending, stage, reserve_peer, peer_exists, allocate_peer_id, next_peer_id,
}
use dn42_autopeer.Netlink.Keeps.{listen_port_in_use-Reads}
use dn42_autopeer.Manager.State.{PeerManager}
use dn42_autopeer.Manager.Create.{try_ports, reserve, provision, create_peer}

-- Nothing but the sequences of the serial keys and the answers may differ.
pub record IsUntouched (before after : World) : Type 0 where
  pub peers : after.db.peers ≡ before.db.peers
  pub nonces : after.db.nonces ≡ before.db.nonces
  pub events : after.db.events ≡ before.db.events
  pub links : after.links ≡ before.links
  pub bird : after.bird ≡ before.bird
  pub nft_batch : after.nft_batch ≡ before.nft_batch

pub IsUntouched-refl : (w : World) → IsUntouched w w
IsUntouched-refl w = record {
  peers = refl;
  nonces = refl;
  events = refl;
  links = refl;
  bird = refl;
  nft_batch = refl;
}

module _ (before : World) where
  pub IsUntouched-IsStable : IsStable (IsUntouched before)
  IsUntouched-IsStable = record {
    advances = λ w h. record {
      peers = h.peers;
      nonces = h.nonces;
      events = h.events;
      links = h.links;
      bird = h.bird;
      nft_batch = h.nft_batch;
    };
  }

  -- Only the sequences differ.
  pub sequences :
      (w : World) (next_event next_peer : ℕ)
      → IsUntouched before w
      → IsUntouched before
          (record w { db = record w.db { next_event = next_event; next_peer = next_peer } })
  sequences w next_event next_peer h = record {
    peers = h.peers;
    nonces = h.nonces;
    events = h.events;
    links = h.links;
    bird = h.bird;
    nft_batch = h.nft_batch;
  }

  stage-IsUntouched :
      {A : Type 0} (w : World) (o : SqlError ⊎ (A × Db))
      → IsUntouched before w
      → Leaves (λ db. IsUntouched before (record w { db = db })) (stage o w.db)
  unfolding stage
  stage-IsUntouched w (inl e) h = tt
  stage-IsUntouched w (inr (a, db)) h = sequences w db.next_event db.next_peer h

  pub reserve_peer-IsUntouched : (peer : Peer) → Keeps (IsUntouched before) (reserve_peer peer true)
  unfolding reserve_peer pending
  reserve_peer-IsUntouched peer = Keeps-bind _ _ (Keeps-acquire IsUntouched-IsStable) λ _.
      Keeps-bind _ _ (Keeps-call _ _ IsUntouched-IsStable (λ a w h. h)) λ _.
        Keeps-bind _ _ (Keeps-execute _ IsUntouched-IsStable (λ now w h. stage-IsUntouched w _ h))
          λ r. Keeps-bind _ _ (Keeps-call _ _ IsUntouched-IsStable (λ a w h. h)) (λ _. Keeps-pure _)

  reserve_own-IsUntouched :
      (asn : ℕ) (peer : Peer) → Keeps (IsUntouched before) (reserve_peer peer (asn == asn))
  reserve_own-IsUntouched asn peer =
      subst (λ test. Keeps (IsUntouched before) (reserve_peer peer test)) (sym (beq_refl asn))
        (reserve_peer-IsUntouched peer)

  pub peer_exists-IsUntouched :
      (asn : ℕ) (name : Text) → Keeps (IsUntouched before) (peer_exists asn name)
  unfolding peer_exists
  peer_exists-IsUntouched asn name =
      Keeps-bind _ _ (Keeps-acquire IsUntouched-IsStable)
        λ _. Keeps-execute _ IsUntouched-IsStable (λ now w h. h)

  next_peer_id-Leaves :
      (now : ℕ) (w : World)
      → IsUntouched before w
      → Leaves (λ db. IsUntouched before (record w { db = db })) (next_peer_id now w.db)
  unfolding next_peer_id
  next_peer_id-Leaves now w h = elim (Bool-cases (ltb w.db.next_peer (2 ^ 31))) [
    | inl e ↦ rw e (sequences w w.db.next_event (suc w.db.next_peer) h)
    | inr e ↦ rw e tt
  ]

  allocate-IsUntouched : Keeps (IsUntouched before) allocate_peer_id
  unfolding allocate_peer_id
  allocate-IsUntouched =
      search (keeps_rules, IsUntouched-IsStable, Keeps-execute, next_peer_id-Leaves) depth 9

  module _ (self : PeerManager) where
    try_ports-IsUntouched :
        (left increment : ℕ) (name : Text) (peer_at : ℕ → Peer)
        → Keeps (IsUntouched before) (try_ports self left increment self.local_asn name peer_at)
    unfolding try_ports
    try_ports-IsUntouched zero increment name peer_at = Keeps-raise _
    try_ports-IsUntouched (suc left) increment name peer_at =
        let later = try_ports-IsUntouched left (increment + 1) name peer_at in
        Keeps-bind _ _ (listen_port_in_use-Reads _ IsUntouched-IsStable _ _) λ busy.
          Keeps-elim_Bool busy _ _ later (
            Keeps-bind _ _ (reserve_own-IsUntouched self.local_asn _) λ reserved.
              Keeps-elim_Bool reserved _ _ (Keeps-pure _) (
                Keeps-bind _ _ (peer_exists-IsUntouched self.local_asn name)
                  λ exists. Keeps-elim_Bool exists _ _ (Keeps-raise _) later))

    module _ ⦃lib : External⦄ where
      create_own-IsUntouched :
          (name : Text) (pubkey : WgPubKey) (endpoint : Option Text)
          (link_local : Option (Ipv6 × Ipv6)) (mtu : Option ℕ)
          → Keeps
              (IsUntouched before)
              (create_peer self self.local_asn name pubkey endpoint link_local mtu)
      unfolding create_peer reserve
      create_own-IsUntouched name pubkey endpoint link_local mtu =
          Keeps-bind _ _ (peer_exists-IsUntouched self.local_asn name) λ exists.
            Keeps-if exists _ _ (λ _. Keeps-raise _)
              λ _.
                Keeps-bind _ _
                  (Keeps-bind _ _ allocate-IsUntouched λ id. try_ports-IsUntouched _ _ _ _)
                  λ peer. own self.local_asn peer
        where
          own :
              (asn : ℕ) (peer : Peer)
              → Keeps (IsUntouched before) (if asn == asn then pure peer else provision self peer)
          own asn peer =
              Keeps-if (asn == asn) _ _ (λ _. Keeps-pure _) (λ e. ground (arith, beq_refl asn, e))

-- A creation under the ASN of the server is a test: whatever the calls answer and whether or not
-- it succeeds, the rows of all tables, the links, the configuration of BIRD and the port set are
-- afterwards what they were before.
pub create_peer-IsUntouched :
    ⦃lib : External⦄ (self : PeerManager) (name : Text) (pubkey : WgPubKey) (endpoint : Option Text)
    (link_local : Option (Ipv6 × Ipv6)) (mtu : Option ℕ) (w : World)
    → IsUntouched w (create_peer self self.local_asn name pubkey endpoint link_local mtu w).1
create_peer-IsUntouched self name pubkey endpoint link_local mtu w =
    (create_own-IsUntouched w self name pubkey endpoint link_local mtu).at w (IsUntouched-refl w)
