-- ===== src/Manager/Search/Loop.antt =====
-- src/manager.rs: the loop of `reserve_peer` over the ports.
use dn42_autopeer.Base.{
  ℕ, zero, suc, ◌+◌, ◌<◌, ◌≡◌, ◌≢◌, refl, ◌∙◌, sym, subst, arith, any, Bool, true, false, none, ◌⊎◌,
  inl, inr, ◌==◌, nat_eq, text_eq, Bool-cases, ltb,
}
use dn42_autopeer.Base.Int.{int_eq}
use dn42_autopeer.Base.Text.{Text}
use dn42_autopeer.Error.{PeerError}
use dn42_autopeer.World.Action.{Action, acquire}
use dn42_autopeer.Netlink.{listen_port_in_use}
use dn42_autopeer.Peer.{Peer}
use dn42_autopeer.World.Types.{World}
use dn42_autopeer.World.Triple.{Triple, Triple-bind, Triple-pure, Triple-raise, Triple-fact}
use dn42_autopeer.World.Calls.{Triple-errors, Triple-call, Triple-statement, Triple-elim_Bool}
use dn42_autopeer.Persist.{conflicts, peer_to_row, peer_exists}
use dn42_autopeer.Netlink.InUse.{listens, listen_port_in_use-Gives}
use dn42_autopeer.Manager.State.{PeerManager}
use dn42_autopeer.Manager.Create.{candidate_port, try_ports}
use dn42_autopeer.Manager.DryRun.{IsUntouched, IsUntouched-IsStable}
use dn42_autopeer.Manager.Search.Goal.{no_free_port, IsOther, IsStored, IsTaken, IsVacant, clashes}
use dn42_autopeer.Manager.Search.Insert.{reserve_peer-Gives}

module _ (before : World) (asn : ℕ) (name : Text) where
  peer_exists-Gives :
      Triple (IsUntouched before) (peer_exists asn name) (λ _. IsUntouched before) IsOther
  unfolding peer_exists acquire
  peer_exists-Gives =
      let stable = IsUntouched-IsStable before in
      Triple-bind _ _ (Triple-call _ _ stable (λ a w h. h) (λ f w e. cc))
        λ _. Triple-statement _ stable (λ now w h. h) (λ e w p. cc)

  -- The peer that the search is for, at a port, and whether it is a test.
  module _ (self : PeerManager) (peer_at : ℕ → Peer)
      (same : (port : ℕ)
        → conflicts (peer_to_row 0 (peer_at port)) ≡ clashes before asn name port) where
    abbrev pub test : Bool
    test = asn == self.local_asn

    -- The search returns the first port in its order that is not taken.
    abbrev pub IsFound : Peer → World → Type 0
    IsFound peer w =
        (increment : ℕ) × (increment < 10000)
        × (peer ≡ peer_at (candidate_port asn increment))
        × IsVacant before asn name (candidate_port asn increment)
        × IsStored before test peer w.db.peers
        × ((i : ℕ) → i < increment → IsTaken before asn name (candidate_port asn i))

    abbrev pub IsExhausted : PeerError → World → Type 0
    IsExhausted e w =
        (e ≢ no_free_port) ⊎ ((i : ℕ) → i < 10000 → IsTaken before asn name (candidate_port asn i))

    next :
        (increment : ℕ)
        → ((i : ℕ) → i < increment → IsTaken before asn name (candidate_port asn i))
        → IsTaken before asn name (candidate_port asn increment)
        → (i : ℕ) → i < increment + 1
        → IsTaken before asn name (candidate_port asn i)
    next increment earlier here i less = elim (Bool-cases (ltb i increment)) [
      | inl t ↦ earlier i (ground (arith, t))
      | inr t ↦
          let e : increment ≡ i = ground (arith, t, less) in
          subst (λ n. IsTaken before asn name (candidate_port asn n)) e here
    ]

    weaken :
        {A : Type 0} {P : World → Type 0} {Q : A → World → Type 0} (m : Action A)
        → Triple P m Q IsOther
        → Triple P m Q IsExhausted
    weaken m t = Triple-errors _ m (λ e w h. inl h) t

    in_use :
        (port : ℕ)
        → Triple
            (IsUntouched before)
            (listen_port_in_use port none)
            (λ b w. (b ≡ listens port before.links) × IsUntouched before w)
            IsOther
    in_use port =
        listen_port_in_use-Gives (IsUntouched before) (IsUntouched-IsStable before) before.links
          (λ w h. h.links) IsOther (λ source iface w q. cc) port

    no_clash :
        (port : ℕ)
        → any (conflicts (peer_to_row 0 (peer_at port))) before.db.peers ≡ false
        → IsVacant before asn name port
    no_clash port h = subst (λ f. any f before.db.peers ≡ false) (same port) h

    clash :
        (port : ℕ)
        → any (conflicts (peer_to_row 0 (peer_at port))) before.db.peers ≡ true
        → any (clashes before asn name port) before.db.peers ≡ true
    clash port h = subst (λ f. any f before.db.peers ≡ true) (same port) h

    pub try_ports-Gives :
        (left increment : ℕ)
        → left + increment ≡ 10000
        → ((i : ℕ) → i < increment → IsTaken before asn name (candidate_port asn i))
        → Triple
            (IsUntouched before)
            (try_ports self left increment asn name peer_at)
            IsFound
            IsExhausted
    unfolding try_ports
    try_ports-Gives zero increment e earlier =
        Triple-raise _ (λ w h. inr (λ i less. earlier i (omega (arith, e, less))))
    try_ports-Gives (suc left) increment e earlier =
        let port = candidate_port asn increment in
        let later = λ (h : IsTaken before asn name port).
          try_ports-Gives left (increment + 1) (omega (arith, e)) (next increment earlier h) in
        Triple-bind _ _ (weaken _ (in_use port)) λ busy. Triple-fact _ λ b.
          Triple-elim_Bool busy _ _ (λ t. later (inl (sym b ∙ t)))
            λ t.
              Triple-bind _ _ (weaken _ (reserve_peer-Gives before test (peer_at port))) λ reserved.
                Triple-elim_Bool reserved _ _
                  (λ u. rw u (
                    Triple-pure _
                      λ w h. (increment, omega (arith, e), refl, no_clash port h.0, h.1, earlier)))
                  λ u. rw u (
                    Triple-fact _ λ c. Triple-bind _ _ (weaken _ peer_exists-Gives) λ exists.
                      Triple-elim_Bool exists _ _ (λ v. Triple-raise _ (λ w h. inl (λ q. cc)))
                        (λ v. later (inr (clash port c))))
