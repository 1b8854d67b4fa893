-- ===== src/Manager/Ports.antt =====
-- src/manager.rs: the ports that are tried for a peer, and the ports that nftables opens.
use dn42_autopeer.Base.{
  ℕ, ◌+◌, ◌-◌, subst, ◌%◌, ◌≡◌, refl, ◌∙◌, sym, List, [], ◌≢◌, ◌∷◌, Bool, false, ◌&&◌, ◌||◌, keep,
  any, map, ◌==◌, nat_eq, arith, ◌≤◌, ◌<◌, Bool-cases, inl, inr,
}
use dn42_autopeer.Peer.{Peer, is_desired}
use dn42_autopeer.Manager.Create.{candidate_port}
use dn42_autopeer.Manager.Nft.{insert_port, sort_ports, dedup, desired_ports}

-- Each port from 20000 through 29999 is that of an increment below ten thousand.
pub candidate_port-covers :
    (asn port : ℕ)
    → 20000 ≤ port
    → port < 30000
    → (increment : ℕ) × ((increment < 10000) × (candidate_port asn increment ≡ port))
unfolding candidate_port
candidate_port-covers asn port low high =
    ((port + 20000 - asn % 10000) % 10000, (omega arith, omega arith))

abbrev pub is_member : ℕ → List ℕ → Bool
is_member p ports = any (λ q. q == p) ports

-- Every port is smaller than the one behind it.
abbrev pub IsIncreasing : List ℕ → Type 0
IsIncreasing [] = Unit
IsIncreasing (p ∷ []) = Unit
IsIncreasing (p ∷ q ∷ ports) = (p < q) × IsIncreasing (q ∷ ports)

abbrev IsSorted : List ℕ → Type 0
IsSorted [] = Unit
IsSorted (p ∷ []) = Unit
IsSorted (p ∷ q ∷ ports) = (p ≤ q) × IsSorted (q ∷ ports)

insert_port-IsSorted : (p : ℕ) (ports : List ℕ) → IsSorted ports → IsSorted (insert_port p ports)
unfolding insert_port
insert_port-IsSorted p [] h = tt
insert_port-IsSorted p (q ∷ []) h = ground arith
insert_port-IsSorted p (q ∷ r ∷ ports) h = ground (arith, insert_port-IsSorted p (r ∷ ports) h.1)

sort_ports-IsSorted : (ports : List ℕ) → IsSorted (sort_ports ports)
unfolding sort_ports
sort_ports-IsSorted [] = tt
sort_ports-IsSorted (p ∷ ports) = insert_port-IsSorted p _ (sort_ports-IsSorted ports)

insert_port-member :
    (p q : ℕ) (ports : List ℕ)
    → any (λ r. r == p) (insert_port q ports) ≡ ((q == p) || any (λ r. r == p) ports)
unfolding insert_port
insert_port-member p q [] = refl
insert_port-member p q (r ∷ ports) = ground (arith, insert_port-member p q ports)

sort_ports-member :
    (p : ℕ) (ports : List ℕ) → any (λ r. r == p) (sort_ports ports) ≡ any (λ r. r == p) ports
unfolding sort_ports
sort_ports-member p [] = refl
sort_ports-member p (q ∷ ports) =
    ground (arith, insert_port-member p q (sort_ports ports), sort_ports-member p ports)

dedup-member : (p : ℕ) (ports : List ℕ) → any (λ r. r == p) (dedup ports) ≡ any (λ r. r == p) ports
unfolding dedup
dedup-member p [] = refl
dedup-member p (q ∷ []) = refl
dedup-member p (q ∷ r ∷ ports) = ground (arith, dedup-member p (r ∷ ports))

dedup-cons : (p : ℕ) (ports : List ℕ) → (rest : List ℕ) × (dedup (p ∷ ports) ≡ p ∷ rest)
unfolding dedup
dedup-cons p [] = ([], refl)
dedup-cons p (q ∷ ports) = elim (Bool-cases (p == q)) [
  | inl e ↦ let (rest, same) = dedup-cons q ports in (rest, ground (arith, e, same))
  | inr e ↦ (dedup (q ∷ ports), ground (arith, e))
]

cons-IsIncreasing :
    (p q : ℕ) (ports rest : List ℕ)
    → p < q
    → ports ≡ q ∷ rest
    → IsIncreasing ports
    → IsIncreasing (p ∷ ports)
cons-IsIncreasing p q ports rest less e h =
    subst (λ xs. IsIncreasing (p ∷ xs)) (sym e) (less, subst IsIncreasing e h)

dedup-IsIncreasing : (ports : List ℕ) → IsSorted ports → IsIncreasing (dedup ports)
unfolding dedup
dedup-IsIncreasing [] h = tt
dedup-IsIncreasing (p ∷ []) h = tt
dedup-IsIncreasing (p ∷ q ∷ ports) h =
    let later = dedup-IsIncreasing (q ∷ ports) h.1 in
    let (rest, same) = dedup-cons q ports in
    elim (Bool-cases (p == q)) [
      | inl e ↦ ground (arith, e, later)
      | inr e ↦
          subst IsIncreasing (skip-unequal p q ports e)
            (cons-IsIncreasing p q _ rest (omega (arith, h.0, differ p q e)) same later)
    ]
  where
    differ : (p q : ℕ) → (p == q) ≡ false → p ≢ q
    differ p q e = ground arith

    skip-unequal :
        (p q : ℕ) (ports : List ℕ)
        → (p == q) ≡ false
        → (p ∷ dedup (q ∷ ports)) ≡ dedup (p ∷ q ∷ ports)
    skip-unequal p q ports e = ground (arith, e)

desired-member :
    (p : ℕ) (peers : List Peer)
    → any (λ q. q == p) (map (λ (peer : Peer). peer.listen_port) (keep is_desired peers))
      ≡ any (λ (peer : Peer). is_desired peer && peer.listen_port == p) peers
desired-member p [] = refl
desired-member p (peer ∷ peers) = elim (Bool-cases (is_desired peer)) [
  | inl e ↦ ground (arith, e, desired-member p peers)
  | inr e ↦ ground (arith, e, desired-member p peers)
]

-- The ports that are sent to nftables are strictly increasing, so none is there twice, and a port is
-- among them exactly if a peer that is neither being deleted nor disabled listens on it.
pub desired_ports-exact :
    (peers : List Peer) (p : ℕ)
    → IsIncreasing (desired_ports peers)
      × (is_member p (desired_ports peers)
          ≡ any (λ (peer : Peer). is_desired peer && peer.listen_port == p) peers)
unfolding desired_ports
desired_ports-exact peers p =
    let wanted = map (λ (peer : Peer). peer.listen_port) (keep is_desired peers) in
    (
      dedup-IsIncreasing (sort_ports wanted) (sort_ports-IsSorted wanted),
      dedup-member p (sort_ports wanted) ∙ sort_ports-member p wanted ∙ desired-member p peers,
    )
