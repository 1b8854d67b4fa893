-- ===== src/Manager/Nft.antt =====
-- src/manager.rs: the port set of nftables.
use dn42_autopeer.Base.{ℕ, List, [], ◌∷◌, ◌++◌, map, keep, leb, if◌then◌else◌, ◌==◌, nat_eq}
use dn42_autopeer.Base.Text.{Text, text, trim, join}
use dn42_autopeer.Base.Decimal.{decimal}
use dn42_autopeer.Error.{PeerError}
use dn42_autopeer.External.{External}
use dn42_autopeer.Peer.{Peer, is_desired}
use dn42_autopeer.World.Types.{Failure}
use dn42_autopeer.World.Action.{Action, call, ◌>>=◌, ◌>>◌}
use dn42_autopeer.Persist.{list_peers}

unfoldable pub insert_port : ℕ → List ℕ → List ℕ
insert_port p [] = p ∷ []
insert_port p (q ∷ ports) =
    let rest = insert_port p ports in if leb p q then p ∷ q ∷ ports else q ∷ rest

-- `sort_unstable`
unfoldable pub sort_ports : List ℕ → List ℕ
sort_ports [] = []
sort_ports (p ∷ ports) = insert_port p (sort_ports ports)

-- `dedup`: of equal neighbours the first stays.
unfoldable pub dedup : List ℕ → List ℕ
dedup [] = []
dedup (p ∷ []) = p ∷ []
dedup (p ∷ q ∷ ports) = let rest = dedup (q ∷ ports) in if p == q then rest else p ∷ rest

-- The ports of the peers that are neither being deleted nor disabled.
unfoldable pub desired_ports : List Peer → List ℕ
desired_ports peers = dedup (sort_ports (map (λ (p : Peer). p.listen_port) (keep is_desired peers)))

unfoldable pub nft_port_batch : List ℕ → Text
nft_port_batch [] = text "flush set inet nixos-fw autopeer-ports\n"
nft_port_batch (p ∷ ports) =
    text "flush set inet nixos-fw autopeer-ports\n"
    ++ (text "add element inet nixos-fw autopeer-ports { "
        ++ (join (text ", ") (map decimal (p ∷ ports)) ++ text " }\n"))

nft_error : Text → Failure → PeerError
nft_error prefix f =
    if f.timed_out
    then PeerError.nftables (text "nft did not finish within 10 seconds")
    else PeerError.nftables (prefix ++ f.io.message)

nft_status : Failure → PeerError
nft_status f =
    if f.timed_out
    then PeerError.nftables (text "nft did not finish within 10 seconds")
    else PeerError.nftables
        (text "nft failed with status " ++ (f.io.message ++ (text ": " ++ trim f.detail)))

-- The child process is started, is sent the batch, ends, and has applied the batch if its status
-- says so.
unfoldable pub run_nft_batch : Text → Action Unit
unfolding nft_error nft_status
run_nft_batch batch = do
  call (λ a w. w) (nft_error (text "Could not start nft: "))
  call (λ a w. w) (nft_error (text "Could not write the nftables batch: "))
  call (λ a w. w) (nft_error (text "Could not read the nft result: "))
  call (λ a w. record w { nft_batch = batch }) nft_status

unfoldable pub sync_nft_ports_for : List Peer → Action Unit
sync_nft_ports_for peers = run_nft_batch (nft_port_batch (desired_ports peers))

module _ ⦃lib : External⦄ where
  unfoldable pub sync_nft_ports : Action Unit
  sync_nft_ports = do peers ← list_peers; sync_nft_ports_for peers
