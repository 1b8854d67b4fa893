-- ===== src/World/Types.antt =====
-- The parts of the world.
use dn42_autopeer.Base.{ℕ, Bool, Option, List}
use dn42_autopeer.Base.Int.{ℤ}
use dn42_autopeer.Base.Text.{Text}
use dn42_autopeer.Ipv6.{Ipv6}
use dn42_autopeer.Error.{IoError, SqlError}

-- `serde_json::Value`, as far as the program looks into it.
mutual
  pub data Json : Type 0 where
    null : Json
    string : Text → Json
    array : Items → Json
    object : Fields → Json

  pub data Items : Type 0 where
    nil : Items
    cons : Json → Items → Items

  pub data Fields : Type 0 where
    end : Fields
    field : Text → Json → Fields → Fields

-- How a call fails: whether its effect took place, whether it ran into its timeout, and the error.
pub record Failure : Type 0 where
  pub applied : Bool
  pub timed_out : Bool
  pub sql : SqlError
  pub io : IoError
  pub detail : Text

-- What the outside decides at one call.
pub record Answer : Type 0 where
  pub fault : Option Failure
  -- the clock in seconds and in nanoseconds, the ID of the process, and a fresh random key in base64
  pub now : ℕ
  pub nanos : ℕ
  pub process_id : ℕ
  pub random_key : Text
  -- what a name resolves to
  pub addresses : List Text
  -- the lines that BIRD sends
  pub lines : List Text
  -- what each URL serves: a status, and a body unless it is not JSON
  pub http : Text → ℕ × Option Json
  -- whether the registry semaphore has a permit
  pub permit : Bool

-- A row of the table `peers`.
pub record Row : Type 0 where
  pub peer_id : ℤ
  pub asn : ℤ
  pub peer_name : Text
  pub iface_name : Text
  pub pubkey : Text
  pub endpoint : Option Text
  pub local_ll_ip : Text
  pub remote_ll_ip : Text
  pub status : Text
  pub listen_port : ℤ
  pub mtu : ℤ
  pub created_at : ℕ
  pub updated_at : ℕ

-- A row of the table `auth_nonces`.
pub record NonceRow : Type 0 where
  pub nonce : Text
  pub asn : ℤ
  pub expires_at : ℤ

-- A row of the table `peer_change_events`: its key, the operation, and the row of `peers`.
pub record EventRow : Type 0 where
  pub event_id : ℕ
  pub operation : Text
  pub snapshot : Row

-- The tables and the sequences of their serial keys.
pub record Db : Type 0 where
  pub peers : List Row
  pub nonces : List NonceRow
  pub events : List EventRow
  pub next_event : ℕ
  pub next_peer : ℕ

-- A peer of a WireGuard device.
pub record WgPeer : Type 0 where
  pub public_key : List ℕ
  pub wg_endpoint : Option Text
  pub allowed_ips : List (Text × ℕ)

-- A link of the kernel.
pub record Link : Type 0 where
  pub name : Text
  pub is_wireguard : Bool
  pub alias : Option Text
  pub link_mtu : ℕ
  pub is_up : Bool
  pub private_key : Option (List ℕ)
  pub port : Option ℕ
  pub wg_peers : List WgPeer
  pub addresses : List (Ipv6 × ℕ)

-- The directory of generations: the files of each, and the target of the link `current`.
pub record BirdDir : Type 0 where
  pub generations : List (Text × List (Text × Text))
  pub current : Option Text

pub record World : Type 0 where
  pub db : Db
  pub links : List Link
  pub bird : BirdDir
  -- the last batch that nft applied
  pub nft_batch : Text
  pub answers : ℕ → Answer
