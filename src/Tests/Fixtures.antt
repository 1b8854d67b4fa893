-- ===== src/Tests/Fixtures.antt =====
-- The inputs of the tests: the crates as concrete functions, a server, a peer, and a world.
use dn42_autopeer.Base.{List, ℕ, zero, suc, [], ◌∷◌, true, false, none, some, inr}
use dn42_autopeer.Base.Int.{pos}
use dn42_autopeer.Base.Text.{Text, text}
use dn42_autopeer.External.{External}
use dn42_autopeer.Ipv6.{Ipv6}
use dn42_autopeer.WgPubKey.{WgPubKey}
use dn42_autopeer.Peer.{Peer, PeerStatus}
use dn42_autopeer.World.Types.{
  World, Answer, Db, Row, Json, string, array, object, nil, cons, field, end,
}
use dn42_autopeer.Ipv6.{v4}
use dn42_autopeer.Main.{Server, listening}
use dn42_autopeer.Main.System.{System, down, up}
use dn42_autopeer.Challenge.{RequestAuthorizer}
use dn42_autopeer.Manager.{PeerManager}
use dn42_autopeer.Handle.{Challenge, CreatePeerReq, UpdatePeerReq, DeletePeerReq, AppState}

abbrev pub crates : External
crates = record {
  base64_decode = λ s. inr s;
  parse_url = λ s. none;
  key_from_base64 = λ s. some s;
  get_public = λ k. k;
  pgp_public_key = λ s. inr s;
  pgp_fingerprint = λ s. s;
  pgp_signature = λ s. inr s;
  pgp_verify = λ k s m. none;
  ssh_public_key = λ s. inr s;
  ssh_signature = λ s. inr s;
  ssh_verify = λ k n s m. none;
  valid_interface_name = λ s. true;
}

abbrev pub letters : ℕ → Text
letters zero = []
letters (suc n) = b'A' ∷ letters n

abbrev pub key : WgPubKey
key = record { value = letters 44 }

abbrev pub link_local : ℕ → Ipv6
link_local n = record { s0 = 0xfe80; s1 = 0; s2 = 0; s3 = 0; s4 = 0; s5 = 0; s6 = 0; s7 = n }

abbrev pub peer : Peer
peer = record {
  peer_id = 7;
  peer_name = b'a' ∷ b'-' ∷ b'1' ∷ [];
  iface_name = b'w' ∷ b'g' ∷ b'p' ∷ b'7' ∷ [];
  asn = 4242420001;
  pubkey = key;
  endpoint = none;
  local_ll_ip = link_local 1;
  remote_ll_ip = link_local 2;
  status = PeerStatus.active;
  listen_port = 20001;
  mtu = 1420;
}

abbrev pub stored_nonce : Text
stored_nonce = b'n' ∷ b'1' ∷ []

abbrev pub other_nonce : Text
other_nonce = b'n' ∷ b'2' ∷ []

-- A calm outside: no call fails, and the clock shows 100 seconds.
abbrev pub calm : ℕ → Answer
calm n = record {
  fault = none;
  now = 100;
  nanos = 100;
  process_id = 1;
  random_key = other_nonce;
  addresses = [];
  lines = [];
  http = λ url. (404, none);
  permit = true;
}

-- One nonce is stored, and no peer.
abbrev pub db : Db
db = record {
  peers = [];
  nonces = record { nonce = stored_nonce; asn = pos 4242420001; expires_at = pos 400 } ∷ [];
  events = [];
  next_event = 1;
  next_peer = 1;
}

abbrev pub world : World
world = record {
  db = db;
  links = [];
  bird = record { generations = []; current = none };
  nft_batch = [];
  answers = calm;
}

abbrev pub manager : PeerManager
manager = record {
  bird_conf_dir = [];
  bird_socket = [];
  local_wg_privkey = letters 44;
  local_wg_pubkey = letters 44;
  public_endpoint = [];
  local_asn = 4242420000;
}

abbrev pub authorizer : RequestAuthorizer
authorizer = record { registry_url = []; registry_limit = 16; registry_timeout = 10 }

abbrev pub state : AppState
state = record { manager = manager; authorizer = authorizer }

-- A challenge with a nonce that is not stored.
abbrev pub challenge : Challenge
challenge = record { auth = []; signature = []; nonce = other_nonce; expires_at = pos 400 }

abbrev pub create_request : CreatePeerReq
create_request = record {
  asn = 4242420001;
  peer_name = peer.peer_name;
  pubkey = key;
  endpoint = none;
  manual_lla = false;
  local_ll_ip = none;
  remote_ll_ip = none;
  mtu = none;
  challenge = challenge;
}

abbrev pub update_request : UpdatePeerReq
update_request = record {
  asn = 4242420001;
  peer_name = peer.peer_name;
  pubkey = key;
  endpoint = none;
  manual_lla = false;
  local_ll_ip = none;
  remote_ll_ip = none;
  mtu = none;
  challenge = challenge;
}

abbrev pub delete_request : DeletePeerReq
delete_request = record { asn = 4242420001; peer_name = peer.peer_name; challenge = challenge }

-- A registry with the ASN 7, whose maintainer M has the empty text as a key.
abbrev pub registry : Json
registry = object (
    field (text "aut-num/AS7")
      (object (
        field (text "Attributes")
          (array (
            cons (array (cons (string (text "mnt-by")) (cons (string (text "M (mntner/M)")) nil)))
              nil))
          end))
      (field (text "mntner/M")
        (object (
          field (text "Attributes")
            (array (cons (array (cons (string (text "auth")) (cons (string []) nil))) nil)) end))
        end))

-- A nonce of the ASN 7 is stored, and the registry answers.
abbrev pub registered_world : World
registered_world = record world {
  db = record db {
    nonces = record { nonce = stored_nonce; asn = pos 7; expires_at = pos 400 } ∷ [];
  };
  answers = λ n. record (calm n) { http = λ url. (200, some registry) };
}

abbrev pub server : Server
server = record { state = state; address = v4 (127 ∷ 0 ∷ 0 ∷ 1 ∷ []); port = 8080 }

abbrev pub running : System
running = record { process = up server listening; world = world }

abbrev pub stopped : System
stopped = record { process = down; world = world }

-- A row of `peers` that was deleted.
abbrev pub deleted_row : Row
deleted_row = record {
  peer_id = pos 7;
  asn = pos 7;
  peer_name = b'a' ∷ [];
  iface_name = b'w' ∷ [];
  pubkey = letters 44;
  endpoint = none;
  local_ll_ip = b':' ∷ b':' ∷ b'1' ∷ [];
  remote_ll_ip = b':' ∷ b':' ∷ b'2' ∷ [];
  status = text "deleting";
  listen_port = pos 20001;
  mtu = pos 1420;
  created_at = 0;
  updated_at = 0;
}

-- A deletion that the listener has not followed yet.
abbrev pub pending_world : World
pending_world = record world {
  db = record db {
    events = record { event_id = 1; operation = text "DELETE"; snapshot = deleted_row } ∷ [];
    next_event = 2;
  };
}

abbrev pub old_files : List (Text × Text)
old_files = (b'x' ∷ [], []) ∷ []

-- One generation, to which the link leads.
abbrev pub bird_world : World
bird_world = record world {
  bird = record {
    generations = (b'g' ∷ [], old_files) ∷ [];
    current = some (text "generations/g");
  };
}

-- BIRD greets and accepts.
abbrev pub bird_answers : World
bird_answers = record world {
  answers =
      λ n. record (calm n) { lines = text "0001 BIRD ready.\n" ∷ text "0003 Reconfigured\n" ∷ [] };
}
