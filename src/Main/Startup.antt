-- ===== src/Main/Startup.antt =====
-- src/main.rs: `main` up to the point where the server listens, and `load_wg_keypair`.
use dn42_autopeer.Base.{ltb, ◌^◌, ℕ, [], Option, none, some, ◌==◌, text_eq}
use dn42_autopeer.Base.Text.{Text, text, parse_bits}
use dn42_autopeer.Ipv6.{IpAddr, parse_ip_addr}
use dn42_autopeer.External.{External}
use dn42_autopeer.World.Action.{Action, call, sql_error}
use dn42_autopeer.Challenge.{new_authorizer}
use dn42_autopeer.Manager.{PeerManager, recover, io_error}
use dn42_autopeer.Handle.{AppState}
use dn42_autopeer.Main.Boot.{Boot, started, expect, expect_some, assert, ◌>>=◌, ◌>>◌}

-- `std::env::var`: the value of a variable that is set.
abbrev pub Env : Type 0
Env = Text → Option Text

abbrev pub unwrap_or : Text → Option Text → Text
unwrap_or default none = default
unwrap_or default (some value) = value

-- What the process runs with.
pub record Server : Type 0 where
  pub state : AppState
  pub address : IpAddr
  pub port : ℕ

-- `PeerStore::new`: the pool is connected to a database that has its tables.
unfoldable pub open_store : Action Unit
open_store = call (λ a w. w) sql_error

module _ ⦃lib : External⦄ (env : Env) where
  unfoldable pub load_wg_keypair : Boot (Text × Text)
  load_wg_keypair = do
    private_key ← expect_some (text "WG_PRIVATE_KEY is required") (env (text "WG_PRIVATE_KEY"))
    public_key ← expect_some (text "WG_PUBLIC_KEY is required") (env (text "WG_PUBLIC_KEY"))
    parsed_private ←
        expect_some (text "WG_PRIVATE_KEY must be a valid WireGuard private key")
          (lib.key_from_base64 private_key)
    parsed_public ←
        expect_some (text "WG_PUBLIC_KEY must be a valid WireGuard public key")
          (lib.key_from_base64 public_key)
    assert (text "WG_PUBLIC_KEY does not match WG_PRIVATE_KEY")
        (lib.get_public parsed_private == parsed_public)
    started (private_key, public_key)

  unfoldable pub main : Boot Server
  main = do
    let bird_conf_dir = unwrap_or (text "/run/dn42-autopeer") (env (text "BIRD_CONF_DIR"))
    expect (text "Failed to create the BIRD config directory")
        (call (λ a w. w) (io_error bird_conf_dir))
    keys ← load_wg_keypair
    let public_endpoint = unwrap_or (text "dn42-node.example.com") (env (text "PUBLIC_ENDPOINT"))
    let bird_socket = unwrap_or (text "/run/bird/bird.ctl") (env (text "BIRD_SOCKET"))
    local_asn ←
        expect_some (text "LOCAL_ASN must be a valid u32 integer")
          (parse_bits 32 (unwrap_or (text "4242420291") (env (text "LOCAL_ASN"))))
    expect (text "Failed to initialize database") open_store
    authorizer ← expect (text "Failed to initialize request authentication") (
        new_authorizer (env (text "REGISTRY_TIMEOUT_SECS")) (env (text "REGISTRY_MAX_CONCURRENT"))
          (env (text "REGISTRY_API_URL")))
    -- the end of `RequestAuthorizer::new`: `Semaphore::new` panics above `Semaphore::MAX_PERMITS`,
    -- which is `usize::MAX >> 3`
    assert (text "a semaphore may not have more than MAX_PERMITS permits (2305843009213693951)")
        (ltb authorizer.registry_limit (2 ^ 61))
    let peer_manager : PeerManager = record {
      bird_conf_dir = bird_conf_dir;
      bird_socket = bird_socket;
      local_wg_privkey = keys.0;
      local_wg_pubkey = keys.1;
      public_endpoint = public_endpoint;
      local_asn = local_asn;
    }
    expect (text "Failed to recover peer state") (recover peer_manager)
    port ←
        expect_some (text "PORT must be a valid u16 integer")
          (parse_bits 16 (unwrap_or (text "8080") (env (text "PORT"))))
    listen_address ←
        expect_some (text "LISTEN_ADDRESS must be a valid IPv4 or IPv6 address")
          (parse_ip_addr (unwrap_or (text "127.0.0.1") (env (text "LISTEN_ADDRESS"))))
    expect (text "called `Result::unwrap()` on an `Err` value") (call (λ a w. w) (io_error []))
    started (record {
      state = record { manager = peer_manager; authorizer = authorizer };
      address = listen_address;
      port = port;
    })
