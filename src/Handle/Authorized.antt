-- ===== src/Handle/Authorized.antt =====
-- src/handle.rs: a change that is carried out was signed for, under the fields of its request.
use dn42_autopeer.Base.{◌≡◌, Option, ℕ}
use dn42_autopeer.Base.Text.{Text}
use dn42_autopeer.Ipv6.{Ipv6}
use dn42_autopeer.External.{External}
use dn42_autopeer.Result.{Result, ok, traverse}
use dn42_autopeer.World.Types.{World}
use dn42_autopeer.World.Action.{Action, lift, ◌>>=◌}
use dn42_autopeer.World.Follows.{Reads}
use dn42_autopeer.World.Triple.{
  Triple-bind, Triple-lift, Triple-fact, Triple-after, Partial, Partial-Keeps,
}
use dn42_autopeer.Challenge.{build_create_message, build_update_message, build_delete_message}
use dn42_autopeer.Challenge.Sound.{IsAuthorized, authorize-Sound}
use dn42_autopeer.Handle.Parse.{parse_peer_name, parse_endpoint, parse_link_local}
use dn42_autopeer.Handle.Requests.{Challenge, CreatePeerReq, UpdatePeerReq, DeletePeerReq, AppState}
use dn42_autopeer.Handle.Handlers.{create_peer, update_peer, delete_peer, authorize}

-- The challenge of a request opens the message.
abbrev pub Opens : ⦃lib : External⦄ → World → AppState → ℕ → Challenge → Text → Type 0
Opens w state asn challenge message =
    IsAuthorized w state.authorizer.registry_url asn challenge.auth challenge.signature
      challenge.nonce challenge.expires_at message

pub record IsSignedCreate ⦃lib : External⦄ (w : World) (state : AppState) (payload : CreatePeerReq)
    : Type 0 where
  pub name : Text
  pub endpoint : Option Text
  pub link_local : Option (Ipv6 × Ipv6)
  pub is_name : parse_peer_name payload.peer_name ≡ ok name
  pub is_endpoint : parse_endpoint payload.endpoint ≡ ok endpoint
  pub is_pair :
      parse_link_local payload.manual_lla payload.local_ll_ip payload.remote_ll_ip ≡ ok link_local
  pub opens : Opens w state payload.asn payload.challenge (
      build_create_message payload.asn name payload.pubkey endpoint link_local payload.mtu
        payload.challenge.nonce payload.challenge.expires_at)

pub record IsSignedUpdate ⦃lib : External⦄ (w : World) (state : AppState) (payload : UpdatePeerReq)
    : Type 0 where
  pub name : Text
  pub endpoint : Option (Option Text)
  pub link_local : Option (Ipv6 × Ipv6)
  pub is_name : parse_peer_name payload.peer_name ≡ ok name
  pub is_endpoint : traverse parse_endpoint payload.endpoint ≡ ok endpoint
  pub is_pair :
      parse_link_local payload.manual_lla payload.local_ll_ip payload.remote_ll_ip ≡ ok link_local
  pub opens : Opens w state payload.asn payload.challenge (
      build_update_message payload.asn name payload.pubkey endpoint link_local payload.mtu
        payload.challenge.nonce payload.challenge.expires_at)

pub record IsSignedDelete ⦃lib : External⦄ (w : World) (state : AppState) (payload : DeletePeerReq)
    : Type 0 where
  pub name : Text
  pub is_name : parse_peer_name payload.peer_name ≡ ok name
  pub opens :
      Opens w state payload.asn payload.challenge
        (build_delete_message payload.asn name payload.challenge.nonce payload.challenge.expires_at)

module _ {A B : Type 0} {P : World → Type 0} {F : Type 0} where
  -- A computed value, and then a rest that knows where it came from.
  parsed :
      (r : Result A) (f : A → Action B)
      → ((a : A) → r ≡ ok a → Partial P (f a) (λ _ _. F))
      → Partial P (lift r >>= f) (λ _ _. F)
  parsed r f k = Triple-bind _ _ (Triple-lift r (λ e w h. tt)) (λ a. Triple-fact _ (λ e. k a e))

  -- What was shown stays shown, whatever is done then.
  shown :
      (m : Action A) (f : A → Action B) → Partial P m (λ _ _. F) → Partial P (m >>= f) (λ _ _. F)
  shown m f t = Triple-bind _ _ t (λ a. Partial-Keeps _ (record { at = λ w h. h }))

module _ ⦃lib : External⦄ (state : AppState) (before : World) where
  pub create_peer-Sound :
      (payload : CreatePeerReq)
      → Partial
          (Reads before)
          (create_peer state payload)
          (λ _ _. IsSignedCreate before state payload)
  unfolding create_peer authorize
  create_peer-Sound payload = parsed _ _ λ name is_name. parsed _ _ λ endpoint is_endpoint.
      parsed _ _ λ link_local is_pair. shown _ _ (
        Triple-after _ _
          (λ _ _ opens. record {
            name = name;
            endpoint = endpoint;
            link_local = link_local;
            is_name = is_name;
            is_endpoint = is_endpoint;
            is_pair = is_pair;
            opens = opens;
          })
          (authorize-Sound before _ _ _ _ _ _ _))

  pub update_peer-Sound :
      (payload : UpdatePeerReq)
      → Partial
          (Reads before)
          (update_peer state payload)
          (λ _ _. IsSignedUpdate before state payload)
  unfolding update_peer authorize
  update_peer-Sound payload = parsed _ _ λ name is_name. parsed _ _ λ endpoint is_endpoint.
      parsed _ _ λ link_local is_pair. shown _ _ (
        Triple-after _ _
          (λ _ _ opens. record {
            name = name;
            endpoint = endpoint;
            link_local = link_local;
            is_name = is_name;
            is_endpoint = is_endpoint;
            is_pair = is_pair;
            opens = opens;
          })
          (authorize-Sound before _ _ _ _ _ _ _))

  pub delete_peer-Sound :
      (payload : DeletePeerReq)
      → Partial
          (Reads before)
          (delete_peer state payload)
          (λ _ _. IsSignedDelete before state payload)
  unfolding delete_peer authorize
  delete_peer-Sound payload = parsed _ _ λ name is_name. shown _ _ (
      Triple-after _ _ (λ _ _ opens. record { name = name; is_name = is_name; opens = opens })
        (authorize-Sound before _ _ _ _ _ _ _))
