-- ===== src/Main/Answers.antt =====
-- src/main.rs: every request is answered, and a success was signed for.
use dn42_autopeer.Base.{ℕ, ◌≡◌, refl, ◌≤◌, ◌⊎◌, inl, inr}
use dn42_autopeer.Error.{into_response}
use dn42_autopeer.Error.Laws.{into_response-log}
use dn42_autopeer.Result.{Result, ok, err}
use dn42_autopeer.External.{External}
use dn42_autopeer.World.Types.{World}
use dn42_autopeer.World.Action.{Action, outcome, pure, ◌>>=◌, continue}
use dn42_autopeer.World.Follows.{Reads, Reads-refl}
use dn42_autopeer.World.Triple.{
  Ends, Partial, Partial-Keeps, Triple-bind, Triple-pure, Triple-before,
}
use dn42_autopeer.Handle.{
  AppState, CreatePeerReq, UpdatePeerReq, DeletePeerReq, Reply, create_challenge, get_peers,
  create_peer, update_peer, delete_peer,
}
use dn42_autopeer.Handle.Authorized.{
  IsSignedCreate, IsSignedUpdate, IsSignedDelete, create_peer-Sound, update_peer-Sound,
  delete_peer-Sound,
}
use dn42_autopeer.Main.Serve.{
  Request, post_challenge, get_asn, post_peer, patch_peer, remove_peer, Body, into_reply,
  respond_with, serve,
}

-- The request was answered with this.
abbrev pub IsAnswer : Result (ℕ × Body) → (ℕ → Type 0) → Type 0
IsAnswer (ok (status, body)) P = P status
IsAnswer (err e) P = ⊥

-- What a change needs to have shown.
abbrev pub IsSigned : ⦃lib : External⦄ → World → AppState → Request → Type 0
IsSigned w state (post_challenge asn) = Unit
IsSigned w state (get_asn asn) = Unit
IsSigned w state (post_peer payload) = IsSignedCreate w state payload
IsSigned w state (patch_peer payload) = IsSignedUpdate w state payload
IsSigned w state (remove_peer payload) = IsSignedDelete w state payload

module _ {A : Type 0} (body : A → Body) (P : ℕ → Type 0) where
  -- The answer is the reply of a handler that returns, or the response to its error.
  respond_with-IsAnswer :
      (handler : Action (Reply A)) (w : World)
      → Ends
          (λ (r : Reply A) _. P r.0)
          (λ e _. P (into_response e).status)
          (handler w).0
          (handler w).1
      → IsAnswer (respond_with body handler w).0 P
  unfolding respond_with outcome pure ◌>>=◌ continue into_reply
  respond_with-IsAnswer handler w h = go (handler w).0 (handler w).1 h
    where
      go :
          (r : Result (Reply A)) (v : World)
          → Ends (λ (r : Reply A) _. P r.0) (λ e _. P (into_response e).status) r v
          → IsAnswer (ok (into_reply body r)) P
      go (ok a) v k = k
      go (err e) v k = k

-- The statuses of a success and of an error.
abbrev pub IsSuccess : ℕ → Type 0
IsSuccess status = (status ≡ 200) ⊎ (status ≡ 201)

abbrev pub IsFailure : ℕ → Type 0
IsFailure status = (400 ≤ status) × (status ≤ 503)

-- A success with what it took, or a failure.
abbrev pub IsOutcome : Type 0 → ℕ → Type 0
IsOutcome F status = (IsSuccess status × F) ⊎ IsFailure status

module _ {A : Type 0} where
  -- A handler that replies with a status, and that only replies if something is so.
  handled :
      {F : Type 0} (handler : Action (Reply A)) (w : World)
      → Partial (λ _. Unit) handler (λ r _. IsSuccess r.0)
      → Partial (Reads w) handler (λ _ _. F)
      → Ends
          (λ (r : Reply A) _. IsOutcome F r.0)
          (λ e _. IsOutcome F (into_response e).status)
          (handler w).0
          (handler w).1
  handled {F} handler w success fact =
      go (handler w).0 (handler w).1 (success.at w tt) (fact.at w (Reads-refl w))
    where
      go :
          (r : Result (Reply A)) (v : World)
          → Ends (λ (r : Reply A) _. IsSuccess r.0) (λ _ _. Unit) r v
          → Ends (λ _ _. F) (λ _ _. Unit) r v
          → Ends
              (λ (r : Reply A) _. IsOutcome F r.0)
              (λ e _. IsOutcome F (into_response e).status)
              r
              v
      go (ok a) v s f = inl (s, f)
      go (err e) v s f = let bounds = into_response-log e in inr (bounds.0, bounds.1)

-- Whatever comes before it, the reply at the end has its status.
finally :
    {A B : Type 0} (m : Action A) (f : A → Action (Reply B))
    → ((a : A) → Partial (λ _. Unit) (f a) (λ r _. IsSuccess r.0))
    → Partial (λ _. Unit) (m >>= f) (λ r _. IsSuccess r.0)
finally m f k = Triple-bind m f (Partial-Keeps m (record { at = λ w h. tt })) k

replies :
    {A : Type 0} (status : ℕ) (a : A)
    → IsSuccess status
    → Partial (λ _. Unit) (pure (status, a)) (λ (r : Reply A) _. IsSuccess r.0)
replies status a h = Triple-pure _ (λ w _. h)

no_claim : {A : Type 0} {P : World → Type 0} (m : Action A) → Partial P m (λ _ _. Unit)
no_claim m =
    Triple-before m (λ w h. tt) (Partial-Keeps {P = λ _. Unit} m (record { at = λ w h. tt }))

module _ ⦃lib : External⦄ (state : AppState) where
  create_peer-IsSuccess :
      (payload : CreatePeerReq)
      → Partial (λ _. Unit) (create_peer state payload) (λ r _. IsSuccess r.0)
  unfolding create_peer
  create_peer-IsSuccess payload = finally _ _ λ _.
      finally _ _ λ _. finally _ _ λ _. finally _ _ λ _. finally _ _ λ _. replies _ _ (inr refl)

  update_peer-IsSuccess :
      (payload : UpdatePeerReq)
      → Partial (λ _. Unit) (update_peer state payload) (λ r _. IsSuccess r.0)
  unfolding update_peer
  update_peer-IsSuccess payload = finally _ _ λ _.
      finally _ _ λ _. finally _ _ λ _. finally _ _ λ _. finally _ _ λ _. replies _ _ (inl refl)

  delete_peer-IsSuccess :
      (payload : DeletePeerReq)
      → Partial (λ _. Unit) (delete_peer state payload) (λ r _. IsSuccess r.0)
  unfolding delete_peer
  delete_peer-IsSuccess payload =
      finally _ _ λ _. finally _ _ λ _. finally _ _ λ _. replies _ _ (inl refl)

  create_challenge-IsSuccess :
      (asn : ℕ) → Partial (λ _. Unit) (create_challenge asn) (λ r _. IsSuccess r.0)
  unfolding create_challenge
  create_challenge-IsSuccess asn = finally _ _ λ _. replies _ _ (inr refl)

  get_peers-IsSuccess : (asn : ℕ) → Partial (λ _. Unit) (get_peers asn) (λ r _. IsSuccess r.0)
  unfolding get_peers
  get_peers-IsSuccess asn = finally _ _ λ _. replies _ _ (inl refl)

  -- Every request is answered, whatever fails: the status is 200 or 201, and then a change was
  -- signed for, with a stored nonce and a key that the registry lists, under the message of its own
  -- fields; or the status is one from 400 to 503.
  pub serve-IsAnswer :
      (request : Request) (w : World)
      → IsAnswer (serve state request w).0 (IsOutcome (IsSigned w state request))
  unfolding serve
  serve-IsAnswer (post_challenge asn) w =
      respond_with-IsAnswer _ _ _ w (handled _ w (create_challenge-IsSuccess asn) (no_claim _))
  serve-IsAnswer (get_asn asn) w =
      respond_with-IsAnswer _ _ _ w (handled _ w (get_peers-IsSuccess asn) (no_claim _))
  serve-IsAnswer (post_peer payload) w =
      respond_with-IsAnswer _ _ _ w
        (handled _ w (create_peer-IsSuccess payload) (create_peer-Sound state w payload))
  serve-IsAnswer (patch_peer payload) w =
      respond_with-IsAnswer _ _ _ w
        (handled _ w (update_peer-IsSuccess payload) (update_peer-Sound state w payload))
  serve-IsAnswer (remove_peer payload) w =
      respond_with-IsAnswer _ _ _ w
        (handled _ w (delete_peer-IsSuccess payload) (delete_peer-Sound state w payload))
