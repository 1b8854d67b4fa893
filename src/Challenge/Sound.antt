-- ===== src/Challenge/Sound.antt =====
-- src/challenge.rs: what a request that is let through has shown.
use dn42_autopeer.Base.{
  ℕ, ◌≡◌, sym, ap, subst, ◌∙◌, arith, Bool-cases, inl, inr, ◌⊎◌, List, [], ◌∷◌, Bool, true, false,
  not, keep, length, nat_eq, text_eq,
}
use dn42_autopeer.Base.Int.{ℤ, pos, widen, ltb_ℤ, int_eq}
use dn42_autopeer.Base.Text.{Text}
use dn42_autopeer.External.{External}
use dn42_autopeer.Result.{ok}
use dn42_autopeer.World.Types.{Answer, World, Db, NonceRow}
use dn42_autopeer.World.Action.{pure, execute, answer, ◌>>=◌}
use dn42_autopeer.World.Follows.{Follows, Reads, Reads-refl, Reads-IsStable}
use dn42_autopeer.World.Keeps.{Keeps, Keeps-acquire, keeps_rules}
use dn42_autopeer.World.Triple.{
  Triple-bind, Triple-pure, Triple-raise, Triple-if, Triple-lift, Triple-fact, Partial,
  Partial-Keeps, Partial-execute, Triple-returned,
}
use dn42_autopeer.Persist.{redeem, is_redeemed, consume_nonce, unix_timestamp}
use dn42_autopeer.Challenge.Signature.{verify_signature}
use dn42_autopeer.Challenge.Registry.{Check, timed_out, failed, found}
use dn42_autopeer.Challenge.Authorize.{
  RequestAuthorizer, try_acquire, registry_result, authorize_request,
}
use dn42_autopeer.Challenge.Registered.{IsRegistered}
use dn42_autopeer.Challenge.Vouching.{check_registry-Proves}

-- One of the rows is this one.
abbrev pub IsStored : NonceRow → List NonceRow → Type 0
IsStored row [] = ⊥
IsStored row (r ∷ rows) = (r ≡ row) ⊎ IsStored row rows

-- What a request has shown: the signature fits the key and the message, the nonce was stored for
-- the ASN with the time that the request names, a clock that was read did not show a later time,
-- and the registry lists the key for the ASN.
pub record IsAuthorized ⦃lib : External⦄ (w : World) (registry_url : Text) (asn : ℕ)
    (public_key signature nonce : Text) (expires_at : ℤ) (message : Text) : Type 0 where
  pub signed : verify_signature public_key signature message ≡ ok tt
  pub stored :
      IsStored (record { nonce = nonce; asn = widen asn; expires_at = expires_at }) w.db.nonces
  pub moment : ℕ
  pub fresh : ltb_ℤ expires_at (pos (w.answers moment).now) ≡ false
  pub registered : IsRegistered w registry_url asn public_key

module _ (nonce : Text) (asn expires_at clock : ℤ) where
  redeemed-IsStored :
      (rows : List NonceRow)
      → length (keep (is_redeemed nonce asn expires_at clock) rows) ≡ 1
      → IsStored (record { nonce = nonce; asn = asn; expires_at = expires_at }) rows
  unfolding is_redeemed
  redeemed-IsStored [] h = omega (arith, h)
  redeemed-IsStored (r ∷ rows) h = elim (Bool-cases (is_redeemed nonce asn expires_at clock r)) [
    | inl e ↦ inl (same e)
    | inr e ↦ inr (redeemed-IsStored rows (ground (arith, e, h)))
  ]
    where
      same :
          is_redeemed nonce asn expires_at clock r ≡ true
          → r ≡ record { nonce = nonce; asn = asn; expires_at = expires_at }
      same e = ground (
        arith,
        e,
        text_eq.beq_iff r.nonce nonce,
        int_eq.beq_iff r.asn asn,
        int_eq.beq_iff r.expires_at expires_at,
      )

module _ (before : World) where
  unix_timestamp-Reads :
      Partial
        (Reads before)
        unix_timestamp
        (λ clock w. ((n : ℕ) × (clock ≡ pos (before.answers n).now)) × Reads before w)
  unfolding unix_timestamp answer pure ◌>>=◌
  unix_timestamp-Reads = record {
    at = λ w h. (
      (_, ap (λ (a : Answer). pos a.now) (h.follows.later 0)),
      (Reads-IsStable before).advances w h,
    );
  }

  try_acquire-Reads : Keeps (Reads before) try_acquire
  unfolding try_acquire
  try_acquire-Reads = search (keeps_rules, Reads-IsStable)

  -- What a redemption of one row has found.
  redeem-Finds :
      (nonce : Text) (asn expires_at clock : ℤ)
      → Partial (Reads before) (execute (redeem nonce asn expires_at clock)) (λ rows w.
        ((rows ≡ 1)
          → IsStored
              (record { nonce = nonce; asn = asn; expires_at = expires_at })
              before.db.nonces)
        × Follows before w)
  unfolding redeem
  redeem-Finds nonce asn expires_at clock = Partial-execute _ _ (Reads-IsStable before) λ now w h. (
    λ e.
        subst
          (λ (d : Db).
            IsStored (record { nonce = nonce; asn = asn; expires_at = expires_at }) d.nonces)
          h.db (redeemed-IsStored nonce asn expires_at clock w.db.nonces e),
    record { taken = h.follows.taken; later = h.follows.later },
  )

  consume-Finds :
      (asn : ℕ) (nonce : Text) (expires_at : ℤ)
      → Partial (Reads before) (consume_nonce asn nonce expires_at) (λ consumed w.
        ((consumed ≡ true)
          → IsStored
              (record { nonce = nonce; asn = widen asn; expires_at = expires_at })
              before.db.nonces)
        × Follows before w)
  unfolding consume_nonce
  consume-Finds asn nonce expires_at =
      Triple-bind _ _ (Partial-Keeps _ (Keeps-acquire (Reads-IsStable before))) λ _.
        Triple-bind _ _ (unix_timestamp-Reads) λ clock. Triple-fact _ λ _.
          Triple-bind _ _ (redeem-Finds nonce (widen asn) expires_at clock)
            λ rows. Triple-pure _ (λ w h. (λ e. h.0 ((nat_eq.beq_iff rows 1).0 e), h.1))

  registry_result-Proves :
      {F : Type 0} (c : Check)
      → Partial (λ w. (c ≡ found true) → F) (registry_result c) (λ b _. (b ≡ true) → F)
  unfolding registry_result
  registry_result-Proves timed_out = Triple-raise _ (λ w h. tt)
  registry_result-Proves failed = Triple-raise _ (λ w h. tt)
  registry_result-Proves (found b) = Triple-pure b (λ w h e. h (ap (λ (c : Bool). found c) e))

  module _ ⦃lib : External⦄ where
    pub authorize-Sound :
        (self : RequestAuthorizer) (asn : ℕ) (public_key signature nonce : Text) (expires_at : ℤ)
        (message : Text)
        → Partial
            (Reads before)
            (authorize_request self asn public_key signature nonce expires_at message)
            (λ _ _.
              IsAuthorized before self.registry_url asn public_key signature nonce expires_at
                message)
    unfolding authorize_request
    authorize-Sound self asn public_key signature nonce expires_at message =
        Triple-bind _ _ (unix_timestamp-Reads) λ clock. Triple-fact _ λ (moment, at).
          Triple-if (ltb_ℤ expires_at clock) _ _ (λ _. Triple-raise _ (λ w h. tt))
            λ fresh. Triple-bind _ _ (Triple-lift _ (λ e w h. tt)) λ _. Triple-fact _ λ signed.
              Triple-bind _ _ (Partial-Keeps _ (try_acquire-Reads)) λ _.
                Triple-bind _ _ (consume-Finds asn nonce expires_at) λ consumed.
                  Triple-fact _ λ stored.
                    Triple-if (not consumed) _ _ (λ _. Triple-raise _ (λ w h. tt))
                      λ yes.
                        Triple-bind _ _
                          (check_registry-Proves before self.registry_url asn public_key)
                          λ check. Triple-bind _ _ (registry_result-Proves check) λ found.
                            Triple-if (not found) _ _ (λ _. Triple-raise _ (λ w h. tt))
                              λ listed. Triple-pure tt λ w registered. record {
                                signed = signed;
                                stored = stored (ground (arith, yes));
                                moment = moment;
                                fresh = ap (λ t. ltb_ℤ expires_at t) (sym at) ∙ fresh;
                                registered = registered (ground (arith, listed));
                              }

-- A request that is let through is authorised: if `authorize_request` returns, then the signature
-- of the message verifies under the key, the nonce was stored for the ASN with the time of the
-- request, a clock that was read did not show a later time, and the registry served the ASN with
-- a maintainer that has one of the texts of the key as an `auth` attribute.
pub authorize_request-IsAuthorized :
    ⦃lib : External⦄ (self : RequestAuthorizer) (asn : ℕ) (public_key signature nonce : Text)
    (expires_at : ℤ) (message : Text) (w : World)
    → (authorize_request self asn public_key signature nonce expires_at message w).0 ≡ ok tt
    → IsAuthorized w self.registry_url asn public_key signature nonce expires_at message
authorize_request-IsAuthorized self asn public_key signature nonce expires_at message w h =
    Triple-returned _ w tt
      (authorize-Sound w self asn public_key signature nonce expires_at message) (Reads-refl w) h
