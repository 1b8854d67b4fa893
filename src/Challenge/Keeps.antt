-- ===== src/Challenge/Keeps.antt =====
-- src/challenge.rs: challenges and authorisation keep the tables consistent; the registry check
-- only reads.
use dn42_autopeer.Base.{ℕ, zero, suc, List, [], ◌∷◌, Option, none, some, true, false, not}
use dn42_autopeer.Base.Int.{ℤ, ltb_ℤ}
use dn42_autopeer.Base.Text.{Text}
use dn42_autopeer.External.{External}
use dn42_autopeer.World.Types.{World, Json}
use dn42_autopeer.World.Action.{Action}
use dn42_autopeer.World.Keeps.{
  Keeps-call, Keeps, IsStable, Keeps-bind, Keeps-pure, Keeps-raise, Keeps-lift, Keeps-if,
  Keeps-elim_Bool, Keeps-elim_Option, keeps_rules,
}
use dn42_autopeer.Persist.Consistent.{
  Consistent, Consistent-IsStable, unix_timestamp-Consistent, insert_nonce-Consistent,
  consume_nonce-Consistent,
}
use dn42_autopeer.Challenge.Registry.{
  Reply, no_reply, reply, http_get, Check, timed_out, failed, found, check_maintainers,
  check_registry_for_asn_and_pubkey, is_success, is_error_status, has_auth, maintainers,
}
use dn42_autopeer.Challenge.Authorize.{
  RequestAuthorizer, random_key, new_authorizer, allocate_nonce, issue_challenge, try_acquire,
  registry_result, authorize_request,
}

module _ {A : Type 0} {P : World → Type 0} where
  Keeps-reply :
      (r : Reply) (m n : Action A) (o : ℕ → Action A) (f : ℕ → Json → Action A)
      → Keeps P m
      → Keeps P n
      → ((status : ℕ) → Keeps P (o status))
      → ((status : ℕ) (json : Json) → Keeps P (f status json))
      → Keeps P (elim r [
        | no_reply true ↦ m
        | no_reply false ↦ n
        | reply status none ↦ o status
        | reply status (some json) ↦ f status json
      ])
  Keeps-reply (no_reply true) m n o f km kn ko kf = km
  Keeps-reply (no_reply false) m n o f km kn ko kf = kn
  Keeps-reply (reply status none) m n o f km kn ko kf = ko status
  Keeps-reply (reply status (some json)) m n o f km kn ko kf = kf status json

module _ {P : World → Type 0} (stable : IsStable P) where
  http_get-Keeps : (url : Text) → Keeps P (http_get url)
  unfolding http_get
  http_get-Keeps url = search (keeps_rules, stable)

  module _ (registry_url : Text) where
    check_maintainers-Keeps :
        (expected names : List Text) → Keeps P (check_maintainers registry_url expected names)
    unfolding check_maintainers
    check_maintainers-Keeps expected [] = Keeps-pure _
    check_maintainers-Keeps expected (name ∷ rest) =
        let on = check_maintainers-Keeps expected rest in
        Keeps-bind _ _ (http_get-Keeps _) λ r.
          Keeps-reply r _ _ _ _ (Keeps-pure _) on (λ _. on)
            λ status json.
              Keeps-if (is_success status) _ _
                (λ _.
                  Keeps-elim_Option _ _ _ on
                    λ items. Keeps-if (has_auth expected items) _ _ (λ _. Keeps-pure _) (λ _. on))
                (λ _. on)

    module _ ⦃lib : External⦄ where
      pub check_registry-Keeps :
          (asn : ℕ) (public_key : Text)
          → Keeps P (check_registry_for_asn_and_pubkey registry_url asn public_key)
      unfolding check_registry_for_asn_and_pubkey
      check_registry-Keeps asn public_key = Keeps-bind _ _ (http_get-Keeps _) λ r.
          Keeps-reply r _ _ _ _ (Keeps-pure _) (Keeps-pure _) (λ _. Keeps-pure _)
            λ status json.
              Keeps-if (is_error_status status) _ _ (λ _. Keeps-pure _)
                (λ _.
                  Keeps-elim_Option _ _ _ (Keeps-pure _)
                    (λ items. check_maintainers-Keeps _ (maintainers items)))

  registry_result-Keeps : (check : Check) → Keeps P (registry_result check)
  unfolding registry_result
  registry_result-Keeps timed_out = Keeps-raise _
  registry_result-Keeps failed = Keeps-raise _
  registry_result-Keeps (found b) = Keeps-pure b

  random_key-Keeps : Keeps P random_key
  unfolding random_key
  random_key-Keeps = search (keeps_rules, stable)

  try_acquire-Keeps : Keeps P try_acquire
  unfolding try_acquire
  try_acquire-Keeps = search (keeps_rules, stable)

  pub new_authorizer-Keeps :
      (timeout limit url : Option Text) → Keeps P (new_authorizer timeout limit url)
  unfolding new_authorizer
  new_authorizer-Keeps timeout limit url = search (keeps_rules, Keeps-call, stable) depth 9

allocate_nonce-Consistent :
    (attempts asn : ℕ) (expires_at : ℤ) → Keeps Consistent (allocate_nonce attempts asn expires_at)
unfolding allocate_nonce
allocate_nonce-Consistent zero asn expires_at = Keeps-raise _
allocate_nonce-Consistent (suc attempts) asn expires_at =
    Keeps-bind _ _ (random_key-Keeps Consistent-IsStable) λ nonce.
      Keeps-bind _ _ (insert_nonce-Consistent _ _ _) λ inserted.
        Keeps-elim_Bool inserted _ _ (Keeps-pure _) (allocate_nonce-Consistent attempts _ _)

pub issue_challenge-Consistent : (asn : ℕ) → Keeps Consistent (issue_challenge asn)
unfolding issue_challenge
issue_challenge-Consistent asn =
    Keeps-bind _ _ unix_timestamp-Consistent (λ clock. allocate_nonce-Consistent _ _ _)

pub authorize_request-Consistent :
    ⦃lib : External⦄ (self : RequestAuthorizer) (asn : ℕ) (public_key signature nonce : Text)
    (expires_at : ℤ) (message : Text)
    → Keeps Consistent (authorize_request self asn public_key signature nonce expires_at message)
unfolding authorize_request
authorize_request-Consistent self asn public_key signature nonce expires_at message =
    Keeps-bind _ _ unix_timestamp-Consistent λ clock.
      Keeps-if (ltb_ℤ expires_at clock) _ _ (λ _. Keeps-raise _)
        λ _. Keeps-bind _ _ (Keeps-lift _) λ _.
          Keeps-bind _ _ (try_acquire-Keeps Consistent-IsStable) λ _.
            Keeps-bind _ _ (consume_nonce-Consistent _ _ _) λ consumed.
              Keeps-if (not consumed) _ _ (λ _. Keeps-raise _)
                λ _. Keeps-bind _ _ (check_registry-Keeps Consistent-IsStable _ _ _) λ check.
                  Keeps-bind _ _ (registry_result-Keeps Consistent-IsStable check)
                    λ listed. Keeps-if (not listed) _ _ (λ _. Keeps-raise _) (λ _. Keeps-pure tt)
