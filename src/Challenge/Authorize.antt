-- ===== src/Challenge/Authorize.antt =====
-- src/challenge.rs: `RequestAuthorizer`, as a release build has it.
use dn42_autopeer.Base.{
  ℕ, zero, suc, ◌+◌, ◌++◌, Option, none, some, Bool, true, false, not, ◌==◌, nat_eq, if◌then◌else◌,
}
use dn42_autopeer.Base.Int.{ℤ, pos, ltb_ℤ}
use dn42_autopeer.Base.Text.{Text, text, parse_u64}
use dn42_autopeer.Error.{PeerError}
use dn42_autopeer.Result.{Result, ok, err}
use dn42_autopeer.Result
use dn42_autopeer.External.{External}
use dn42_autopeer.World.Action.{Action, pure, raise, lift, answer, call, ◌>>=◌, ◌>>◌}
use dn42_autopeer.Persist.{insert_nonce, consume_nonce, unix_timestamp}
use dn42_autopeer.Challenge.Signature.{verify_signature}
use dn42_autopeer.Challenge.Registry.{
  Check, timed_out, failed, found, check_registry_for_asn_and_pubkey,
}

-- CHALLENGE_TTL_SECS
abbrev pub challenge_ttl_secs : ℕ
challenge_ttl_secs = 300

-- The fields of `RequestAuthorizer` but the store and the client. The limit is the number of
-- permits of the semaphore.
pub record RequestAuthorizer : Type 0 where
  pub registry_url : Text
  pub registry_limit : ℕ
  pub registry_timeout : ℕ

-- `env_u64` and `env_usize`, on the value of the variable.
unfoldable pub env_number : Text → ℕ → Option Text → Result ℕ
env_number name default none = ok default
env_number name default (some value) =
    Result.ok_or (parse_u64 value)
      (PeerError.validation (name ++ text " must be a positive integer"))

must_be_positive : Text → PeerError
must_be_positive name = PeerError.validation (name ++ text " must be greater than zero")

or_default : Text → Option Text → Text
or_default default none = default
or_default default (some value) = value

-- The three arguments are the environment variables. That `Semaphore::new` panics above its limit
-- is in `main`, which is the only caller.
unfoldable pub new_authorizer : Option Text → Option Text → Option Text → Action RequestAuthorizer
unfolding must_be_positive or_default
new_authorizer timeout limit url = do
  timeout_secs ← lift (env_number (text "REGISTRY_TIMEOUT_SECS") 10 timeout)
  max_concurrent ← lift (env_number (text "REGISTRY_MAX_CONCURRENT") 16 limit)
  if timeout_secs == 0
      then raise (must_be_positive (text "REGISTRY_TIMEOUT_SECS"))
      else if max_concurrent == 0
      then raise (must_be_positive (text "REGISTRY_MAX_CONCURRENT"))
      else do
        call (λ a w. w)
            (λ f. PeerError.validation (text "Failed to create the registry client: " ++ f.detail))
        pure (record {
          registry_url = or_default (text "https://explorer.burble.com/api/registry") url;
          registry_limit = max_concurrent;
          registry_timeout = timeout_secs;
        })

-- `Key::generate_preshared().to_base64()`
unfoldable pub random_key : Action Text
random_key = do a ← answer; pure a.random_key

-- The attempts that are left.
unfoldable pub allocate_nonce : ℕ → ℕ → ℤ → Action (Text × ℤ)
unfolding random_key
allocate_nonce zero asn expires_at =
    raise (PeerError.unauthorized_challenge (text "The server could not allocate a unique nonce"))
allocate_nonce (suc attempts) asn expires_at = do
  nonce ← random_key
  inserted ← insert_nonce asn nonce expires_at
  elim inserted [ true ↦ pure (nonce, expires_at) | false ↦ allocate_nonce attempts asn expires_at ]

-- The sum of the clock and the lifetime; the clock is not negative.
abbrev pub after_ttl : ℤ → ℤ
after_ttl (pos now) = pos (now + challenge_ttl_secs)
after_ttl t = t

unfoldable pub issue_challenge : ℕ → Action (Text × ℤ)
issue_challenge asn = do clock ← unix_timestamp; allocate_nonce 4 asn (after_ttl clock)

-- `registry_limit.try_acquire()`. The other requests in flight decide whether a permit is left.
unfoldable pub try_acquire : Action Unit
try_acquire = do
  a ← answer
  if a.permit
      then pure tt
      else raise (PeerError.registry_unavailable (text "Too many registry checks are active"))

unfoldable pub registry_result : Check → Action Bool
registry_result timed_out =
    raise (PeerError.registry_unavailable (text "The registry check timed out"))
registry_result failed = raise (PeerError.registry_unavailable (text "The registry request failed"))
registry_result (found b) = pure b

module _ ⦃lib : External⦄ where
  unfoldable pub authorize_request :
      RequestAuthorizer → ℕ → Text → Text → Text → ℤ → Text → Action Unit
  authorize_request self asn public_key signature nonce expires_at expected_message = do
    clock ← unix_timestamp
    if ltb_ℤ expires_at clock
        then raise (PeerError.unauthorized_challenge (text "The challenge expired"))
        else do
          lift (verify_signature public_key signature expected_message)
          try_acquire
          consumed ← consume_nonce asn nonce expires_at
          if not consumed
              then raise (
                  PeerError.unauthorized_challenge
                    (text "The challenge is expired, unknown, or already used"))
              else do
                check ← check_registry_for_asn_and_pubkey self.registry_url asn public_key
                is_authorized ← registry_result check
                if not is_authorized then raise PeerError.registry_mismatch else pure tt
