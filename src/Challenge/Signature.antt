-- ===== src/Challenge/Signature.antt =====
-- src/challenge.rs: `verify_signature`.
use dn42_autopeer.Base.{◌++◌, Option, none, some, ◌⊎◌, inl, inr, Bool, if◌then◌else◌}
use dn42_autopeer.Base.Text.{Text, text, contains_text}
use dn42_autopeer.Error.{PeerError}
use dn42_autopeer.Result.{Result, ok, err, ◌>>=◌}
use dn42_autopeer.External.{External}

-- `map_err` to a `SignatureVerificationFailed` whose detail begins with a text.
signature_error {ℓ} : {A : Type ℓ} → Text → Text ⊎ A → Result A
signature_error prefix (inl error) = err (PeerError.signature_verification_failed (prefix ++ error))
signature_error prefix (inr a) = ok a

verified : Text → Option Text → Result (Unit {0})
verified prefix none = ok tt
verified prefix (some error) = err (PeerError.signature_verification_failed (prefix ++ error))

abbrev pub is_pgp : Text → Bool
is_pgp public_key = contains_text public_key (text "BEGIN PGP PUBLIC KEY BLOCK")

module _ ⦃lib : External⦄ where
  verify_pgp : Text → Text → Text → Result (Unit {0})
  verify_pgp public_key signature message = do
    key ← signature_error (text "Invalid PGP public key: ") (lib.pgp_public_key public_key)
    sig ← signature_error (text "Invalid PGP signature format: ") (lib.pgp_signature signature)
    verified (text "PGP signature verification failed: ") (lib.pgp_verify sig key message)

  verify_ssh : Text → Text → Text → Result (Unit {0})
  verify_ssh public_key signature message = do
    key ← signature_error (text "Invalid SSH public key: ") (lib.ssh_public_key public_key)
    sig ← signature_error (text "Invalid SSH signature format: ") (lib.ssh_signature signature)
    verified (text "Signature verification failed: ") (lib.ssh_verify key (text "dn42") message sig)

  unfoldable pub verify_signature : Text → Text → Text → Result (Unit {0})
  unfolding signature_error verified verify_pgp verify_ssh
  verify_signature public_key signature message =
      if is_pgp public_key
      then verify_pgp public_key signature message
      else verify_ssh public_key signature message
