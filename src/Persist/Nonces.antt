-- ===== src/Persist/Nonces.antt =====
-- src/persist.rs: the table `auth_nonces`.
use dn42_autopeer.Base.{
  ℕ, ◌∷◌, Bool, not, ◌&&◌, inr, keep, any, length, ◌==◌, nat_eq, text_eq, if◌then◌else◌,
}
use dn42_autopeer.Base.Int.{ℤ, pos, widen, ltb_ℤ, int_eq}
use dn42_autopeer.Base.Text.{Text}
use dn42_autopeer.World.Types.{NonceRow}
use dn42_autopeer.World.Action.{Action, Statement, pure, answer, acquire, execute, ◌>>=◌, ◌>>◌}

-- "DELETE FROM auth_nonces WHERE expires_at < $1"
unfoldable pub delete_expired : ℤ → Statement Unit
delete_expired limit now db =
    inr (tt, record db { nonces = keep (λ r. not (ltb_ℤ r.expires_at limit)) db.nonces })

-- "INSERT INTO auth_nonces … ON CONFLICT DO NOTHING", with the number of rows written. The
-- primary key is the nonce.
unfoldable pub add_nonce : Text → ℤ → ℤ → Statement ℕ
add_nonce nonce asn expires_at now db =
    if any (λ r. r.nonce == nonce) db.nonces
    then inr (0, db)
    else inr (
      1,
      record db {
        nonces = record { nonce = nonce; asn = asn; expires_at = expires_at } ∷ db.nonces;
      },
    )

-- The condition of the `DELETE` in `consume_nonce`.
unfoldable pub is_redeemed : Text → ℤ → ℤ → ℤ → NonceRow → Bool
is_redeemed nonce asn expires_at clock r =
    r.nonce == nonce
    && (r.asn == asn && (r.expires_at == expires_at && not (ltb_ℤ r.expires_at clock)))

-- "DELETE FROM auth_nonces WHERE nonce = $1 AND asn = $2 AND expires_at = $3 AND expires_at >= $4"
unfoldable pub redeem : Text → ℤ → ℤ → ℤ → Statement ℕ
redeem nonce asn expires_at clock now db = inr (
  length (keep (is_redeemed nonce asn expires_at clock) db.nonces),
  record db { nonces = keep (λ r. not (is_redeemed nonce asn expires_at clock r)) db.nonces },
)

-- `unix_timestamp`, which reads the clock of the process.
unfoldable pub unix_timestamp : Action ℤ
unix_timestamp = do a ← answer; pure (pos a.now)

unfoldable pub insert_nonce : ℕ → Text → ℤ → Action Bool
insert_nonce asn nonce expires_at = do
  acquire
  clock ← unix_timestamp
  execute (delete_expired clock)
  rows ← execute (add_nonce nonce (widen asn) expires_at)
  pure (rows == 1)

unfoldable pub consume_nonce : ℕ → Text → ℤ → Action Bool
consume_nonce asn nonce expires_at = do
  acquire
  clock ← unix_timestamp
  rows ← execute (redeem nonce (widen asn) expires_at clock)
  pure (rows == 1)
