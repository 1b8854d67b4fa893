-- ===== src/WgPubKey.antt =====
-- src/wg_pubkey.rs: the validated WireGuard public key.
use dn42_autopeer.Base.{
  ℕ, ◌≡◌, not, List, inl, inr, ◌==◌, nat_eq, if◌then◌else◌, arith, ◌↔◌, Sum-cases,
}
use dn42_autopeer.Base.Text.{Text, utf8_len}
use dn42_autopeer.Error.{PeerError}
use dn42_autopeer.Result.{Result, ok, err}
use dn42_autopeer.External.{External}

-- The field is private to the module of the source, so a key comes from `try_from`.
pub record WgPubKey : Type 0 where
  pub value : Text

module _ ⦃lib : External⦄ where
  unfoldable pub try_from : Text → Result WgPubKey
  try_from value =
      if not (utf8_len value == 44)
      then err (PeerError.invalid_wg_pubkey_length (utf8_len value))
      else elim (lib.base64_decode value) [
        | inl source ↦ err (PeerError.invalid_wg_pubkey_base64 source)
        | inr bytes ↦ ok (record { value = value })
      ]

-- `String::from` and `as_str`
abbrev pub as_str : WgPubKey → Text
as_str key = key.value

module _ ⦃lib : External⦄ where
  -- A text is accepted exactly if it is 44 bytes long and decodes, and an accepted key shows the
  -- text that it was made of.
  pub try_from_iff :
      (value : Text) (key : WgPubKey)
      → (try_from value ≡ ok key) ↔ (
          (utf8_len value ≡ 44)
          × ((bytes : List ℕ) × (lib.base64_decode value ≡ inr bytes))
          × (as_str key ≡ value))
  unfolding try_from
  try_from_iff value key = (
    λ h. elim (Sum-cases (lib.base64_decode value)) [
      | inl (source, e) ↦ absurd (ground arith)
      | inr (bytes, e) ↦ (ground arith, (bytes, e), ground arith)
    ],
    λ h. ground (arith, h.1.1),
  )
