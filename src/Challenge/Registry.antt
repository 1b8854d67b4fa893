-- ===== src/Challenge/Registry.antt =====
-- src/challenge.rs: `check_registry_for_asn_and_pubkey`.
use dn42_autopeer.Base.{
  ℕ, ◌+◌, ◌-◌, ◌/◌, ◌%◌, ◌++◌, List, [], ◌∷◌, Option, none, some, Bool, true, false, ◌&&◌, inl, inr,
  any, length, ltb, leb, if◌then◌else◌, ◌==◌, text_eq, nat_eq,
}
use dn42_autopeer.Base.Text.{Text, text, trim, ends_with, find_text, skip, front}
use dn42_autopeer.Base.Decimal.{decimal}
use dn42_autopeer.External.{External}
use dn42_autopeer.World.Types.{
  Failure, Json, string, array, object, Items, nil, cons, Fields, end, field,
}
use dn42_autopeer.World.Action.{Action, pure, answer, ◌>>=◌}
use dn42_autopeer.Challenge.Signature.{is_pgp}

-- `Value::get` with a key, `as_array` and `as_str`.
get_field : Text → Fields → Option Json
get_field key end = none
get_field key (field name value rest) =
    let later = get_field key rest in if name == key then some value else later

get_key : Text → Json → Option Json
get_key key (object fields) = get_field key fields
get_key key _ = none

as_array : Json → Option Items
as_array (array items) = some items
as_array _ = none

unfoldable pub as_text : Json → Option Text
as_text (string s) = some s
as_text _ = none

-- `get(key)`, `get("Attributes")` and `as_array`.
unfoldable pub attributes : Text → Json → Option Items
unfolding get_key get_field as_array
attributes key json = elim (get_key key json) [
  | none ↦ none
  | some entry ↦ elim (get_key (text "Attributes") entry) [
    | none ↦ none
    | some value ↦ as_array value
  ]
]

-- The value of an attribute `[name, value]` of two texts.
unfoldable pub attribute_value : Text → Json → Option Text
unfolding as_text
attribute_value name (array (cons key (cons value nil))) = elim (as_text key) [
  | none ↦ none
  | some k ↦ if k == name then as_text value else none
]
attribute_value name _ = none

-- The name in "… (mntner/NAME)".
unfoldable pub maintainer_name : Text → Option Text
maintainer_name value = elim (find_text value (text "(mntner/")) [
  | none ↦ none
  | some start ↦
      if ends_with value (text ")")
      then some (skip (start + 8) (front (length value - 1) value))
      else none
]

unfoldable pub maintainers : Items → List Text
maintainers nil = []
maintainers (cons attribute rest) =
    let later = maintainers rest in
    elim (attribute_value (text "mnt-by") attribute) [
      | none ↦ later
      | some value ↦ elim (maintainer_name value) [ none ↦ later | some name ↦ name ∷ later ]
    ]

-- Whether an `auth` attribute holds one of the expected texts.
unfoldable pub has_auth : List Text → Items → Bool
has_auth expected nil = false
has_auth expected (cons attribute rest) =
    let later = has_auth expected rest in
    elim (attribute_value (text "auth") attribute) [
      | none ↦ later
      | some value ↦ if any (λ e. e == trim value) expected then true else later
    ]

upper_hex_digit : ℕ → ℕ
upper_hex_digit d = if ltb d 10 then 48 + d else 55 + d

-- `hex::encode(…).to_uppercase()`
upper_hex : List ℕ → Text
upper_hex [] = []
upper_hex (b ∷ bs) = upper_hex_digit (b / 16) ∷ upper_hex_digit (b % 16) ∷ upper_hex bs

module _ ⦃lib : External⦄ where
  unfoldable pub expected_auth_strings : Text → List Text
  unfolding upper_hex upper_hex_digit
  expected_auth_strings public_key =
      trim public_key
      ∷ (if is_pgp public_key
          then elim (lib.pgp_public_key public_key) [
            | inl error ↦ []
            | inr key ↦ (text "pgp-fingerprint " ++ upper_hex (lib.pgp_fingerprint key)) ∷ []
          ]
          else [])

-- A GET: no response (and whether the time limit of the whole check cut it off), or what it served.
pub data Reply : Type 0 where
  no_reply : Bool → Reply
  reply : ℕ → Option Json → Reply

unfoldable pub served : Option Failure → ℕ × Option Json → Reply
served none (status, body) = reply status body
served (some f) _ = no_reply f.timed_out

unfoldable pub http_get : Text → Action Reply
unfolding served
http_get url = do a ← answer; pure (served a.fault (a.http url))

-- How the check ends: cut off by its time limit, failed, or with its result.
pub data Check : Type 0 where
  timed_out failed : Check
  found : Bool → Check

-- `status().is_success()`, and the statuses that `error_for_status` refuses.
abbrev pub is_success : ℕ → Bool
is_success status = leb 200 status && leb status 299

abbrev pub is_error_status : ℕ → Bool
is_error_status status = leb 400 status && leb status 599

module _ (registry_url : Text) where
  -- The loop over the maintainers. A maintainer that cannot be read is passed over.
  unfoldable pub check_maintainers : List Text → List Text → Action Check
  check_maintainers expected [] = pure (found false)
  check_maintainers expected (name ∷ rest) = do
    response ← http_get (registry_url ++ (text "/mntner/" ++ name))
    elim response [
      | no_reply true ↦ pure timed_out
      | no_reply false ↦ check_maintainers expected rest
      | reply status none ↦ check_maintainers expected rest
      | reply status (some json) ↦
          if is_success status
          then elim (attributes (text "mntner/" ++ name) json) [
            | none ↦ check_maintainers expected rest
            | some items ↦
                if has_auth expected items
                then pure (found true)
                else check_maintainers expected rest
          ]
          else check_maintainers expected rest
    ]

  module _ ⦃lib : External⦄ where
    unfoldable pub check_registry_for_asn_and_pubkey : ℕ → Text → Action Check
    check_registry_for_asn_and_pubkey asn public_key = do
      response ← http_get (registry_url ++ (text "/aut-num/AS" ++ decimal asn))
      elim response [
        | no_reply true ↦ pure timed_out
        | no_reply false ↦ pure failed
        | reply status none ↦ pure failed
        | reply status (some json) ↦
            if is_error_status status
            then pure failed
            else elim (attributes (text "aut-num/AS" ++ decimal asn) json) [
              | none ↦ pure failed
              | some items ↦
                  check_maintainers (expected_auth_strings public_key) (maintainers items)
            ]
      ]
