-- ===== src/Challenge/Registered.antt =====
-- src/challenge.rs: what it takes for the registry check to say yes.
use dn42_autopeer.Base.{
  ℕ, ◌≡◌, refl, arith, Bool-cases, inl, inr, ◌⊎◌, List, [], ◌∷◌, ◌++◌, Option, none, some, true,
  false, any, if◌then◌else◌, ◌==◌, text_eq,
}
use dn42_autopeer.Base.Text.{Text, text, trim}
use dn42_autopeer.Base.Decimal.{decimal}
use dn42_autopeer.External.{External}
use dn42_autopeer.World.Types.{World, Json, string, array, object, null, Items, nil, cons}
use dn42_autopeer.Challenge.Registry.{
  attributes, attribute_value, as_text, maintainers, has_auth, expected_auth_strings, is_success,
  is_error_status,
}

-- One of the attributes is the pair of the two texts.
abbrev pub HasAttribute : Text → Text → Items → Type 0
HasAttribute name value nil = ⊥
HasAttribute name value (cons attribute rest) =
    (attribute ≡ array (cons (string name) (cons (string value) nil)))
    ⊎ HasAttribute name value rest

-- A text is one of the list.
abbrev pub IsOneOf : Text → List Text → Type 0
IsOneOf t [] = ⊥
IsOneOf t (u ∷ us) = (u ≡ t) ⊎ IsOneOf t us

-- At some moment from this world on, the URL serves the document with the status.
pub record Serves (w : World) (url : Text) (status : ℕ) (json : Json) : Type 0 where
  pub moment : ℕ
  pub answered : (w.answers moment).fault ≡ none
  pub body : (w.answers moment).http url ≡ (status, some json)

-- The maintainer `name` is served with an `auth` attribute that is one of the expected texts once
-- the white space around it is taken off.
pub record IsVouching (w : World) (registry_url : Text) (expected : List Text) (name : Text)
    : Type 0 where
  pub status : ℕ
  pub json : Json
  pub serves : Serves w (registry_url ++ (text "/mntner/" ++ name)) status json
  pub success : is_success status ≡ true
  pub items : Items
  pub is_entry : attributes (text "mntner/" ++ name) json ≡ some items
  pub auth : Text
  pub has : HasAttribute (text "auth") auth items
  pub expects : IsOneOf (trim auth) expected

pub record IsVouched (w : World) (registry_url : Text) (expected names : List Text) : Type 0 where
  pub maintainer : Text
  pub is_listed : IsOneOf maintainer names
  pub vouching : IsVouching w registry_url expected maintainer

-- The registry serves the ASN, and one of its maintainers vouches for the key.
pub record IsRegistered ⦃lib : External⦄ (w : World) (registry_url : Text) (asn : ℕ)
    (public_key : Text) : Type 0 where
  pub status : ℕ
  pub json : Json
  pub serves : Serves w (registry_url ++ (text "/aut-num/AS" ++ decimal asn)) status json
  pub success : is_error_status status ≡ false
  pub items : Items
  pub is_entry : attributes (text "aut-num/AS" ++ decimal asn) json ≡ some items
  pub vouched : IsVouched w registry_url (expected_auth_strings public_key) (maintainers items)

attribute_value-is :
    (name value : Text) (attribute : Json)
    → attribute_value name attribute ≡ some value
    → attribute ≡ array (cons (string name) (cons (string value) nil))
unfolding attribute_value as_text
attribute_value-is name value (array (cons (string k) (cons (string v) nil))) h =
    ground (arith, h, text_eq.beq_iff k name)
attribute_value-is name value (array (cons (string k) (cons (array v) nil))) h = ground (arith, h)
attribute_value-is name value (array (cons (string k) (cons (object v) nil))) h = ground (arith, h)
attribute_value-is name value (array (cons (string k) (cons null nil))) h = ground (arith, h)
attribute_value-is name value _ h = ground (arith, h)

any-IsOneOf : (t : Text) (us : List Text) → any (λ e. e == t) us ≡ true → IsOneOf t us
any-IsOneOf t [] h = ground (arith, h)
any-IsOneOf t (u ∷ us) h = elim (Bool-cases (u == t)) [
  | inl e ↦ inl ((text_eq.beq_iff u t).0 e)
  | inr e ↦ inr (any-IsOneOf t us (ground (arith, e, h)))
]

-- What a text of the `auth` attributes gives.
pub record IsAuth (expected : List Text) (items : Items) : Type 0 where
  pub auth : Text
  pub has : HasAttribute (text "auth") auth items
  pub expects : IsOneOf (trim auth) expected

-- An attribute that was passed over leaves the text that was found.
IsAuth-later :
    (expected : List Text) (attribute : Json) (rest : Items)
    → IsAuth expected rest
    → IsAuth expected (cons attribute rest)
IsAuth-later expected attribute rest a = record {
  auth = a.auth;
  has = inr a.has;
  expects = a.expects;
}

pub has_auth-IsAuth :
    (expected : List Text) (items : Items) → has_auth expected items ≡ true → IsAuth expected items
unfolding has_auth
has_auth-IsAuth expected nil h = ground (arith, h)
has_auth-IsAuth expected (cons attribute rest) h =
    value (attribute_value (text "auth") attribute) refl
      (λ k. IsAuth-later expected attribute rest (has_auth-IsAuth expected rest k)) h
  where
    value :
        (o : Option Text)
        → attribute_value (text "auth") attribute ≡ o
        → (has_auth expected rest ≡ true → IsAuth expected (cons attribute rest))
        → elim o [
          | none ↦ has_auth expected rest
          | some v ↦ if any (λ e. e == trim v) expected then true else has_auth expected rest
        ]
          ≡ true
        → IsAuth expected (cons attribute rest)
    value none e later h = later h
    value (some v) e later h = elim (Bool-cases (any (λ e. e == trim v) expected)) [
      | inl f ↦ record {
        auth = v;
        has = inl (attribute_value-is (text "auth") v attribute e);
        expects = any-IsOneOf (trim v) expected f;
      }
      | inr f ↦ later (ground (arith, f, h))
    ]
