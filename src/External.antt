-- ===== src/External.antt =====
-- The crates that the program calls and does not contain: `base64`, `url`, `ssh_key`, `pgp` and
-- `wireguard_control`. Each is a function of an interface, which the definitions that use it take
-- as an instance argument.
use dn42_autopeer.Base.{ℕ, Bool, Option, List, ◌⊎◌}
use dn42_autopeer.Base.Text.{Text}
use dn42_autopeer.Ipv6.{Ipv6}

-- `url::Host`
pub data Host : Type 0 where
  domain : Text → Host
  ipv4 : ℕ → ℕ → ℕ → ℕ → Host
  ipv6 : Ipv6 → Host

-- What the program reads of a `url::Url`.
pub record Url : Type 0 where
  pub username : Text
  pub password : Option Text
  pub path : Text
  pub query : Option Text
  pub fragment : Option Text
  pub port : Option ℕ
  pub host : Option Host

-- A left value is the text of the error.
pub record External : Type 0 where
  -- `STANDARD.decode`
  pub base64_decode : Text → Text ⊎ List ℕ
  -- `Url::parse`
  pub parse_url : Text → Option Url
  -- `Key::from_base64`, the key as its bytes
  pub key_from_base64 : Text → Option (List ℕ)
  -- `Key::get_public`
  pub get_public : List ℕ → List ℕ
  -- `SignedPublicKey::from_string`, `fingerprint`, `DetachedSignature::from_string`, `verify`
  pub pgp_public_key : Text → Text ⊎ Text
  pub pgp_fingerprint : Text → List ℕ
  pub pgp_signature : Text → Text ⊎ Text
  pub pgp_verify : Text → Text → Text → Option Text
  -- `PublicKey::from_str`, `SshSig::from_str`, `verify` with its namespace
  pub ssh_public_key : Text → Text ⊎ Text
  pub ssh_signature : Text → Text ⊎ Text
  pub ssh_verify : Text → Text → Text → Text → Option Text
  -- `InterfaceName::from_str`
  pub valid_interface_name : Text → Bool
