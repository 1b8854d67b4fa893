-- ===== src/Observability/Ids.antt =====
-- src/observability.rs: the ID of a request tells the requests apart.
use dn42_autopeer.Base.{ℕ, ◌≡◌, [], ◌∷◌, ◌++◌, arith, nat_eq}
use dn42_autopeer.Base.Text.{Text}
use dn42_autopeer.Base.Decimal.{lower_hex}
use dn42_autopeer.Base.Decimal.Hex.{lower_hex_inj, IsDashless, lower_hex-IsDashless}
use dn42_autopeer.Observability.Requests.{request_id}

-- The part before the first dash, and the part behind it.
at_dash :
    (a b x y : Text)
    → IsDashless a
    → IsDashless b
    → a ++ b'-' ∷ x ≡ b ++ b'-' ∷ y
    → (a ≡ b) × (x ≡ y)
at_dash [] [] x y ha hb e = ground (arith, e)
at_dash [] (d ∷ b) x y ha hb e = ground (arith, e)
at_dash (c ∷ a) [] x y ha hb e = ground (arith, e)
at_dash (c ∷ a) (d ∷ b) x y ha hb e =
    let rest = at_dash a b x y ha.1 hb.1 (ground (arith, e)) in (ground (arith, e, rest.0), rest.1)

-- Two requests with the same ID are the same: the process, the time and the number of a request
-- can be told from its ID, so requests with different numbers have different IDs.
pub request_id_inj :
    (process_id nanos sequence process_id' nanos' sequence' : ℕ)
    → request_id process_id nanos sequence ≡ request_id process_id' nanos' sequence'
    → (process_id ≡ process_id') × (nanos ≡ nanos') × (sequence ≡ sequence')
unfolding request_id
request_id_inj process_id nanos sequence process_id' nanos' sequence' e =
    let (p, rest) =
      at_dash (lower_hex process_id) (lower_hex process_id') _ _ (lower_hex-IsDashless process_id)
        (lower_hex-IsDashless process_id') e in
    let (n, s) =
      at_dash (lower_hex nanos) (lower_hex nanos') _ _ (lower_hex-IsDashless nanos)
        (lower_hex-IsDashless nanos') rest in
    (lower_hex_inj _ _ p, lower_hex_inj _ _ n, lower_hex_inj _ _ s)
