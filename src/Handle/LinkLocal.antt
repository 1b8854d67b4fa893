-- ===== src/Handle/LinkLocal.antt =====
-- src/handle.rs: the addresses that `parse_link_local` accepts.
use dn42_autopeer.Base.{
  ◌≡◌, ◌≢◌, refl, ap, Bool, true, false, Option, none, some, arith, ◌==◌, Option-cases, Bool-cases,
  inl, inr, ◌↔◌, ◌⊎◌, ◌∙◌, sym,
}
use dn42_autopeer.Base.Text.{Text, text, trim}
use dn42_autopeer.Error.{PeerError}
use dn42_autopeer.Ipv6.{Ipv6, ipv6_eq, parse_ipv6, is_unicast_link_local}
use dn42_autopeer.Result.{Result, ok, err}
use dn42_autopeer.Handle.Parse.{parse_link_local_address, parse_link_local}

-- The field holds this address, which is link-local.
abbrev pub Holds : Option Text → Ipv6 → Type 0
Holds field a =
    (s : Text) × ((field ≡ some s)
      × (parse_ipv6 (trim s) ≡ some a)
      × (is_unicast_link_local a ≡ true))

parse_address-Holds :
    (name : Text) (field : Option Text) (a : Ipv6)
    → parse_link_local_address name field ≡ ok a
    → Holds field a
unfolding parse_link_local_address
parse_address-Holds name none a h = ground (arith, h)
parse_address-Holds name (some s) a h = elim (Option-cases (parse_ipv6 (trim s))) [
  | inl e ↦ ground (arith, e, h)
  | inr (b, e) ↦ elim (Bool-cases (is_unicast_link_local b)) [
    | inl l ↦ (s, (refl, ground (arith, e, l, h), ground (arith, e, l, h)))
    | inr l ↦ ground (arith, e, l, h)
  ]
]

Holds-parse_address :
    (name : Text) (field : Option Text) (a : Ipv6)
    → Holds field a
    → parse_link_local_address name field ≡ ok a
unfolding parse_link_local_address
Holds-parse_address name none a (s, (here, parsed, local)) = ground (arith, here)
Holds-parse_address name (some t) a (s, (here, parsed, local)) = ground (arith, here, parsed, local)

Result-cases :
    {A : Type 0} (r : Result A) → ((a : A) × (r ≡ ok a)) ⊎ ((e : PeerError) × (r ≡ err e))
Result-cases (ok a) = inl (a, refl)
Result-cases (err e) = inr (e, refl)

differ_iff : (a b : Ipv6) → ((a == b) ≡ false) ↔ (a ≢ b)
differ_iff a b = elim (Bool-cases (a == b)) [
  | inl e ↦ ground (arith, e, (ipv6_eq.beq_iff a b).0 e)
  | inr e ↦ (λ h p. ground (arith, e, (ipv6_eq.beq_iff a b).1 p), λ h. e)
]

accepted-pair :
    (l r : Option Text) (a b : Ipv6)
    → parse_link_local true l r ≡ ok (some (a, b))
    → Holds l a × Holds r b × (a ≢ b)
unfolding parse_link_local
accepted-pair l r a b h = elim (Result-cases (parse_link_local_address (text "local_ll_ip") l)) [
  | inr (e, p) ↦ ground (arith, p, h)
  | inl (x, p) ↦ elim (Result-cases (parse_link_local_address (text "remote_ll_ip") r)) [
    | inr (e, q) ↦ ground (arith, p, q, h)
    | inl (y, q) ↦ elim (Bool-cases (x == y)) [
      | inl e ↦ ground (arith, p, q, e, h)
      | inr e ↦
          let left : x ≡ a = ground (arith, p, q, e, h) in
          let right : y ≡ b = ground (arith, p, q, e, h) in
          (
            parse_address-Holds _ l a (p ∙ ap ok left),
            parse_address-Holds _ r b (q ∙ ap ok right),
            (differ_iff a b).0 (
                ap (λ (z : Ipv6). z == b) (sym left) ∙ (ap (λ (z : Ipv6). x == z) (sym right) ∙ e)),
          )
    ]
  ]
]

pair-accepted :
    (l r : Option Text) (a b : Ipv6)
    → Holds l a
    → Holds r b
    → a ≢ b
    → parse_link_local true l r ≡ ok (some (a, b))
unfolding parse_link_local
pair-accepted l r a b hl hr differ = ground (
  arith,
  Holds-parse_address (text "local_ll_ip") l a hl,
  Holds-parse_address (text "remote_ll_ip") r b hr,
  (differ_iff a b).1 differ,
)

none-accepted : (l r : Option Text) (p : Ipv6 × Ipv6) → parse_link_local false l r ≡ ok (some p) → ⊥
unfolding parse_link_local
none-accepted none none p h = ground (arith, h)
none-accepted none (some s) p h = ground (arith, h)
none-accepted (some s) r p h = ground (arith, h)

-- `parse_link_local` accepts a pair of addresses exactly if the request asks for manual addresses,
-- each of its two fields holds the text of one of them, both are link-local, and they differ.
pub parse_link_local_iff :
    (manual : Bool) (l r : Option Text) (a b : Ipv6)
    → (parse_link_local manual l r ≡ ok (some (a, b)))
      ↔ ((manual ≡ true) × Holds l a × Holds r b × (a ≢ b))
parse_link_local_iff true l r a b = (
  λ h. let (hl, hr, differ) = accepted-pair l r a b h in (refl, hl, hr, differ),
  λ (_, hl, hr, differ). pair-accepted l r a b hl hr differ,
)
parse_link_local_iff false l r a b =
    (λ h. absurd (none-accepted l r (a, b) h), λ h. ground (arith, h.0))
