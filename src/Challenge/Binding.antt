-- ===== src/Challenge/Binding.antt =====
-- src/challenge.rs: what a signed message binds.
use dn42_autopeer.Base.{
  ℕ, zero, suc, ◌≤◌, All, ◌≡◌, ◌≢◌, refl, sym, ap, subst, ◌++◌, [], ◌∷◌, Option, none, some, arith,
}
use dn42_autopeer.Base.Int.{ℤ}
use dn42_autopeer.Base.Text.{Text, text, IsLine}
use dn42_autopeer.Base.Decimal.{decimal, decimal_inj, decimal-IsLine, IsDigit, decimal-IsDigit}
use dn42_autopeer.Ipv6.{Ipv6, display}
use dn42_autopeer.Ipv6.Lines.{display-IsLine, both}
use dn42_autopeer.WgPubKey.{WgPubKey, as_str}
use dn42_autopeer.Challenge.Lines.{cancel, field, decimal_ℤ_inj}
use dn42_autopeer.Challenge.Messages.{
  settings, message_end, build_create_message, build_update_message, build_delete_message,
  link_local_message, create_endpoint, create_mtu, update_endpoint, update_mtu,
}

-- The fields of a message that a client chooses, each on one line.
pub record AreLines (name : Text) (pubkey : WgPubKey) (endpoint nonce : Text) : Type 0 where
  pub name_line : IsLine name
  pub key_line : IsLine (as_str pubkey)
  pub endpoint_line : IsLine endpoint
  pub nonce_line : IsLine nonce

link_local-IsLine : (p : Option (Ipv6 × Ipv6)) → IsLine (link_local_message p)
unfolding link_local_message text
link_local-IsLine none = (refl, (refl, (refl, (refl, tt))))
link_local-IsLine (some (a, b)) = (
  refl,
  (
    refl,
    (
      refl,
      (
        refl,
        (refl, (refl, (refl, both (display a) _ (display-IsLine a) (refl, display-IsLine b)))),
      ),
    ),
  ),
)

end-lines :
    (nonce nonce' : Text) (e e' : ℤ) (a b : Text)
    → IsLine a
    → IsLine b
    → IsLine nonce
    → IsLine nonce'
    → a ++ message_end nonce e ≡ b ++ message_end nonce' e'
    → (a ≡ b) × (nonce ≡ nonce') × (e ≡ e')
unfolding message_end text
end-lines nonce nonce' e e' a b ha hb hn hn' h =
    let (same, rest) = field (text "\nnonce:") a b _ _ (_, refl) ha hb h in
    let (nonces, times) = field (text "\nexpires_at:") nonce nonce' _ _ (_, refl) hn hn' rest in
    (same, nonces, decimal_ℤ_inj e e' times)

-- Two messages with settings that are the same have the same lines.
settings-lines :
    (header : Text) (asn asn' : ℕ) (name name' : Text) (key key' : WgPubKey)
    (endpoint endpoint' link link' mtu mtu' nonce nonce' : Text) (e e' : ℤ)
    → AreLines name key endpoint nonce
    → AreLines name' key' endpoint' nonce'
    → IsLine link
    → IsLine link'
    → IsLine mtu
    → IsLine mtu'
    → settings header asn name key endpoint link mtu nonce e
      ≡ settings header asn' name' key' endpoint' link' mtu' nonce' e'
    → (asn ≡ asn')
      × (name ≡ name')
      × (as_str key ≡ as_str key')
      × (endpoint ≡ endpoint')
      × (link ≡ link')
      × (mtu ≡ mtu')
      × (nonce ≡ nonce')
      × (e ≡ e')
unfolding settings text
settings-lines header asn asn' name name' key key' endpoint endpoint' link link' mtu mtu' nonce
      nonce' e e' h h' hl hl' hm hm' same =
    let (asns, r1) =
      field (text "\npeer_name:") (decimal asn) (decimal asn') _ _ (_, refl) (decimal-IsLine asn)
        (decimal-IsLine asn') (cancel header _ _ same) in
    let (names, r2) =
      field (text "\npubkey:") name name' _ _ (_, refl) h.name_line h'.name_line r1 in
    let (keys, r3) =
      field (text "\nendpoint:") (as_str key) (as_str key') _ _ (_, refl) h.key_line h'.key_line
        r2 in
    let (ends, r4) =
      field (text "\nlink_local:") endpoint endpoint' _ _ (_, refl) h.endpoint_line h'.endpoint_line
        r3 in
    let (links, r5) = field (text "\nmtu:") link link' _ _ (_, refl) hl hl' r4 in
    let (mtus, nonces, times) =
      end-lines nonce nonce' e e' mtu mtu' hm hm' h.nonce_line h'.nonce_line r5 in
    (decimal_inj asn asn' asns, names, keys, ends, links, mtus, nonces, times)

-- No number begins with a letter.
no_letter : (c n : ℕ) (s : Text) → 58 ≤ c → decimal n ≡ c ∷ s → ⊥
no_letter c n s large e =
    let digits : All IsDigit (c ∷ s) = subst (All IsDigit) e (decimal-IsDigit n) in
    omega (arith, digits.0.1, large)

create_mtu_inj : (m n : Option ℕ) → create_mtu m ≡ create_mtu n → m ≡ n
unfolding create_mtu text
create_mtu_inj none none e = refl
create_mtu_inj none (some n) e = absurd (no_letter _ n _ (omega arith) (sym e))
create_mtu_inj (some m) none e = absurd (no_letter _ m _ (omega arith) e)
create_mtu_inj (some m) (some n) e = ap some (decimal_inj m n e)

char_at : ℕ → Text → ℕ
char_at n [] = 0
char_at zero (c ∷ s) = c
char_at (suc n) (c ∷ s) = char_at n s

update_mtu_inj : (m n : Option (Option ℕ)) → update_mtu m ≡ update_mtu n → m ≡ n
unfolding update_mtu text char_at
update_mtu_inj none none e = refl
update_mtu_inj (some none) (some none) e = refl
update_mtu_inj (some (some m)) (some (some n)) e =
    ap (λ k. some (some k)) (decimal_inj m n (cancel (text "set:") _ _ e))
update_mtu_inj none (some none) e = ground (arith, ap (char_at 0) e)
update_mtu_inj none (some (some n)) e = ground (arith, ap (char_at 0) e)
update_mtu_inj (some none) none e = ground (arith, ap (char_at 0) e)
update_mtu_inj (some none) (some (some n)) e = ground (arith, ap (char_at 0) e)
update_mtu_inj (some (some m)) none e = ground (arith, ap (char_at 0) e)
update_mtu_inj (some (some m)) (some none) e = ground (arith, ap (char_at 0) e)

update_endpoint_inj : (m n : Option (Option Text)) → update_endpoint m ≡ update_endpoint n → m ≡ n
unfolding update_endpoint text char_at
update_endpoint_inj none none e = refl
update_endpoint_inj (some none) (some none) e = refl
update_endpoint_inj (some (some m)) (some (some n)) e =
    ap (λ k. some (some k)) (cancel (text "set:") _ _ e)
update_endpoint_inj none (some none) e = ground (arith, ap (char_at 0) e)
update_endpoint_inj none (some (some n)) e = ground (arith, ap (char_at 0) e)
update_endpoint_inj (some none) none e = ground (arith, ap (char_at 0) e)
update_endpoint_inj (some none) (some (some n)) e = ground (arith, ap (char_at 0) e)
update_endpoint_inj (some (some m)) none e = ground (arith, ap (char_at 0) e)
update_endpoint_inj (some (some m)) (some none) e = ground (arith, ap (char_at 0) e)

create_mtu-IsLine : (m : Option ℕ) → IsLine (create_mtu m)
unfolding create_mtu text
create_mtu-IsLine none = (refl, (refl, (refl, (refl, (refl, (refl, (refl, tt)))))))
create_mtu-IsLine (some m) = decimal-IsLine m

update_mtu-IsLine : (m : Option (Option ℕ)) → IsLine (update_mtu m)
unfolding update_mtu text
update_mtu-IsLine none = (refl, (refl, (refl, (refl, (refl, (refl, (refl, (refl, (refl, tt)))))))))
update_mtu-IsLine (some none) = (refl, (refl, (refl, (refl, (refl, (refl, (refl, tt)))))))
update_mtu-IsLine (some (some m)) = (refl, (refl, (refl, (refl, decimal-IsLine m))))

-- The message of a creation binds the request: if two of them are equal and their names, keys,
-- endpoints and nonces hold no line break, then ASN, name, key, MTU, nonce and time are equal, and
-- so are the texts of the endpoint and of the addresses.
pub build_create_message-binds :
    (asn asn' : ℕ) (name name' : Text) (key key' : WgPubKey) (endpoint endpoint' : Option Text)
    (link link' : Option (Ipv6 × Ipv6)) (mtu mtu' : Option ℕ) (nonce nonce' : Text) (e e' : ℤ)
    → AreLines name key (create_endpoint endpoint) nonce
    → AreLines name' key' (create_endpoint endpoint') nonce'
    → build_create_message asn name key endpoint link mtu nonce e
      ≡ build_create_message asn' name' key' endpoint' link' mtu' nonce' e'
    → (asn ≡ asn')
      × (name ≡ name')
      × (key ≡ key')
      × (create_endpoint endpoint ≡ create_endpoint endpoint')
      × (link_local_message link ≡ link_local_message link')
      × (mtu ≡ mtu')
      × (nonce ≡ nonce')
      × (e ≡ e')
unfolding build_create_message
build_create_message-binds asn asn' name name' key key' endpoint endpoint' link link' mtu mtu' nonce
      nonce' e e' h h' same =
    let (asns, names, keys, ends, links, mtus, nonces, times) =
      settings-lines _ asn asn' name name' key key' _ _ _ _ _ _ nonce nonce' e e' h h'
        (link_local-IsLine link) (link_local-IsLine link') (create_mtu-IsLine mtu)
        (create_mtu-IsLine mtu') same in
    (
      asns,
      names,
      ap (λ v. record { value = v }) keys,
      ends,
      links,
      create_mtu_inj mtu mtu' mtus,
      nonces,
      times,
    )

-- The message of an update binds the request: if two of them are equal and their names, keys,
-- endpoints and nonces hold no line break, then ASN, name, key, the change of the endpoint, the
-- change of the MTU, nonce and time are equal, and so is the text of the addresses.
pub build_update_message-binds :
    (asn asn' : ℕ) (name name' : Text) (key key' : WgPubKey)
    (endpoint endpoint' : Option (Option Text)) (link link' : Option (Ipv6 × Ipv6))
    (mtu mtu' : Option (Option ℕ)) (nonce nonce' : Text) (e e' : ℤ)
    → AreLines name key (update_endpoint endpoint) nonce
    → AreLines name' key' (update_endpoint endpoint') nonce'
    → build_update_message asn name key endpoint link mtu nonce e
      ≡ build_update_message asn' name' key' endpoint' link' mtu' nonce' e'
    → (asn ≡ asn')
      × (name ≡ name')
      × (key ≡ key')
      × (endpoint ≡ endpoint')
      × (link_local_message link ≡ link_local_message link')
      × (mtu ≡ mtu')
      × (nonce ≡ nonce')
      × (e ≡ e')
unfolding build_update_message
build_update_message-binds asn asn' name name' key key' endpoint endpoint' link link' mtu mtu' nonce
      nonce' e e' h h' same =
    let (asns, names, keys, ends, links, mtus, nonces, times) =
      settings-lines _ asn asn' name name' key key' _ _ _ _ _ _ nonce nonce' e e' h h'
        (link_local-IsLine link) (link_local-IsLine link') (update_mtu-IsLine mtu)
        (update_mtu-IsLine mtu') same in
    (
      asns,
      names,
      ap (λ v. record { value = v }) keys,
      update_endpoint_inj endpoint endpoint' ends,
      links,
      update_mtu_inj mtu mtu' mtus,
      nonces,
      times,
    )

-- The message of a deletion binds the request: if two of them are equal and their names and nonces
-- hold no line break, then ASN, name, nonce and time are equal.
pub build_delete_message-binds :
    (asn asn' : ℕ) (name name' nonce nonce' : Text) (e e' : ℤ)
    → IsLine name
    → IsLine name'
    → IsLine nonce
    → IsLine nonce'
    → build_delete_message asn name nonce e ≡ build_delete_message asn' name' nonce' e'
    → (asn ≡ asn') × (name ≡ name') × (nonce ≡ nonce') × (e ≡ e')
unfolding build_delete_message text
build_delete_message-binds asn asn' name name' nonce nonce' e e' hn hn' hk hk' same =
    let (asns, rest) =
      field (text "\npeer_name:") (decimal asn) (decimal asn') _ _ (_, refl) (decimal-IsLine asn)
        (decimal-IsLine asn') (cancel (text "DN42-AUTOPEER-V3\noperation:delete\nasn:") _ _ same) in
    let (names, nonces, times) = end-lines nonce nonce' e e' name name' hn hn' hk hk' rest in
    (decimal_inj asn asn' asns, names, nonces, times)

-- No message serves two operations: whatever the fields, the message of a creation, that of an
-- update and that of a deletion are different texts.
pub messages-differ :
    (asn asn' : ℕ) (name name' : Text) (key key' : WgPubKey) (endpoint : Option Text)
    (change : Option (Option Text)) (link link' : Option (Ipv6 × Ipv6)) (mtu : Option ℕ)
    (new_mtu : Option (Option ℕ)) (nonce nonce' : Text) (e e' : ℤ)
    → (build_create_message asn name key endpoint link mtu nonce e
        ≢ build_update_message asn' name' key' change link' new_mtu nonce' e')
      × (build_create_message asn name key endpoint link mtu nonce e
          ≢ build_delete_message asn' name' nonce' e')
      × (build_update_message asn name key change link new_mtu nonce e
          ≢ build_delete_message asn' name' nonce' e')
unfolding build_create_message build_update_message build_delete_message settings text char_at
messages-differ asn asn' name name' key key' endpoint change link link' mtu new_mtu nonce nonce' e
      e' =
    (
      λ p. ground (arith, ap (char_at 27) p),
      λ p. ground (arith, ap (char_at 27) p),
      λ p. ground (arith, ap (char_at 27) p),
    )
