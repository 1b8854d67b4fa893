-- ===== src/Challenge/Vouching.antt =====
-- src/challenge.rs: a check that says yes has found the key in the registry.
use dn42_autopeer.Base.{
  ℕ, ◌+◌, ◌≡◌, refl, sym, ap, ◌∙◌, arith, inl, inr, List, [], ◌∷◌, ◌++◌, Option, none, some, Bool,
  true, false, if◌then◌else◌, text_eq,
}
use dn42_autopeer.Base.Text.{Text, text}
use dn42_autopeer.Base.Decimal.{decimal}
use dn42_autopeer.External.{External}
use dn42_autopeer.World.Types.{World, Answer, Failure, Json, Items}
use dn42_autopeer.World.Action.{continue, Action, pure, answer, ◌>>=◌}
use dn42_autopeer.World.Follows.{Follows, Follows-IsStable}
use dn42_autopeer.World.Triple.{
  Triple, Triple-bind, Triple-pure, Triple-if, Triple-fact, Triple-after,
}
use dn42_autopeer.Challenge.Registry.{
  Reply, no_reply, reply, served, http_get, Check, failed, found, attributes, maintainers, has_auth,
  check_maintainers, check_registry_for_asn_and_pubkey, is_success, is_error_status,
}
use dn42_autopeer.Challenge.Registered.{IsOneOf, Serves, IsVouched, IsRegistered, has_auth-IsAuth}

-- What a reply says of the world.
abbrev Got : World → Text → Reply → Type 0
Got w url (no_reply b) = Unit
Got w url (reply status none) = Unit
Got w url (reply status (some json)) = Serves w url status json

module _ (before : World) where
  served-Got :
      (url : Text) (w : World) (f : Option Failure) (o : ℕ × Option Json)
      → Follows before w
      → (w.answers 0).fault ≡ f
      → (w.answers 0).http url ≡ o
      → Got before url (served f o)
  unfolding served
  served-Got url w none (status, some json) h e k = record {
    moment = 0 + h.taken;
    answered = ap (λ (a : Answer). a.fault) (sym (h.later 0)) ∙ e;
    body = ap (λ (a : Answer). a.http url) (sym (h.later 0)) ∙ k;
  }
  served-Got url w none (status, none) h e k = tt
  served-Got url w (some f) o h e k = tt

  http_get-Got :
      (url : Text)
      → Triple
          (Follows before)
          (http_get url)
          (λ r w. Got before url r × Follows before w)
          (λ _ _. Unit)
  unfolding http_get answer pure ◌>>=◌ continue
  http_get-Got url = record {
    at = λ w h. (
      served-Got url w (w.answers 0).fault ((w.answers 0).http url) h refl refl,
      (Follows-IsStable before).advances w h,
    );
  }

  -- A check whose outcome, if it is a yes, has the property.
  abbrev pub Proves : Type 0 → Action Check → Type 0
  Proves F m = Triple (Follows before) m (λ c _. (c ≡ found true) → F) (λ _ _. Unit)

  module _ {F : Type 0} where
    Proves-not : (c : Check) → (c ≡ found true → F) → Proves F (pure c)
    Proves-not c k = Triple-pure c (λ w h. k)

    -- The match on a reply.
    Proves-reply :
        (url : Text) (r : Reply) (m n : Action Check) (o : ℕ → Action Check)
        (f : ℕ → Json → Action Check)
        → Proves F m
        → Proves F n
        → ((status : ℕ) → Proves F (o status))
        → ((status : ℕ) (json : Json) → Serves before url status json → Proves F (f status json))
        → Got before url r
        → Proves F (elim r [
          | no_reply true ↦ m
          | no_reply false ↦ n
          | reply status none ↦ o status
          | reply status (some json) ↦ f status json
        ])
    Proves-reply url (no_reply true) m n o f pm pn po pf g = pm
    Proves-reply url (no_reply false) m n o f pm pn po pf g = pn
    Proves-reply url (reply status none) m n o f pm pn po pf g = po status
    Proves-reply url (reply status (some json)) m n o f pm pn po pf g = pf status json g

    Proves-get :
        (url : Text) (k : Reply → Action Check)
        → ((r : Reply) → Got before url r → Proves F (k r))
        → Proves F (http_get url >>= k)
    Proves-get url k p = Triple-bind _ _ (http_get-Got url) (λ r. Triple-fact _ (λ g. p r g))

    Proves-if :
        (b : Bool) (m n : Action Check)
        → (b ≡ true → Proves F m)
        → (b ≡ false → Proves F n)
        → Proves F (if b then m else n)
    Proves-if b m n pm pn = Triple-if b m n pm pn

    Proves-items :
        (o : Option Items) (m : Action Check) (f : Items → Action Check)
        → Proves F m
        → ((items : Items) → o ≡ some items → Proves F (f items))
        → Proves F (elim o [ none ↦ m | some items ↦ f items ])
    Proves-items none m f pm pf = pm
    Proves-items (some items) m f pm pf = pf items refl

  module _ (registry_url : Text) where
    check_maintainers-Proves :
        (expected names all : List Text)
        → ((name : Text) → IsOneOf name names → IsOneOf name all)
        → Proves
            (IsVouched before registry_url expected all)
            (check_maintainers registry_url expected names)
    unfolding check_maintainers
    check_maintainers-Proves expected [] all sub = Proves-not _ (λ e. ground (arith, e))
    check_maintainers-Proves expected (name ∷ rest) all sub =
        let on = check_maintainers-Proves expected rest all (λ n m. sub n (inr m)) in
        Proves-get _ _ λ r g.
          Proves-reply _ r _ _ _ _ (Proves-not _ (λ e. ground (arith, e))) on (λ _. on)
            (λ status json serves.
              Proves-if (is_success status) _ _
                (λ success.
                  Proves-items (attributes (text "mntner/" ++ name) json) _ _ on λ items e.
                    Proves-if (has_auth expected items) _ _
                      (λ yes. Proves-not _ λ _.
                        let a = has_auth-IsAuth expected items yes in
                        record {
                          maintainer = name;
                          is_listed = sub name (inl refl);
                          vouching = record {
                            status = status;
                            json = json;
                            serves = serves;
                            success = success;
                            items = items;
                            is_entry = e;
                            auth = a.auth;
                            has = a.has;
                            expects = a.expects;
                          };
                        })
                      (λ no. on))
                (λ _. on))
            g

    module _ ⦃lib : External⦄ where
      pub check_registry-Proves :
          (asn : ℕ) (public_key : Text)
          → Proves
              (IsRegistered before registry_url asn public_key)
              (check_registry_for_asn_and_pubkey registry_url asn public_key)
      unfolding check_registry_for_asn_and_pubkey
      check_registry-Proves asn public_key =
          let failing : Proves (IsRegistered before registry_url asn public_key) (pure failed) =
            Proves-not failed (λ e. ground (arith, e)) in
          Proves-get _ _ λ r g.
            Proves-reply _ r _ _ _ _ (Proves-not _ (λ e. ground (arith, e))) failing (λ _. failing)
              (λ status json serves.
                Proves-if (is_error_status status) _ _ (λ _. failing)
                  λ fine.
                    Proves-items (attributes (text "aut-num/AS" ++ decimal asn) json) _ _ failing
                      λ items e.
                        Triple-after _ _
                          (λ c w k yes. record {
                            status = status;
                            json = json;
                            serves = serves;
                            success = fine;
                            items = items;
                            is_entry = e;
                            vouched = k yes;
                          })
                          (check_maintainers-Proves _ _ (maintainers items) (λ n m. m)))
              g
