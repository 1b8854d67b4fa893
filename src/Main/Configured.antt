-- ===== src/Main/Configured.antt =====
-- src/main.rs: with what a process runs.
use dn42_autopeer.Base.{
  ℕ, ◌≡◌, refl, sym, ap, subst, ◌∙◌, ◌<◌, ◌^◌, List, Option, none, some, Bool, true, false, ◌⊎◌,
  inl, inr, if◌then◌else◌, arith, ltb, ◌==◌, nat_eq, text_eq,
}
use dn42_autopeer.Base.Text.{Text, parse_u64, parse_bits}
use dn42_autopeer.Result.{Result, ok, err}
use dn42_autopeer.External.{External}
use dn42_autopeer.World.Types.{World}
use dn42_autopeer.World.Action.{Action}
use dn42_autopeer.World.Triple.{
  Ends, Triple-bind, Triple-if, Triple-raise, Triple-pure, Partial, Partial-Keeps,
}
use dn42_autopeer.Challenge.{RequestAuthorizer, new_authorizer}
use dn42_autopeer.Main.Boot.{
  Boot, started, panic, boot_next, ◌>>=◌, settled, expect, expect_some, assert,
}
use dn42_autopeer.Main.Startup.{Env, Server, load_wg_keypair, main}
use dn42_autopeer.Main.Listener.{Phase}
use dn42_autopeer.Main.System.{
  Process, down, up, System, Happens, starts, serves, wakes, reconciles, stops, Run, here, after,
  launch, next_phase,
}

-- The two keys are a pair, and the numbers are in the ranges of their types; the limits of the
-- registry are positive.
pub record IsConfigured ⦃lib : External⦄ (server : Server) : Type 0 where
  pub private : List ℕ
  pub is_private : lib.key_from_base64 server.state.manager.local_wg_privkey ≡ some private
  pub is_public :
      lib.key_from_base64 server.state.manager.local_wg_pubkey ≡ some (lib.get_public private)
  pub asn_bound : server.state.manager.local_asn < 2 ^ 32
  pub port_bound : server.port < 2 ^ 16
  pub limit : 0 < server.state.authorizer.registry_limit
  pub limit_bound : server.state.authorizer.registry_limit < 2 ^ 61
  pub timeout : 0 < server.state.authorizer.registry_timeout

-- What a part of the start that does not panic gives.
record Yields {A : Type 0} (m : Boot A) (Q : A → Type 0) : Type 0 where
  at : (w : World) (a : A) → (m w).0 ≡ inr a → Q a

module _ {A : Type 0} {Q : A → Type 0} where
  Yields-started : (a : A) → Q a → Yields (started a) Q
  unfolding started
  Yields-started a q = record { at = λ w b e. subst Q (ground (arith, e)) q }

  Yields-some :
      (message : Text) (o : Option A)
      → ((a : A) → o ≡ some a → Q a)
      → Yields (expect_some message o) Q
  unfolding expect_some panic started
  Yields-some message none k = record { at = λ w b e. ground (arith, e) }
  Yields-some message (some a) k = record { at = λ w b e. k b (ground (arith, e)) }

  Yields-expect :
      (message : Text) (m : Action A)
      → Partial (λ _. Unit) m (λ a _. Q a)
      → Yields (expect message m) Q
  unfolding expect settled
  Yields-expect message m t = record { at = λ w a e. go (m w).0 (m w).1 a (t.at w tt) e }
    where
      go :
          (r : Result A) (w : World) (a : A)
          → Ends (λ a _. Q a) (λ _ _. Unit) r w
          → settled message r ≡ inr a
          → Q a
      go (ok b) w a q e = subst Q (ground (arith, e)) q
      go (err x) w a q e = ground (arith, e)

module _ {A B : Type 0} {Q : B → Type 0} (R : A → Type 0) where
  Yields-bind :
      (m : Boot A) (f : A → Boot B)
      → Yields m R
      → ((a : A) → R a → Yields (f a) Q)
      → Yields (m >>= f) Q
  unfolding ◌>>=◌ boot_next
  Yields-bind m f km kf = record { at = λ w b e. go (m w).0 (m w).1 b (km.at w) e }
    where
      go :
          (r : Text ⊎ A) (w : World) (b : B)
          → ((a : A) → r ≡ inr a → R a)
          → (boot_next r f w).0 ≡ inr b
          → Q b
      go (inl message) w b k e = ground (arith, e)
      go (inr a) w b k e = (kf a (k a refl)).at w b e

Yields-assert : (message : Text) (test : Bool) → Yields (assert message test) (λ _. test ≡ true)
unfolding assert panic started
Yields-assert message true = record { at = λ w a e. refl }
Yields-assert message false = record { at = λ w a e. ground (arith, e) }

parse_bits-bound : (bits : ℕ) (s : Text) (n : ℕ) → parse_bits bits s ≡ some n → n < 2 ^ bits
unfolding parse_bits
parse_bits-bound bits s n h = go (parse_u64 s) h
  where
    go :
        (o : Option ℕ)
        → elim o [ none ↦ none | some n ↦ if ltb n (2 ^ bits) then some n else none ] ≡ some n
        → n < 2 ^ bits
    go none e = ground (arith, e)
    go (some m) e = ground (arith, e)

new_authorizer-positive :
    (timeout limit url : Option Text)
    → Partial
        (λ _. Unit)
        (new_authorizer timeout limit url)
        (λ a _. (0 < a.registry_limit) × (0 < a.registry_timeout))
unfolding new_authorizer
new_authorizer-positive timeout limit url =
    Triple-bind _ _ (Partial-Keeps _ (record { at = λ w h. tt })) λ t.
      Triple-bind _ _ (Partial-Keeps _ (record { at = λ w h. tt })) λ l.
        Triple-if (t == 0) _ _ (λ _. Triple-raise _ (λ w h. tt))
          λ ht.
            Triple-if (l == 0) _ _ (λ _. Triple-raise _ (λ w h. tt))
              λ hl.
                Triple-bind _ _ (Partial-Keeps _ (record { at = λ w h. tt }))
                  λ _. Triple-pure _ (λ w h. (ground (arith, hl), ground (arith, ht)))

any_yield : {A : Type 0} (m : Boot A) → Yields m (λ _. Unit)
any_yield m = record { at = λ w a e. tt }

module _ ⦃lib : External⦄ (env : Env) where
  -- The two texts are a private key and its public key.
  abbrev IsPair : Text × Text → Type 0
  IsPair keys =
      (private : List ℕ) × (lib.key_from_base64 keys.0 ≡ some private)
      × (lib.key_from_base64 keys.1 ≡ some (lib.get_public private))

  load_wg_keypair-IsPair : Yields (load_wg_keypair env) IsPair
  unfolding load_wg_keypair
  load_wg_keypair-IsPair =
      Yields-bind (λ _. Unit) _ _ (any_yield _)
        λ private_key _.
          Yields-bind (λ _. Unit) _ _ (any_yield _)
            λ public_key _.
              Yields-bind (λ k. lib.key_from_base64 private_key ≡ some k) _ _
                (Yields-some _ _ (λ k e. e))
                λ private is_private.
                  Yields-bind (λ k. lib.key_from_base64 public_key ≡ some k) _ _
                    (Yields-some _ _ (λ k e. e))
                    λ public is_public.
                      Yields-bind (λ _. (lib.get_public private == public) ≡ true) _ _
                        (Yields-assert _ _)
                        λ _ same.
                          Yields-started (private_key, public_key)
                            (
                              private,
                              is_private,
                              is_public
                                  ∙ ap (λ k. some k) (sym ((text_eq.beq_iff _ public).0 same)),
                            )

  main-IsConfigured : Yields (main env) IsConfigured
  unfolding main
  main-IsConfigured =
      Yields-bind (λ _. Unit) _ _ (any_yield _)
        λ _ _.
          Yields-bind IsPair _ _ load_wg_keypair-IsPair λ keys (private, is_private, is_public).
            Yields-bind (λ n. n < 2 ^ 32) _ _ (Yields-some _ _ (parse_bits-bound 32 _))
              λ asn asn_bound.
                Yields-bind (λ _. Unit) _ _ (any_yield _)
                  λ _ _.
                    Yields-bind
                      (λ (a : RequestAuthorizer). (0 < a.registry_limit) × (0 < a.registry_timeout))
                      _ _ (Yields-expect _ _ (new_authorizer-positive _ _ _))
                      λ authorizer positive.
                        Yields-bind (λ _. ltb authorizer.registry_limit (2 ^ 61) ≡ true) _ _
                          (Yields-assert _ _)
                          λ _ permits.
                            Yields-bind (λ _. Unit) _ _ (any_yield _)
                              λ _ _.
                                Yields-bind (λ n. n < 2 ^ 16) _ _
                                  (Yields-some _ _ (parse_bits-bound 16 _))
                                  λ port port_bound.
                                    Yields-bind (λ _. Unit) _ _ (any_yield _)
                                      λ address _.
                                        Yields-bind (λ _. Unit) _ _ (any_yield _)
                                          λ _ _. Yields-started _ (record {
                                            private = private;
                                            is_private = is_private;
                                            is_public = is_public;
                                            asn_bound = asn_bound;
                                            port_bound = port_bound;
                                            limit = positive.0;
                                            limit_bound = ground (arith, permits);
                                            timeout = positive.1;
                                          })

-- A process that runs is configured.
abbrev pub IsReady : ⦃lib : External⦄ → Process → Type 0
IsReady down = Unit
IsReady (up server phase) = IsConfigured server

module _ ⦃lib : External⦄ where
  launch-IsReady :
      (env : Env) (r : Text ⊎ Server)
      → ((server : Server) → r ≡ inr server → IsConfigured server)
      → IsReady (launch r)
  launch-IsReady env (inl message) h = tt
  launch-IsReady env (inr server) h = h server refl

  next-IsReady :
      (server : Server) (phase : Phase) (r : Result Phase)
      → IsConfigured server
      → IsReady (next_phase server phase r)
  next-IsReady server phase (ok next) h = h
  next-IsReady server phase (err e) h = h

  Happens-IsReady : {s t : System} → Happens s t → IsReady s.process → IsReady t.process
  Happens-IsReady (starts {w} env) h = launch-IsReady env _ ((main-IsConfigured env).at w)
  Happens-IsReady (serves request) h = h
  Happens-IsReady (wakes wake) h = next-IsReady _ _ _ h
  Happens-IsReady reconciles h = h
  Happens-IsReady stops h = tt

  -- A service that starts from nothing never runs misconfigured: in every state that it reaches, a
  -- process that runs has a public key that belongs to its private key, an ASN below 2 ^ 32, a port
  -- below 2 ^ 16, a limit for the registry that is positive and below 2 ^ 61, and a positive time
  -- for it.
  pub Run-IsReady :
      (first last : System) → first.process ≡ down → Run first last → IsReady last.process
  Run-IsReady first last h here = subst IsReady (sym h) tt
  Run-IsReady first last h (after run happens) = Happens-IsReady happens (Run-IsReady first _ h run)
