-- ===== src/World/Triple.antt =====
-- Pre- and postconditions of actions. An action that returns `a` leaves a world with `Q a`, and one
-- that fails with `e` leaves a world with `E e`.
use dn42_autopeer.Base.{
  ◌≡◌, refl, subst, arith, ℕ, Bool, true, false, Option, none, some, ◌⊎◌, inl, inr, if◌then◌else◌,
}
use dn42_autopeer.Error.{PeerError, SqlError}
use dn42_autopeer.Result.{Result, ok, err}
use dn42_autopeer.World.Types.{World, Failure, Db}
use dn42_autopeer.World.Keeps.{Keeps, IsStable}
use dn42_autopeer.World.Action.{
  raise, lift, pure, Action, ◌>>=◌, continue, advance, execute, Statement, commit, outcome,
}

abbrev pub Ends :
    {A : Type 0} → (A → World → Type 0) → (PeerError → World → Type 0) → Result A → World → Type 0
Ends Q E (ok a) w = Q a w
Ends Q E (err e) w = E e w

pub record Triple {A : Type 0} (P : World → Type 0) (m : Action A) (Q : A → World → Type 0)
    (E : PeerError → World → Type 0) : Type 0 where
  pub at : (w : World) → P w → Ends Q E (m w).0 (m w).1

module _ {A B : Type 0} {P : World → Type 0} {R : A → World → Type 0} {Q : B → World → Type 0}
    {E : PeerError → World → Type 0} where
  pub Triple-bind :
      (m : Action A) (f : A → Action B)
      → Triple P m R E
      → ((a : A) → Triple (R a) (f a) Q E)
      → Triple P (m >>= f) Q E
  unfolding ◌>>=◌
  Triple-bind m f tm tf = record { at = λ w h. let (r, w') = m w in go r w' (tm.at w h) }
    where
      go :
          (r : Result A) (w : World) → Ends R E r w → Ends Q E (continue r f w).0 (continue r f w).1
      go (ok a) w h = (tf a).at w h
      go (err e) w h = h

module _ {A : Type 0} {P : World → Type 0} where
  pub Triple-Keeps : (m : Action A) → Keeps P m → Triple P m (λ _. P) (λ _. P)
  Triple-Keeps m k = record { at = λ w h. go (m w).0 (m w).1 (k.at w h) }
    where
      go : (r : Result A) (w : World) → P w → Ends (λ _. P) (λ _. P) r w
      go (ok a) w h = h
      go (err e) w h = h

  pub Keeps-Triple : (m : Action A) → Triple P m (λ _. P) (λ _. P) → Keeps P m
  Keeps-Triple m t = record { at = λ w h. go (m w).0 (m w).1 (t.at w h) }
    where
      go : (r : Result A) (w : World) → Ends (λ _. P) (λ _. P) r w → P w
      go (ok a) w h = h
      go (err e) w h = h

-- What a statement leaves together with its result, unless it ends in an error.
abbrev pub Gives : {A : Type 0} → (A → Db → Type 0) → SqlError ⊎ (A × Db) → Type 0
Gives Q (inl e) = Unit
Gives Q (inr (a, db)) = Q a db

module _ {A : Type 0} (P : World → Type 0) (Q : A → World → Type 0) where
  commit-Ends :
      (o : SqlError ⊎ (A × Db)) (f : Option Failure) (w : World)
      → P w
      → Gives (λ a db. P (record w { db = db }) × Q a (record w { db = db })) o
      → Ends Q (λ _. P) (commit o f w).0 (commit o f w).1
  unfolding commit
  commit-Ends (inl e) none w h k = h
  commit-Ends (inl e) (some f) w h k = h
  commit-Ends (inr (a, db)) none w h k = k.1
  commit-Ends (inr (a, db)) (some f) w h k = either f.applied
    where
      either : (b : Bool) → P (if b then record w { db = db } else w)
      either true = k.0
      either false = h

  pub Triple-execute :
      (q : Statement A)
      → IsStable P
      → ((now : ℕ) (w : World)
          → P w
          → Gives (λ a db. P (record w { db = db }) × Q a (record w { db = db })) (q now w.db))
      → Triple P (execute q) Q (λ _. P)
  unfolding execute
  Triple-execute q s k = record {
    at = λ w h.
        commit-Ends _ (w.answers 0).fault (advance w) (s.advances w h)
          (k (w.answers 0).now (advance w) (s.advances w h));
  }

module _ {A : Type 0} {P R : World → Type 0} {Q : A → World → Type 0}
    {E : PeerError → World → Type 0} where
  -- A stronger precondition.
  pub Triple-before : (m : Action A) → ((w : World) → R w → P w) → Triple P m Q E → Triple R m Q E
  Triple-before m s t = record { at = λ w h. t.at w (s w h) }

module _ {A : Type 0} {P : World → Type 0} {Q : A → World → Type 0} (R : A → World → Type 0)
    {E : PeerError → World → Type 0} where
  -- A weaker postcondition.
  pub Triple-after :
      (m : Action A) → ((a : A) (w : World) → Q a w → R a w) → Triple P m Q E → Triple P m R E
  Triple-after m s t = record { at = λ w h. go (m w).0 (m w).1 (t.at w h) }
    where
      go : (r : Result A) (w : World) → Ends Q E r w → Ends R E r w
      go (ok a) w h = s a w h
      go (err e) w h = h

module _ {A : Type 0} {P : World → Type 0} (Q : World → Type 0) where
  -- An invariant gives a weaker postcondition.
  pub Triple-weaken :
      (m : Action A) → Keeps P m → ((w : World) → P w → Q w) → Triple P m (λ _. Q) (λ _. Q)
  Triple-weaken m k s = record { at = λ w h. go (m w).0 (m w).1 (s (m w).1 (k.at w h)) }
    where
      go : (r : Result A) (w : World) → Q w → Ends (λ _. Q) (λ _. Q) r w
      go (ok a) w h = h
      go (err e) w h = h

module _ {A : Type 0} {P : World → Type 0} {Q : A → World → Type 0}
    {E : PeerError → World → Type 0} where
  pub Triple-pure : (a : A) → ((w : World) → P w → Q a w) → Triple P (pure a) Q E
  unfolding pure
  Triple-pure a h = record { at = h }

  pub Triple-raise : (e : PeerError) → ((w : World) → P w → E e w) → Triple P (raise {A = A} e) Q E
  unfolding raise
  Triple-raise e h = record { at = h }

  pub Triple-if :
      (b : Bool) (m n : Action A)
      → (b ≡ true → Triple P m Q E)
      → (b ≡ false → Triple P n Q E)
      → Triple P (if b then m else n) Q E
  Triple-if true m n tm tn = tm refl
  Triple-if false m n tm tn = tn refl

  -- A fact that no world bears on stands in front of the triple.
  pub Triple-fact : {F : Type 0} (m : Action A) → (F → Triple P m Q E) → Triple (λ w. F × P w) m Q E
  Triple-fact m t = record { at = λ w h. (t h.0).at w h.1 }

  -- What an action that returned has left.
  pub Triple-returned :
      (m : Action A) (w : World) (a : A) → Triple P m Q E → P w → (m w).0 ≡ ok a → Q a (m w).1
  Triple-returned m w a t h e = let o : Result A × World = m w in go (m w).0 (m w).1 (t.at w h) e
    where
      go : (r : Result A) (v : World) → Ends Q E r v → r ≡ ok a → Q a v
      go (ok b) v k q = subst (λ c. Q c v) (ground (arith, q)) k
      go (err x) v k q = cc

module _ {A : Type 0} {P : World → Type 0} {E : PeerError → World → Type 0} where
  -- A value that the code computes: the rest may use where it came from.
  pub Triple-lift :
      (r : Result A)
      → ((e : PeerError) (w : World) → P w → E e w)
      → Triple P (lift r) (λ a w. (r ≡ ok a) × P w) E
  unfolding lift
  Triple-lift (ok a) k = record { at = λ w h. (refl, h) }
  Triple-lift (err e) k = record { at = λ w h. k e w h }

-- A postcondition of the actions that return; nothing is said of those that fail.
abbrev pub Partial : {A : Type 0} → (World → Type 0) → Action A → (A → World → Type 0) → Type 0
Partial P m Q = Triple P m Q (λ _ _. Unit)

module _ {A : Type 0} {P : World → Type 0} where
  pub Partial-Keeps : (m : Action A) → Keeps P m → Partial P m (λ _. P)
  Partial-Keeps m k = record { at = λ w h. go (m w).0 (m w).1 (k.at w h) }
    where
      go : (r : Result A) (w : World) → P w → Ends (λ _. P) (λ _ _. Unit) r w
      go (ok a) w h = h
      go (err e) w h = tt

module _ {A : Type 0} (Q : A → World → Type 0) where
  commit-Partial :
      (o : SqlError ⊎ (A × Db)) (f : Option Failure) (w : World)
      → Gives (λ a db. Q a (record w { db = db })) o
      → Ends Q (λ _ _. Unit) (commit o f w).0 (commit o f w).1
  unfolding commit
  commit-Partial (inl e) none w k = tt
  commit-Partial (inl e) (some f) w k = tt
  commit-Partial (inr (a, db)) none w k = k
  commit-Partial (inr (a, db)) (some f) w k = tt

  pub Partial-execute :
      {P : World → Type 0} (q : Statement A)
      → IsStable P
      → ((now : ℕ) (w : World) → P w → Gives (λ a db. Q a (record w { db = db })) (q now w.db))
      → Partial P (execute q) Q
  unfolding execute
  Partial-execute q s k = record {
    at = λ w h.
        commit-Partial _ (w.answers 0).fault (advance w)
          (k (w.answers 0).now (advance w) (s.advances w h));
  }

module _ {A : Type 0} {P : World → Type 0} {Q : A → World → Type 0}
    {E R : PeerError → World → Type 0} where
  -- The result of an action as a value.
  pub Triple-outcome :
      (m : Action A) → Triple P m Q E → Triple P (outcome m) (λ r w. Ends Q E r w) R
  unfolding outcome
  Triple-outcome m t = record { at = λ w h. t.at w h }

-- An action whose result is matched on: what it left holds on the branch that is taken.
module _ {A B : Type 0} {P : World → Type 0} {Q : A → World → Type 0}
    {E : PeerError → World → Type 0} {R : B → World → Type 0} {F : PeerError → World → Type 0} where
  pub Triple-try :
      (m : Action A) (f : A → Action B) (g : PeerError → Action B)
      → Triple P m Q E
      → ((a : A) → Triple (Q a) (f a) R F)
      → ((e : PeerError) → Triple (E e) (g e) R F)
      → Triple P (outcome m >>= λ r. elim r [ ok a ↦ f a | err e ↦ g e ]) R F
  Triple-try m f g tm tf tg = Triple-bind _ _ (Triple-outcome m tm) on
    where
      on : (r : Result A) → Triple (Ends Q E r) (elim r [ ok a ↦ f a | err e ↦ g e ]) R F
      on (ok a) = tf a
      on (err e) = tg e

-- Nothing is asked, and nothing is said.
module _ {A : Type 0} {P : World → Type 0} where
  pub Triple-any : (m : Action A) → Triple P m (λ _ _. Unit) (λ _ _. Unit)
  Triple-any m = record { at = λ w h. go (m w).0 (m w).1 }
    where
      go : (r : Result A) (w : World) → Ends (λ _ _. Unit) (λ _ _. Unit) r w
      go (ok a) w = tt
      go (err e) w = tt
