-- ===== src/World/Keeps.antt =====
-- Invariants of actions: what holds of the world before holds after, whether the action returns or
-- fails. One rule for each way to build an action.
use dn42_autopeer.Base.{
  ℕ, List, [], ◌∷◌, ◌≡◌, refl, Bool, true, false, Option, none, some, ◌⊎◌, inl, inr, if◌then◌else◌,
}
use dn42_autopeer.Error.{PeerError, SqlError}
use dn42_autopeer.Result.{Result, ok, err}
use dn42_autopeer.World.Types.{World, Answer, Failure, Db}
use dn42_autopeer.World.Action.{
  Action, pure, raise, lift, ◌>>=◌, continue, outcome, gets, for_each, advance, answer, call, ask,
  execute, Statement, acquire, settle, respond, commit,
}

pub record Keeps {A : Type 0} (P : World → Type 0) (m : Action A) : Type 0 where
  pub at : (w : World) → P w → P (m w).1

-- An invariant that speaks of the parts of the world and not of the answers to come.
pub record IsStable (P : World → Type 0) : Type 0 where
  pub advances : (w : World) → P w → P (advance w)

-- What a statement leaves, unless it ends in an error.
abbrev pub Leaves : {A : Type 0} → (Db → Type 0) → SqlError ⊎ (A × Db) → Type 0
Leaves P (inl e) = Unit
Leaves P (inr (a, db)) = P db

module _ {A : Type 0} (P : World → Type 0) where
  respond-keeps :
      (f : Option Failure) (r : Result A) (wrap : Failure → PeerError) (w : World)
      → P w
      → P (respond f r wrap w).1
  unfolding respond
  respond-keeps none r wrap w h = h
  respond-keeps (some f) r wrap w h = h

  commit-keeps :
      (o : SqlError ⊎ (A × Db)) (f : Option Failure) (w : World)
      → P w
      → Leaves (λ db. P (record w { db = db })) o
      → P (commit o f w).1
  unfolding commit
  commit-keeps (inl e) none w h k = h
  commit-keeps (inl e) (some f) w h k = h
  commit-keeps (inr (a, db)) none w h k = k
  commit-keeps (inr (a, db)) (some f) w h k = either f.applied
    where
      either : (b : Bool) → P (if b then record w { db = db } else w)
      either true = k
      either false = h

module _ (P : World → Type 0) where
  settle-keeps :
      (f : Option Failure) (effect : World → World) (wrap : Failure → PeerError) (w : World)
      → P w
      → P (effect w)
      → P (settle f effect wrap w).1
  unfolding settle
  settle-keeps none effect wrap w h k = k
  settle-keeps (some f) effect wrap w h k = either f.applied
    where
      either : (b : Bool) → P (if b then effect w else w)
      either true = k
      either false = h

module _ {A : Type 0} {P : World → Type 0} where
  pub Keeps-pure : (a : A) → Keeps P (pure a)
  unfolding pure
  Keeps-pure a = record { at = λ w h. h }

  pub Keeps-raise : (e : PeerError) → Keeps P (raise {A = A} e)
  unfolding raise
  Keeps-raise e = record { at = λ w h. h }

  pub Keeps-lift : (r : Result A) → Keeps P (lift r)
  unfolding lift
  Keeps-lift r = record { at = λ w h. h }

  pub Keeps-if :
      (test : Bool) (here there : Action A)
      → (test ≡ true → Keeps P here)
      → (test ≡ false → Keeps P there)
      → Keeps P (if test then here else there)
  Keeps-if true here there left right = left refl
  Keeps-if false here there left right = right refl

  pub Keeps-ask :
      (view : Answer → World → Result A) (wrap : Failure → PeerError)
      → IsStable P
      → Keeps P (ask view wrap)
  unfolding ask
  Keeps-ask view wrap s = record {
    at = λ w h. respond-keeps P (w.answers 0).fault _ wrap (advance w) (s.advances w h);
  }

  -- A statement keeps the invariant if every database that it leaves has it.
  pub Keeps-execute :
      (q : Statement A)
      → IsStable P
      → ((now : ℕ) (w : World) → P w → Leaves (λ db. P (record w { db = db })) (q now w.db))
      → Keeps P (execute q)
  unfolding execute
  Keeps-execute q s k = record {
    at = λ w h.
        commit-keeps P _ (w.answers 0).fault (advance w) (s.advances w h)
          (k (w.answers 0).now (advance w) (s.advances w h));
  }

module _ {A B : Type 0} {P : World → Type 0} where
  pub Keeps-bind :
      (m : Action A) (f : A → Action B) → Keeps P m → ((a : A) → Keeps P (f a)) → Keeps P (m >>= f)
  unfolding ◌>>=◌
  Keeps-bind m f km kf = record { at = λ w h. let (r, w') = m w in go r w' (km.at w h) }
    where
      go : (r : Result A) (w : World) → P w → P (continue r f w).1
      go (ok a) w h = (kf a).at w h
      go (err e) w h = h

module _ {A : Type 0} {P : World → Type 0} where
  pub Keeps-outcome : (m : Action A) → Keeps P m → Keeps P (outcome m)
  unfolding outcome
  Keeps-outcome m k = record { at = λ w h. k.at w h }

  pub Keeps-gets : (f : World → A) → Keeps P (gets f)
  unfolding gets
  Keeps-gets f = record { at = λ w h. h }

  pub Keeps-for_each :
      (f : A → Action Unit) (xs : List A) → ((x : A) → Keeps P (f x)) → Keeps P (for_each f xs)
  unfolding for_each
  Keeps-for_each f [] k = Keeps-pure tt
  Keeps-for_each f (x ∷ xs) k = Keeps-bind (f x) _ (k x) (λ _. Keeps-for_each f xs k)

module _ {P : World → Type 0} where
  pub Keeps-call :
      (effect : Answer → World → World) (wrap : Failure → PeerError)
      → IsStable P
      → ((a : Answer) (w : World) → P w → P (effect a w))
      → Keeps P (call effect wrap)
  unfolding call
  Keeps-call effect wrap s k = record {
    at = λ w h.
        settle-keeps P (w.answers 0).fault (effect (w.answers 0)) wrap (advance w) (s.advances w h)
          (k (w.answers 0) (advance w) (s.advances w h));
  }

  pub Keeps-acquire : IsStable P → Keeps P acquire
  unfolding acquire
  Keeps-acquire s = Keeps-call _ _ s (λ a w h. h)

  pub Keeps-answer : IsStable P → Keeps P answer
  unfolding answer
  Keeps-answer s = record { at = λ w h. s.advances w h }

-- A match on a value that the action before returned.
module _ {A : Type 0} {P : World → Type 0} where
  pub Keeps-elim_Bool :
      (b : Bool) (m n : Action A)
      → Keeps P m
      → Keeps P n
      → Keeps P (elim b [ true ↦ m | false ↦ n ])
  Keeps-elim_Bool true m n km kn = km
  Keeps-elim_Bool false m n km kn = kn

  pub Keeps-elim_Option :
      {B : Type 0} (o : Option B) (m : Action A) (f : B → Action A)
      → Keeps P m
      → ((b : B) → Keeps P (f b))
      → Keeps P (elim o [ none ↦ m | some b ↦ f b ])
  Keeps-elim_Option none m f km kf = km
  Keeps-elim_Option (some b) m f km kf = kf b

  pub Keeps-elim_Result :
      {B : Type 0} (r : Result B) (f : B → Action A) (g : PeerError → Action A)
      → ((b : B) → Keeps P (f b))
      → ((e : PeerError) → Keeps P (g e))
      → Keeps P (elim r [ ok b ↦ f b | err e ↦ g e ])
  Keeps-elim_Result (ok b) f g kf kg = kf b
  Keeps-elim_Result (err e) f g kf kg = kg e

pub ruleset keeps_rules = (
  Keeps-elim_Bool, Keeps-elim_Option, Keeps-elim_Result, Keeps-pure, Keeps-raise, Keeps-lift,
  Keeps-if, Keeps-ask, Keeps-bind, Keeps-outcome, Keeps-gets, Keeps-for_each, Keeps-acquire,
  Keeps-answer,
)
