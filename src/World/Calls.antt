-- ===== src/World/Calls.antt =====
-- Pre- and postconditions of the calls, where the errors matter too.
use dn42_autopeer.Base.{ℕ, ◌≡◌, refl, Bool, true, false, Option, none, some, ◌⊎◌, inl, inr}
use dn42_autopeer.Error.{PeerError, SqlError}
use dn42_autopeer.Result.{Result, ok, err}
use dn42_autopeer.World.Types.{World, Answer, Failure, Db}
use dn42_autopeer.World.Keeps.{IsStable}
use dn42_autopeer.World.Triple.{Ends, Triple, Gives}
use dn42_autopeer.World.Action.{
  Action, advance, execute, Statement, commit, ask, call, respond, settle,
}

module _ {A : Type 0} {P : World → Type 0} {Q : A → World → Type 0}
    {E : PeerError → World → Type 0} where
  pub Triple-ask :
      (view : Answer → World → Result A) (wrap : Failure → PeerError)
      → IsStable P
      → ((a : Answer) (w : World) → P w → Ends Q E (view a w) w)
      → ((f : Failure) (w : World) → E (wrap f) w)
      → Triple P (ask view wrap) Q E
  unfolding ask respond
  Triple-ask view wrap s k l = record {
    at = λ w h. go (w.answers 0).fault _ (advance w) (k (w.answers 0) (advance w) (s.advances w h));
  }
    where
      go :
          (f : Option Failure) (r : Result A) (w : World)
          → Ends Q E r w
          → Ends Q E (respond f r wrap w).0 (respond f r wrap w).1
      go none r w h = h
      go (some f) r w h = l f w

  pub Triple-statement :
      (q : Statement A)
      → IsStable P
      → ((now : ℕ) (w : World) → P w → Gives (λ a db. Q a (record w { db = db })) (q now w.db))
      → ((e : SqlError) (w : World) → E (PeerError.database e) w)
      → Triple P (execute q) Q E
  unfolding execute commit
  Triple-statement q s k l = record {
    at = λ w h.
        go _ (w.answers 0).fault (advance w) (k (w.answers 0).now (advance w) (s.advances w h));
  }
    where
      go :
          (o : SqlError ⊎ (A × Db)) (f : Option Failure) (w : World)
          → Gives (λ a db. Q a (record w { db = db })) o
          → Ends Q E (commit o f w).0 (commit o f w).1
      go (inl e) none w h = l e w
      go (inl e) (some f) w h = l f.sql w
      go (inr (a, db)) none w h = h
      go (inr (a, db)) (some f) w h = l f.sql _

module _ {P Q : World → Type 0} {E : PeerError → World → Type 0} where
  pub Triple-call :
      (effect : Answer → World → World) (wrap : Failure → PeerError)
      → IsStable P
      → ((a : Answer) (w : World) → P w → Q (effect a w))
      → ((f : Failure) (w : World) → E (wrap f) w)
      → Triple P (call effect wrap) (λ _. Q) E
  unfolding call settle
  Triple-call effect wrap s k l = record {
    at = λ w h.
        go (w.answers 0).fault (effect (w.answers 0)) (advance w)
          (k (w.answers 0) (advance w) (s.advances w h));
  }
    where
      go :
          (f : Option Failure) (change : World → World) (w : World)
          → Q (change w)
          → Ends (λ _. Q) E (settle f change wrap w).0 (settle f change wrap w).1
      go none change w h = h
      go (some f) change w h = l f _

-- A match on a truth value.
module _ {A : Type 0} {P : World → Type 0} {Q : A → World → Type 0}
    {E : PeerError → World → Type 0} where
  pub Triple-elim_Bool :
      (b : Bool) (m n : Action A)
      → (b ≡ true → Triple P m Q E)
      → (b ≡ false → Triple P n Q E)
      → Triple P (elim b [ true ↦ m | false ↦ n ]) Q E
  Triple-elim_Bool true m n tm tn = tm refl
  Triple-elim_Bool false m n tm tn = tn refl

module _ {A : Type 0} {P : World → Type 0} {Q : A → World → Type 0} {E : PeerError → World → Type 0}
    (F : PeerError → World → Type 0) where
  -- A weaker postcondition of the actions that fail.
  pub Triple-errors :
      (m : Action A)
      → ((e : PeerError) (w : World) → E e w → F e w)
      → Triple P m Q E
      → Triple P m Q F
  Triple-errors m s t = record { at = λ w h. go (m w).0 (m w).1 (t.at w h) }
    where
      go : (r : Result A) (w : World) → Ends Q E r w → Ends Q F r w
      go (ok a) w h = h
      go (err e) w h = s e w h
