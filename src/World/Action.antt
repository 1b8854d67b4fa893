-- ===== src/World/Action.antt =====
-- Actions: a computation that reads and writes the world and may return an error. What was
-- written before an error stays written.
use dn42_autopeer.Base.{
  ℕ, suc, Bool, true, false, Option, none, some, List, [], ◌∷◌, ◌⊎◌, inl, inr, if◌then◌else◌,
}
use dn42_autopeer.Error.{PeerError, SqlError}
use dn42_autopeer.Result.{Result, ok, err}
use dn42_autopeer.World.Types.{World, Answer, Failure, Db}

abbrev pub Action : Type 0 → Type 0
Action A = World → Result A × World

module _ {A : Type 0} where
  unfoldable pub pure : A → Action A
  pure a w = (ok a, w)

  unfoldable pub raise : PeerError → Action A
  raise e w = (err e, w)

  unfoldable pub lift : Result A → Action A
  lift r w = (r, w)

module _ {A B : Type 0} where
  unfoldable pub continue : Result A → (A → Action B) → Action B
  continue (ok a) f w = f a w
  continue (err e) f w = (err e, w)

  infixl 5 ◌>>=◌ ◌>>◌
  -- `e?` and then the rest.
  unfoldable pub ◌>>=◌ : Action A → (A → Action B) → Action B
  unfolding continue
  ◌>>=◌ m f w = let (r, w') = m w in continue r f w'

  abbrev pub ◌>>◌ : Action A → Action B → Action B
  m >> n = m >>= λ _. n

module _ {A : Type 0} where
  -- The result of an action as a value, for a caller that goes on after an error.
  unfoldable pub outcome : Action A → Action (Result A)
  outcome m w = let (r, w') = m w in (ok r, w')

  -- A look at the world that no call makes.
  unfoldable pub gets : (World → A) → Action A
  gets f w = (ok (f w), w)

abbrev pub is_ok : {A : Type 0} → Result A → Bool
is_ok (ok a) = true
is_ok (err e) = false

-- `matches!(r, Ok(true))`
abbrev pub is_ok_true : Result Bool → Bool
is_ok_true (ok b) = b
is_ok_true (err e) = false

-- `for x in xs { f(x)?; }`
unfoldable pub for_each : {A : Type 0} → (A → Action Unit) → List A → Action Unit
for_each f [] = pure tt
for_each f (x ∷ xs) = do f x; for_each f xs

-- The world after its next answer has been taken.
abbrev pub advance : World → World
advance w = record w { answers = λ n. w.answers (suc n) }

-- The next answer.
unfoldable pub answer : Action Answer
answer w = (ok (w.answers 0), advance w)

-- A call with an effect and no result.
unfoldable pub settle : Option Failure → (World → World) → (Failure → PeerError) → Action Unit
settle none effect wrap w = (ok tt, effect w)
settle (some f) effect wrap w = (err (wrap f), if f.applied then effect w else w)

unfoldable pub call : (Answer → World → World) → (Failure → PeerError) → Action Unit
unfolding settle
call effect wrap w = settle (w.answers 0).fault (effect (w.answers 0)) wrap (advance w)

-- A call that reads, and changes nothing.
unfoldable pub respond : {A : Type 0} → Option Failure → Result A → (Failure → PeerError) → Action A
respond none r wrap w = (r, w)
respond (some f) r wrap w = (err (wrap f), w)

unfoldable pub ask : {A : Type 0} → (Answer → World → Result A) → (Failure → PeerError) → Action A
unfolding respond
ask view wrap w = respond (w.answers 0).fault (view (w.answers 0) (advance w)) wrap (advance w)

-- An SQL statement: an error, or a result with the database after it.
abbrev pub Statement : Type 0 → Type 0
Statement A = ℕ → Db → SqlError ⊎ (A × Db)

abbrev pub sql_error : Failure → PeerError
sql_error f = PeerError.database f.sql

module _ {A : Type 0} where
  unfoldable pub commit : SqlError ⊎ (A × Db) → Option Failure → Action A
  commit (inl e) none w = (err (PeerError.database e), w)
  commit (inl e) (some f) w = (err (sql_error f), w)
  commit (inr (a, db)) none w = (ok a, record w { db = db })
  commit (inr (a, db)) (some f) w =
      (err (sql_error f), if f.applied then record w { db = db } else w)

  -- `execute`, `fetch_one`, `fetch_optional` or `fetch_all` on a connection.
  unfoldable pub execute : Statement A → Action A
  unfolding commit
  execute q w = commit (q (w.answers 0).now w.db) (w.answers 0).fault (advance w)

-- `PeerStore::acquire`: a connection of the pool.
unfoldable pub acquire : Action Unit
unfolding call
acquire = call (λ a w. w) sql_error
