-- ===== src/Main/Turns.antt =====
-- src/main.rs: what a turn of `run_peer_change_listener` does, whatever fails.
use dn42_autopeer.Base.{
  ℕ, zero, suc, ◌<◌, ◌≡◌, refl, ap, ◌⊎◌, inl, inr, Bool, true, false, Option, none, some, arith,
  if◌then◌else◌,
}
use dn42_autopeer.Error.{PeerError}
use dn42_autopeer.Result.{Result, ok, err}
use dn42_autopeer.External.{External}
use dn42_autopeer.World.Types.{World, Failure}
use dn42_autopeer.World.Action.{Action, advance, call, outcome, settle, continue, pure, ◌>>=◌}
use dn42_autopeer.Manager.{PeerManager, sync_pending_peer_changes}
use dn42_autopeer.Main.Listener.{
  Phase, connecting, listening, Wake, notification, retry, sync_logged, after_listen, after_connect,
  after_recv, connect_listener, listen_once, turn,
}

-- The world when so many more calls have been answered, and have changed nothing.
abbrev pub skip : ℕ → World → World
skip zero w = w
skip (suc n) w = skip n (advance w)

-- The calls that a turn makes before it syncs: it connects and subscribes, it receives, or it was
-- woken by the timer.
abbrev pub calls : Phase → Wake → ℕ
calls connecting wake = 2
calls listening notification = 1
calls listening retry = 0

-- The first calls have not failed.
abbrev pub AreFine : ℕ → World → Type 0
AreFine n w = (i : ℕ) → i < n → (w.answers i).fault ≡ none

module _ {B : Type 0} (P : Result B × World → Type 0) where
  settle-branch :
      (f : Option Failure) (wrap : Failure → PeerError) (k : Result (Unit {0}) → Action B)
      (w : World)
      → (f ≡ none → P (k (ok tt) w))
      → ((x : Failure) → f ≡ some x → P (k (err (wrap x)) w))
      → P (k (settle f (λ v. v) wrap w).0 (settle f (λ v. v) wrap w).1)
  unfolding settle
  settle-branch none wrap k w hn hs = hn refl
  settle-branch (some x) wrap k w hn hs = either x.applied
    where
      either : (b : Bool) → P (k (err (wrap x)) (if b then w else w))
      either true = hs x refl
      either false = hs x refl

  -- A call with no effect, whose error is looked at.
  call-branch :
      (wrap : Failure → PeerError) (k : Result (Unit {0}) → Action B) (w : World)
      → ((w.answers 0).fault ≡ none → P (k (ok tt) (advance w)))
      → ((x : Failure) → (w.answers 0).fault ≡ some x → P (k (err (wrap x)) (advance w)))
      → P ((outcome (call (λ a v. v) wrap) >>= k) w)
  unfolding call outcome ◌>>=◌ continue
  call-branch wrap k w hn hs = settle-branch (w.answers 0).fault wrap k (advance w) hn hs

module _ ⦃lib : External⦄ (self : PeerManager) where
  -- The turn ends in the inner loop: its calls have succeeded, and then the pending changes were
  -- synced, in the world as it was.
  abbrev pub Synced : ℕ → World → Result Phase × World → Type 0
  Synced n w o =
      AreFine n w × (o.0 ≡ ok listening) × (o.1 ≡ (sync_pending_peer_changes self (skip n w)).1)

  -- The turn ends before the connection: one of its calls was the first to fail, and the turn did
  -- nothing else.
  abbrev pub Reconnects : ℕ → World → Result Phase × World → Type 0
  Reconnects n w o =
      (i : ℕ) × (i < n)
      × AreFine i w
      × ((x : Failure) × ((w.answers i).fault ≡ some x))
      × (o.0 ≡ ok connecting)
      × (o.1 ≡ skip (suc i) w)

  sync_logged-lem :
      (w : World) → sync_logged self w ≡ (ok listening, (sync_pending_peer_changes self w).1)
  unfolding sync_logged outcome pure ◌>>=◌ continue
  sync_logged-lem w = refl

  syncs : (n : ℕ) (w : World) → AreFine n w → Synced n w (sync_logged self (skip n w))
  syncs n w fine =
      let e = sync_logged-lem (skip n w) in
      (fine, ap (λ (o : Result Phase × World). o.0) e, ap (λ (o : Result Phase × World). o.1) e)

one : (w : World) → (w.answers 0).fault ≡ none → AreFine 1 w
one w e zero h = e
one w e (suc i) h = absurd (omega (arith, h))

-- A turn of the listener ends in one of two ways, whatever fails: each call that it makes before
-- the sync succeeds, the pending changes are synced in the world as it was, and the loop listens
-- on whether the sync fails or not; or one of these calls is the first to fail, nothing has been
-- changed, and the loop connects anew. The calls are two where the listener connects, one where it
-- receives a notification, and none where the timer wakes it.
pub turn-syncs :
    ⦃lib : External⦄ (self : PeerManager) (phase : Phase) (wake : Wake) (w : World)
    → Synced self (calls phase wake) w (turn self phase wake w)
      ⊎ Reconnects self (calls phase wake) w (turn self phase wake w)
unfolding turn connect_listener listen_once after_connect after_listen after_recv pure
turn-syncs self connecting wake w =
    call-branch (λ o. Synced self 2 w o ⊎ Reconnects self 2 w o) _ _ w
      (λ e.
        call-branch (λ o. Synced self 2 w o ⊎ Reconnects self 2 w o) _ _ (advance w)
          (λ f. inl (syncs self 2 w (two e f)))
          (λ x f. inr (1, omega arith, one w e, (x, f), refl, refl)))
      (λ x e. inr (0, omega arith, (λ i h. absurd (omega (arith, h))), (x, e), refl, refl))
  where
    two : (w.answers 0).fault ≡ none → (w.answers 1).fault ≡ none → AreFine 2 w
    two e f zero h = e
    two e f (suc zero) h = f
    two e f (suc (suc i)) h = absurd (omega (arith, h))
turn-syncs self listening notification w =
    call-branch (λ o. Synced self 1 w o ⊎ Reconnects self 1 w o) _ _ w
      (λ e. inl (syncs self 1 w (one w e)))
      (λ x e. inr (0, omega arith, (λ i h. absurd (omega (arith, h))), (x, e), refl, refl))
turn-syncs self listening retry w = inl (syncs self 0 w (λ i h. absurd (omega (arith, h))))
