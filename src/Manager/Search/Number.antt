-- ===== src/Manager/Search/Number.antt =====
-- src/persist.rs: the ID that `allocate_peer_id` returns.
use dn42_autopeer.Base.{
  ℕ, ◌≡◌, ◌≢◌, ap, arith, ◌∷◌, inl, inr, nat_eq, text_eq, Bool-cases, ltb, ◌^◌,
}
use dn42_autopeer.Base.Int.{pos, try_u32, try_unsigned, int_eq}
use dn42_autopeer.Base.Text.{text}
use dn42_autopeer.Error.{PeerError}
use dn42_autopeer.Result.{ok_or}
use dn42_autopeer.World.Action.{lift, acquire}
use dn42_autopeer.World.Keeps.{IsStable}
use dn42_autopeer.World.Types.{World}
use dn42_autopeer.World.Keeps.{IsStable}
use dn42_autopeer.World.Triple.{Triple, Gives, Triple-bind, Triple-fact}
use dn42_autopeer.World.Calls.{Triple-call, Triple-statement}
use dn42_autopeer.Persist.{allocate_peer_id, next_peer_id}
use dn42_autopeer.Manager.DryRun.{sequences, IsUntouched, IsUntouched-IsStable, sequences}
use dn42_autopeer.Manager.Search.Goal.{no_free_port, IsOther}

module _ (before : World) where
  -- No peer has been numbered yet.
  abbrev pub IsFirst : World → Type 0
  IsFirst w = IsUntouched before w × (w.db.next_peer ≡ before.db.next_peer)

  IsFirst-IsStable : IsStable IsFirst
  IsFirst-IsStable = record {
    advances = λ w h. ((IsUntouched-IsStable before).advances w h.0, h.1);
  }

  next_peer_id-Gives :
      (now : ℕ) (w : World)
      → IsFirst w
      → Gives
          (λ id db. (id ≡ before.db.next_peer) × IsUntouched before (record w { db = db }))
          (next_peer_id now w.db)
  unfolding next_peer_id
  next_peer_id-Gives now w h = elim (Bool-cases (ltb w.db.next_peer (2 ^ 31))) [
    | inl e ↦ rw e (h.1, sequences before w _ _ h.0)
    | inr e ↦ rw e tt
  ]

  abbrev initial : PeerError → ℕ
  initial (PeerError.validation (c ∷ detail)) = c
  initial _ = 0

  sequence_ended : PeerError.validation (text "The peer ID sequence is exhausted") ≢ no_free_port
  unfolding text
  sequence_ended e = omega (arith, ap initial e)

  numbered :
      (n : ℕ)
      → n ≡ before.db.next_peer
      → Triple
          (IsUntouched before)
          (lift (
            ok_or
              (try_u32 (pos n))
              (PeerError.validation (text "The peer ID sequence is exhausted"))))
          (λ id w. (id ≡ before.db.next_peer) × IsUntouched before w)
          IsOther
  unfolding try_unsigned lift
  numbered n e = elim (Bool-cases (ltb n (2 ^ 32))) [
    | inl t ↦ rw t (record { at = λ w h. (e, h) })
    | inr t ↦ rw t (record { at = λ w h. sequence_ended })
  ]

  pub allocate_peer_id-Gives :
      Triple IsFirst allocate_peer_id
        (λ id w. (id ≡ before.db.next_peer) × IsUntouched before w)
        IsOther
  unfolding allocate_peer_id acquire
  allocate_peer_id-Gives =
      Triple-bind _ _ (Triple-call _ _ IsFirst-IsStable (λ a w h. h) (λ f w e. cc)) λ _.
        Triple-bind _ _
          (Triple-statement {Q = λ n w. (n ≡ before.db.next_peer) × IsUntouched before w} _
            IsFirst-IsStable next_peer_id-Gives (λ e w p. cc))
          (λ n. Triple-fact _ (numbered n))
