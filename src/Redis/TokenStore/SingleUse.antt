-- ===== src/Redis/TokenStore/SingleUse.antt =====
-- The token store over Redis keeps the single-use contract, whether or not the server answers.
use toolboundary.Common.{
  ℕ, suc, ◌+◌, ◌*◌, ◌≤◌, ◌<◌, ◌≡◌, refl, ◌⊎◌, inl, inr, String, Bool, true, false, not, arith, leb,
  Bool-cases,
}
use toolboundary.Common.Int.{pos, pos_part, ltb_ℤ}
use toolboundary.Tokens.Store.{SingleUse}
use toolboundary.Redis.Server.{second, Delivery-cases, Strings, StringLaws}
use toolboundary.Redis.Key.{redis_key}
use toolboundary.Redis.Limiter.{deliver}
use toolboundary.Redis.TokenStore.{
  StoreClient, Ledger, ttl_until, whole_seconds, negated, plus_one, mark_used, redis_store,
}

-- A time to live that is positive reaches past the expiry.
pub ttl_until-long :
    (e now : ℕ)
    → ltb_ℤ (pos 0) (ttl_until e now) ≡ true
    → e < now + pos_part (ttl_until e now) * second
unfolding ttl_until whole_seconds negated plus_one
ttl_until-long e now h = elim (Bool-cases (leb now e)) [
  | inl ahead ↦ rw ahead (ground arith)
  | inr past ↦ ground (arith, past)
]

module _ (R : Strings) (laws : StringLaws R) (C : StoreClient) where
  -- the key of an id lives up to the expiry
  IsMarked : Ledger R → String → ℕ → Type 0
  IsMarked s i e = (t : ℕ) → t ≤ e → R.exists (redis_key C.key_prefix i) t s.server ≡ true

  -- the exchange of a call whose time to live is positive
  module _ (i : String) (e now : ℕ) (s : Ledger R) where
    abbrev created : Bool × R.State
    created = R.set_nx_ex (redis_key C.key_prefix i) "1" (pos_part (ttl_until e now)) now s.server

    abbrev delivered : Bool × R.State
    delivered = deliver (C.link s.calls) (not C.fail_closed) created s.server

    -- what `mark_used` answers, and the server that it leaves
    mark_used-cases :
        ((ltb_ℤ (pos 0) (ttl_until e now) ≡ false) × (mark_used R C i e now s ≡ (false, s)))
        ⊎ ((ltb_ℤ (pos 0) (ttl_until e now) ≡ true)
            × (mark_used R C i e now s
                ≡ (delivered.0, record { server = delivered.1; calls = suc s.calls })))
    unfolding mark_used
    mark_used-cases = elim (Bool-cases (ltb_ℤ (pos 0) (ttl_until e now))) [
      | inl lives ↦ inr (lives, rw lives refl)
      | inr dead ↦ inl (dead, rw dead refl)
    ]

    created-keeps :
        (j : String) (x t : ℕ)
        → IsMarked s j x
        → now ≤ x
        → t ≤ x
        → R.exists (redis_key C.key_prefix j) t delivered.1 ≡ true
    unfolding IsMarked
    created-keeps j x t m le le' =
        let kept =
          laws.set_keeps (redis_key C.key_prefix i) (redis_key C.key_prefix j) "1"
            (pos_part (ttl_until e now)) now t s.server (m now le) in
        elim (Delivery-cases (C.link s.calls)) [
          | inl up ↦ rw up (cc (kept, m t le'))
          | inr (inl d) ↦ rw d (cc (kept, m t le'))
          | inr (inr d) ↦ rw d (m t le')
        ]

  mark_used-keeps :
      (i j : String) (e e' now : ℕ) (s : Ledger R)
      → IsMarked s i e
      → now ≤ e
      → IsMarked (mark_used R C j e' now s).1 i e
  unfolding IsMarked
  mark_used-keeps i j e e' now s m le t le' = elim (mark_used-cases j e' now s) [
    | inl (dead, r) ↦ rw r (m t le')
    | inr (lives, r) ↦ rw r (created-keeps j e' now s i e t m le le')
  ]

  module _ (closed : C.fail_closed ≡ true) where
    -- a first use is a reply of the server
    delivered-created :
        (i : String) (e now : ℕ) (s : Ledger R)
        → (delivered i e now s).0 ≡ true
        → (delivered i e now s ≡ created i e now s)
    delivered-created i e now s h = elim (Delivery-cases (C.link s.calls)) [
      | inl up ↦ rw up refl
      | inr (inl d) ↦ absurd (cc (d, closed, h))
      | inr (inr d) ↦ absurd (cc (d, closed, h))
    ]

    mark_used-marks :
        (i : String) (e now : ℕ) (s : Ledger R)
        → (mark_used R C i e now s).0 ≡ true
        → IsMarked (mark_used R C i e now s).1 i e
    unfolding IsMarked
    mark_used-marks i e now s h t le = elim (mark_used-cases i e now s) [
      | inl (dead, r) ↦ absurd (cc (r, h))
      | inr (lives, r) ↦
          let first : (delivered i e now s).0 ≡ true = rw r at h in
          let reply = delivered-created i e now s first in
          rw (r, reply)
            (laws.set_lasts (redis_key C.key_prefix i) "1" (pos_part (ttl_until e now)) now t
              s.server (cc (reply, first)) (omega (arith, ttl_until-long e now lives)))
    ]

    mark_used-refuses :
        (i : String) (e e' now : ℕ) (s : Ledger R)
        → IsMarked s i e
        → now ≤ e
        → (mark_used R C i e' now s).0 ≡ false
    unfolding IsMarked
    mark_used-refuses i e e' now s m le = elim (mark_used-cases i e' now s) [
      | inl (dead, r) ↦ rw r refl
      | inr (lives, r) ↦ elim (Bool-cases (delivered i e' now s).0) [
        | inr refused ↦ rw r refused
        | inl first ↦ absurd (
            cc (
              first,
              delivered-created i e' now s first,
              laws.set_refuses (redis_key C.key_prefix i) "1" (pos_part (ttl_until e' now)) now
                  s.server (m now le),
            ))
      ]
    ]

    -- The store over Redis keeps the single-use contract, if it fails closed.
    pub redis-SingleUse : SingleUse (redis_store R C)
    redis-SingleUse = record {
      Marked = IsMarked;
      marks = mark_used-marks;
      keeps = mark_used-keeps;
      refuses = mark_used-refuses;
    }
