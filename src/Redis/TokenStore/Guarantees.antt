-- ===== src/Redis/TokenStore/Guarantees.antt =====
-- What the token store over Redis means for the proxies that share it.
use toolboundary.Common.{
  ℕ, suc, refl, ◌+◌, ◌-◌, ◌/◌, ◌*◌, ◌≤◌, ◌<◌, ◌≡◌, String, true, false, some, List, arith, All, leb,
  Bool-cases, inl, inr,
}
use toolboundary.Common.Int.{pos, pos_part, ltb_ℤ}
use toolboundary.Tokens.{Crypto, CryptoLaws}
use toolboundary.Network.Fleet.{Visit, passes, visit_store, visits_store, fleet_single_use}
use toolboundary.Redis.Server.{second, answered, Delivery-cases, Strings, StringLaws}
use toolboundary.Redis.Key.{redis_key}
use toolboundary.Redis.TokenStore.{
  StoreClient, Ledger, redis_store, mark_used, is_used, ttl_until, whole_seconds, negated, plus_one,
}
use toolboundary.Redis.TokenStore.SingleUse.{redis-SingleUse}

module _ (R : Strings) (laws : StringLaws R) (C : StoreClient) where
  -- Proxies that share a store over Redis which fails closed, with hexadecimal signatures: a token
  -- that one of them has let through is let through by none again, for any tool, after any visits
  -- of other requests to any of them, and whatever replies of Redis are lost, if its later use
  -- reads one time for the test and for the store, and the visits between have read no later time.
  pub replicas_single_use :
      (K : Crypto) (crypto_laws : CryptoLaws K) (v v' : Visit K (redis_store R C)) (wire : List ℕ)
      (visits : List (Visit K (redis_store R C))) (s : Ledger R)
      → C.fail_closed ≡ true
      → v.wire ≡ some wire
      → v'.wire ≡ some wire
      → passes K (redis_store R C) v s ≡ true
      → All (λ u. u.at.mark_now ≤ v'.at.verify_now) visits
      → v'.at.mark_now ≤ v'.at.verify_now
      → passes K
          (redis_store R C)
          v'
          (visits_store K (redis_store R C) visits (visit_store K (redis_store R C) v s))
        ≡ false
  replicas_single_use K crypto_laws v v' wire visits s closed e e' h before le =
      fleet_single_use K (redis_store R C) (redis-SingleUse R laws C closed) crypto_laws v v' wire
        visits s e e' h before le

  -- less than a second after the expiry a mark is still taken, for one second
  ttl_until-late : (e now : ℕ) → e < now → now < e + second → ttl_until e now ≡ pos 1
  unfolding ttl_until whole_seconds negated plus_one
  ttl_until-late e now late soon =
      let past : leb now e ≡ false = ground arith in
      let none_whole : suc (now - e - 1) / second ≡ 0 = omega arith in rw (past, none_whole) refl

  ttl_until-early : (e now : ℕ) → now ≤ e → ltb_ℤ (pos 0) (ttl_until e now) ≡ true
  unfolding ttl_until whole_seconds negated plus_one
  ttl_until-early e now le = let ahead : leb now e ≡ true = ground arith in rw ahead (ground arith)

  -- an exchange that is answered
  mark_used-answered :
      (i : String) (e now : ℕ) (s : Ledger R)
      → C.link s.calls ≡ answered
      → ltb_ℤ (pos 0) (ttl_until e now) ≡ true
      → (mark_used R C i e now s) ≡ (
        (R.set_nx_ex (redis_key C.key_prefix i) "1" (pos_part (ttl_until e now)) now s.server).0,
        record {
          server =
              (R.set_nx_ex
                (redis_key C.key_prefix i)
                "1"
                (pos_part (ttl_until e now))
                now
                s.server).1;
          calls = suc s.calls;
        },
      )
  unfolding mark_used
  mark_used-answered i e now s up lives = rw (lives, up) refl

  -- A token id that Redis does not hold is marked as a first use, and marked a second time as a
  -- first use too, if both exchanges are answered, and the second call reads a time that is past
  -- the time to live given by the first, and less than a second past the expiry.
  pub marked_again_within_second :
      (i : String) (e now now' : ℕ) (s : Ledger R)
      → C.link s.calls ≡ answered
      → C.link (suc s.calls) ≡ answered
      → R.exists (redis_key C.key_prefix i) now s.server ≡ false
      → now ≤ e
      → now + pos_part (ttl_until e now) * second < now'
      → e < now'
      → now' < e + second
      → ((mark_used R C i e now s).0 ≡ true)
        × ((mark_used R C i e now' (mark_used R C i e now s).1).0 ≡ true)
  marked_again_within_second i e now now' s up up' new le ended late soon =
      let key = redis_key C.key_prefix i in
      let ttl = pos_part (ttl_until e now) in
      let created = laws.set_creates key "1" ttl now s.server new in
      let left : Ledger R = record {
        server = (R.set_nx_ex key "1" ttl now s.server).1;
        calls = suc s.calls;
      } in
      let once = ttl_until-late e now' late soon in
      (
        rw (mark_used-answered i e now s up (ttl_until-early e now le)) created,
        rw (mark_used-answered i e now s up (ttl_until-early e now le)) (
            rw (mark_used-answered i e now' left up' (rw once refl)) (
              laws.set_creates key "1" (pos_part (ttl_until e now')) now' _
                (laws.set_ends key "1" ttl now now' s.server created ended))),
      )

  -- While an exchange gets no reply, a store that fails closed takes a token id for used: it is
  -- not marked as a first use, and `is_used` says that it is used.
  pub outage_refuses :
      (i : String) (e now : ℕ) (s : Ledger R)
      → C.fail_closed ≡ true
      → ¬ (C.link s.calls ≡ answered)
      → ((mark_used R C i e now s).0 ≡ false) × ((is_used R C i now s).0 ≡ true)
  unfolding mark_used is_used
  outage_refuses i e now s closed down =
      let answer : (mark_used R C i e now s).0 ≡ false =
        elim (Bool-cases (ltb_ℤ (pos 0) (ttl_until e now))) [
          | inr past ↦ rw past refl
          | inl ahead ↦ elim (Delivery-cases (C.link s.calls)) [
            | inl up ↦ absurd (down up)
            | inr (inl d) ↦ rw (ahead, d, closed) refl
            | inr (inr d) ↦ rw (ahead, d, closed) refl
          ]
        ] in
      (
        answer,
        elim (Delivery-cases (C.link s.calls)) [
          | inl up ↦ absurd (down up)
          | inr (inl d) ↦ rw (d, closed) refl
          | inr (inr d) ↦ rw (d, closed) refl
        ],
      )
