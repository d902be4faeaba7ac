-- ===== src/Redis/Limiter/Script.antt =====
-- The script of the limiter over Redis, on the sorted set of its key and on the others.
use toolboundary.Common.{
  ℕ, suc, ◌+◌, ◌*◌, ◌≤◌, ◌<◌, ◌≡◌, refl, inl, inr, String, Bool, true, false, [], ◌∷◌, ◌++◌, arith,
  ltb, leb, count_if, All, keep, ◌==◌, if◌then◌else◌, Bool-cases,
}
use toolboundary.Common.Int.{minus}
use toolboundary.Redis.Server.{second, SortedSets, SortedSetLaws, IsNew}
use toolboundary.Redis.Key.{redis_key, redis_key-other}
use toolboundary.Redis.Limiter.{Client, sliding_window_script, ttl_of, member_of}
use toolboundary.Redis.Limiter.Window.{
  Entries, within, above_cutoff, length-keep, count_if-keep, count_if-insert, All-insert, IsFading,
  Sound, Sound-keep, Sound-insert, count_if-alive,
}

-- the time to live is longer than the window
ttl_of-long : (w : ℕ) → w < ttl_of w * second
unfolding ttl_of
ttl_of-long w = ground arith

module _ (R : SortedSets) (laws : SortedSetLaws R) (C : Client)
    (distinct : (t t' i i' : ℕ) → member_of C t i ≡ member_of C t' i' → i ≡ i') where
  -- the member of one of the first `n` exchanges
  pub Drawn : ℕ → String → Type 0
  Drawn n m = (t : ℕ) × (i : ℕ) × (i < n) × (member_of C t i ≡ m)

  -- the entries of a limiter's key
  abbrev pub view : R.State → String → ℕ → Entries
  view s k t = laws.entries s (redis_key C.key_prefix k) t

  abbrev pub IsSound : ℕ → ℕ → R.State → ℕ → String → Type 0
  IsSound w n s t k = Sound w (Drawn n) (view s k) t

  pub view-IsFading : (s : R.State) (k : String) → IsFading (view s k)
  view-IsFading s k t t' le = laws.entries_later s (redis_key C.key_prefix k) t t' le

  Drawn-IsNew :
      (n now : ℕ) (es : Entries) → All (λ e. Drawn n e.0) es → IsNew (member_of C now n) es
  unfolding Drawn
  Drawn-IsNew n now [] h = tt
  Drawn-IsNew n now (e ∷ es) ((t, i, before, m), h) =
      (λ same. omega (arith, distinct t now i n (cc (m, same))), Drawn-IsNew n now es h)

  Drawn-now : (now n : ℕ) → Drawn (suc n) (member_of C now n)
  unfolding Drawn
  Drawn-now now n = (now, n, omega arith, refl)

  Drawn-more : (n : ℕ) (es : Entries) → All (λ e. Drawn n e.0) es → All (λ e. Drawn (suc n) e.0) es
  unfolding Drawn
  Drawn-more n [] h = tt
  Drawn-more n (e ∷ es) ((t, i, before, m), h) = ((t, i, omega arith, m), Drawn-more n es h)

  pub Sound-more :
      (w n t : ℕ) (s : R.State) (k : String) → IsSound w n s t k → IsSound w (suc n) s t k
  Sound-more w n t s k h = record {
    past = h.past;
    known = Drawn-more n (view s k t) h.known;
    lasting = h.lasting;
  }

  -- the script for the key `k`, with the `n`-th member
  module _ (k : String) (m w now n : ℕ) (s : R.State) where
    abbrev key : String
    key = redis_key C.key_prefix k

    abbrev removed : R.State
    removed = R.zremrangebyscore key (minus now w) now s

    abbrev added : R.State
    added = R.expire key (ttl_of w) now (R.zadd key now (member_of C now n) now removed)

    abbrev pub reply : Bool × R.State
    reply = sliding_window_script R key now (minus now w) m (member_of C now n) (ttl_of w) now s

    ttl_positive : ltb 0 (ttl_of w) ≡ true
    ttl_positive = ground (arith, ttl_of-long w)

    reply-eq : reply ≡ (if leb m (R.zcard key now removed) then (false, removed) else (true, added))
    unfolding sliding_window_script
    reply-eq = rw ttl_positive refl

    view-removed : (t : ℕ) → now ≤ t → view removed k t ≡ keep (above_cutoff w now) (view s k t)
    view-removed t le = laws.zremrangebyscore_removes key (minus now w) now t s le

    zcard-eq : R.zcard key now removed ≡ count_if (within w now) (view s k now)
    zcard-eq =
        rw (laws.zcard_counts key now removed, view-removed now (omega arith))
          (length-keep w now (view s k now))

    removed-IsSound : IsSound w n s now k → IsSound w n removed now k
    removed-IsSound h = Sound-keep w (Drawn n) (view s k) (view removed k) now view-removed h

    count-removed :
        (t : ℕ)
        → now ≤ t
        → count_if (within w t) (view removed k t) ≡ count_if (within w t) (view s k t)
    count-removed t le = rw (view-removed t le) (count_if-keep w now t (view s k t) le)

    -- where the new member stands
    module _ (h : IsSound w n removed now k) where
      placed :
          (xs : Entries) × (ys : Entries) × (view removed k now ≡ xs ++ ys)
          × (view (R.zadd key now (member_of C now n) now removed) k now
              ≡ xs ++ (member_of C now n, now) ∷ ys)
      placed =
          laws.zadd_adds key now (member_of C now n) now removed
            (Drawn-IsNew n now (view removed k now) h.known)

      added-both :
          (IsSound w (suc n) added now k)
          × ((t : ℕ)
              → now ≤ t
              → count_if (within w t) (view added k t)
                ≡ count_if (within w t) (view removed k t) + (if ltb t (now + w) then 1 else 0))
      added-both =
          let (xs, ys, before, behind) = placed in
          let new = member_of C now n in
          let until = now + ttl_of w * second in
          let alive : (t : ℕ) → now ≤ t → t < until → view added k t ≡ xs ++ (new, now) ∷ ys =
            λ t le soon. cc (laws.expire_keeps key (ttl_of w) now t _ le soon, behind) in
          let past : All (λ e. e.1 ≤ now) (xs ++ (new, now) ∷ ys) =
            All-insert (λ e. e.1 ≤ now) (new, now) xs ys (rw before at h.past) (omega arith) in
          let known : All (λ e. Drawn (suc n) e.0) (xs ++ (new, now) ∷ ys) =
            All-insert (λ e. Drawn (suc n) e.0) (new, now) xs ys
              (Drawn-more n (xs ++ ys) (rw before at h.known)) (Drawn-now now n) in
          let after : now + w ≤ until = omega (arith, ttl_of-long w) in
          let soon : now < until = omega (arith, ttl_of-long w) in
          let fading = view-IsFading added k in
          (
            Sound-insert w (Drawn (suc n)) now until new xs ys (view added k) after fading alive
                past soon known,
            λ t le.
                rw
                  (
                    count_if-alive w (Drawn (suc n)) now until new xs ys (view added k) after fading
                        alive past t soon le,
                    count_if-insert (within w t) (new, now) xs ys,
                  )
                  (rw (h.lasting t le, before) refl),
          )

    -- what the script answers, and leaves of the entries of its key
    pub script-IsSound :
        IsSound w n s now k
        → (reply.0 ≡ ltb (count_if (within w now) (view s k now)) m)
          × (IsSound w (suc n) reply.1 now k)
          × ((t : ℕ)
              → now ≤ t
              → count_if (within w t) (view reply.1 k t)
                ≡ count_if (within w t) (view s k t)
                  + (if reply.0 then (if ltb t (now + w) then 1 else 0) else 0))
    script-IsSound h =
        let h' = removed-IsSound h in
        elim (Bool-cases (leb m (R.zcard key now removed))) [
          | inl full ↦
              rw (reply-eq, full)
                (
                  ground (arith, zcard-eq),
                  Sound-more w n now removed k h',
                  λ t le. omega (arith, count-removed t le),
                )
          | inr room ↦
              let both = added-both h' in
              rw (reply-eq, room)
                (
                  ground (arith, zcard-eq),
                  both.0,
                  λ t le. omega (arith, both.1 t le, count-removed t le),
                )
        ]

    -- and of the others
    pub script-others :
        (j : String) → (k == j) ≡ false → (t : ℕ) → now ≤ t → view reply.1 j t ≡ view s j t
    script-others j other t le =
        let other' = redis_key-other C.key_prefix k j other in
        let after_removal =
          laws.zremrangebyscore_others key (redis_key C.key_prefix j) (minus now w) now t s le
            other' in
        elim (Bool-cases (leb m (R.zcard key now removed))) [
          | inl full ↦ rw (reply-eq, full) after_removal
          | inr room ↦
              rw (reply-eq, room)
                (cc (
                  after_removal,
                  laws.zadd_others key (redis_key C.key_prefix j) now (member_of C now n) now t
                      removed le other',
                  laws.expire_others key (redis_key C.key_prefix j) (ttl_of w) now t
                      (R.zadd key now (member_of C now n) now removed) le other',
                ))
        ]
