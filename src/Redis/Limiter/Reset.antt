-- ===== src/Redis/Limiter/Reset.antt =====
-- `RedisSlidingWindowRateLimiter.reset` of src/toolboundary/redis_backend.py.
use toolboundary.Common.{
  ℕ, zero, suc, ◌<◌, ◌≤◌, ◌≡◌, refl, ◌⊎◌, inl, inr, String, Bool, true, false, not, ◌&&◌, Option,
  none, some, List, [], ◌∷◌, arith, eqb, Bool-cases,
}
use toolboundary.Common.Names.{In}
use toolboundary.RateLimiter.History.{Request, InOrder, spec_run, run}
use toolboundary.Redis.Server.{
  answered, lost, unreachable, SortedSets, SortedSetLaws, Keyspace, KeyspaceLaws,
}
use toolboundary.Redis.Key.{redis_key, pattern, IsPlain}
use toolboundary.Redis.Limiter.{Client, Shared, member_of, redis_limiter}
use toolboundary.Redis.Limiter.Refinement.{shared_refines_history}

module _ (R : SortedSets) (D : Keyspace R.State) (C : Client) where
  -- `if batch: self._client.delete(*batch)`; does it go on, or is an exception raised?
  unfoldable pub delete_batch : List String → Shared R → Bool × Shared R
  delete_batch [] s = (true, s)
  delete_batch (k ∷ batch) s = elim (C.link s.calls) [
    | answered ↦ (true, record { server = D.delete (k ∷ batch) s.server; calls = suc s.calls })
    | lost ↦ (false, record { server = D.delete (k ∷ batch) s.server; calls = suc s.calls })
    | unreachable ↦ (false, record { server = s.server; calls = suc s.calls })
  ]

  -- the `while` loop; none if the fuel ends first
  unfoldable pub reset_loop : ℕ → ℕ → Shared R → Option (Shared R)
  unfolding delete_batch
  reset_loop zero cursor s = none
  reset_loop (suc fuel) cursor s =
      let asked : Shared R = record { server = s.server; calls = suc s.calls } in
      elim (C.link s.calls) [
        | answered ↦
            let found = D.scan cursor (pattern C.key_prefix) 100 s.server in
            let (goes_on, s') = delete_batch found.1 asked in
            elim (goes_on && not (eqb found.0 0)) [
              | true ↦ reset_loop fuel found.0 s'
              | false ↦ some s'
            ]
        | lost ↦ some asked
        | unreachable ↦ some asked
      ]

  unfoldable pub reset : ℕ → Option String → Shared R → Option (Shared R)
  unfolding delete_batch reset_loop
  reset fuel (some key) s = some (delete_batch (redis_key C.key_prefix key ∷ []) s).1
  reset fuel none s = reset_loop fuel 0 s

  module _ (laws : KeyspaceLaws R.State D) (always_answered : (i : ℕ) → C.link i ≡ answered)
      (plain : IsPlain C.key_prefix) where
    -- a key of the limiter is gone, or the iteration has yet to look at it
    IsAhead : ℕ → R.State → Type 0
    IsAhead c s =
        (k : String)
        → (laws.holds s (redis_key C.key_prefix k) ≡ false)
          ⊎ (laws.pending c (redis_key C.key_prefix k) ≡ true)

    delete_batch-eq :
        (ks : List String) (s : Shared R)
        → (s' : Shared R) × (delete_batch ks s ≡ (true, s'))
          × ((k : String) → laws.holds s.server k ≡ false → laws.holds s'.server k ≡ false)
          × ((k : String) → In k ks → laws.holds s'.server k ≡ false)
          × ((c : ℕ) → laws.remaining s'.server c ≤ laws.remaining s.server c)
    unfolding delete_batch
    delete_batch-eq [] s = (s, refl, λ k gone. gone, λ k i. absurd i, λ c. omega arith)
    delete_batch-eq (k ∷ ks) s = (
      record { server = D.delete (k ∷ ks) s.server; calls = suc s.calls },
      rw (always_answered s.calls, delete_batch) refl,
      λ j gone. laws.delete_adds_none j (k ∷ ks) s.server gone,
      λ j i. laws.delete_removes j (k ∷ ks) s.server i,
      λ c. laws.delete_prolongs_none c (k ∷ ks) s.server,
    )

    -- one round: the key is gone, or stands before the next cursor
    after_round :
        (c : ℕ) (s s' : R.State) (k : String)
        → IsAhead c s
        → ((j : String) → laws.holds s j ≡ false → laws.holds s' j ≡ false)
        → ((j : String) → In j (D.scan c (pattern C.key_prefix) 100 s).1 → laws.holds s' j ≡ false)
        → (laws.holds s' (redis_key C.key_prefix k) ≡ false)
          ⊎ ((eqb (D.scan c (pattern C.key_prefix) 100 s).0 0 ≡ false)
              × (laws.pending (D.scan c (pattern C.key_prefix) 100 s).0 (redis_key C.key_prefix k)
                  ≡ true))
    unfolding IsAhead
    after_round c s s' k ahead none_added removed =
        elim (Bool-cases (laws.holds s (redis_key C.key_prefix k))) [
          | inr gone ↦ inl (none_added _ gone)
          | inl there ↦ elim (ahead k) [
            | inl gone ↦ inl (none_added _ gone)
            | inr waits ↦ elim (laws.scan_finds c 100 C.key_prefix k s plain waits there) [
              | inl found ↦ inl (removed _ found)
              | inr later ↦ inr later
            ]
          ]
        ]

    loop_clears :
        (fuel c : ℕ) (s : Shared R)
        → laws.remaining s.server c < fuel
        → IsAhead c s.server
        → (s' : Shared R) × (reset_loop fuel c s ≡ some s')
          × ((k : String) → laws.holds s'.server (redis_key C.key_prefix k) ≡ false)
    unfolding reset_loop IsAhead
    loop_clears zero c s enough ahead = absurd (omega (arith, enough))
    loop_clears (suc fuel) c s enough ahead =
        let found = D.scan c (pattern C.key_prefix) 100 s.server in
        let asked : Shared R = record { server = s.server; calls = suc s.calls } in
        let (s1, deleted, none_added, removed, no_longer) = delete_batch-eq found.1 asked in
        let round : (k : String) → _ =
          λ k. after_round c s.server s1.server k ahead none_added removed in
        elim (Bool-cases (eqb found.0 0)) [
          | inl last ↦ (
            s1,
            rw (always_answered s.calls, deleted, last, reset_loop) (rw deleted refl),
            λ k. elim (round k) [ inl gone ↦ gone | inr more ↦ absurd (cc (last, more.0)) ],
          )
          | inr more ↦
              let advanced = laws.scan_advances c 100 (pattern C.key_prefix) s.server more in
              let (s', ends, gone) =
                loop_clears fuel found.0 s1 (omega (arith, advanced, no_longer found.0, enough))
                  (λ k. elim (round k) [ inl gone ↦ inl gone | inr later ↦ inr later.1 ]) in
              (s', rw (always_answered s.calls, deleted, more, reset_loop) (rw deleted ends), gone)
        ]

    -- With a key prefix that has none of the characters that are special in a pattern, a server
    -- that answers every exchange, and more fuel than rounds that an iteration can take, `reset()`
    -- ends, and the limiter starts anew: if an absent key is an empty sorted set to the server, and
    -- no member is drawn twice, every sequence of calls at times that do not go back is answered
    -- as by the specification that remembers no earlier call.
    pub reset_forgets :
        (sets : SortedSetLaws R)
        → ((s : R.State) (k : String) (t : ℕ) → laws.holds s k ≡ false → sets.entries s k t ≡ [])
        → ((t t' i i' : ℕ) → member_of C t i ≡ member_of C t' i' → i ≡ i')
        → (fuel : ℕ) (s : Shared R) → laws.remaining s.server 0 < fuel
        → (v : ℕ) (rs : List Request) → InOrder 0 rs
        → (s' : Shared R) × (reset fuel none s ≡ some s')
          × (run (redis_limiter R C) (suc v) rs s' ≡ spec_run v rs [])
    unfolding reset IsAhead
    reset_forgets sets absent distinct fuel s enough v rs o =
        let (s', ends, gone) =
          loop_clears fuel 0 s enough (λ k. inr (laws.pending_start (redis_key C.key_prefix k))) in
        (
          s',
          ends,
          shared_refines_history R sets C always_answered distinct v rs s'
              (λ k t. absent s'.server (redis_key C.key_prefix k) t (gone k)) o,
        )
