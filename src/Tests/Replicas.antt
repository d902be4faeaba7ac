-- ===== src/Tests/Replicas.antt =====
-- Proxies that share a token store over Redis, on a server in memory.
use toolboundary.Common.{
  ℕ, zero, suc, ◌+◌, ◌*◌, ◌<◌, ◌≡◌, refl, inl, inr, String, Bool, true, false, Option, none, some,
  [], ◌∷◌, arith, ltb, if◌then◌else◌, ◌==◌, eq_iff, eq_refl, Bool-cases,
}
use toolboundary.Common.Int.{pos_part}
use toolboundary.Redis.Server.{second, answered, lost, Strings, StringLaws, Delivery}
use toolboundary.Redis.TokenStore.{
  StoreClient, Ledger, redis_store, mark_used, ttl_until, whole_seconds, plus_one,
}
use toolboundary.Redis.TokenStore.Guarantees.{replicas_single_use, marked_again_within_second}
use toolboundary.Network.{NetworkEnforcer}
use toolboundary.Network.Decision.{allowed}
use toolboundary.Network.Issued.{issued_passes}
use toolboundary.Tokens.{issue}
use toolboundary.Common.Dict.{lookup}
use toolboundary.Network.{authorize_and_resolve}
use toolboundary.Network.Fleet.{Visit, passes, visit_store, visits_store}
use toolboundary.Tests.Tokens.{crypto, crypto_laws, issuer, search_route, at, wire}

-- the time at which a key expires, for each that was set
abbrev still : Option ℕ → ℕ → Bool
still none t = false
still (some d) t = ltb t d

abbrev lives : (String → Option ℕ) → String → ℕ → Bool
lives s k t = still (s k) t

abbrev put : String → ℕ → (String → Option ℕ) → String → Option ℕ
put k d s j = if k == j then some d else s j

abbrev memory_strings : Strings
memory_strings = record {
  State = String → Option ℕ;
  set_nx_ex =
      λ k v ttl at s. if lives s k at then (false, s) else (true, put k (at + ttl * second) s);
  exists = λ k t s. lives s k t;
}

put_self : (k : String) (d : ℕ) (s : String → Option ℕ) → put k d s k ≡ some d
put_self k d s = rw (eq_refl k) refl

put_other : (k j : String) (d : ℕ) (s : String → Option ℕ) → (k == j) ≡ false → put k d s j ≡ s j
put_other k j d s other = rw other refl

module _ (k j v : String) (ttl at t : ℕ) (s : String → Option ℕ) where
  set_lasts :
      (memory_strings.set_nx_ex k v ttl at s).0 ≡ true
      → t < at + ttl * second
      → lives (memory_strings.set_nx_ex k v ttl at s).1 k t ≡ true
  set_lasts h soon = elim (Bool-cases (lives s k at)) [
    | inl old ↦ absurd (cc (rw old at h))
    | inr new ↦ rw new (rw (put_self k (at + ttl * second) s) (ground arith))
  ]

  set_ends :
      (memory_strings.set_nx_ex k v ttl at s).0 ≡ true
      → at + ttl * second < t
      → lives (memory_strings.set_nx_ex k v ttl at s).1 k t ≡ false
  set_ends h late = elim (Bool-cases (lives s k at)) [
    | inl old ↦ absurd (cc (rw old at h))
    | inr new ↦ rw new (rw (put_self k (at + ttl * second) s) (ground arith))
  ]

  set_keeps :
      lives s j at ≡ true → lives (memory_strings.set_nx_ex k v ttl at s).1 j t ≡ lives s j t
  set_keeps living = elim (Bool-cases (lives s k at)) [
    | inl old ↦ rw old refl
    | inr new ↦ elim (Bool-cases (k == j)) [
      | inl same ↦ absurd (cc (living, new, (eq_iff k j).0 same))
      | inr other ↦ rw new (rw (put_other k j (at + ttl * second) s other) refl)
    ]
  ]

memory-StringLaws : StringLaws memory_strings
memory-StringLaws = record {
  set_creates = λ k v ttl at s new. rw new refl;
  set_refuses = λ k v ttl at s old. rw old refl;
  set_lasts = λ k v ttl at t s. set_lasts k k v ttl at t s;
  set_ends = λ k v ttl at t s. set_ends k k v ttl at t s;
  set_keeps = λ k j v ttl at t s. set_keeps k j v ttl at t s;
}

-- the first reply arrives, the later ones are lost
abbrev replies : ℕ → Delivery
replies zero = answered
replies (suc i) = lost

abbrev client : (ℕ → Delivery) → StoreClient
client link = record { key_prefix = "tok:"; fail_closed = true; link = link }

abbrev flaky : StoreClient
flaky = client replies

abbrev start : Ledger memory_strings
start = record { server = λ k. none; calls = 0 }

abbrev replica : NetworkEnforcer (Ledger memory_strings)
replica = record { issuer = issuer; routes = ("search", search_route) ∷ []; token_store = start }

abbrev visit : ℕ → Visit crypto (redis_store memory_strings flaky)
visit now = record { replica = replica; tool_name = "search"; wire = some wire; at = at now }

routed : lookup "search" replica.routes ≡ some search_route
unfolding lookup
routed = refl

first_marked : (mark_used memory_strings flaky "t1" 37 9 start).0 ≡ true
unfolding mark_used ttl_until whole_seconds plus_one
first_marked = refl

resolved :
    (authorize_and_resolve crypto
      (redis_store memory_strings flaky)
      "search"
      (some wire)
      (at 9)
      replica).0
    ≡ allowed "https://search"
unfolding issue
resolved =
    issued_passes crypto crypto_laws (redis_store memory_strings flaky) issuer 7 "t1" "agent"
      "search" none search_route (at 9) replica refl routed (λ s e. cc) (omega arith) first_marked

passed : passes crypto (redis_store memory_strings flaky) (visit 9) start ≡ true
passed = cc resolved

replicas_single_use_example :
    passes crypto (redis_store memory_strings flaky) (visit 20) (
      visits_store crypto
        (redis_store memory_strings flaky)
        (visit 12 ∷ [])
        (visit_store crypto (redis_store memory_strings flaky) (visit 9) start))
    ≡ false
replicas_single_use_example =
    replicas_single_use memory_strings memory-StringLaws flaky crypto crypto_laws (visit 9)
      (visit 20) wire (visit 12 ∷ []) start refl refl refl passed (omega arith, tt) (omega arith)

abbrev steady : StoreClient
steady = client (λ i. answered)

time_to_live : pos_part (ttl_until 500_000_000 0) ≡ 1
unfolding ttl_until whole_seconds plus_one
time_to_live = refl

marked_again_within_second_example :
    ((mark_used memory_strings steady "t1" 500_000_000 0 start).0 ≡ true)
    × ((mark_used memory_strings steady "t1" 500_000_000 1_200_000_000
          (mark_used memory_strings steady "t1" 500_000_000 0 start).1).0
        ≡ true)
marked_again_within_second_example =
    marked_again_within_second memory_strings memory-StringLaws steady "t1" 500_000_000 0
      1_200_000_000 start refl refl refl (omega arith) (omega (arith, time_to_live)) (omega arith)
      (omega arith)
