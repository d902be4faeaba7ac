-- ===== src/Redis/Server.antt =====
-- What src/toolboundary/redis_backend.py asks of a Redis server: the commands, which are not code
-- of the repository, and the documented behaviour that the proofs use. A clock reading is a whole
-- number of nanoseconds. The replicas and the server read one clock, and a script, which Redis
-- runs as one atomic step, runs at the reading of the call that sends it.
use toolboundary.Common.{
  ℕ, ◌+◌, ◌*◌, ◌≤◌, ◌<◌, ◌≡◌, refl, ◌⊎◌, inl, inr, String, Bool, true, false, List, [], ◌∷◌, ◌++◌,
  keep, length, All, ◌==◌, eqb,
}
use toolboundary.Common.Int.{ℤ, pos, ltb_ℤ}
use toolboundary.Common.Names.{In}
use toolboundary.Redis.Key.{redis_key, pattern, IsPlain}

-- a second, in nanoseconds
abbrev pub second : ℕ
second = 1_000_000_000

-- how a command that a client sends ends: with the reply; with an exception after the server has
-- run it, the reply being lost; or with an exception before the server has seen it
pub data Delivery : Type 0 where
  answered lost unreachable : Delivery

pub Delivery-cases : (d : Delivery) → (d ≡ answered) ⊎ ((d ≡ lost) ⊎ (d ≡ unreachable))
Delivery-cases answered = inl refl
Delivery-cases lost = inr (inl refl)
Delivery-cases unreachable = inr (inr refl)

-- The commands on sorted sets. Before the state stands the server's clock reading.
pub record SortedSets : Type 1 where
  pub State : Type 0
  -- key, and the highest score that is removed, from -inf on
  pub zremrangebyscore : String → ℤ → ℕ → State → State
  pub zcard : String → ℕ → State → ℕ
  -- key, score, member
  pub zadd : String → ℕ → String → ℕ → State → State
  -- key, seconds
  pub expire : String → ℕ → ℕ → State → State

-- a member of a sorted set is not among its entries
abbrev pub IsNew : String → List (String × ℕ) → Type 0
IsNew m = All (λ e. ¬ (e.0 ≡ m))

pub record SortedSetLaws (R : SortedSets) : Type 1 where
  -- the members and scores of a key, as a client finds them at a time; none when it has expired
  pub entries : R.State → String → ℕ → List (String × ℕ)
  -- time only makes a key expire
  pub entries_later :
      (s : R.State) (k : String) (t t' : ℕ)
      → t ≤ t'
      → (entries s k t' ≡ entries s k t) ⊎ (entries s k t' ≡ [])
  pub zremrangebyscore_removes :
      (k : String) (c : ℤ) (at t : ℕ) (s : R.State)
      → at ≤ t
      → entries (R.zremrangebyscore k c at s) k t ≡ keep (λ e. ltb_ℤ c (pos e.1)) (entries s k t)
  pub zremrangebyscore_others :
      (k j : String) (c : ℤ) (at t : ℕ) (s : R.State)
      → at ≤ t
      → (k == j) ≡ false
      → entries (R.zremrangebyscore k c at s) j t ≡ entries s j t
  pub zcard_counts : (k : String) (at : ℕ) (s : R.State) → R.zcard k at s ≡ length (entries s k at)
  -- a new member is put somewhere among the entries
  pub zadd_adds :
      (k : String) (x : ℕ) (m : String) (at : ℕ) (s : R.State)
      → IsNew m (entries s k at)
      → (xs : List (String × ℕ)) × (ys : List (String × ℕ)) × (entries s k at ≡ xs ++ ys)
        × (entries (R.zadd k x m at s) k at ≡ xs ++ (m, x) ∷ ys)
  pub zadd_others :
      (k j : String) (x : ℕ) (m : String) (at t : ℕ) (s : R.State)
      → at ≤ t
      → (k == j) ≡ false
      → entries (R.zadd k x m at s) j t ≡ entries s j t
  -- a key lives as long as the last time to live that it was given
  pub expire_keeps :
      (k : String) (ttl at t : ℕ) (s : R.State)
      → at ≤ t
      → t < at + ttl * second
      → entries (R.expire k ttl at s) k t ≡ entries s k at
  pub expire_others :
      (k j : String) (ttl at t : ℕ) (s : R.State)
      → at ≤ t
      → (k == j) ≡ false
      → entries (R.expire k ttl at s) j t ≡ entries s j t

-- The commands on string values that the token store sends.
pub record Strings : Type 1 where
  pub State : Type 0
  -- `SET key value NX EX ttl`: key, value, seconds; is the key created?
  pub set_nx_ex : String → String → ℕ → ℕ → State → Bool × State
  pub exists : String → ℕ → State → Bool

pub record StringLaws (R : Strings) : Type 0 where
  pub set_creates :
      (k v : String) (ttl at : ℕ) (s : R.State)
      → R.exists k at s ≡ false
      → (R.set_nx_ex k v ttl at s).0 ≡ true
  pub set_refuses :
      (k v : String) (ttl at : ℕ) (s : R.State)
      → R.exists k at s ≡ true
      → (R.set_nx_ex k v ttl at s).0 ≡ false
  -- a key that is created lives for its time to live
  pub set_lasts :
      (k v : String) (ttl at t : ℕ) (s : R.State)
      → (R.set_nx_ex k v ttl at s).0 ≡ true
      → t < at + ttl * second
      → R.exists k t (R.set_nx_ex k v ttl at s).1 ≡ true
  -- and no longer
  pub set_ends :
      (k v : String) (ttl at t : ℕ) (s : R.State)
      → (R.set_nx_ex k v ttl at s).0 ≡ true
      → at + ttl * second < t
      → R.exists k t (R.set_nx_ex k v ttl at s).1 ≡ false
  -- no key that is alive changes
  pub set_keeps :
      (k j v : String) (ttl at t : ℕ) (s : R.State)
      → R.exists j at s ≡ true
      → R.exists j t (R.set_nx_ex k v ttl at s).1 ≡ R.exists j t s

-- The commands on the keys of a server: `DEL`, and `SCAN` with a cursor, a pattern and a hint of
-- how many keys to look at, which gives the next cursor and some keys.
pub record Keyspace (S : Type 0) : Type 0 where
  pub delete : List String → S → S
  pub scan : ℕ → String → ℕ → S → ℕ × List String

-- A full iteration, from the cursor 0 until 0 is returned, finds every key that is there all the
-- time. `pending`: what an iteration has yet to look at; `remaining`: how long it may still take.
pub record KeyspaceLaws (S : Type 0) (D : Keyspace S) : Type 1 where
  pub holds : S → String → Bool
  pub delete_removes :
      (k : String) (ks : List String) (s : S) → In k ks → holds (D.delete ks s) k ≡ false
  pub delete_adds_none :
      (k : String) (ks : List String) (s : S) → holds s k ≡ false → holds (D.delete ks s) k ≡ false
  pub pending : ℕ → String → Bool
  pub pending_start : (k : String) → pending 0 k ≡ true
  -- a pattern of a prefix without special characters and a star is that of the keys behind it
  pub scan_finds :
      (c hint : ℕ) (p k : String) (s : S)
      → IsPlain p
      → pending c (redis_key p k) ≡ true
      → holds s (redis_key p k) ≡ true
      → In (redis_key p k) (D.scan c (pattern p) hint s).1
        ⊎ ((eqb (D.scan c (pattern p) hint s).0 0 ≡ false)
            × (pending (D.scan c (pattern p) hint s).0 (redis_key p k) ≡ true))
  pub remaining : S → ℕ → ℕ
  pub scan_advances :
      (c hint : ℕ) (p : String) (s : S)
      → eqb (D.scan c p hint s).0 0 ≡ false
      → remaining s (D.scan c p hint s).0 < remaining s c
  pub delete_prolongs_none :
      (c : ℕ) (ks : List String) (s : S) → remaining (D.delete ks s) c ≤ remaining s c
