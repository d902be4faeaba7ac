-- ===== src/Tests/Server.antt =====
-- A server in memory, with the documented behaviour of the commands.
use toolboundary.Common.{
  ℕ, ◌+◌, ◌*◌, ◌≤◌, ◌<◌, ◌≡◌, ◌⊎◌, refl, inl, inr, String, Bool, true, false, Option, none, some,
  List, [], ◌∷◌, arith, ltb, length, keep, if◌then◌else◌, ◌==◌, eq_iff, eq_refl, Bool-cases,
  Option-cases,
}
use toolboundary.Common.Dict.{Dict, lookup, insert, erase, lookup-insert, lookup-erase}
use toolboundary.Common.Int.{ℤ, pos, ltb_ℤ}
use toolboundary.Redis.Server.{second, SortedSets, SortedSetLaws, Keyspace, KeyspaceLaws}
use toolboundary.Common.Names.{In}
use toolboundary.Redis.Key.{redis_key}

-- the entries of a key, and the time at which it expires
pub record Cell : Type 0 where
  pub members : List (String × ℕ)
  pub until : Option ℕ

abbrev alive : Option ℕ → ℕ → Bool
alive none t = true
alive (some d) t = ltb t d

-- what a client finds in a cell
abbrev shown : Option Cell → ℕ → List (String × ℕ)
shown none t = []
shown (some c) t = if alive c.until t then c.members else []

abbrev entries : Dict Cell → String → ℕ → List (String × ℕ)
entries s k t = shown (lookup k s) t

-- what an addition leaves of the expiry
abbrev kept_until : Option Cell → ℕ → Option ℕ
kept_until none at = none
kept_until (some c) at = if alive c.until at then c.until else none

abbrev thinned : ℤ → Option Cell → Cell
thinned c none = record { members = []; until = none }
thinned c (some x) = record { members = keep (λ e. ltb_ℤ c (pos e.1)) x.members; until = x.until }

abbrev with_new : String → ℕ → String → ℕ → Dict Cell → Cell
with_new k x m at s = record {
  members = (m, x) ∷ entries s k at;
  until = kept_until (lookup k s) at;
}

abbrev renewed : String → ℕ → ℕ → Dict Cell → Cell
renewed k ttl at s = record { members = entries s k at; until = some (at + ttl * second) }

abbrev pub memory_sets : SortedSets
memory_sets = record {
  State = Dict Cell;
  zremrangebyscore = λ k c at s. insert k (thinned c (lookup k s)) s;
  zcard = λ k at s. length (entries s k at);
  zadd = λ k x m at s. insert k (with_new k x m at s) s;
  expire = λ k ttl at s. insert k (renewed k ttl at s) s;
}

lookup-insert_self : (k : String) (c : Cell) (s : Dict Cell) → lookup k (insert k c s) ≡ some c
lookup-insert_self k c s = rw (lookup-insert k k c s, eq_refl k) refl

lookup-insert_other :
    (k j : String) (c : Cell) (s : Dict Cell)
    → (k == j) ≡ false
    → lookup j (insert k c s) ≡ lookup j s
lookup-insert_other k j c s other = rw (lookup-insert k j c s, other) refl

alive-before : (u : Option ℕ) (t t' : ℕ) → t ≤ t' → alive u t' ≡ true → alive u t ≡ true
alive-before none t t' le h = refl
alive-before (some d) t t' le h = ground (arith, h)

shown-later : (o : Option Cell) (t t' : ℕ) → t ≤ t' → (shown o t' ≡ shown o t) ⊎ (shown o t' ≡ [])
shown-later none t t' le = inl refl
shown-later (some c) t t' le = elim (Bool-cases (alive c.until t')) [
  | inr dead ↦ inr (rw dead refl)
  | inl living ↦ inl (rw (living, alive-before c.until t t' le living) refl)
]

shown-thinned :
    (c : ℤ) (o : Option Cell) (t : ℕ)
    → shown (some (thinned c o)) t ≡ keep (λ e. ltb_ℤ c (pos e.1)) (shown o t)
shown-thinned c none t = refl
shown-thinned c (some x) t = elim (Bool-cases (alive x.until t)) [
  | inl yes_it_is ↦ rw yes_it_is refl
  | inr no_it_is ↦ rw no_it_is refl
]

alive-kept_until : (o : Option Cell) (at : ℕ) → alive (kept_until o at) at ≡ true
alive-kept_until none at = refl
alive-kept_until (some x) at = elim (Bool-cases (alive x.until at)) [
  | inl yes_it_is ↦ rw yes_it_is yes_it_is
  | inr no_it_is ↦ rw no_it_is refl
]

soon_test : (t d : ℕ) → t < d → ltb t d ≡ true
soon_test t d h = ground arith

pub memory_set_laws : SortedSetLaws memory_sets
memory_set_laws = record {
  entries = entries;
  entries_later = λ s k t t' le. shown-later (lookup k s) t t' le;
  zremrangebyscore_removes = λ k c at t s le.
      rw (lookup-insert_self k (thinned c (lookup k s)) s) (shown-thinned c (lookup k s) t);
  zremrangebyscore_others =
      λ k j c at t s le other. rw (lookup-insert_other k j (thinned c (lookup k s)) s other) refl;
  zcard_counts = λ k at s. refl;
  zadd_adds = λ k x m at s new. (
    [],
    entries s k at,
    refl,
    rw (lookup-insert_self k (with_new k x m at s) s, alive-kept_until (lookup k s) at) refl,
  );
  zadd_others = λ k j x m at t s le other. rw (lookup-insert_other k j _ s other) refl;
  expire_keeps = λ k ttl at t s le soon.
      rw (lookup-insert_self k (renewed k ttl at s) s, soon_test t (at + ttl * second) soon) refl;
  expire_others =
      λ k j ttl at t s le other. rw (lookup-insert_other k j (renewed k ttl at s) s other) refl;
}

-- the keys of a dict
keys : Dict Cell → List String
keys [] = []
keys ((k, c) ∷ d) = k ∷ keys d

erase_all : List String → Dict Cell → Dict Cell
erase_all [] s = s
erase_all (k ∷ ks) s = erase_all ks (erase k s)

is_there : Option Cell → Bool
is_there none = false
is_there (some c) = true

pub memory_keys : Keyspace (Dict Cell)
memory_keys = record { delete = erase_all; scan = λ c p hint s. (0, keys s) }

lookup-keys : (k : String) (s : Dict Cell) → is_there (lookup k s) ≡ true → In k (keys s)
unfolding lookup keys is_there
lookup-keys k [] h = cc h
lookup-keys k ((j, c) ∷ s) h = elim (Bool-cases (j == k)) [
  | inl same ↦ inl ((eq_iff j k).0 same)
  | inr other ↦ inr (lookup-keys k s (rw other at h))
]

erase_all-gone :
    (k : String) (ks : List String) (s : Dict Cell)
    → is_there (lookup k s) ≡ false
    → is_there (lookup k (erase_all ks s)) ≡ false
unfolding erase_all is_there
erase_all-gone k [] s h = h
erase_all-gone k (j ∷ ks) s h =
    erase_all-gone k ks (erase j s) (rw (lookup-erase j k s) (ground (arith, h)))

erase_all-removes :
    (k : String) (ks : List String) (s : Dict Cell)
    → In k ks
    → is_there (lookup k (erase_all ks s)) ≡ false
unfolding erase_all is_there
erase_all-removes k [] s i = absurd i
erase_all-removes k (j ∷ ks) s (inl e) =
    erase_all-gone k ks (erase j s) (rw (lookup-erase j k s, (eq_iff j k).1 e) refl)
erase_all-removes k (j ∷ ks) s (inr i) = erase_all-removes k ks (erase j s) i

pub memory_key_laws : KeyspaceLaws (Dict Cell) memory_keys
unfolding memory_keys
memory_key_laws = record {
  holds = λ s k. is_there (lookup k s);
  delete_removes = erase_all-removes;
  delete_adds_none = erase_all-gone;
  pending = λ c k. true;
  pending_start = λ k. refl;
  scan_finds = λ c hint p k s plain waits there. inl (lookup-keys (redis_key p k) s there);
  remaining = λ s c. 0;
  scan_advances = λ c hint p s more. absurd (cc more);
  delete_prolongs_none = λ c ks s. omega arith;
}

pub memory_start : (k : String) (t : ℕ) → memory_set_laws.entries [] k t ≡ []
unfolding memory_set_laws lookup
memory_start k t = refl

pub memory_absent :
    (s : Dict Cell) (k : String) (t : ℕ)
    → memory_key_laws.holds s k ≡ false
    → memory_set_laws.entries s k t ≡ []
unfolding memory_set_laws memory_key_laws is_there
memory_absent s k t h = elim (Option-cases (lookup k s)) [
  | inl gone ↦ rw gone refl
  | inr (c, there) ↦ absurd (cc (rw there at h))
]

pub memory_remaining : (s : Dict Cell) → memory_key_laws.remaining s 0 < 1
unfolding memory_key_laws
memory_remaining s = omega arith
