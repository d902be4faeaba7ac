-- ===== src/Tokens/Store.antt =====
-- `InMemoryTokenStore` of src/toolboundary/tokens.py, and what the proxy asks of a token store.
use toolboundary.Common.{
  ℕ, ◌≤◌, ◌<◌, ◌≡◌, refl, ◌⊎◌, inl, inr, Bool-cases, String, Bool, true, false, [], ◌∷◌, arith, ltb,
  eq_iff, if◌then◌else◌,
}
use toolboundary.Common.Dict.{Dict, contains, insert}

-- token id, expiry and the clock reading of the call
pub record TokenStore : Type 1 where
  pub State : Type 0
  pub mark_used : String → ℕ → ℕ → State → Bool × State

-- The single-use contract: what was marked stays marked, and is refused, up to its expiry.
pub record SingleUse (T : TokenStore) : Type 1 where
  pub Marked : T.State → String → ℕ → Type 0
  pub marks :
      (i : String) (e now : ℕ) (s : T.State)
      → (T.mark_used i e now s).0 ≡ true
      → Marked (T.mark_used i e now s).1 i e
  pub keeps :
      (i j : String) (e e' now : ℕ) (s : T.State)
      → Marked s i e
      → now ≤ e
      → Marked (T.mark_used j e' now s).1 i e
  pub refuses :
      (i : String) (e e' now : ℕ) (s : T.State)
      → Marked s i e
      → now ≤ e
      → (T.mark_used i e' now s).0 ≡ false

-- `self._used`: the expiry of each token id
pub record InMemoryTokenStore : Type 0 where
  pub used : Dict ℕ

-- `_gc` at the time `now`
unfoldable pub gc : ℕ → Dict ℕ → Dict ℕ
gc now [] = []
gc now ((i, e) ∷ d) = let rest = gc now d in if ltb e now then rest else (i, e) ∷ rest

unfoldable pub mark_used : String → ℕ → ℕ → InMemoryTokenStore → Bool × InMemoryTokenStore
unfolding gc contains insert
mark_used token_id expires_at now s =
    let kept = gc now s.used in
    if contains token_id kept
    then (false, record { used = kept })
    else (true, record { used = insert token_id expires_at kept })

unfoldable pub is_used : String → InMemoryTokenStore → Bool
is_used token_id s = contains token_id s.used

abbrev pub in_memory_store : TokenStore
in_memory_store = record { State = InMemoryTokenStore; mark_used = mark_used }

-- an entry of the dict
abbrev pub Has : String → ℕ → Dict ℕ → Type 0
Has i e [] = ⊥
Has i e ((j, x) ∷ d) = ((j ≡ i) × (x ≡ e)) ⊎ Has i e d

gc-Has : (i : String) (e now : ℕ) (d : Dict ℕ) → Has i e d → now ≤ e → Has i e (gc now d)
unfolding gc
gc-Has i e now [] h le = h
gc-Has i e now (x ∷ d) h le = ground (arith, gc-Has i e now d)

Has-contains : (i : String) (e : ℕ) (d : Dict ℕ) → Has i e d → contains i d ≡ true
unfolding contains
Has-contains i e [] h = absurd h
Has-contains i e ((j, x) ∷ d) h = ground (arith, eq_iff j i, Has-contains i e d)

insert-Has_self : (i : String) (e : ℕ) (d : Dict ℕ) → contains i d ≡ false → Has i e (insert i e d)
unfolding contains insert
insert-Has_self i e [] h = inl (refl, refl)
insert-Has_self i e ((j, x) ∷ d) h = ground (arith, eq_iff j i, insert-Has_self i e d)

insert-Has :
    (i j : String) (e x : ℕ) (d : Dict ℕ)
    → contains j d ≡ false
    → Has i e d
    → Has i e (insert j x d)
unfolding contains insert
insert-Has i j e x [] h has = absurd has
insert-Has i j e x ((k, y) ∷ d) h has = ground (arith, eq_iff k j, insert-Has i j e x d)

-- a call on what the collection left
mark_used-cases :
    (i : String) (e now : ℕ) (s : InMemoryTokenStore)
    → ((contains i (gc now s.used) ≡ true)
        × (mark_used i e now s ≡ (false, record { used = gc now s.used })))
      ⊎ ((contains i (gc now s.used) ≡ false)
          × (mark_used i e now s ≡ (true, record { used = insert i e (gc now s.used) })))
unfolding mark_used
mark_used-cases i e now s = elim (Bool-cases (contains i (gc now s.used))) [
  | inl known ↦ inl (known, rw known)
  | inr new ↦ inr (new, rw new)
]

mark_used-marks :
    (i : String) (e now : ℕ) (s : InMemoryTokenStore)
    → (mark_used i e now s).0 ≡ true
    → Has i e (mark_used i e now s).1.used
mark_used-marks i e now s h = elim (mark_used-cases i e now s) [
  | inl (known, r) ↦ absurd (cc (r, h))
  | inr (new, r) ↦ rw r (insert-Has_self i e (gc now s.used) new)
]

mark_used-keeps :
    (i j : String) (e e' now : ℕ) (s : InMemoryTokenStore)
    → Has i e s.used
    → now ≤ e
    → Has i e (mark_used j e' now s).1.used
mark_used-keeps i j e e' now s has le = elim (mark_used-cases j e' now s) [
  | inl (known, r) ↦ rw r (gc-Has i e now s.used has le)
  | inr (new, r) ↦ rw r (insert-Has i j e e' (gc now s.used) new (gc-Has i e now s.used has le))
]

mark_used-refuses :
    (i : String) (e e' now : ℕ) (s : InMemoryTokenStore)
    → Has i e s.used
    → now ≤ e
    → (mark_used i e' now s).0 ≡ false
mark_used-refuses i e e' now s has le = elim (mark_used-cases i e' now s) [
  | inl (known, r) ↦ rw r
  | inr (new, r) ↦ cc (new, Has-contains i e (gc now s.used) (gc-Has i e now s.used has le))
]

-- The in-memory store keeps the single-use contract.
pub in_memory-SingleUse : SingleUse in_memory_store
in_memory-SingleUse = record {
  Marked = λ s i e. Has i e s.used;
  marks = mark_used-marks;
  keeps = mark_used-keeps;
  refuses = mark_used-refuses;
}

-- an id that the dict does not hold is not there after a collection either
gc-fresh :
    (i : String) (now : ℕ) (d : Dict ℕ) → contains i d ≡ false → contains i (gc now d) ≡ false
unfolding gc contains
gc-fresh i now [] h = refl
gc-fresh i now ((j, e) ∷ d) h = ground (arith, gc-fresh i now d)

-- nor once its entry has expired
gc-insert_expired :
    (i : String) (e now : ℕ) (d : Dict ℕ)
    → contains i d ≡ false
    → e < now
    → contains i (gc now (insert i e d)) ≡ false
unfolding gc contains insert
gc-insert_expired i e now [] h late = ground arith
gc-insert_expired i e now ((j, x) ∷ d) h late = ground (arith, gc-insert_expired i e now d)

-- A token id that the in-memory store does not hold is marked, and marked a second time, as a first
-- use, if the second call reads a time after the expiry.
pub marked_again_late :
    (i : String) (e e' now now' : ℕ) (s : InMemoryTokenStore)
    → contains i s.used ≡ false
    → e < now'
    → ((mark_used i e now s).0 ≡ true) × ((mark_used i e' now' (mark_used i e now s).1).0 ≡ true)
unfolding mark_used
marked_again_late i e e' now now' s unknown late =
    let fresh = gc-fresh i now s.used unknown in
    (rw fresh, rw fresh (rw (gc-insert_expired i e now' (gc now s.used) fresh late)))
