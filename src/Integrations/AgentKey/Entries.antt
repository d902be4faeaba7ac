-- ===== src/Integrations/AgentKey/Entries.antt =====
-- The ids of `AgentKeyProvider`, the two entries that `authorize` keeps under them, and a client
-- that is sent a payload.
use Prim.Native.String.{◌++◌}
use package.text.Mathlib.TextLemmas.{append-eq-nil_iff}
use toolboundary.Common.{
  ◌≡◌, refl, ◌⊎◌, inl, inr, String, false, Option, none, some, arith, ◌==◌, eq_iff, eq_refl,
  if◌then◌else◌, Bool-cases,
}
use toolboundary.Common.Dict.{lookup, insert, erase, lookup-insert, lookup-erase}
use toolboundary.Audit.{text}
use toolboundary.Provider.{FrozenToolCall, ProviderGrant}
use toolboundary.Integrations.AgentKey.{
  Called, answers, type_error, fails, Method, invoke, fresh_id, id_or,
}
use toolboundary.Integrations.AgentKey.Recording.{Pending, pop_event, find_pending, take_pending}

-- an id with a prefix is a text that is not empty
abbrev pub IsText : String → Type 0
IsText i = (i == "") ≡ false

-- as is a text that starts with one
pub IsText-append :
    (prefix digits : String) → (prefix == "") ≡ false → IsText (fresh_id prefix digits)
unfolding fresh_id
IsText-append prefix digits h = elim (Bool-cases (prefix ++ digits == "")) [
  | inr full ↦ full
  | inl empty ↦
      let none_left = append-eq-nil_iff.0 ((eq_iff (prefix ++ digits) "").0 empty) in
      absurd (cc (h, (eq_iff prefix "").1 none_left.0))
]

pub id_or-IsText :
    (given : Option String) (fallback : String) → IsText fallback → IsText (id_or given fallback)
unfolding id_or
id_or-IsText none fallback h = h
id_or-IsText (some i) fallback h = elim (Bool-cases (i == "")) [
  | inl empty ↦ rw (empty, id_or) h
  | inr full ↦ rw (full, id_or) full
]

find_pending-found :
    (i : String) (stored : FrozenToolCall × String) (pending : Pending)
    → IsText i
    → lookup i pending ≡ some stored
    → find_pending (some i) pending ≡ some (stored, i)
unfolding find_pending
find_pending-found i stored pending full found = rw (full, found, find_pending) refl

pop_event-some :
    (i : String) (pending : Pending) → IsText i → pop_event (some i) pending ≡ erase i pending
unfolding pop_event
pop_event-some i pending full = rw (full, pop_event) refl

-- the two entries that `authorize` adds, under ids that are not empty
module _ (event attempt : String) (full : IsText event) (full' : IsText attempt)
    (stored : FrozenToolCall × String) (grant : ProviderGrant)
    (is_event : grant.authorization_id ≡ some event) (is_attempt : grant.attempt_id ≡ some attempt)
    (pending : Pending) where
  abbrev kept : Pending
  kept = insert event stored (insert attempt stored pending)

  attempt_found : lookup attempt kept ≡ some stored
  attempt_found =
      rw (lookup-insert event attempt stored (insert attempt stored pending))
        (elim (Bool-cases (event == attempt)) [
          | inl same ↦ rw same refl
          | inr other ↦
              rw other (rw (lookup-insert attempt attempt stored pending, eq_refl attempt) refl)
        ])

  pub taken : take_pending grant kept ≡ (some stored, erase event (erase attempt kept))
  unfolding take_pending
  taken =
      rw
        (
          is_attempt,
          find_pending-found attempt stored kept full' attempt_found,
          is_event,
          pop_event-some event (erase attempt kept) full,
          take_pending,
        )
        refl

  pub taken-others :
      (id : String)
      → lookup id (erase event (erase attempt kept))
        ≡ (if event == id then none else if attempt == id then none else lookup id pending)
  taken-others id =
      rw
        (
          lookup-erase event id (erase attempt kept),
          lookup-erase attempt id kept,
          lookup-insert event id stored (insert attempt stored pending),
          lookup-insert attempt id stored pending,
        )
        (ground arith)

Called-cases :
    {A : Type 0} (r : Called A)
    → ((a : A) × (r ≡ answers a))
      ⊎ (((e : String) × (r ≡ type_error e)) ⊎ ((e : String) × (r ≡ fails e)))
Called-cases (answers a) = inl (a, refl)
Called-cases (type_error e) = inr (inl (e, refl))
Called-cases (fails e) = inr (inr (e, refl))

-- a client after its method, if there is one, has been called with a payload: with one dict, and
-- once more with keyword arguments if that raises a TypeError
abbrev pub told : {S A B : Type 0} → Option (Method S A B) → A → Option S → Option S
told method payload none = none
told none payload (some c) = some c
told (some m) payload (some c) = elim (m.with_dict payload c).0 [
  | answers r ↦ some (m.with_dict payload c).1
  | fails e ↦ some (m.with_dict payload c).1
  | type_error e ↦ some (m.with_keywords payload (m.with_dict payload c).1).1
]

pub invoke-told :
    {S A B : Type 0} (m : Method S A B) (payload : A) (c : S)
    → some (invoke m payload c).1 ≡ told (some m) payload (some c)
unfolding invoke
invoke-told m payload c = elim (Called-cases (m.with_dict payload c).0) [
  | inl (a, h) ↦ rw (h, invoke) refl
  | inr (inl (e, h)) ↦ rw (h, invoke) refl
  | inr (inr (e, h)) ↦ rw (h, invoke) refl
]
