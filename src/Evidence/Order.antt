-- ===== src/Evidence/Order.antt =====
-- The canonical form of src/toolboundary/evidence.py against the order of a dict's items.
use toolboundary.Common.{
  ◌≡◌, ◌≢◌, refl, sym, ap, ◌∙◌, ◌⊎◌, inl, inr, String, true, false, Bool-cases,
}
use toolboundary.Common.Order.{le, le-total, le_trans, le_antisym}
use toolboundary.Json.{Json, array, object, Items, nil, cons, Fields, end, field}
use toolboundary.Evidence.{
  Hashing, insert_sorted, sort_keys, sort_items, sort_fields, binding, canonicalize, call_digest,
}
use toolboundary.Provider.{FrozenToolCall}

module _ (k j : String) (v w : Json) (apart : k ≢ j) where
  -- one of two names stands first
  strictly : ((le k j ≡ true) × (le j k ≡ false)) ⊎ ((le k j ≡ false) × (le j k ≡ true))
  strictly = elim (Bool-cases (le k j)) [
    | inl before ↦ elim (Bool-cases (le j k)) [
      | inl behind ↦ absurd (apart (le_antisym k j before behind))
      | inr h ↦ inl (before, h)
    ]
    | inr h ↦ elim (le-total k j) [
      | inl before ↦ absurd (cc (h, before))
      | inr behind ↦ inr (h, behind)
    ]
  ]

-- the two ways of an insertion
pub insert-before :
    (k i : String) (v u : Json) (fs : Fields)
    → le k i ≡ true
    → insert_sorted k v (field i u fs) ≡ field k v (field i u fs)
unfolding insert_sorted
insert-before k i v u fs h = rw (h, insert_sorted) refl

pub insert-behind :
    (k i : String) (v u : Json) (fs : Fields)
    → le k i ≡ false
    → insert_sorted k v (field i u fs) ≡ field i u (insert_sorted k v fs)
unfolding insert_sorted
insert-behind k i v u fs h = rw (h, insert_sorted) refl

-- where `k` stands before `j`, and behind or before the first item with it
module _ (k j : String) (v w : Json) (before : le k j ≡ true) (behind : le j k ≡ false) where
  insert-insert_ordered :
      (fs : Fields)
      → insert_sorted k v (insert_sorted j w fs) ≡ insert_sorted j w (insert_sorted k v fs)
  unfolding insert_sorted
  insert-insert_ordered end =
      insert-before k j v w end before ∙ sym (insert-behind j k w v end behind)
  insert-insert_ordered (field i u fs) = elim (Bool-cases (le j i)) [
    | inl j_first ↦
        let k_first = le_trans k j i before j_first in
        ap (λ r. insert_sorted k v r) (insert-before j i w u fs j_first)
        ∙ insert-before k j v w (field i u fs) before
        ∙ ap (λ r. field k v r) (sym (insert-before j i w u fs j_first))
        ∙ sym (insert-behind j k w v (field i u fs) behind)
        ∙ ap (λ r. insert_sorted j w r) (sym (insert-before k i v u fs k_first))
    | inr j_later ↦ elim (Bool-cases (le k i)) [
      | inl k_first ↦
          ap (λ r. insert_sorted k v r) (insert-behind j i w u fs j_later)
          ∙ insert-before k i v u (insert_sorted j w fs) k_first
          ∙ ap (λ r. field k v r) (sym (insert-behind j i w u fs j_later))
          ∙ sym (insert-behind j k w v (field i u fs) behind)
          ∙ ap (λ r. insert_sorted j w r) (sym (insert-before k i v u fs k_first))
      | inr k_later ↦
          ap (λ r. insert_sorted k v r) (insert-behind j i w u fs j_later)
          ∙ insert-behind k i v u (insert_sorted j w fs) k_later
          ∙ ap (λ r. field i u r) (insert-insert_ordered fs)
          ∙ sym (insert-behind j i w u (insert_sorted k v fs) j_later)
          ∙ ap (λ r. insert_sorted j w r) (sym (insert-behind k i v u fs k_later))
    ]
  ]

insert-insert :
    (k j : String) (v w : Json) (fs : Fields)
    → k ≢ j
    → insert_sorted k v (insert_sorted j w fs) ≡ insert_sorted j w (insert_sorted k v fs)
insert-insert k j v w fs apart = elim (strictly k j v w apart) [
  | inl (before, behind) ↦ insert-insert_ordered k j v w before behind fs
  | inr (behind, before) ↦ sym (insert-insert_ordered j k w v before behind fs)
]

-- Two values that differ in the order of the items of their dicts, at any depth.
mutual
  pub data SameJson : Json → Json → Type 0 where
    as_is : (v : Json) → SameJson v v
    in_array : (xs ys : Items) → SameItems xs ys → SameJson (array xs) (array ys)
    in_object : (fs gs : Fields) → SameFields fs gs → SameJson (object fs) (object gs)

  pub data SameItems : Items → Items → Type 0 where
    no_items : SameItems nil nil
    item :
        (x y : Json) (xs ys : Items)
        → SameJson x y
        → SameItems xs ys
        → SameItems (cons x xs) (cons y ys)

  pub data SameFields : Fields → Fields → Type 0 where
    no_fields : SameFields end end
    kept :
        (k : String) (v w : Json) (fs gs : Fields)
        → SameJson v w
        → SameFields fs gs
        → SameFields (field k v fs) (field k w gs)
    swapped :
        (k j : String) (v w : Json) (fs : Fields)
        → k ≢ j
        → SameFields (field k v (field j w fs)) (field j w (field k v fs))
    twice : (fs gs hs : Fields) → SameFields fs gs → SameFields gs hs → SameFields fs hs

mutual
  unfolding sort_keys sort_items sort_fields

  sort_keys-Same : (v w : Json) → SameJson v w → sort_keys v ≡ sort_keys w
  sort_keys-Same _ _ (as_is v) = refl
  sort_keys-Same _ _ (in_array xs ys h) = ap array (sort_items-Same xs ys h)
  sort_keys-Same _ _ (in_object fs gs h) = ap object (sort_fields-Same fs gs h)

  sort_items-Same : (xs ys : Items) → SameItems xs ys → sort_items xs ≡ sort_items ys
  sort_items-Same _ _ no_items = refl
  sort_items-Same _ _ (item x y xs ys h hs) = cc (sort_keys-Same x y h, sort_items-Same xs ys hs)

  sort_fields-Same : (fs gs : Fields) → SameFields fs gs → sort_fields fs ≡ sort_fields gs
  sort_fields-Same _ _ no_fields = refl
  sort_fields-Same _ _ (kept k v w fs gs h hs) =
      cc (sort_keys-Same v w h, sort_fields-Same fs gs hs)
  sort_fields-Same _ _ (swapped k j v w fs apart) =
      insert-insert k j (sort_keys v) (sort_keys w) (sort_fields fs) apart
  sort_fields-Same _ _ (twice fs gs hs h h') = sort_fields-Same fs gs h ∙ sort_fields-Same gs hs h'

-- Two calls that differ only in the order in which the dicts of their arguments, at any depth, list
-- their items have one digest.
pub call_digest-order :
    (H : Hashing) (call : FrozenToolCall) (arguments : Fields)
    → SameFields call.arguments arguments
    → call_digest H call ≡ call_digest H (record call { arguments = arguments })
unfolding call_digest canonicalize binding sort_keys
call_digest-order H call arguments same =
    ap (λ v. H.sha256 (H.dumps v)) (rw (sort_fields-Same call.arguments arguments same) refl)
