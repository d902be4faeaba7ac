-- ===== src/Evidence/Content.antt =====
-- The canonical form of src/toolboundary/evidence.py loses nothing of a value: it only moves the
-- items of dicts.
use toolboundary.Common.{String, Bool-cases, inl, inr}
use toolboundary.Common.Order.{le}
use toolboundary.Json.{
  Json, null, boolean, number, string, array, object, Items, nil, cons, Fields, end, field,
}
use toolboundary.Evidence.{insert_sorted, sort_keys, sort_items, sort_fields}
use toolboundary.Evidence.Order.{insert-before, insert-behind}

-- The same value, with the items of its dicts in any order, at any depth.
mutual
  pub data Rearranged : Json → Json → Type 0 where
    unmoved : (v : Json) → Rearranged v v
    within_array : (xs ys : Items) → RearrangedItems xs ys → Rearranged (array xs) (array ys)
    within_object : (fs gs : Fields) → RearrangedFields fs gs → Rearranged (object fs) (object gs)

  pub data RearrangedItems : Items → Items → Type 0 where
    no_more : RearrangedItems nil nil
    each :
        (x y : Json) (xs ys : Items)
        → Rearranged x y
        → RearrangedItems xs ys
        → RearrangedItems (cons x xs) (cons y ys)

  pub data RearrangedFields : Fields → Fields → Type 0 where
    unmoved_fields : (fs : Fields) → RearrangedFields fs fs
    under :
        (k : String) (v w : Json) (fs gs : Fields)
        → Rearranged v w
        → RearrangedFields fs gs
        → RearrangedFields (field k v fs) (field k w gs)
    exchanged :
        (k j : String) (v w : Json) (fs : Fields)
        → RearrangedFields (field k v (field j w fs)) (field j w (field k v fs))
    after :
        (fs gs hs : Fields)
        → RearrangedFields fs gs
        → RearrangedFields gs hs
        → RearrangedFields fs hs

insert-Rearranged :
    (k : String) (v : Json) (fs : Fields) → RearrangedFields (field k v fs) (insert_sorted k v fs)
unfolding insert_sorted
insert-Rearranged k v end = unmoved_fields (field k v end)
insert-Rearranged k v (field j w fs) = elim (Bool-cases (le k j)) [
  | inl before ↦ rw (insert-before k j v w fs before) (unmoved_fields (field k v (field j w fs)))
  | inr behind ↦ rw (insert-behind k j v w fs behind) (
      after _ (field j w (field k v fs)) _ (exchanged k j v w fs)
        (under j w w _ _ (unmoved w) (insert-Rearranged k v fs)))
]

mutual
  unfolding sort_keys sort_items sort_fields

  pub sort_keys-Rearranged : (v : Json) → Rearranged v (sort_keys v)
  sort_keys-Rearranged null = unmoved null
  sort_keys-Rearranged (boolean b) = unmoved (boolean b)
  sort_keys-Rearranged (number n) = unmoved (number n)
  sort_keys-Rearranged (string s) = unmoved (string s)
  sort_keys-Rearranged (array xs) = within_array xs _ (sort_items-Rearranged xs)
  sort_keys-Rearranged (object fs) = within_object fs _ (sort_fields-Rearranged fs)

  pub sort_items-Rearranged : (xs : Items) → RearrangedItems xs (sort_items xs)
  sort_items-Rearranged nil = no_more
  sort_items-Rearranged (cons x xs) =
      each x _ xs _ (sort_keys-Rearranged x) (sort_items-Rearranged xs)

  pub sort_fields-Rearranged : (fs : Fields) → RearrangedFields fs (sort_fields fs)
  sort_fields-Rearranged end = unmoved_fields end
  sort_fields-Rearranged (field k v fs) =
      after _ (field k (sort_keys v) (sort_fields fs)) _
        (under k v _ fs _ (sort_keys-Rearranged v) (sort_fields-Rearranged fs))
        (insert-Rearranged k (sort_keys v) (sort_fields fs))
