-- ===== src/RateLimiter/Contract.antt =====
-- The in-memory limiter keeps the sliding-window contract.
use toolboundary.Common.{
  ℕ, ◌+◌, ◌≤◌, String, ◌≡◌, true, List, [], ◌∷◌, ◌++◌, arith, ltb, leb, length, count_if,
  count_if-append, eq_iff, ◌==◌, if◌then◌else◌, inl, inr, Bool-cases,
}
use toolboundary.Common.Dict.{insert, lookup-insert}
use toolboundary.RateLimiter.{
  SlidingWindow, window_of, drop_stale, check_and_record, fresh, current_count,
}
use toolboundary.RateLimiter.Interface.{RateLimiter, SlidingWindowLaws}
use toolboundary.RateLimiter.Window.{
  Ascending, Ascending-later, Ascending-snoc, drop_stale-Ascending, length-drop_stale,
  count_if-drop_stale,
}

abbrev pub in_memory : RateLimiter
in_memory = record { State = SlidingWindow; check_and_record = check_and_record }

-- every deque is in order, and no time is after `t`
abbrev pub IsOrdered : SlidingWindow → ℕ → Type 0
IsOrdered s t = (k : String) → Ascending 0 (window_of k s) t

window_of-insert :
    (key j : String) (ts : List ℕ) (s : SlidingWindow)
    → window_of j (record { calls = insert key ts s.calls })
      ≡ (if key == j then ts else window_of j s)
unfolding window_of
window_of-insert key j ts s = ground (arith, lookup-insert key j ts s.calls)

-- what the call leaves of the deque of its key
left : String → ℕ → ℕ → SlidingWindow → List ℕ
left k w t s = drop_stale w t (window_of k s)

check-fst :
    (k : String) (m w t : ℕ) (s : SlidingWindow)
    → (check_and_record k m w t s).0 ≡ ltb (length (left k w t s)) m
unfolding check_and_record left
check-fst k m w t s = ground arith

check-window :
    (k j : String) (m w t : ℕ) (s : SlidingWindow)
    → window_of j (check_and_record k m w t s).1 ≡ (
        if k == j
        then (if (check_and_record k m w t s).0 then left k w t s ++ t ∷ [] else left k w t s)
        else window_of j s)
unfolding check_and_record left
check-window k j m w t s = elim (Bool-cases (leb m (length (drop_stale w t (window_of k s))))) [
  | inl full ↦ rw full (window_of-insert k j _ s)
  | inr room ↦ rw room (window_of-insert k j _ s)
]

left-Ascending :
    (k : String) (w t : ℕ) (s : SlidingWindow) → IsOrdered s t → Ascending 0 (left k w t s) t
unfolding left
left-Ascending k w t s h = drop_stale-Ascending 0 w t (window_of k s) t (h k)

pub check-IsOrdered :
    (k : String) (m w t : ℕ) (s : SlidingWindow)
    → IsOrdered s t
    → IsOrdered (check_and_record k m w t s).1 t
check-IsOrdered k m w t s h j = rw (check-window k j m w t s) (elim (Bool-cases (k == j)) [
  | inr other ↦ rw other (h j)
  | inl same ↦ rw same (elim (Bool-cases (check_and_record k m w t s).0) [
    | inl admitted ↦ rw admitted (Ascending-snoc 0 (left k w t s) t (left-Ascending k w t s h))
    | inr refused ↦ rw refused (left-Ascending k w t s h)
  ])
])

pub check-admits :
    (k : String) (m w t : ℕ) (s : SlidingWindow)
    → IsOrdered s t
    → (check_and_record k m w t s).0 ≡ ltb (current_count k w t s) m
unfolding current_count left
check-admits k m w t s h =
    rw (check-fst k m w t s) (rw (length-drop_stale 0 w t (window_of k s) t (h k)))

count-left :
    (k : String) (w t t' : ℕ) (s : SlidingWindow)
    → t ≤ t'
    → count_if (fresh w t') (left k w t s) ≡ current_count k w t' s
unfolding left current_count
count-left k w t t' s le = count_if-drop_stale w t t' (window_of k s) le

counts_at_key :
    (k j : String) (m w t t' : ℕ) (s : SlidingWindow)
    → t ≤ t'
    → (k == j) ≡ true
    → count_if
        (fresh w t')
        (if (check_and_record k m w t s).0 then left k w t s ++ t ∷ [] else left k w t s)
      ≡ current_count j w t' s
        + (if (check_and_record k m w t s).0 then (if leb t' (t + w) then 1 else 0) else 0)
counts_at_key k j m w t t' s le same =
    rw (← (eq_iff k j).0 same) (elim (Bool-cases (check_and_record k m w t s).0) [
      | inl admitted ↦ rw admitted (
          rw (count_if-append (fresh w t') (left k w t s) (t ∷ []))
            (omega (arith, count-left k w t t' s le)))
      | inr refused ↦ rw refused (omega (arith, count-left k w t t' s le))
    ])

pub check-counts :
    (k j : String) (m w t t' : ℕ) (s : SlidingWindow)
    → t ≤ t'
    → current_count j w t' (check_and_record k m w t s).1
      ≡ current_count j w t' s
        + (if k == j
            then (if (check_and_record k m w t s).0 then (if leb t' (t + w) then 1 else 0) else 0)
            else 0)
unfolding current_count
check-counts k j m w t t' s le = rw (check-window k j m w t s) (elim (Bool-cases (k == j)) [
  | inr other ↦ rw other (omega arith)
  | inl same ↦ rw same (counts_at_key k j m w t t' s le same)
])

-- The contract, for windows of any one length.
unfoldable pub in_memory_laws : (w : ℕ) → SlidingWindowLaws in_memory w w
in_memory_laws w = record {
  Valid = IsOrdered;
  count = λ k t s. current_count k w t s;
  valid_later = λ s t t' h le k. Ascending-later 0 (window_of k s) t t' (h k) le;
  valid_step = λ k m t s h. check-IsOrdered k m w t s h;
  admits = λ k m t s h. check-admits k m w t s h;
  counts = λ k j m t t' s h le. check-counts k j m w t t' s le;
}
