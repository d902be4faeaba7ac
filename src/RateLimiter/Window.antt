-- ===== src/RateLimiter/Window.antt =====
-- The deque of one key: dropping from the left keeps exactly the times in the window, because
-- the times are in order.
use toolboundary.Common.{
  ℕ, ◌+◌, ◌≤◌, ◌≡◌, refl, List, [], ◌∷◌, ◌++◌, arith, ltb, length, count_if, inl, inr, Bool-cases,
}
use toolboundary.RateLimiter.{drop_stale, fresh}

-- the times rise from `lo` to at most `hi`
abbrev pub Ascending : ℕ → List ℕ → ℕ → Type 0
Ascending lo [] hi = lo ≤ hi
Ascending lo (t ∷ ts) hi = (lo ≤ t) × Ascending t ts hi

pub Ascending-later :
    (lo : ℕ) (ts : List ℕ) (t t' : ℕ) → Ascending lo ts t → t ≤ t' → Ascending lo ts t'
Ascending-later lo [] t t' h le = omega arith
Ascending-later lo (x ∷ ts) t t' h le = (h.0, Ascending-later x ts t t' h.1 le)

Ascending-lower :
    (lo lo' : ℕ) (ts : List ℕ) (hi : ℕ) → lo' ≤ lo → Ascending lo ts hi → Ascending lo' ts hi
Ascending-lower lo lo' [] hi le h = omega arith
Ascending-lower lo lo' (x ∷ ts) hi le h = (omega arith, h.1)

pub Ascending-snoc :
    (lo : ℕ) (ts : List ℕ) (t : ℕ) → Ascending lo ts t → Ascending lo (ts ++ t ∷ []) t
Ascending-snoc lo [] t h = (h, omega arith)
Ascending-snoc lo (x ∷ ts) t h = (h.0, Ascending-snoc x ts t h.1)

pub drop_stale-Ascending :
    (lo w now : ℕ) (ts : List ℕ) (hi : ℕ)
    → Ascending lo ts hi
    → Ascending lo (drop_stale w now ts) hi
unfolding drop_stale
drop_stale-Ascending lo w now [] hi h = h
drop_stale-Ascending lo w now (t ∷ ts) hi h = elim (Bool-cases (ltb (t + w) now)) [
  | inl stale ↦ rw stale (Ascending-lower t lo _ hi h.0 (drop_stale-Ascending t w now ts hi h.1))
  | inr kept ↦ rw kept h
]

count_if-fresh_all :
    (lo w now : ℕ) (ts : List ℕ) (hi : ℕ)
    → Ascending lo ts hi
    → now ≤ lo + w
    → count_if (fresh w now) ts ≡ length ts
count_if-fresh_all lo w now [] hi h le = refl
count_if-fresh_all lo w now (t ∷ ts) hi h le = ground (arith, count_if-fresh_all t w now ts hi h.1)

-- What is left after the loop is what a count over the whole deque finds in the window.
pub length-drop_stale :
    (lo w now : ℕ) (ts : List ℕ) (hi : ℕ)
    → Ascending lo ts hi
    → length (drop_stale w now ts) ≡ count_if (fresh w now) ts
unfolding drop_stale
length-drop_stale lo w now [] hi h = refl
length-drop_stale lo w now (t ∷ ts) hi h =
    ground (arith, length-drop_stale t w now ts hi h.1, count_if-fresh_all t w now ts hi h.1)

-- Later windows see no difference between the deque and what the loop left of it.
pub count_if-drop_stale :
    (w now now' : ℕ) (ts : List ℕ)
    → now ≤ now'
    → count_if (fresh w now') (drop_stale w now ts) ≡ count_if (fresh w now') ts
unfolding drop_stale
count_if-drop_stale w now now' [] le = refl
count_if-drop_stale w now now' (t ∷ ts) le = ground (arith, count_if-drop_stale w now now' ts le)
