-- ===== src/RateLimiter/Refinement.antt =====
-- The in-memory limiter against the specification, over whole sequences of calls.
use toolboundary.Common.{ℕ, ◌≤◌, String, ◌≡◌, refl, List, [], arith}
use toolboundary.Common.Dict.{lookup}
use toolboundary.RateLimiter.{empty, window_of, current_count}
use toolboundary.RateLimiter.Contract.{in_memory, in_memory_laws}
use toolboundary.RateLimiter.History.{
  Request, InOrder, HasLimit, end_of, spec_run, run, final, Agrees, run-eq-spec_run, final-Agrees,
  spec_history-bound,
}

empty-Agrees : (w : ℕ) → Agrees in_memory w w (in_memory_laws w) 0 empty []
unfolding empty in_memory_laws window_of lookup current_count
empty-Agrees w = record { valid = λ k. omega arith; same_count = λ k t le. refl }

-- Started empty, and called at times that do not go back, the in-memory limiter gives for every
-- call on every key the answer of the specification that remembers all admitted calls: admitted
-- exactly when fewer than max_calls admitted calls of the key lie in the window.
pub refines_history :
    (w : ℕ) (rs : List Request) → InOrder 0 rs → run in_memory w rs empty ≡ spec_run w rs []
refines_history w rs o =
    run-eq-spec_run in_memory w w (in_memory_laws w) rs 0 empty [] (empty-Agrees w) o

-- Started empty, and called at times that do not go back, with the same max_calls at every call
-- of a key, the limiter never has more than max_calls recorded calls of that key in the window
-- that ends at the last call.
pub window_bound :
    (w : ℕ) (rs : List Request) (k : String) (m : ℕ)
    → InOrder 0 rs
    → HasLimit k m rs
    → current_count k w (end_of 0 rs) (final in_memory w rs empty) ≤ m
unfolding in_memory_laws
window_bound w rs k m o limits =
    let final_agrees =
      final-Agrees in_memory w w (in_memory_laws w) rs 0 empty [] (empty-Agrees w) o in
    let bound = spec_history-bound w k m 0 rs [] limits o (omega arith) in
    rw (final_agrees.same_count k (end_of 0 rs) (omega arith)) bound
