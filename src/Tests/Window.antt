-- ===== src/Tests/Window.antt =====
-- The in-memory limiter on three calls.
use toolboundary.Common.{◌≡◌, ◌≤◌, refl, List, [], ◌∷◌, arith}
use toolboundary.RateLimiter.{empty, current_count}
use toolboundary.RateLimiter.Contract.{in_memory}
use toolboundary.RateLimiter.History.{Request, InOrder, HasLimit, spec_run, run, final, end_of}
use toolboundary.RateLimiter.Refinement.{refines_history, window_bound}

abbrev three_calls : List Request
three_calls =
    record { key = "a"; max_calls = 2; time = 1 }
    ∷ record { key = "b"; max_calls = 1; time = 3 }
    ∷ record { key = "a"; max_calls = 2; time = 9 }
    ∷ []

three_calls-InOrder : InOrder 0 three_calls
three_calls-InOrder = (omega arith, (omega arith, (omega arith, tt)))

three_calls-HasLimit : HasLimit "a" 2 three_calls
three_calls-HasLimit = (λ e. refl, (λ e. absurd (cc), (λ e. refl, tt)))

refines_history_example : run in_memory 5 three_calls empty ≡ spec_run 5 three_calls []
refines_history_example = refines_history 5 three_calls three_calls-InOrder

window_bound_example :
    current_count "a" 5 (end_of 0 three_calls) (final in_memory 5 three_calls empty) ≤ 2
window_bound_example = window_bound 5 three_calls "a" 2 three_calls-InOrder three_calls-HasLimit
