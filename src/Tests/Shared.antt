-- ===== src/Tests/Shared.antt =====
-- The limiter over Redis, on a server in memory.
use Prim.Native.String.{String, ◌++◌}
use text.Mathlib.TextLemmas.{append_cancel_left}
use toolboundary.Common.{
  ℕ, zero, suc, ◌≡◌, refl, inl, Bool, true, none, some, List, [], ◌∷◌, arith, length, ap,
}
use toolboundary.Common.Text.{codes}
use toolboundary.Exceptions.{ok}
use toolboundary.RateLimiter.History.{Request, InOrder, spec_run, run}
use toolboundary.Boundary.{Boundary}
use toolboundary.Boundary.Check.{check}
use toolboundary.Redis.Server.{answered, lost, Delivery}
use toolboundary.Redis.Key.{IsPlain, member_text}
use toolboundary.Redis.Limiter.{Client, Shared, member_of, redis_limiter}
use toolboundary.Redis.Limiter.Refinement.{shared_refines_history}
use toolboundary.Redis.Limiter.Outage.{IsDown, outage_denies}
use toolboundary.Redis.Limiter.Reset.{reset, reset_forgets}
use toolboundary.Tests.Data.{parsing, agent_settings, one_sink, search_call, at_seven}
use toolboundary.Tests.Server.{
  memory_sets, memory_set_laws, memory_keys, memory_key_laws, memory_start, memory_absent,
  memory_remaining,
}

-- a text of its own for each number
tally : ℕ → String
tally zero = ""
tally (suc n) = String.◌∷◌ "a" (tally n)

length-tally : (n : ℕ) → length (codes (tally n)) ≡ n
unfolding tally
length-tally zero = refl
length-tally (suc n) = ap suc (length-tally n)

tally-injective : (i j : ℕ) → tally i ≡ tally j → i ≡ j
tally-injective i j h = rw (← length-tally i, ← length-tally j) (ap (λ s. length (codes s)) h)

-- a client, by how its exchanges end
abbrev client : (ℕ → Delivery) → Client
client link = record {
  key_prefix = "rl:";
  fail_closed = true;
  format_time = λ t. "1.000000";
  token_hex = tally;
  link = link;
}

distinct :
    (link : ℕ → Delivery) (t t' i i' : ℕ)
    → member_of (client link) t i ≡ member_of (client link) t' i'
    → i ≡ i'
unfolding member_text
distinct link t t' i i' h = tally-injective i i' (
    append_cancel_left ":" (tally i) (tally i')
      (append_cancel_left "1.000000" (":" ++ tally i) (":" ++ tally i') h))

abbrev up : Client
up = client (λ i. answered)

abbrev start : Shared memory_sets
start = record { server = []; calls = 0 }

abbrev three_calls : List Request
three_calls =
    record { key = "a"; max_calls = 1; time = 1 }
    ∷ record { key = "a"; max_calls = 1; time = 5 }
    ∷ record { key = "a"; max_calls = 1; time = 11 }
    ∷ []

three_calls-InOrder : InOrder 0 three_calls
three_calls-InOrder = (omega arith, (omega arith, (omega arith, tt)))

shared_refines_history_example :
    run (redis_limiter memory_sets up) 10 three_calls start ≡ spec_run 9 three_calls []
shared_refines_history_example =
    shared_refines_history memory_sets memory_set_laws up (λ i. refl) (distinct (λ i. answered)) 9
      three_calls start (λ k t. memory_start _ t) three_calls-InOrder

plain : IsPlain "rl:"
plain = (refl, (refl, (refl, tt)))

reset_forgets_example :
    (s' : Shared memory_sets) × (reset memory_sets memory_keys up 1 none start ≡ some s')
    × (run (redis_limiter memory_sets up) 10 three_calls s' ≡ spec_run 9 three_calls [])
reset_forgets_example =
    reset_forgets memory_sets memory_keys up memory_key_laws (λ i. refl) plain memory_set_laws
      memory_absent (distinct (λ i. answered)) 1 start (memory_remaining []) 9 three_calls
      three_calls-InOrder

abbrev down : Client
down = client (λ i. lost)

abbrev shared_boundary : Boundary (Shared memory_sets) Bool
shared_boundary = record {
  settings = agent_settings;
  audit = one_sink;
  rate_limiter = start;
  provider = none;
}

is_down : IsDown memory_sets down start
is_down i le h = cc h

outage_denies_example : ¬ (
    (check parsing (redis_limiter memory_sets down) at_seven search_call shared_boundary).0 ≡ ok tt)
outage_denies_example =
    outage_denies memory_sets down refl parsing at_seven search_call shared_boundary is_down
      (inl (5, refl))
