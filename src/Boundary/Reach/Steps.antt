-- ===== src/Boundary/Reach/Steps.antt =====
-- Every call keeps what the sinks have taken, and the limiter consistent.
use toolboundary.Common.{
  ℕ, ◌≤◌, refl, ◌∙◌, sym, inl, inr, Bool-cases, List, [], ◌∷◌, ◌++◌, map, append-nil, append_assoc,
  Option-cases,
}
use toolboundary.Common.Dict.{lookup}
use toolboundary.Audit.{Sink, AuditEvent, emit}
use toolboundary.Exceptions.{Result, ok, raise}
use toolboundary.Numeric.{FloatParsing}
use toolboundary.RateLimiter.Interface.{RateLimiter, SlidingWindowLaws}
use toolboundary.Boundary.{Settings, CallContext}
use toolboundary.Boundary.Action.{Action, lift, continue, ◌>>=◌}
use toolboundary.Boundary.Limits.{
  hour, check_tool_rate, check_rate_limit, check_policy_hooks, check_value_limit,
  check_record_limit,
}
use toolboundary.Boundary.Checks.{
  check_kill_switch, check_quarantine, check_validity_window, check_environment,
  check_global_blocked_operations, check_tool_permission, check_operation, check_access_mode,
}
use toolboundary.Boundary.Key.{global_key, tool_key}
use toolboundary.Boundary.Check.{Moment, run_checks}
use toolboundary.Boundary.Reach.{InTurn, Grown}

pub Grown-refl : (sinks : List Sink) → Grown sinks sinks
Grown-refl [] = refl
Grown-refl (s ∷ sinks) = ((refl, ([], sym (append-nil s.emitted))), Grown-refl sinks)

pub Grown-trans : (a b c : List Sink) → Grown a b → Grown b c → Grown a c
Grown-trans [] [] c h k = k
Grown-trans [] (t ∷ b) c h k = absurd (cc h)
Grown-trans (s ∷ a) [] c h k = absurd h
Grown-trans (s ∷ a) (t ∷ b) [] h k = absurd k
Grown-trans (s ∷ a) (t ∷ b) (u ∷ c) ((same, (new, h)), hs) ((same', (new', k)), ks) = (
  (same' ∙ same, (new ++ new', k ∙ (rw h (append_assoc s.emitted new new')))),
  Grown-trans a b c hs ks,
)

pub emit-Grown : (e : AuditEvent) (sinks : List Sink) → Grown sinks (map (emit e) sinks)
unfolding emit
emit-Grown e [] = refl
emit-Grown e (s ∷ sinks) = elim (Bool-cases (s.raises e)) [
  | inl raised ↦ (rw (raised, emit) (refl, ([], sym (append-nil s.emitted))), emit-Grown e sinks)
  | inr taken ↦ (rw (taken, emit) (refl, (e ∷ [], refl)), emit-Grown e sinks)
]

-- the state that a step leaves has a property
record Leaves {S B : Type 0} (Post : S → Type 0) (r : Result B × S) : Type 0 where
  holds : Post r.1

module _ {S B : Type 0} (Post : S → Type 0) where
  lift-Leaves :
      {A : Type 0} (r : Result A) (f : A → Action S B) (s : S)
      → Post s
      → ((a : A) → Leaves Post (f a s))
      → Leaves Post ((lift r >>= f) s)
  lift-Leaves (ok a) f s h rest = rest a
  lift-Leaves (raise e) f s h rest = record { holds = h }

  continue-Leaves :
      {A : Type 0} (r : Result A) (f : A → Action S B) (s : S)
      → Post s
      → ((a : A) → Leaves Post (f a s))
      → Leaves Post (continue r f s)
  continue-Leaves (ok a) f s h rest = rest a
  continue-Leaves (raise e) f s h rest = record { holds = h }

module _ (F : FloatParsing) (L : RateLimiter) (v : ℕ) (laws : SlidingWindowLaws L hour v)
    (b : Settings) (ctx : CallContext) where
  tool_rate-Valid :
      (now : ℕ) (s : L.State) → laws.Valid s now → laws.Valid (check_tool_rate L now b ctx s).1 now
  unfolding check_tool_rate
  tool_rate-Valid now s h = elim (Option-cases (lookup ctx.tool_name b.permissions)) [
    | inl e ↦ rw (e, check_tool_rate) h
    | inr (p, e) ↦ elim (Option-cases p.max_calls_per_hour) [
      | inl e' ↦ rw (e, e', check_tool_rate) h
      | inr (most, e') ↦
          let key = tool_key b.agent_name ctx.tool_name in
          let kept = laws.valid_step key most now s h in
          elim (Bool-cases (L.check_and_record key most hour now s).0) [
            | inl yes_it_is ↦ rw (e, e', yes_it_is, check_tool_rate) kept
            | inr no_it_is ↦ rw (e, e', no_it_is, check_tool_rate) kept
          ]
    ]
  ]

  rate-Valid :
      (now now' : ℕ) (s : L.State)
      → laws.Valid s now
      → now ≤ now'
      → laws.Valid (check_rate_limit L now now' b ctx s).1 now'
  unfolding check_rate_limit
  rate-Valid now now' s h le = elim (Option-cases b.max_actions_per_hour) [
    | inl e ↦ rw (e, check_rate_limit) (tool_rate-Valid now' s (laws.valid_later s now now' h le))
    | inr (most, e) ↦
        let key = global_key b.agent_name in
        let kept = laws.valid_later _ now now' (laws.valid_step key most now s h) le in
        elim (Bool-cases (L.check_and_record key most hour now s).0) [
          | inl yes_it_is ↦ rw (e, yes_it_is, check_rate_limit) (tool_rate-Valid now' _ kept)
          | inr no_it_is ↦ rw (e, no_it_is, check_rate_limit) kept
        ]
  ]

  -- the limiter behind the checks, whichever of them raises
  pub run-Valid :
      (m : Moment) (now : ℕ) (s : L.State)
      → InTurn now m
      → laws.Valid s now
      → laws.Valid (run_checks F L m b ctx s).1 m.tool_now
  unfolding run_checks
  run-Valid m now s (le, le') h =
      let Post : L.State → Type 0 = λ s'. laws.Valid s' m.tool_now in
      let at_global = laws.valid_later s now m.global_now h le in
      let post = laws.valid_later s m.global_now m.tool_now at_global le' in
      let rated = rate-Valid m.global_now m.tool_now s at_global le' in
      let rate = check_rate_limit L m.global_now m.tool_now b ctx s in
      let hooks = check_policy_hooks b.fail_closed_on_hook_error b.policy_hooks ctx in
      let whole : Leaves Post (run_checks F L m b ctx s) =
        lift-Leaves Post (check_kill_switch m.environ b ctx) _ s post λ _.
          lift-Leaves Post (check_quarantine b ctx) _ s post λ _.
            lift-Leaves Post (check_validity_window m.wall b ctx) _ s post λ _.
              lift-Leaves Post (check_environment b ctx) _ s post λ _.
                lift-Leaves Post (check_global_blocked_operations b ctx) _ s post λ _.
                  lift-Leaves Post (check_tool_permission b ctx) _ s post λ p.
                    lift-Leaves Post (check_operation ctx p) _ s post λ _.
                      lift-Leaves Post (check_access_mode ctx p) _ s post λ _.
                        lift-Leaves Post (check_value_limit F b ctx p) _ s post λ _.
                          lift-Leaves Post (check_record_limit F b ctx p) _ s post λ _.
                            continue-Leaves Post rate.0 _ rate.1 rated λ _.
                              lift-Leaves Post hooks _ rate.1 rated λ _. record { holds = rated } in
      whole.holds
