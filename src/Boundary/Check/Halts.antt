-- ===== src/Boundary/Check/Halts.antt =====
-- Which of the checks halts a call: only the first one raises KillSwitchActive.
use toolboundary.Common.{
  ℕ, ◌≡◌, refl, Bool, true, false, List, [], ◌∷◌, arith, inl, inr, Option-cases, Bool-cases,
}
use toolboundary.Exceptions.{kill_switch_active, violation, Result, ok, raise}
use toolboundary.Numeric.{FloatParsing}
use toolboundary.Permissions.{ToolPermission}
use toolboundary.RateLimiter.Interface.{RateLimiter}
use toolboundary.Boundary.{Settings, CallContext, PolicyHook, HookAnswer, kill_switch_engaged}
use toolboundary.Boundary.Action.{Action, lift, continue, ◌>>=◌, ◌>>◌}
use toolboundary.Boundary.Checks.{
  check_kill_switch, check_quarantine, check_validity_window, check_environment,
  check_global_blocked_operations, check_tool_permission, check_operation, check_access_mode,
}
use toolboundary.Boundary.Limits.{
  hour, check_number, check_value_limit, check_count, check_record_limit, check_tool_rate,
  check_rate_limit, check_hook, check_policy_hooks, check_requires_approval,
}
use toolboundary.Boundary.Key.{global_key}
use toolboundary.Boundary.Check.{Moment, run_checks}

-- an outcome that is a KillSwitchActive
abbrev pub halts {ℓ} : {A : Type ℓ} → Result A → Bool
halts (raise (violation v)) = elim v.class [ kill_switch_active ↦ true | _ ↦ false ]
halts _ = false

module _ (b : Settings) (ctx : CallContext) where
  goes_on_quarantine : halts (check_quarantine b ctx) ≡ false
  unfolding check_quarantine
  goes_on_quarantine = ground arith

  goes_on_window : (now : ℕ) → halts (check_validity_window now b ctx) ≡ false
  unfolding check_validity_window
  goes_on_window now = ground arith

  goes_on_environment : halts (check_environment b ctx) ≡ false
  unfolding check_environment
  goes_on_environment = ground arith

  goes_on_blocked : halts (check_global_blocked_operations b ctx) ≡ false
  unfolding check_global_blocked_operations
  goes_on_blocked = ground arith

  goes_on_tool : halts (check_tool_permission b ctx) ≡ false
  unfolding check_tool_permission
  goes_on_tool = ground arith

  goes_on_value :
      (F : FloatParsing) (p : ToolPermission) → halts (check_value_limit F b ctx p) ≡ false
  unfolding check_value_limit check_number
  goes_on_value F p = ground arith

  goes_on_records :
      (F : FloatParsing) (p : ToolPermission) → halts (check_record_limit F b ctx p) ≡ false
  unfolding check_record_limit check_count
  goes_on_records F p = ground arith

  goes_on_approval : (p : ToolPermission) → halts (check_requires_approval b ctx p) ≡ false
  unfolding check_requires_approval
  goes_on_approval p = ground arith

  goes_on_tool_rate :
      (L : RateLimiter) (now : ℕ) (s : L.State) → halts (check_tool_rate L now b ctx s).0 ≡ false
  unfolding check_tool_rate
  goes_on_tool_rate L now s = ground arith

  goes_on_rate :
      (L : RateLimiter) (now now' : ℕ) (s : L.State)
      → halts (check_rate_limit L now now' b ctx s).0 ≡ false
  unfolding check_rate_limit
  goes_on_rate L now now' s = elim (Option-cases b.max_actions_per_hour) [
    | inl e ↦ ground (arith, goes_on_tool_rate L now' s)
    | inr (most, e) ↦
        let after = L.check_and_record (global_key b.agent_name) most hour now s in
        ground (arith, goes_on_tool_rate L now' after.1)
  ]

module _ (ctx : CallContext) where
  goes_on_operation : (p : ToolPermission) → halts (check_operation ctx p) ≡ false
  unfolding check_operation
  goes_on_operation p = ground arith

  goes_on_access : (p : ToolPermission) → halts (check_access_mode ctx p) ≡ false
  unfolding check_access_mode
  goes_on_access p = ground arith

  goes_on_hook :
      (closed : Bool) (h : PolicyHook) (a : HookAnswer) → halts (check_hook closed ctx h a) ≡ false
  unfolding check_hook
  goes_on_hook closed h a = ground arith

  goes_on_hooks :
      (closed : Bool) (hooks : List PolicyHook)
      → halts (check_policy_hooks closed hooks ctx) ≡ false
  unfolding check_policy_hooks
  goes_on_hooks closed [] = refl
  goes_on_hooks closed (h ∷ hooks) =
      ground (arith, goes_on_hook closed h (h.ask ctx), goes_on_hooks closed hooks)

goes_on-step :
    {S A B : Type 0} (r : Result A) (s : S) (f : A → Action S B)
    → halts r ≡ false
    → ((a : A) → halts (f a s).0 ≡ false)
    → halts (continue r f s).0 ≡ false
goes_on-step (ok a) s f on rest = rest a
goes_on-step (raise e) s f on rest = on

module _ (F : FloatParsing) (L : RateLimiter) (m : Moment) (b : Settings) (ctx : CallContext) where
  -- the checks behind the first one
  abbrev behind : Action L.State (Unit {0})
  behind = do
    lift (check_quarantine b ctx)
    lift (check_validity_window m.wall b ctx)
    lift (check_environment b ctx)
    lift (check_global_blocked_operations b ctx)
    permission ← lift (check_tool_permission b ctx)
    lift (check_operation ctx permission)
    lift (check_access_mode ctx permission)
    lift (check_value_limit F b ctx permission)
    lift (check_record_limit F b ctx permission)
    check_rate_limit L m.global_now m.tool_now b ctx
    lift (check_policy_hooks b.fail_closed_on_hook_error b.policy_hooks ctx)
    lift (check_requires_approval b ctx permission)

  goes_on-behind : (s : L.State) → halts (behind s).0 ≡ false
  goes_on-behind s = goes_on-step (check_quarantine b ctx) s _ (goes_on_quarantine b ctx) λ _.
      goes_on-step (check_validity_window m.wall b ctx) s _ (goes_on_window b ctx m.wall) λ _.
        goes_on-step (check_environment b ctx) s _ (goes_on_environment b ctx) λ _.
          goes_on-step (check_global_blocked_operations b ctx) s _ (goes_on_blocked b ctx) λ _.
            goes_on-step (check_tool_permission b ctx) s _ (goes_on_tool b ctx) λ p.
              goes_on-step (check_operation ctx p) s _ (goes_on_operation ctx p) λ _.
                goes_on-step (check_access_mode ctx p) s _ (goes_on_access ctx p) λ _.
                  goes_on-step (check_value_limit F b ctx p) s _ (goes_on_value b ctx F p) λ _.
                    goes_on-step (check_record_limit F b ctx p) s _ (goes_on_records b ctx F p)
                      λ _. goes_on-last p s
    where
      goes_on-last :
          (p : ToolPermission) (s : L.State)
          → halts
              ((do
                check_rate_limit L m.global_now m.tool_now b ctx
                lift (check_policy_hooks b.fail_closed_on_hook_error b.policy_hooks ctx)
                lift (check_requires_approval b ctx p))
                s).0
            ≡ false
      goes_on-last p s =
          let rate = check_rate_limit L m.global_now m.tool_now b ctx s in
          let hooks = check_policy_hooks b.fail_closed_on_hook_error b.policy_hooks ctx in
          goes_on-step rate.0 rate.1 _ (goes_on_rate b ctx L m.global_now m.tool_now s) λ _.
            goes_on-step hooks rate.1 _
              (goes_on_hooks ctx b.fail_closed_on_hook_error b.policy_hooks)
              (λ _. goes_on_approval b ctx p)

  -- the whole halts exactly as the switch reads
  pub run_checks-halts :
      (s : L.State) → halts (run_checks F L m b ctx s).0 ≡ kill_switch_engaged m.environ b
  unfolding run_checks check_kill_switch
  run_checks-halts s = elim (Bool-cases (kill_switch_engaged m.environ b)) [
    | inl on ↦ rw on refl
    | inr off ↦ rw off (goes_on-behind s)
  ]
