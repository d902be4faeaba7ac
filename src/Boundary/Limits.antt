-- ===== src/Boundary/Limits.antt =====
-- The checks of src/toolboundary/boundary.py on the amounts, on the rate, by the policy hooks,
-- and for approval.
use toolboundary.Common.{
  ℕ, Bool, true, false, not, ◌&&◌, ◌||◌, Option, none, some, List, [], ◌∷◌, ◌==◌, if◌then◌else◌,
}
use toolboundary.Common.Dict.{lookup}
use toolboundary.Common.Int.{ℤ}
use toolboundary.Enums.{AccessMode, AutonomyLevel, ViolationReason}
use toolboundary.Exceptions.{
  Message, boundary_violation, rate_limit_exceeded, Result, ok, raise, approval_required,
}
use toolboundary.Numeric.{
  Float, float_zero, lt, above_int, is_integer, RawValue, FloatParsing, as_finite_number,
}
use toolboundary.Permissions.{ToolPermission}
use toolboundary.RateLimiter.Interface.{RateLimiter}
use toolboundary.Boundary.{Settings, CallContext, HookAnswer, returns, raises, PolicyHook}
use toolboundary.Boundary.Checks.{deny}
use toolboundary.Boundary.Key.{global_key, tool_key}

-- `x is not None`
abbrev pub is_set {ℓ} : {A : Type ℓ} → Option A → Bool
is_set none = false
is_set (some x) = true

-- `value < permission.min_value`, where that is set
abbrev pub below_min : Float → ToolPermission → Bool
below_min x p = elim p.min_value [ none ↦ false | some low ↦ lt x low ]

-- `value > permission.max_value`, where that is set
abbrev pub above_max : Float → ToolPermission → Bool
above_max x p = elim p.max_value [ none ↦ false | some high ↦ lt high x ]

-- the limit in a message, written where the limit is set
abbrev pub limit_or_zero : Option Float → Float
limit_or_zero none = float_zero
limit_or_zero (some x) = x

-- the tests of `_check_value_limit` on the number
unfoldable pub check_number : CallContext → ToolPermission → Float → Result (Unit {0})
check_number ctx p x =
    if below_min x p
    then deny boundary_violation
        (Message.below_min_value x (limit_or_zero p.min_value) ctx.tool_name) ctx ctx.operation
        ViolationReason.min_value_violated
    else if above_max x p
    then deny boundary_violation
        (Message.above_max_value x (limit_or_zero p.max_value) ctx.tool_name) ctx ctx.operation
        ViolationReason.max_value_exceeded
    else ok tt

unfoldable pub check_value_limit :
    FloatParsing → Settings → CallContext → ToolPermission → Result (Unit {0})
check_value_limit parsing b ctx p = elim ctx.value [
  | none ↦
      if b.strict_limits && is_set p.max_value
      then deny boundary_violation (Message.value_required ctx.tool_name) ctx ctx.operation
          ViolationReason.value_required
      else ok tt
  | some raw ↦
      if not (is_set p.max_value) && not (is_set p.min_value)
      then ok tt
      else elim (as_finite_number parsing raw) [
        | none ↦
            deny boundary_violation (Message.not_a_finite_number raw ctx.tool_name) ctx
              ctx.operation ViolationReason.invalid_value
        | some x ↦ check_number ctx p x
      ]
]

-- the tests of `_check_record_limit` on the number
unfoldable pub check_count : CallContext → RawValue → ℤ → Float → Result (Unit {0})
check_count ctx raw most x =
    if lt x float_zero || not (is_integer x)
    then deny boundary_violation (Message.not_a_count raw) ctx ctx.operation
        ViolationReason.invalid_value
    else if above_int x most
    then deny boundary_violation (Message.above_max_records x most ctx.tool_name) ctx ctx.operation
        ViolationReason.max_records_exceeded
    else ok tt

unfoldable pub check_record_limit :
    FloatParsing → Settings → CallContext → ToolPermission → Result (Unit {0})
check_record_limit parsing b ctx p = elim ctx.record_count [
  | none ↦
      if b.strict_limits && is_set p.max_records
      then deny boundary_violation (Message.records_required ctx.tool_name) ctx ctx.operation
          ViolationReason.records_required
      else ok tt
  | some raw ↦ elim p.max_records [
    | none ↦ ok tt
    | some most ↦ elim (as_finite_number parsing raw) [
      | none ↦
          deny boundary_violation (Message.not_a_count raw) ctx ctx.operation
            ViolationReason.invalid_value
      | some x ↦ check_count ctx raw most x
    ]
  ]
]

-- 3600 seconds, in nanoseconds
abbrev pub hour : ℕ
hour = 3_600_000_000_000

module _ (L : RateLimiter) where
  -- the second half of `_check_rate_limit`; `now` is the limiter's clock reading
  unfoldable pub check_tool_rate :
      ℕ → Settings → CallContext → L.State → Result (Unit {0}) × L.State
  check_tool_rate now b ctx s = elim (lookup ctx.tool_name b.permissions) [
    | none ↦ (ok tt, s)
    | some p ↦ elim p.max_calls_per_hour [
      | none ↦ (ok tt, s)
      | some most ↦
          let (admitted, s') =
            L.check_and_record (tool_key b.agent_name ctx.tool_name) most hour now s in
          if admitted then (ok tt, s') else (
            deny rate_limit_exceeded (Message.tool_limit_exceeded ctx.tool_name most) ctx none
                ViolationReason.rate_limit_exceeded,
            s',
          )
    ]
  ]

  -- `global_now` and `tool_now` are the limiter's readings in its two calls
  unfoldable pub check_rate_limit :
      ℕ → ℕ → Settings → CallContext → L.State → Result (Unit {0}) × L.State
  check_rate_limit global_now tool_now b ctx s = elim b.max_actions_per_hour [
    | none ↦ check_tool_rate tool_now b ctx s
    | some most ↦
        let (admitted, s') = L.check_and_record (global_key b.agent_name) most hour global_now s in
        if admitted then check_tool_rate tool_now b ctx s' else (
          deny rate_limit_exceeded (Message.global_limit_exceeded most) ctx none
              ViolationReason.rate_limit_exceeded,
          s',
        )
  ]

-- one hook: what it raises denies if the boundary fails closed; an empty reason does not deny
unfoldable pub check_hook : Bool → CallContext → PolicyHook → HookAnswer → Result (Unit {0})
check_hook fail_closed ctx hook (raises exc) =
    if fail_closed
    then deny boundary_violation (Message.hook_raised hook.shown exc) ctx ctx.operation
        ViolationReason.policy_hook_denied
    else ok tt
check_hook fail_closed ctx hook (returns none) = ok tt
check_hook fail_closed ctx hook (returns (some reason)) =
    if reason == ""
    then ok tt
    else deny boundary_violation (Message.plain reason) ctx ctx.operation
        ViolationReason.policy_hook_denied

unfoldable pub check_policy_hooks : Bool → List PolicyHook → CallContext → Result (Unit {0})
check_policy_hooks fail_closed [] ctx = ok tt
check_policy_hooks fail_closed (hook ∷ hooks) ctx =
    let rest = check_policy_hooks fail_closed hooks ctx in
    elim (check_hook fail_closed ctx hook (hook.ask ctx)) [ ok u ↦ rest | raise e ↦ raise e ]

abbrev pub is_read_only : AccessMode → Bool
is_read_only AccessMode.read_only = true
is_read_only _ = false

-- the part of `needs_approval` that the autonomy level decides
abbrev pub autonomy_needs_approval : AutonomyLevel → AccessMode → Bool
autonomy_needs_approval AutonomyLevel.human_approval_required mode = true
autonomy_needs_approval AutonomyLevel.recommend_only mode = not (is_read_only mode)
autonomy_needs_approval _ mode = false

unfoldable pub check_requires_approval : Settings → CallContext → ToolPermission → Result (Unit {0})
check_requires_approval b ctx p =
    if p.requires_approval || autonomy_needs_approval b.autonomy ctx.access_mode
    then raise (
        approval_required (record {
          message = Message.approval_needed ctx.tool_name ctx.operation b.autonomy;
          agent_name = ctx.agent_name;
          tool_name = ctx.tool_name;
          operation = ctx.operation;
          approval_id = none;
        }))
    else ok tt
