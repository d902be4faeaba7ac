-- ===== src/Boundary/Policy/Amounts.antt =====
-- The checks of amounts and the policy hooks pass exactly when their clause of the policy holds.
use toolboundary.Common.{
  ◌≡◌, ◌↔◌, refl, Bool, not, Option, none, some, List, [], ◌∷◌, arith, All, Bool-cases,
  Option-cases, inl, inr, eq_iff, ◌&&◌,
}
use toolboundary.Exceptions.{ok}
use toolboundary.Numeric.{Float, RawValue, FloatParsing, as_finite_number}
use toolboundary.Permissions.{ToolPermission}
use toolboundary.Boundary.{Settings, CallContext, HookAnswer, returns, raises, PolicyHook}
use toolboundary.Boundary.Limits.{
  is_set, check_number, check_value_limit, check_count, check_record_limit, check_hook,
  check_policy_hooks,
}
use toolboundary.Boundary.Policy.{WithinLimits, ValueAllowed, RecordsAllowed, HookAllows}

module _ (ctx : CallContext) (p : ToolPermission) where
  check_number_iff : (x : Float) → (check_number ctx p x ≡ ok tt) ↔ WithinLimits p x
  unfolding check_number
  check_number_iff x = (
    λ h. record { not_below = λ low e. ground arith; not_above = λ high e. ground arith },
    λ w. elim (Option-cases p.min_value) [
      | inl e ↦ elim (Option-cases p.max_value) [
        | inl e' ↦ ground arith
        | inr (high, e') ↦ ground (arith, w.not_above high e')
      ]
      | inr (low, e) ↦ elim (Option-cases p.max_value) [
        | inl e' ↦ ground (arith, w.not_below low e)
        | inr (high, e') ↦ ground (arith, w.not_below low e, w.not_above high e')
      ]
    ],
  )

  module _ (F : FloatParsing) (b : Settings) where
    value_to :
        (v : Option RawValue)
        → ctx.value ≡ v
        → check_value_limit F b ctx p ≡ ok tt
        → ValueAllowed F b.strict_limits p v
    unfolding check_value_limit
    value_to none e h = λ strict. ground arith
    value_to (some raw) e h =
        elim (Bool-cases (not (is_set p.max_value) && not (is_set p.min_value))) [
          | inl unlimited ↦ inl (ground arith, ground arith)
          | inr limited ↦ elim (Option-cases (as_finite_number F raw)) [
            | inl bad ↦ absurd (ground arith)
            | inr (x, good) ↦ inr (x, good, (check_number_iff x).0 (ground arith))
          ]
        ]

    value_from :
        (v : Option RawValue)
        → ctx.value ≡ v
        → ValueAllowed F b.strict_limits p v
        → check_value_limit F b ctx p ≡ ok tt
    unfolding check_value_limit
    value_from none e a = ground (arith, a)
    value_from (some raw) e (inl (no_max, no_min)) = ground arith
    value_from (some raw) e (inr (x, good, within)) =
        ground (arith, good, (check_number_iff x).1 within)

    pub check_value_limit_iff :
        (check_value_limit F b ctx p ≡ ok tt) ↔ ValueAllowed F b.strict_limits p ctx.value
    check_value_limit_iff = (value_to ctx.value refl, value_from ctx.value refl)

    records_to :
        (v : Option RawValue)
        → ctx.record_count ≡ v
        → check_record_limit F b ctx p ≡ ok tt
        → RecordsAllowed F b.strict_limits p v
    unfolding check_record_limit check_count
    records_to none e h = λ strict. ground arith
    records_to (some raw) e h = λ most limit. elim (Option-cases (as_finite_number F raw)) [
      | inl bad ↦ absurd (ground arith)
      | inr (x, good) ↦ (x, good, ground arith, ground arith, ground arith)
    ]

    records_from :
        (v : Option RawValue)
        → ctx.record_count ≡ v
        → RecordsAllowed F b.strict_limits p v
        → check_record_limit F b ctx p ≡ ok tt
    unfolding check_record_limit check_count
    records_from none e a = ground (arith, a)
    records_from (some raw) e a = elim (Option-cases p.max_records) [
      | inl unlimited ↦ ground arith
      | inr (most, limit) ↦ let (x, good, nonneg, whole, below) = a most limit in ground arith
    ]

    pub check_record_limit_iff :
        (check_record_limit F b ctx p ≡ ok tt) ↔ RecordsAllowed F b.strict_limits p ctx.record_count
    check_record_limit_iff = (records_to ctx.record_count refl, records_from ctx.record_count refl)

module _ (closed : Bool) (ctx : CallContext) where
  check_hook_iff :
      (hook : PolicyHook) (answer : HookAnswer)
      → (check_hook closed ctx hook answer ≡ ok tt) ↔ HookAllows closed answer
  unfolding check_hook
  check_hook_iff hook (returns none) = ground arith
  check_hook_iff hook (returns (some reason)) = ground (arith, eq_iff reason "")
  check_hook_iff hook (raises exc) = ground arith

  pub check_policy_hooks_iff :
      (hooks : List PolicyHook)
      → (check_policy_hooks closed hooks ctx ≡ ok tt)
        ↔ All (λ (h : PolicyHook). HookAllows closed (h.ask ctx)) hooks
  unfolding check_policy_hooks
  check_policy_hooks_iff [] = (λ h. tt, λ h. refl)
  check_policy_hooks_iff (hook ∷ hooks) =
      let here = check_hook_iff hook (hook.ask ctx) in
      let later = check_policy_hooks_iff hooks in
      (
        λ h. (here.0 (ground arith), later.0 (ground arith)),
        λ a. ground (arith, here.1 a.0, later.1 a.1),
      )
