-- ===== src/Boundary/Policy/Static.antt =====
-- Each check without amounts passes exactly when its clause of the policy holds.
use toolboundary.Common.{
  ℕ, ◌≤◌, String, ◌≡◌, ◌≢◌, ◌↔◌, refl, Option, none, some, List, arith, Option-cases, inl, inr,
}
use toolboundary.Common.Dict.{lookup}
use toolboundary.Common.Names.{In, member-In, In-member, member-not_In, not_In-member}
use toolboundary.Enums.{AutonomyLevel}
use toolboundary.Exceptions.{ok}
use toolboundary.Permissions.{ToolPermission, operation_allowed}
use toolboundary.Boundary.{Settings, CallContext}
use toolboundary.Boundary.Checks.{
  check_kill_switch, check_quarantine, check_validity_window, check_environment,
  check_global_blocked_operations, check_tool_permission, check_operation, check_access_mode, rank,
}
use toolboundary.Boundary.Limits.{check_requires_approval}
use toolboundary.Boundary.Policy.{Halted, OperationAllowed, NeedsNoApproval}
use toolboundary.Boundary.Policy.Switch.{off_iff}

module _ (b : Settings) (ctx : CallContext) where
  pub check_kill_switch_iff :
      (environ : String → Option String)
      → (check_kill_switch environ b ctx ≡ ok tt) ↔ (¬ (Halted environ b))
  unfolding check_kill_switch
  check_kill_switch_iff environ = (
    λ h. (off_iff environ b).0 (ground arith),
    λ running. ground (arith, (off_iff environ b).1 running),
  )

  pub check_quarantine_iff :
      (check_quarantine b ctx ≡ ok tt) ↔ (b.autonomy ≢ AutonomyLevel.quarantined)
  unfolding check_quarantine
  check_quarantine_iff = ground arith

  pub check_validity_window_iff :
      (now : ℕ)
      → (check_validity_window now b ctx ≡ ok tt)
        ↔ (((t : ℕ) → b.valid_from ≡ some t → t ≤ now) × ((t : ℕ) → b.valid_to ≡ some t → now ≤ t))
  unfolding check_validity_window
  check_validity_window_iff now = (
    λ h. (λ t e. ground arith, λ t e. ground arith),
    λ (begun, unexpired). elim (Option-cases b.valid_from) [
      | inl e ↦ elim (Option-cases b.valid_to) [
        | inl e' ↦ ground arith
        | inr (to, e') ↦ ground (arith, unexpired to e')
      ]
      | inr (from, e) ↦ elim (Option-cases b.valid_to) [
        | inl e' ↦ ground (arith, begun from e)
        | inr (to, e') ↦ ground (arith, begun from e, unexpired to e')
      ]
    ],
  )

  pub check_environment_iff :
      (check_environment b ctx ≡ ok tt)
      ↔ ((names : List String) → b.allowed_environments ≡ some names → In b.environment names)
  unfolding check_environment
  check_environment_iff = (
    λ h names e. member-In b.environment names (ground arith),
    λ placed. elim (Option-cases b.allowed_environments) [
      | inl e ↦ ground arith
      | inr (names, e) ↦ ground (arith, In-member b.environment names (placed names e))
    ],
  )

  pub check_blocked_iff :
      (check_global_blocked_operations b ctx ≡ ok tt)
      ↔ ((op : String) → ctx.operation ≡ some op → ¬ (In op b.blocked_operations))
  unfolding check_global_blocked_operations
  check_blocked_iff = (
    λ h op e. member-not_In op b.blocked_operations (ground arith),
    λ unblocked. elim (Option-cases ctx.operation) [
      | inl e ↦ ground arith
      | inr (op, e) ↦ ground (arith, not_In-member op b.blocked_operations (unblocked op e))
    ],
  )

  pub check_tool_permission_iff :
      (p : ToolPermission)
      → (check_tool_permission b ctx ≡ ok p) ↔ (lookup ctx.tool_name b.permissions ≡ some p)
  unfolding check_tool_permission
  check_tool_permission_iff p = ground arith

module _ (ctx : CallContext) (p : ToolPermission) where
  operation_passes :
      OperationAllowed p ctx.operation
      → (o : Option String) → ctx.operation ≡ o
      → (a : Option (List String)) → p.allowed_operations ≡ a
      → check_operation ctx p ≡ ok tt
  unfolding check_operation operation_allowed
  operation_passes h none e none e' = ground arith
  operation_passes h none e (some names) e' =
      let (op, is_op, _) = h.listed names e' in cc (e, is_op)
  operation_passes h (some op) e none e' =
      ground (arith, not_In-member op p.blocked_operations (h.unblocked op e))
  operation_passes h (some op) e (some names) e' =
      let (op', is_op, listed) = h.listed names e' in
      ground (
        arith,
        not_In-member op p.blocked_operations (h.unblocked op e),
        In-member op' names listed,
        is_op,
      )

  pub check_operation_iff : (check_operation ctx p ≡ ok tt) ↔ OperationAllowed p ctx.operation
  unfolding check_operation operation_allowed
  check_operation_iff = (
    λ h. record {
      unblocked = λ op e. member-not_In op p.blocked_operations (ground arith);
      listed = λ names e. elim (Option-cases ctx.operation) [
        | inl none_given ↦ absurd (ground arith)
        | inr (op, e') ↦ (op, e', member-In op names (ground arith))
      ];
    },
    λ h. operation_passes h ctx.operation refl p.allowed_operations refl,
  )

  pub check_access_mode_iff :
      (check_access_mode ctx p ≡ ok tt) ↔ (rank ctx.access_mode ≤ rank p.access_mode)
  unfolding check_access_mode
  check_access_mode_iff = ground arith

  pub check_requires_approval_iff :
      (b : Settings)
      → (check_requires_approval b ctx p ≡ ok tt) ↔ NeedsNoApproval b.autonomy ctx.access_mode p
  unfolding check_requires_approval
  check_requires_approval_iff b = (
    λ h. record {
      not_asked = ground arith;
      not_by_level = ground arith;
      only_reads = ground arith;
    },
    λ n. ground (arith, n.not_asked, n.not_by_level, n.only_reads),
  )
