-- ===== src/Boundary/KillSwitch.antt =====
-- The kill switch of src/toolboundary/boundary.py, against `check`.
use toolboundary.Common.{◌≡◌, ◌↔◌, refl, sym, ap, ◌∙◌, true, some}
use toolboundary.Enums.{ViolationReason}
use toolboundary.Exceptions.{Message, Violation, violation, kill_switch_active, Result, raise}
use toolboundary.Numeric.{FloatParsing}
use toolboundary.RateLimiter.Interface.{RateLimiter}
use toolboundary.Boundary.{Boundary, kill_switch_engaged}
use toolboundary.Boundary.Checks.{check_kill_switch}
use toolboundary.Boundary.Check.{Call, Moment, context, run_checks, check}
use toolboundary.Boundary.Check.Halts.{halts, run_checks-halts}
use toolboundary.Boundary.Policy.{Halted}
use toolboundary.Boundary.Policy.Switch.{engaged-Halted, Halted-engaged}

module _ (F : FloatParsing) (L : RateLimiter) {P : Type 0} (m : Moment) (c : Call)
    (b : Boundary L.State P) where
  -- a call that is denied by the switch, with the limiter as it was
  abbrev pub SwitchedOff : Type 0
  SwitchedOff =
      (v : Violation) × ((check F L m c b).0 ≡ raise (violation v))
      × (v.class ≡ kill_switch_active)
      × (v.rule ≡ some ViolationReason.kill_switch_active)
      × (v.agent_name ≡ b.agent_name)
      × (v.tool_name ≡ some c.tool_name)
      × ((check F L m c b).1.rate_limiter ≡ b.rate_limiter)

  engaged-SwitchedOff : kill_switch_engaged m.environ b.settings ≡ true → SwitchedOff
  unfolding check run_checks check_kill_switch
  engaged-SwitchedOff h =
      let v : Violation = record {
        class = kill_switch_active;
        message = Message.kill_switch_engaged;
        agent_name = b.agent_name;
        tool_name = some c.tool_name;
        operation = c.operation;
        rule = some ViolationReason.kill_switch_active;
      } in
      (v, rw h, refl, refl, refl, refl, rw h)

  SwitchedOff-engaged : SwitchedOff → kill_switch_engaged m.environ b.settings ≡ true
  unfolding check
  SwitchedOff-engaged off =
      sym (run_checks-halts F L m b.settings (context b.settings c) b.rate_limiter)
      ∙ ap (λ (r : Result (Unit {0})). halts r) off.1
      ∙ rw off.2 refl

  -- `check` denies a call as KillSwitchActive, with that rule, the agent and the tool, and with
  -- the rate limiter left as it was, exactly when the agent is halted: the flag is set, or the
  -- environment variable that is named for it, by a name that is not empty, has a value that is 1,
  -- true, yes or on, in capitals or not and between spaces. So no other setting, and no
  -- permission, hook or limit, raises KillSwitchActive or keeps it from being raised.
  pub kill_switch_iff : Halted m.environ b.settings ↔ SwitchedOff
  kill_switch_iff = (
    λ halted. engaged-SwitchedOff (Halted-engaged m.environ b.settings halted),
    λ off. engaged-Halted m.environ b.settings (SwitchedOff-engaged off),
  )
