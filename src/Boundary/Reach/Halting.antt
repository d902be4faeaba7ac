-- ===== src/Boundary/Reach/Halting.antt =====
-- The kill switch of src/toolboundary/boundary.py over the calls that follow.
use toolboundary.Common.{ℕ, ◌≡◌, refl, ap, ◌∙◌, true}
use toolboundary.Exceptions.{Violation, violation, kill_switch_active, raise}
use toolboundary.Numeric.{FloatParsing}
use toolboundary.Evidence.{Hashing}
use toolboundary.Provider.{EvidenceProvider}
use toolboundary.RateLimiter.Interface.{RateLimiter}
use toolboundary.Boundary.{Settings, Boundary, engage_kill_switch, add_permission}
use toolboundary.Boundary.Check.{Call, Moment, check, evaluate}
use toolboundary.Boundary.Policy.{by_flag}
use toolboundary.Boundary.KillSwitch.{SwitchedOff, kill_switch_iff}
use toolboundary.Boundary.Authorize.{AuthorizeCall, AuthorizeMoment, authorize_call}
use toolboundary.Boundary.Authorize.Answers.{resume-raise}
use toolboundary.Boundary.Reach.{
  Step, checked, evaluated, authorized, executed, engaged, disengaged, permitted, Reach, here, next,
}
use toolboundary.Boundary.Reach.Invariant.{authorize_call-Kept, record_execution-Kept}

module _ (H : Hashing) (F : FloatParsing) (L : RateLimiter) (P : EvidenceProvider) where
  abbrev State : Type 0
  State = Boundary L.State P.State

  -- a call that is not `disengage_kill_switch`
  abbrev pub Leaves : (now now' : ℕ) (b b' : State) → Step H F L P now b now' b' → Type 0
  Leaves _ _ _ _ (disengaged now b) = ⊥
  Leaves _ _ _ _ (checked now m c b turn) = Unit
  Leaves _ _ _ _ (evaluated now m c b turn) = Unit
  Leaves _ _ _ _ (authorized now a m b turn) = Unit
  Leaves _ _ _ _ (executed now d a b) = Unit
  Leaves _ _ _ _ (engaged now b) = Unit
  Leaves _ _ _ _ (permitted now p b) = Unit

  abbrev pub LeavesAll : (now now' : ℕ) (b b' : State) → Reach H F L P now b now' b' → Type 0
  LeavesAll _ _ _ _ (here now b) = Unit
  LeavesAll _ _ _ _ (next now b now' b' now'' b'' step rest) =
      Leaves now now' b b' step × LeavesAll now' now'' b' b'' rest

  check-settings : (m : Moment) (c : Call) (b : State) → (check F L m c b).1.settings ≡ b.settings
  unfolding check
  check-settings m c b = refl

  flag : {b b' : Settings} → b' ≡ b → b.kill_switch ≡ true → b'.kill_switch ≡ true
  flag same on = ap (λ (s : Settings). s.kill_switch) same ∙ on

  step-flag :
      (now now' : ℕ) (b b' : State) (step : Step H F L P now b now' b')
      → Leaves now now' b b' step
      → b.kill_switch ≡ true
      → b'.kill_switch ≡ true
  step-flag _ _ _ _ (checked now m c b turn) leaves on = flag (check-settings m c b) on
  step-flag _ _ _ _ (evaluated now m c b turn) leaves on = unfold evaluate in on
  step-flag _ _ _ _ (authorized now a m b turn) leaves on =
      flag ((authorize_call-Kept H F L P a m b).settings ∙ check-settings m.moment a.call b) on
  step-flag _ _ _ _ (executed now d a b) leaves on =
      flag (record_execution-Kept H F L P d a b).settings on
  step-flag _ _ _ _ (engaged now b) leaves on = unfold engage_kill_switch in refl
  step-flag _ _ _ _ (disengaged now b) leaves on = absurd leaves
  step-flag _ _ _ _ (permitted now p b) leaves on = unfold add_permission in on

  reach-flag :
      (now now' : ℕ) (b b' : State) (reach : Reach H F L P now b now' b')
      → LeavesAll now now' b b' reach
      → b.kill_switch ≡ true
      → b'.kill_switch ≡ true
  reach-flag _ _ _ _ (here now b) leaves on = on
  reach-flag _ _ _ _ (next now b now' b' now'' b'' step rest) leaves on =
      reach-flag now' now'' b' b'' rest leaves.1 (step-flag now now' b b' step leaves.0 on)

  -- a halted agent's calls of `authorize_call` end as those of `check`
  authorize-halted :
      (a : AuthorizeCall) (m : AuthorizeMoment) (b : State)
      → SwitchedOff F L m.moment a.call b
      → (v : Violation) × (authorize_call H F L P a m b
          ≡ (raise (violation v), (check F L m.moment a.call b).1))
        × (v.class ≡ kill_switch_active)
  unfolding authorize_call
  authorize-halted a m b off =
      let after = check F L m.moment a.call b in
      (off.0, resume-raise H F L P a m after.0 after.1 (violation off.0) off.1, off.2)

  -- Once `engage_kill_switch` has been called, and after any further calls of check, evaluate,
  -- authorize_call, record_execution, engage_kill_switch and add_permission, but none of
  -- `disengage_kill_switch`, in any order and number, with readings of the limiter's clock that do
  -- not go back: every call of `check` and of `authorize_call` is denied as KillSwitchActive, and
  -- leaves the rate limiter and the provider as it found them.
  pub stays_halted :
      (now now' : ℕ) (b b' : State) (reach : Reach H F L P now (engage_kill_switch b) now' b')
      → LeavesAll now now' (engage_kill_switch b) b' reach
      → (a : AuthorizeCall) (m : AuthorizeMoment)
      → SwitchedOff F L m.moment a.call b'
        × ((v : Violation) × ((authorize_call H F L P a m b').0 ≡ raise (violation v))
            × (v.class ≡ kill_switch_active))
        × ((authorize_call H F L P a m b').1.rate_limiter ≡ b'.rate_limiter)
        × ((authorize_call H F L P a m b').1.provider ≡ b'.provider)
  stays_halted now now' b b' reach leaves a m =
      let on =
        reach-flag now now' (engage_kill_switch b) b' reach leaves
          (unfold engage_kill_switch in refl) in
      let off = (kill_switch_iff F L m.moment a.call b').0 (by_flag on) in
      let halted = authorize-halted a m b' off in
      (
        off,
        (halted.0, ap (λ r. r.0) halted.1, halted.2),
        ap (λ r. r.1.rate_limiter) halted.1 ∙ off.6,
        ap (λ r. r.1.provider) halted.1 ∙ (unfold check in refl),
      )
