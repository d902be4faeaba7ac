-- ===== src/Boundary/Policy/Switch.antt =====
-- The kill switch of src/toolboundary/boundary.py reads engaged exactly when the agent is halted.
use toolboundary.Common.{
  ◌≡◌, ◌≢◌, ◌↔◌, refl, String, true, false, Option, none, some, arith, ◌==◌, eq_iff, Option-cases,
  Bool-cases, inl, inr,
}
use toolboundary.Common.Names.{same_codes-eq, same_codes_refl}
use toolboundary.Common.Text.{codes, strip, lower, same_codes}
use toolboundary.Boundary.{Settings, is_truthy_setting, environ_get, kill_switch_engaged}
use toolboundary.Boundary.Policy.{SaysYes, Halted, by_flag, by_variable}

is_truthy-SaysYes : (val : String) → is_truthy_setting val ≡ true → SaysYes val
unfolding is_truthy_setting
is_truthy-SaysYes val h =
    let v = lower (strip (codes val)) in
    ground (
      arith,
      same_codes-eq v (codes "1"),
      same_codes-eq v (codes "true"),
      same_codes-eq v (codes "yes"),
      same_codes-eq v (codes "on"),
    )

SaysYes-is_truthy : (val : String) → SaysYes val → is_truthy_setting val ≡ true
unfolding is_truthy_setting
SaysYes-is_truthy val (inl h) = rw (h, same_codes_refl (codes "1")) refl
SaysYes-is_truthy val (inr (inl h)) = rw (h, same_codes_refl (codes "true")) refl
SaysYes-is_truthy val (inr (inr (inl h))) = rw (h, same_codes_refl (codes "yes")) refl
SaysYes-is_truthy val (inr (inr (inr h))) = rw (h, same_codes_refl (codes "on")) refl

nothing_says : is_truthy_setting "" ≡ true → ⊥
unfolding is_truthy_setting strip lower same_codes
nothing_says h = cc h

not_empty : (name : String) → name ≢ "" → (name == "") ≡ false
not_empty name full = elim (Bool-cases (name == "")) [
  | inl empty ↦ absurd (full ((eq_iff name "").0 empty))
  | inr other ↦ other
]

module _ (environ : String → Option String) (b : Settings) where
  get-unset : (name : String) → environ name ≡ none → environ_get environ name ≡ ""
  unfolding environ_get
  get-unset name h = rw (h, environ_get) refl

  get-set : (name val : String) → environ name ≡ some val → environ_get environ name ≡ val
  unfolding environ_get
  get-set name val h = rw (h, environ_get) refl

  pub engaged-Halted : kill_switch_engaged environ b ≡ true → Halted environ b
  unfolding kill_switch_engaged
  engaged-Halted h = elim (Bool-cases b.kill_switch) [
    | inl on ↦ by_flag on
    | inr off ↦ elim (Option-cases b.kill_switch_env) [
      | inl unnamed ↦ absurd (cc (rw (off, unnamed, kill_switch_engaged) at h))
      | inr (name, named) ↦ elim (Bool-cases (name == "")) [
        | inl empty ↦ absurd (cc (rw (off, named, empty, kill_switch_engaged) at h))
        | inr full ↦ elim (Option-cases (environ name)) [
          | inl unset ↦
              absurd (
                nothing_says
                  (rw (off, named, full, get-unset name unset, kill_switch_engaged) at h))
          | inr (val, set) ↦
              by_variable name val named (λ e. cc ((eq_iff name "").1 e, full)) set
                (is_truthy-SaysYes val
                  (rw (off, named, full, get-set name val set, kill_switch_engaged) at h))
        ]
      ]
    ]
  ]

  pub Halted-engaged : Halted environ b → kill_switch_engaged environ b ≡ true
  unfolding kill_switch_engaged
  Halted-engaged (by_flag on) = rw on refl
  Halted-engaged (by_variable name val named full set says) =
      rw
        (
          named,
          not_empty name full,
          get-set name val set,
          SaysYes-is_truthy val says,
          kill_switch_engaged,
        )
        (ground arith)

  -- the switch reads as off exactly when the agent is not halted
  pub off_iff : (kill_switch_engaged environ b ≡ false) ↔ (¬ (Halted environ b))
  off_iff = (
    λ off halted. cc (off, Halted-engaged halted),
    λ running. elim (Bool-cases (kill_switch_engaged environ b)) [
      | inl on ↦ absurd (running (engaged-Halted on))
      | inr off ↦ off
    ],
  )
