-- ===== src/RateLimiter/History.antt =====
-- The specification of a sliding-window limiter, and that a limiter with the contract refines it.
-- The specification keeps every admitted call for ever, and counts those in the window.
use toolboundary.Common.{
  ℕ, ◌+◌, ◌≤◌, String, ◌≡◌, refl, Bool, true, List, [], ◌∷◌, arith, ltb, leb, ◌&&◌, count_if, All,
  eq_iff, ◌==◌, if◌then◌else◌, inl, inr, Bool-cases, ap,
}
use toolboundary.RateLimiter.Interface.{RateLimiter, SlidingWindowLaws}

pub record Request : Type 0 where
  pub key : String
  pub max_calls : ℕ
  pub time : ℕ

-- admitted calls, the latest first
abbrev pub History : Type 0
History = List (String × ℕ)

-- a call of the key that lies in the window ending at `now`
abbrev pub counted : ℕ → String → ℕ → String × ℕ → Bool
counted w key now (k, t) = (k == key) && leb now (t + w)

abbrev pub spec_admits : ℕ → Request → History → Bool
spec_admits w r h = ltb (count_if (counted w r.key r.time) h) r.max_calls

abbrev pub spec_step : ℕ → Request → History → History
spec_step w r h = if spec_admits w r h then (r.key, r.time) ∷ h else h

abbrev pub spec_run : ℕ → List Request → History → List Bool
spec_run w [] h = []
spec_run w (r ∷ rs) h = spec_admits w r h ∷ spec_run w rs (spec_step w r h)

abbrev pub spec_history : ℕ → List Request → History → History
spec_history w [] h = h
spec_history w (r ∷ rs) h = spec_history w rs (spec_step w r h)

-- the clock does not run backwards, from `lo` on
abbrev pub InOrder : ℕ → List Request → Type 0
InOrder lo [] = Unit
InOrder lo (r ∷ rs) = (lo ≤ r.time) × InOrder r.time rs

-- the time of the last request
abbrev pub end_of : ℕ → List Request → ℕ
end_of lo [] = lo
end_of lo (r ∷ rs) = end_of r.time rs

module _ (L : RateLimiter) (w : ℕ) where
  -- the limiter's answers to a sequence of calls, and the state that they leave
  abbrev pub run : List Request → L.State → List Bool
  run [] s = []
  run (r ∷ rs) s =
      let (admitted, s') = L.check_and_record r.key r.max_calls w r.time s in admitted ∷ run rs s'

  abbrev pub final : List Request → L.State → L.State
  final [] s = s
  final (r ∷ rs) s = final rs (L.check_and_record r.key r.max_calls w r.time s).1

module _ (L : RateLimiter) (w v : ℕ) (laws : SlidingWindowLaws L w v) where
  -- the limiter remembers what matters of the history to every window from `now` on
  pub record Agrees (now : ℕ) (s : L.State) (h : History) : Type 0 where
    pub valid : laws.Valid s now
    pub same_count : (k : String) (t : ℕ) → now ≤ t → laws.count k t s ≡ count_if (counted v k t) h

  module _ (r : Request) (now : ℕ) (s : L.State) (h : History) (a : Agrees now s h)
      (le : now ≤ r.time) where
    valid_now : laws.Valid s r.time
    valid_now = laws.valid_later s now r.time a.valid le

    abbrev after : Bool × L.State
    after = L.check_and_record r.key r.max_calls w r.time s

    -- the limiter decides as the specification does
    decision-eq : after.0 ≡ spec_admits v r h
    decision-eq =
        rw (laws.admits r.key r.max_calls r.time s valid_now) (rw (a.same_count r.key r.time le))

    count-step :
        (k : String) (t : ℕ)
        → r.time ≤ t
        → laws.count k t after.1 ≡ count_if (counted v k t) (spec_step v r h)
    count-step k t later = rw (laws.counts r.key k r.max_calls r.time t s valid_now later) (
        rw (a.same_count k t (omega arith)) (
          rw decision-eq (elim (Bool-cases (spec_admits v r h)) [
            | inl yes_it_is ↦ rw yes_it_is (ground arith)
            | inr no_it_is ↦ rw no_it_is (ground arith)
          ])))

    Agrees-step : (after.0 ≡ spec_admits v r h) × Agrees r.time after.1 (spec_step v r h)
    Agrees-step = (
      decision-eq,
      record {
        valid = laws.valid_step r.key r.max_calls r.time s valid_now;
        same_count = count-step;
      },
    )

  pub run-eq-spec_run :
      (rs : List Request) (now : ℕ) (s : L.State) (h : History)
      → Agrees now s h
      → InOrder now rs
      → run L w rs s ≡ spec_run v rs h
  run-eq-spec_run [] now s h a o = refl
  run-eq-spec_run (r ∷ rs) now s h a o =
      let step = Agrees-step r now s h a o.0 in
      cc (step.0, run-eq-spec_run rs r.time _ _ step.1 o.1)

  pub final-Agrees :
      (rs : List Request) (now : ℕ) (s : L.State) (h : History)
      → Agrees now s h
      → InOrder now rs
      → Agrees (end_of now rs) (final L w rs s) (spec_history v rs h)
  final-Agrees [] now s h a o = a
  final-Agrees (r ∷ rs) now s h a o = final-Agrees rs r.time _ _ (Agrees-step r now s h a o.0).1 o.1

-- A later window holds no more of the past.
count_if-counted_antitone :
    (w : ℕ) (k : String) (t t' : ℕ) (h : History)
    → t ≤ t'
    → count_if (counted w k t') h ≤ count_if (counted w k t) h
count_if-counted_antitone w k t t' [] le = omega arith
count_if-counted_antitone w k t t' (e ∷ h) le =
    ground (arith, count_if-counted_antitone w k t t' h le)

-- every request of the key has the same limit
abbrev pub HasLimit : String → ℕ → List Request → Type 0
HasLimit k m = All (λ r. (r.key == k) ≡ true → r.max_calls ≡ m)

spec_step-bound :
    (w : ℕ) (k : String) (m now : ℕ) (r : Request) (h : History)
    → ((r.key == k) ≡ true → r.max_calls ≡ m)
    → now ≤ r.time
    → count_if (counted w k now) h ≤ m
    → count_if (counted w k r.time) (spec_step w r h) ≤ m
spec_step-bound w k m now r h limit le bound = elim (Bool-cases (spec_admits w r h)) [
  | inl admitted ↦ rw admitted (elim (Bool-cases (r.key == k)) [
    | inl same ↦ ground (
      arith,
      limit same,
      admitted,
      ap (λ j. count_if (counted w j r.time) h) ((eq_iff r.key k).0 same),
    )
    | inr other ↦ ground (arith, count_if-counted_antitone w k now r.time h le)
  ])
  | inr refused ↦ rw refused (omega (arith, count_if-counted_antitone w k now r.time h le))
]

pub spec_history-bound :
    (w : ℕ) (k : String) (m now : ℕ) (rs : List Request) (h : History)
    → HasLimit k m rs
    → InOrder now rs
    → count_if (counted w k now) h ≤ m
    → count_if (counted w k (end_of now rs)) (spec_history w rs h) ≤ m
spec_history-bound w k m now [] h limits o bound = bound
spec_history-bound w k m now (r ∷ rs) h limits o bound =
    spec_history-bound w k m r.time rs (spec_step w r h) limits.1 o.1
      (spec_step-bound w k m now r h limits.0 o.0 bound)
