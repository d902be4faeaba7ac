-- ===== src/Boundary/Action.antt =====
-- Steps that may raise and that change the state of the rate limiter, in sequence. What was
-- recorded before a raise stays recorded, so the state comes back beside the error too.
use toolboundary.Common.{◌≡◌, refl}
use toolboundary.Exceptions.{Result, ok, raise}

abbrev pub Action : Type 0 → Type 0 → Type 0
Action S A = S → Result A × S

abbrev pub lift : {S A : Type 0} → Result A → Action S A
lift r s = (r, s)

abbrev pub continue : {S A B : Type 0} → Result A → (A → Action S B) → Action S B
continue (ok a) f s = f a s
continue (raise e) f s = (raise e, s)

infixl 5 ◌>>=◌ ◌>>◌
abbrev pub ◌>>=◌ : {S A B : Type 0} → Action S A → (A → Action S B) → Action S B
◌>>=◌ m f s = let (r, s') = m s in continue r f s'

abbrev pub ◌>>◌ : {S B : Type 0} → Action S (Unit {0}) → Action S B → Action S B
m >> k = m >>= λ _. k

-- a step that changes no state has passed, if the whole has
pub lift-passed :
    {S A B : Type 0} (r : Result A) (f : A → Action S B) {s s' : S} {b : B}
    → (lift r >>= f) s ≡ (ok b, s')
    → (a : A) × (r ≡ ok a) × (f a s ≡ (ok b, s'))
lift-passed (ok a) f h = (a, refl, h)
lift-passed (raise e) f h = cc

-- the same of a step that returns nothing
pub guard-passed :
    {S B : Type 0} (r : Result (Unit {0})) (k : Action S B) {s s' : S} {b : B}
    → (lift r >> k) s ≡ (ok b, s')
    → (r ≡ ok tt) × (k s ≡ (ok b, s'))
guard-passed (ok tt) k h = (refl, h)
guard-passed (raise e) k h = cc

pub step-passed :
    {S B : Type 0} (m : Action S (Unit {0})) (k : Action S B) (s : S) {s' : S} {b : B}
    → (m >> k) s ≡ (ok b, s')
    → (s'' : S) × (m s ≡ (ok tt, s'')) × (k s'' ≡ (ok b, s'))
step-passed {S} {B} m k s {s'} {b} h = after_step (m s) refl h
  where
    after_step :
        (p : Result (Unit {0}) × S)
        → m s ≡ p
        → continue p.0 (λ _. k) p.1 ≡ (ok b, s')
        → (s'' : S) × (m s ≡ (ok tt, s'')) × (k s'' ≡ (ok b, s'))
    after_step (ok tt, s'') e h' = (s'', e, h')
    after_step (raise x, s'') e h' = cc
