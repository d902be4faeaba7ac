-- ===== src/Tokens/Threads.antt =====
-- `InMemoryTokenStore.mark_used` of src/toolboundary/tokens.py in two threads of the proxy, which
-- is a `ThreadingTCPServer`: the method takes no lock, so that its statements may interleave. A
-- step is a whole statement; finer steps allow these interleavings too.
use toolboundary.Common.{
  ℕ, ◌≡◌, ◌≤◌, refl, sym, ap, subst, String, Bool, true, false, [], ◌∷◌, arith, ◌∙◌, if◌then◌else◌,
}
use toolboundary.Common.Dict.{Dict, contains, insert}
use toolboundary.Tokens.Store.{gc, mark_used, InMemoryTokenStore, in_memory-SingleUse}

-- where a thread stands in the method: before the collection, before the test, before the
-- assignment, and behind its `return`
pub data Thread : Type 0 where
  collecting testing writing : Thread
  finished : Bool → Thread

-- the next statement of a thread that marks the id `i` with the expiry `e`, at the time `now`
pub data ThreadStep (i : String) (e now : ℕ) : Thread → Dict ℕ → Thread → Dict ℕ → Type 0 where
  collect : (d : Dict ℕ) → ThreadStep i e now collecting d testing (gc now d)
  refuse : (d : Dict ℕ) → contains i d ≡ true → ThreadStep i e now testing d (finished false) d
  pass : (d : Dict ℕ) → contains i d ≡ false → ThreadStep i e now testing d writing d
  write : (d : Dict ℕ) → ThreadStep i e now writing d (finished true) (insert i e d)

-- any number of steps of two threads on one dict, in any order
pub data Run (i : String) (e now : ℕ)
    : Thread → Thread → Dict ℕ → Thread → Thread → Dict ℕ → Type 0 where
  stop : (t u : Thread) (d : Dict ℕ) → Run i e now t u d t u d
  left :
      (t t' u t'' u'' : Thread) (d d' d'' : Dict ℕ)
      → ThreadStep i e now t d t' d'
      → Run i e now t' u d' t'' u'' d''
      → Run i e now t u d t'' u'' d''
  right :
      (t u u' t'' u'' : Thread) (d d' d'' : Dict ℕ)
      → ThreadStep i e now u d u' d'
      → Run i e now t u' d' t'' u'' d''
      → Run i e now t u d t'' u'' d''

gc-gc : (now : ℕ) (d : Dict ℕ) → gc now (gc now d) ≡ gc now d
unfolding gc
gc-gc now [] = refl
gc-gc now ((j, x) ∷ d) = ground (arith, gc-gc now d)

module _ (i : String) (e now : ℕ) where
  -- how the method ends for a thread, from where it stands, if the other one takes no step
  rest : Thread → Dict ℕ → Bool × InMemoryTokenStore
  unfolding mark_used
  rest collecting d = mark_used i e now (record { used = d })
  rest testing d =
      if contains i d then (false, record { used = d }) else (true, record { used = insert i e d })
  rest writing d = (true, record { used = insert i e d })
  rest (finished b) d = (b, record { used = d })

  rest-step : (t t' : Thread) (d d' : Dict ℕ) → ThreadStep i e now t d t' d' → rest t d ≡ rest t' d'
  unfolding rest mark_used
  rest-step _ _ _ _ (collect d) = refl
  rest-step _ _ _ _ (refuse d known) = rw known
  rest-step _ _ _ _ (pass d new) = rw new
  rest-step _ _ _ _ (write d) = refl

  no_step :
      (t t' : Thread) (d d' : Dict ℕ) (b : Bool) → ThreadStep i e now t d t' d' → t ≡ finished b → ⊥
  no_step _ _ _ _ b (collect d) h = cc h
  no_step _ _ _ _ b (refuse d known) h = cc h
  no_step _ _ _ _ b (pass d new) h = cc h
  no_step _ _ _ _ b (write d) h = cc h

  rest-run :
      (t u t' u' : Thread) (d d' : Dict ℕ) (b : Bool)
      → Run i e now t u d t' u' d'
      → u ≡ finished b
      → rest t d ≡ rest t' d'
  rest-run _ _ _ _ _ _ b (stop t u d) h = refl
  rest-run _ _ _ _ _ _ b (left t t1 u t'' u'' d d1 d'' s run) h =
      rest-step t t1 d d1 s ∙ rest-run t1 u t'' u'' d1 d'' b run h
  rest-run _ _ _ _ _ _ b (right t u u1 t'' u'' d d1 d'' s run) h = absurd (no_step u u1 d d1 b s h)

  -- a thread that runs through the method while the other one is done with it
  alone :
      (d d' : Dict ℕ) (b c : Bool)
      → Run i e now collecting (finished c) d (finished b) (finished c) d'
      → mark_used i e now (record { used = d }) ≡ (b, record { used = d' })
  unfolding rest
  alone d d' b c run = rest-run collecting (finished c) (finished b) (finished c) d d' c run refl

  -- Two threads that call the method for the same id at one time, on a store whose unexpired
  -- entries do not hold it, can both return True, that it is the first use: where the second
  -- tests before the first has written.
  pub both_first :
      (d : Dict ℕ)
      → contains i (gc now d) ≡ false
      → (d' : Dict ℕ) × Run i e now collecting collecting d (finished true) (finished true) d'
  both_first d new =
      let k = gc now d in
      let new' : contains i (gc now k) ≡ false = rw (gc-gc now d) new in
      (
        _,
        left _ _ _ _ _ _ _ _ (collect d) (
            right _ _ _ _ _ _ _ _ (collect k) (
              left _ _ _ _ _ _ _ _ (pass (gc now k) new') (
                right _ _ _ _ _ _ _ _ (pass (gc now k) new') (
                  left _ _ _ _ _ _ _ _ (write (gc now k))
                    (right _ _ _ _ _ _ _ _ (write (insert i e (gc now k))) (stop _ _ _)))))),
      )

-- whole calls for any ids, at times that are not after `until`
pub data Between (until : ℕ) : Dict ℕ → Dict ℕ → Type 0 where
  none_between : (d : Dict ℕ) → Between until d d
  one_more :
      (j : String) (e now : ℕ) (b c : Bool) (d d' d'' : Dict ℕ)
      → now ≤ until
      → Run j e now collecting (finished c) d (finished b) (finished c) d'
      → Between until d' d''
      → Between until d d''

between-Marked :
    (i : String) (e : ℕ) (d d' : Dict ℕ)
    → Between e d d'
    → in_memory-SingleUse.Marked (record { used = d }) i e
    → in_memory-SingleUse.Marked (record { used = d' }) i e
between-Marked i e _ _ (none_between d) marked = marked
between-Marked i e _ _ (one_more j e' now b c d d' d'' early run rest) marked =
    let S = in_memory-SingleUse in
    between-Marked i e d' d'' rest (
      subst (λ (p : Bool × InMemoryTokenStore). S.Marked p.1 i e) (alone j e' now d d' b c run)
        (S.keeps i j e e' now (record { used = d }) marked early))

-- If one thread has run through all statements of the method for an id, and has got True, before
-- another one starts with them for the same id, the other one gets False, whatever expiry it
-- brings, as long as the time that it reads is not after the expiry of the first. Between the two
-- any whole calls, for any ids, may have run, at times that are not after that expiry.
pub serial_single_use :
    (i : String) (e e' now now' : ℕ) (d d1 d2 d3 : Dict ℕ) (x y c : Bool)
    → Run i e now collecting (finished x) d (finished true) (finished x) d1
    → Between e d1 d2
    → Run i e' now' collecting (finished y) d2 (finished c) (finished y) d3
    → now' ≤ e
    → c ≡ false
serial_single_use i e e' now now' d d1 d2 d3 x y c first between second early =
    let S = in_memory-SingleUse in
    let marked = alone i e now d d1 true x first in
    let after : S.Marked (record { used = d1 }) i e =
      subst (λ (p : Bool × InMemoryTokenStore). S.Marked p.1 i e) marked
        (S.marks i e now (record { used = d })
          (ap (λ (p : Bool × InMemoryTokenStore). p.0) marked)) in
    ap (λ (p : Bool × InMemoryTokenStore). p.0) (sym (alone i e' now' d2 d3 c y second))
    ∙ S.refuses i e e' now' (record { used = d2 }) (between-Marked i e d1 d2 between after) early
