-- ===== src/Tests/Threads.antt =====
-- Threads that mark the id "t1" in an empty store.
use toolboundary.Common.{ℕ, ◌≡◌, refl, Bool, true, false, [], arith}
use toolboundary.Common.Dict.{Dict, contains, insert}
use toolboundary.Tokens.Store.{gc}
use toolboundary.Tokens.Threads.{
  collecting, finished, collect, pass, write, Run, stop, left, both_first, refuse, none_between,
  serial_single_use,
}

not_held : contains "t1" (gc 9 []) ≡ false
unfolding gc contains
not_held = refl

both_first_example :
    (d' : Dict ℕ) × Run "t1" 37 9 collecting collecting [] (finished true) (finished true) d'
both_first_example = both_first "t1" 37 9 [] not_held

held : contains "t1" (gc 20 (insert "t1" 37 (gc 9 []))) ≡ true
unfolding gc contains insert
held = refl

one_thread :
    Run "t1" 37 9 collecting
      (finished true)
      []
      (finished true)
      (finished true)
      (insert "t1" 37 (gc 9 []))
one_thread = left _ _ _ _ _ _ _ _ (collect []) (
    left _ _ _ _ _ _ _ _ (pass (gc 9 []) not_held)
      (left _ _ _ _ _ _ _ _ (write (gc 9 [])) (stop _ _ _)))

other_thread :
    Run "t1" 50 20 collecting
      (finished true)
      (insert "t1" 37 (gc 9 []))
      (finished false)
      (finished true)
      (gc 20 (insert "t1" 37 (gc 9 [])))
other_thread =
    left _ _ _ _ _ _ _ _ (collect (insert "t1" 37 (gc 9 [])))
      (left _ _ _ _ _ _ _ _ (refuse (gc 20 (insert "t1" 37 (gc 9 []))) held) (stop _ _ _))

serial_single_use_example : ◌≡◌ {A = Bool} false false
serial_single_use_example =
    serial_single_use "t1" 37 50 9 20 [] (insert "t1" 37 (gc 9 [])) (insert "t1" 37 (gc 9 []))
      (gc 20 (insert "t1" 37 (gc 9 []))) true true false one_thread (none_between _) other_thread
      (omega arith)
