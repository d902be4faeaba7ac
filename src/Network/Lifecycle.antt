-- ===== src/Network/Lifecycle.antt =====
-- `start`, `stop` and `is_running` of `NetworkEnforcer`, src/toolboundary/network.py. A server of
-- the standard library is the address that it listens on; binding an address that is in use raises
-- OSError.
use toolboundary.Common.{
  ◌≡◌, refl, String, Bool, true, false, Option, none, some, List, [], ◌∷◌, ◌==◌, eq_refl,
  if◌then◌else◌, Bool-cases, inl, inr,
}
use toolboundary.Common.Text.{member}

-- `self._server` and `self._thread`, and the addresses, "host:port", that the process listens on
pub record Serving : Type 0 where
  pub server : Option String
  pub thread : Bool
  pub listening : List String

-- none for OSError, which leaves the object as it was
unfoldable pub start : String → Serving → Option Serving
unfolding member
start address s =
    if member address s.listening
    then none
    else some (record { server = some address; thread = true; listening = address ∷ s.listening })

-- `server_close`
unfoldable pub close : String → List String → List String
close address [] = []
close address (a ∷ listening) = if a == address then listening else a ∷ close address listening

unfoldable pub stop : Serving → Serving
unfolding close
stop s = elim s.server [
  | none ↦ record s { thread = false }
  | some address ↦ record { server = none; thread = false; listening = close address s.listening }
]

abbrev pub is_running : Serving → Bool
is_running s = elim s.server [ none ↦ false | some address ↦ true ]

-- the object after a start that does not raise
abbrev started : String → Serving → Serving
started address s = record {
  server = some address;
  thread = true;
  listening = address ∷ s.listening;
}

started-eq :
    (address : String) (s s' : Serving) → start address s ≡ some s' → started address s ≡ s'
unfolding start
started-eq address s s' h = elim (Bool-cases (member address s.listening)) [
  | inl used ↦ absurd (cc (rw (used, start) at h))
  | inr free ↦ cc (rw (free, start) at h)
]

-- A proxy that is started on an address is running, and once stopped it is not, and the process
-- listens where it did before.
pub start-stop :
    (address : String) (s s' : Serving)
    → start address s ≡ some s'
    → (is_running s' ≡ true) × (is_running (stop s') ≡ false) × ((stop s').listening ≡ s.listening)
unfolding stop close
start-stop address s s' h =
    rw (← started-eq address s s' h) (refl, refl, rw (eq_refl address, close) refl)

-- A proxy that is started a second time, on another address, forgets the first server: after `stop`
-- it is not running, and the process still listens on the first address.
pub start-start :
    (address other : String) (s s' s'' : Serving)
    → start address s ≡ some s'
    → start other s' ≡ some s''
    → (is_running (stop s'') ≡ false) × (member address (stop s'').listening ≡ true)
unfolding stop close member
start-start address other s s' s'' h h' =
    rw (← started-eq other s' s'' h', ← started-eq address s s' h)
      (refl, rw (eq_refl other, close) (rw (eq_refl address, member) refl))
