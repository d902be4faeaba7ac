-- ===== src/Network/Replay.antt =====
-- Tokens sent to the proxy of src/toolboundary/network.py more than once.
use toolboundary.Common.{
  ℕ, ◌≡◌, ◌≤◌, inl, inr, String, true, false, Option, none, some, List, [], ◌∷◌, arith, Bool-cases,
  Option-cases, All,
}
use toolboundary.Common.Dict.{lookup}
use toolboundary.Tokens.{AuthorizationToken, Crypto, CryptoLaws, Checked-cases, from_wire, verify}
use toolboundary.Tokens.Issuer.{verify_iff}
use toolboundary.Tokens.Store.{TokenStore, SingleUse}
use toolboundary.Network.{
  UpstreamRoute, NetworkEnforcer, Readings, add_route, use_up, admit, authorize_and_resolve,
}
use toolboundary.Network.Decision.{
  lets_through, expected_by, Admitted, authorize-Admitted, Admitted-authorize,
}

-- what happens to a proxy: a request, or a route that is added
pub data Step : Type 0 where
  request : String → Option (List ℕ) → Readings → Step
  route_added : UpstreamRoute → Step

module _ (K : Crypto) (T : TokenStore) where
  unfoldable pub step : Step → NetworkEnforcer T.State → NetworkEnforcer T.State
  unfolding authorize_and_resolve add_route
  step (request tool_name wire at) n = (authorize_and_resolve K T tool_name wire at n).1
  step (route_added r) n = add_route r n

  unfoldable pub run : List Step → NetworkEnforcer T.State → NetworkEnforcer T.State
  unfolding step
  run [] n = n
  run (s ∷ steps) n = run steps (step s n)

-- the requests of a run have used up their tokens by a time
abbrev pub MarkedBy : ℕ → Step → Type 0
MarkedBy e (request tool_name wire at) = at.mark_now ≤ e
MarkedBy e (route_added r) = Unit

module _ (K : Crypto) (T : TokenStore) (U : SingleUse T) where
  module _ (i : String) (e : ℕ) (n : NetworkEnforcer T.State) (m : U.Marked n.token_store i e) where
    use_up-Marked :
        (route : UpstreamRoute) (t : AuthorizationToken) (now : ℕ)
        → now ≤ e
        → U.Marked (use_up K T route t now n).1.token_store i e
    unfolding use_up
    use_up-Marked route t now le = U.keeps i t.token_id e t.expires_at now n.token_store m le

    admit-Marked :
        (tool_name : String) (route : UpstreamRoute) (t : AuthorizationToken) (at : Readings)
        → at.mark_now ≤ e
        → U.Marked (admit K T tool_name route t at n).1.token_store i e
    unfolding admit
    admit-Marked tool_name route t at le =
        elim (Checked-cases (verify K n.issuer at.verify_now t (expected_by tool_name route))) [
          | inl (u, v) ↦ rw (v, admit) (use_up-Marked route t at.mark_now le)
          | inr (f, v) ↦ rw (v, admit) m
        ]

    pub authorize-Marked :
        (tool_name : String) (wire : Option (List ℕ)) (at : Readings)
        → at.mark_now ≤ e
        → U.Marked (authorize_and_resolve K T tool_name wire at n).1.token_store i e
    unfolding authorize_and_resolve
    authorize-Marked tool_name none at le = elim (Option-cases (lookup tool_name n.routes)) [
      | inl e ↦ rw (e, authorize_and_resolve) m
      | inr (route, e) ↦ rw (e, authorize_and_resolve) m
    ]
    authorize-Marked tool_name (some []) at le = elim (Option-cases (lookup tool_name n.routes)) [
      | inl e ↦ rw (e, authorize_and_resolve) m
      | inr (route, e) ↦ rw (e, authorize_and_resolve) m
    ]
    authorize-Marked tool_name (some (c ∷ wire)) at le =
        elim (Option-cases (lookup tool_name n.routes)) [
          | inl e ↦ rw (e, authorize_and_resolve) m
          | inr (route, e) ↦ elim (Checked-cases (from_wire K (c ∷ wire))) [
            | inl (t, p) ↦ rw (e, p, authorize_and_resolve) (admit-Marked tool_name route t at le)
            | inr (f, p) ↦ rw (e, p, authorize_and_resolve) m
          ]
        ]

  step-Marked :
      (i : String) (e : ℕ) (n : NetworkEnforcer T.State) (s : Step)
      → U.Marked n.token_store i e
      → MarkedBy e s
      → U.Marked (step K T s n).token_store i e
  unfolding step add_route
  step-Marked i e n (request tool_name wire at) m le = authorize-Marked i e n m tool_name wire at le
  step-Marked i e n (route_added r) m le = m

  run-Marked :
      (i : String) (e : ℕ) (steps : List Step) (n : NetworkEnforcer T.State)
      → U.Marked n.token_store i e
      → All (MarkedBy e) steps
      → U.Marked (run K T steps n).token_store i e
  unfolding run
  run-Marked i e [] n m les = m
  run-Marked i e (s ∷ steps) n m les =
      run-Marked i e steps (step K T s n) (step-Marked i e n s m les.0) les.1

  -- the id of a token that was let through is marked
  pub authorize-marks :
      (tool_name : String) (wire : Option (List ℕ)) (at : Readings) (n : NetworkEnforcer T.State)
      (a : Admitted K T tool_name wire at n)
      → U.Marked
          (authorize_and_resolve K T tool_name wire at n).1.token_store
          a.token.token_id
          a.token.expires_at
  unfolding use_up
  authorize-marks tool_name wire at n a =
      rw (authorize-Admitted K T tool_name at n wire a)
        (U.marks a.token.token_id a.token.expires_at at.mark_now n.token_store a.first)

  MarkedBy-later :
      (v e : ℕ) (steps : List Step) → v ≤ e → All (MarkedBy v) steps → All (MarkedBy e) steps
  MarkedBy-later v e [] le h = tt
  MarkedBy-later v e (request tool_name wire at ∷ steps) le h =
      (ground (arith, h.0), MarkedBy-later v e steps le h.1)
  MarkedBy-later v e (route_added r ∷ steps) le h = (tt, MarkedBy-later v e steps le h.1)

  module _ (laws : CryptoLaws K) where
    -- A token whose id is marked up to its expiry is not let through, whichever proxy it comes to.
    pub Admitted-Marked_refused :
        (tool_name tool_name' : String) (wire : List ℕ) (at at' : Readings)
        (n n' : NetworkEnforcer T.State) (a : Admitted K T tool_name (some wire) at n)
        → (at'.verify_now ≤ a.token.expires_at
            → U.Marked n'.token_store a.token.token_id a.token.expires_at)
        → at'.mark_now ≤ at'.verify_now
        → lets_through (authorize_and_resolve K T tool_name' (some wire) at' n').0 ≡ false
    Admitted-Marked_refused tool_name tool_name' wire at at' n n' a marked le =
        elim (Bool-cases
          (lets_through (authorize_and_resolve K T tool_name' (some wire) at' n').0)) [
            | inr denied ↦ denied
            | inl passed ↦
                let b = Admitted-authorize K T tool_name' at' n' (some wire) passed in
                let same : b.token ≡ a.token = cc (a.parsed, b.parsed, a.carried, b.carried) in
                let authentic =
                  (verify_iff K laws n'.issuer at'.verify_now b.token
                      (expected_by tool_name' b.route)).0
                    b.verified in
                let in_time : at'.verify_now ≤ a.token.expires_at =
                  rw same at (authentic.in_time) in
                let refused =
                  U.refuses a.token.token_id a.token.expires_at a.token.expires_at at'.mark_now
                    n'.token_store (marked in_time) (ground (arith, in_time, le)) in
                absurd (cc (b.first, same, refused))
          ]

    -- Over any store that keeps the single-use contract, and with hexadecimal signatures, a token
    -- that has been let through once is not let through again, for any tool and after any further
    -- requests and added routes, if its later use reads one time for the test and for the store,
    -- and the requests between have read no later time.
    pub single_use :
        (tool_name tool_name' : String) (wire : List ℕ) (at at' : Readings) (steps : List Step)
        (n : NetworkEnforcer T.State)
        → lets_through (authorize_and_resolve K T tool_name (some wire) at n).0 ≡ true
        → All (MarkedBy at'.verify_now) steps
        → at'.mark_now ≤ at'.verify_now
        → lets_through
            (authorize_and_resolve K T tool_name'
              (some wire)
              at'
              (run K T steps (authorize_and_resolve K T tool_name (some wire) at n).1)).0
          ≡ false
    single_use tool_name tool_name' wire at at' steps n h before le =
        let n' = run K T steps (authorize_and_resolve K T tool_name (some wire) at n).1 in
        let a = Admitted-authorize K T tool_name at n (some wire) h in
        Admitted-Marked_refused tool_name tool_name' wire at at' n n' a
          (λ in_time.
            run-Marked a.token.token_id a.token.expires_at steps _
              (authorize-marks tool_name (some wire) at n a)
              (MarkedBy-later at'.verify_now a.token.expires_at steps in_time before))
          le
