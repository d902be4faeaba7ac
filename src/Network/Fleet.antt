-- ===== src/Network/Fleet.antt =====
-- Several proxies of src/toolboundary/network.py that share one token store.
use toolboundary.Common.{
  ℕ, ◌≡◌, ◌≤◌, String, Bool, true, false, Option, some, List, [], ◌∷◌, arith, All,
}
use toolboundary.Tokens.{Crypto, CryptoLaws}
use toolboundary.Tokens.Store.{TokenStore, SingleUse}
use toolboundary.Network.{NetworkEnforcer, Readings, authorize_and_resolve}
use toolboundary.Network.Decision.{lets_through, Admitted-authorize}
use toolboundary.Network.Replay.{authorize-Marked, authorize-marks, Admitted-Marked_refused}

module _ (K : Crypto) (T : TokenStore) where
  -- a request, and the proxy that it reaches: its secret and the routes that it has by then
  pub record Visit : Type 0 where
    pub replica : NetworkEnforcer T.State
    pub tool_name : String
    pub wire : Option (List ℕ)
    pub at : Readings

  -- the proxy on the shared store
  abbrev pub with_store : NetworkEnforcer T.State → T.State → NetworkEnforcer T.State
  with_store n s = record n { token_store = s }

  -- the answer is a request's way, and the store is what all proxies see next
  abbrev pub visit_store : Visit → T.State → T.State
  visit_store v s =
      (authorize_and_resolve K T v.tool_name v.wire v.at (with_store v.replica s)).1.token_store

  abbrev pub passes : Visit → T.State → Bool
  passes v s =
      lets_through (authorize_and_resolve K T v.tool_name v.wire v.at (with_store v.replica s)).0

  unfoldable pub visits_store : List Visit → T.State → T.State
  visits_store [] s = s
  visits_store (v ∷ visits) s = visits_store visits (visit_store v s)

  module _ (U : SingleUse T) where
    visits-Marked :
        (i : String) (e bound : ℕ) (visits : List Visit) (s : T.State)
        → U.Marked s i e
        → All (λ v. v.at.mark_now ≤ bound) visits
        → bound ≤ e
        → U.Marked (visits_store visits s) i e
    unfolding visits_store
    visits-Marked i e bound [] s m les le = m
    visits-Marked i e bound (v ∷ visits) s m les le =
        let marked =
          authorize-Marked K T U i e (with_store v.replica s) m v.tool_name v.wire v.at
            (ground (arith, les.0, le)) in
        visits-Marked i e bound visits (visit_store v s) marked les.1 le

    -- The single use of a token holds for all proxies on the store together.
    pub fleet_single_use :
        (laws : CryptoLaws K) (v v' : Visit) (wire : List ℕ) (visits : List Visit) (s : T.State)
        → v.wire ≡ some wire
        → v'.wire ≡ some wire
        → passes v s ≡ true
        → All (λ u. u.at.mark_now ≤ v'.at.verify_now) visits
        → v'.at.mark_now ≤ v'.at.verify_now
        → passes v' (visits_store visits (visit_store v s)) ≡ false
    fleet_single_use laws v v' wire visits s e e' h before le =
        let n = with_store v.replica s in
        let n' = with_store v'.replica (visits_store visits (visit_store v s)) in
        let a = Admitted-authorize K T v.tool_name v.at n (some wire) (rw e at h) in
        rw e' (
          Admitted-Marked_refused K T U laws v.tool_name v'.tool_name wire v.at v'.at n n' a
            (λ in_time.
              visits-Marked a.token.token_id a.token.expires_at v'.at.verify_now visits
                (visit_store v s) (rw e (authorize-marks K T U v.tool_name (some wire) v.at n a))
                before in_time)
            le)
