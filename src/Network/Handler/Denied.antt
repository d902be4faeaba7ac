-- ===== src/Network/Handler/Denied.antt =====
-- `_handle` of src/toolboundary/network.py with the callback of a denied request.
use toolboundary.Common.{ℕ, ◌≡◌, ◌⊎◌, refl, String, true, false, Option, none, some, inl, inr}
use toolboundary.Provider.{Attempt}
use toolboundary.Tokens.{Crypto}
use toolboundary.Tokens.Store.{TokenStore}
use toolboundary.Network.{NetworkEnforcer, Answer, answer, raised, Readings, authorize_and_resolve}
use toolboundary.Network.Handler.{
  Urls, Resolved, target, nothing, url_error, resolve_target, HttpRequest, Forward, Reply, forwards,
  handle_answer, tool_and_rest, handle,
}

-- the reason with which the callback is called, if it is
unfoldable pub reported : Urls → String → Answer → Option String
unfolding resolve_target
reported U rest raised = none
reported U rest (answer false reason base) = some reason
reported U rest (answer true reason base) = elim (resolve_target U base rest) [
  | nothing ↦ some "BAD_PATH"
  | target url ↦ none
  | url_error ↦ none
]

Resolved-cases :
    (t : Resolved) → (t ≡ nothing) ⊎ ((t ≡ url_error) ⊎ ((url : String) × (t ≡ target url)))
Resolved-cases nothing = inl refl
Resolved-cases url_error = inr (inl refl)
Resolved-cases (target url) = inr (inr (url, refl))

reported-none :
    (U : Urls) (max_body_bytes : ℕ) (r : HttpRequest) (rest : String) (a : Answer) (f : Forward)
    → handle_answer U max_body_bytes r rest a ≡ forwards f
    → reported U rest a ≡ none
unfolding reported handle_answer
reported-none U most r rest raised f h = refl
reported-none U most r rest (answer false reason base) f h = absurd (cc h)
reported-none U most r rest (answer true reason base) f h =
    elim (Resolved-cases (resolve_target U base rest)) [
      | inl bad ↦ absurd (cc (rw (bad, handle_answer) at h))
      | inr (inl error) ↦ rw (error, reported) refl
      | inr (inr (url, good)) ↦ rw (good, reported) refl
    ]

module _ {W : Type 0} (on_denied : Option (String → String → W → Attempt (Unit {0}) × W)) where
  -- `if enforcer._on_denied:`, and what the callback raises is dropped; `W` is what it acts on
  unfoldable pub notify : String → String → W → W
  notify tool_name reason w = elim on_denied [
    | none ↦ w
    | some callback ↦ (callback tool_name reason w).1
  ]

  module _ (K : Crypto) (T : TokenStore) (U : Urls) where
    -- `_handle`, with the callback
    unfoldable pub serve :
        ℕ
        → HttpRequest
        → Readings
        → NetworkEnforcer T.State
        → W
        → Reply × NetworkEnforcer T.State × W
    unfolding tool_and_rest handle_answer authorize_and_resolve reported notify
    serve max_body_bytes r at n w =
        let (tool_name, rest) = tool_and_rest r.path in
        let (decision, n') = authorize_and_resolve K T tool_name r.token at n in
        (
          handle_answer U max_body_bytes r rest decision,
          n',
          elim (reported U rest decision) [ none ↦ w | some reason ↦ notify tool_name reason w ],
        )

    -- The callback changes nothing of the reply or of the proxy; and it is not called for a request
    -- that is sent upstream.
    pub serve-handle :
        (max_body_bytes : ℕ) (r : HttpRequest) (at : Readings) (n : NetworkEnforcer T.State) (w : W)
        → let (reply, n', w') = serve max_body_bytes r at n w in
          (handle K T U max_body_bytes r at n ≡ (reply, n'))
          × ((f : Forward) → reply ≡ forwards f → w' ≡ w)
    unfolding serve handle
    serve-handle max_body_bytes r at n w =
        let (tool_name, rest) = tool_and_rest r.path in
        let decided = (authorize_and_resolve K T tool_name r.token at n).0 in
        (refl, λ f sent. rw (reported-none U max_body_bytes r rest decided f sent, serve) refl)
