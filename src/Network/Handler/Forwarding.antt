-- ===== src/Network/Handler/Forwarding.antt =====
-- What the proxy sends upstream.
use toolboundary.Common.{
  ℕ, ◌≡◌, ◌≤◌, refl, sym, ap, inl, inr, String, true, false, Option, none, some, arith, All,
  Bool-cases, ltb, if◌then◌else◌,
}
use toolboundary.Common.Int.{ℤ, pos, negsuc}
use toolboundary.Tokens.{Crypto}
use toolboundary.Tokens.Store.{TokenStore}
use toolboundary.Network.{NetworkEnforcer, Answer, answer, raised, Readings, authorize_and_resolve}
use toolboundary.Network.Decision.{Admitted, lets_through, Admitted-authorize, Admitted-answer}
use toolboundary.Network.Handler.{
  Urls, Resolved, target, nothing, url_error, resolve_target, HttpRequest, Forward, Reply, refused,
  forwards, crashed, forward_headers, content_length_of, handle_body, handle_answer, tool_and_rest,
  handle,
}
use toolboundary.Network.Handler.Headers.{IsClients, forward_headers-All}
use toolboundary.Network.Handler.Authority.{SameAuthority, resolve_target-SameAuthority}

-- what holds of every request that is sent upstream for a client's request
pub record Forwarded (U : Urls) (max_body_bytes : ℕ) (r : HttpRequest) (base : String) (f : Forward)
    : Type 0 where
  pub authority : SameAuthority U base f.url
  pub method : f.method ≡ r.command
  pub bounded : f.body_length ≤ max_body_bytes
  pub stripped : All IsClients f.headers
  pub unencoded : r.transfer_encoding ≡ none

module _ (U : Urls) (max_body_bytes : ℕ) (r : HttpRequest) where
  abbrev sized : String → Option ℤ → Reply
  sized url o = elim o [
    | none ↦ refused 400 "invalid_content_length"
    | some (negsuc n) ↦ refused 400 "invalid_content_length"
    | some (pos n) ↦
        if ltb max_body_bytes n
        then refused 413 "body_too_large"
        else forwards (record {
          method = r.command;
          url = url;
          headers = forward_headers r.headers;
          body_length = n;
        })
  ]

  sized-forwards :
      (url : String) (f : Forward) (o : Option ℤ)
      → sized url o ≡ forwards f
      → (n : ℕ) × (n ≤ max_body_bytes)
        × (record {
          method = r.command;
          url = url;
          headers = forward_headers r.headers;
          body_length = n;
        }
            ≡ f)
  sized-forwards url f none h = absurd (cc (h))
  sized-forwards url f (some (negsuc n)) h = absurd (cc (h))
  sized-forwards url f (some (pos n)) h = elim (Bool-cases (ltb max_body_bytes n)) [
    | inl large ↦ absurd (cc (rw large at h))
    | inr small ↦ (n, ground (arith, small), cc (rw small at h))
  ]

  abbrev by_encoding : String → Option String → Reply
  by_encoding url o = elim o [
    | some encoding ↦ refused 400 "unsupported_transfer_encoding"
    | none ↦ sized url (content_length_of U r.content_length)
  ]

  handle_body-forwards :
      (base url : String) (f : Forward) (o : Option String)
      → SameAuthority U base url
      → o ≡ r.transfer_encoding
      → by_encoding url o ≡ forwards f
      → Forwarded U max_body_bytes r base f
  handle_body-forwards base url f (some encoding) same e h = absurd (cc (h))
  handle_body-forwards base url f none same e h =
      let (n, small, made) = sized-forwards url f (content_length_of U r.content_length) h in
      rw (← made) (record {
        authority = same;
        method = refl;
        bounded = small;
        stripped = forward_headers-All r.headers;
        unencoded = sym e;
      })

  abbrev by_target : Resolved → Reply
  by_target t = elim t [
    | url_error ↦ crashed
    | nothing ↦ refused 400 "bad_path"
    | target url ↦ by_encoding url r.transfer_encoding
  ]

  by_target-forwards :
      (base rest : String) (f : Forward) (t : Resolved)
      → t ≡ resolve_target U (some base) rest
      → by_target t ≡ forwards f
      → Forwarded U max_body_bytes r base f
  by_target-forwards base rest f url_error e h = absurd (cc (h))
  by_target-forwards base rest f nothing e h = absurd (cc (h))
  by_target-forwards base rest f (target url) e h =
      handle_body-forwards base url f r.transfer_encoding
        (resolve_target-SameAuthority U base rest url (sym e)) refl h

  pub handle_answer-forwards :
      (rest : String) (f : Forward) (a : Answer)
      → handle_answer U max_body_bytes r rest a ≡ forwards f
      → (reason : String) × (base : Option String) × (a ≡ answer true reason base)
        × (by_target (resolve_target U base rest) ≡ forwards f)
  unfolding handle_answer handle_body
  handle_answer-forwards rest f raised h = absurd (cc (h))
  handle_answer-forwards rest f (answer false reason base) h = absurd (cc (h))
  handle_answer-forwards rest f (answer true reason base) h = (reason, base, refl, h)

module _ (K : Crypto) (T : TokenStore) (U : Urls) where
  -- The proxy sends a request upstream only if the client's request is admitted: its tool has a
  -- route, and its token is verified and used for the first time. The upstream request then has a
  -- URL with the authority of the route's base URL, the client's method, none of the client's
  -- headers Host, X-ToolBoundary-Token and Content-Length, and a body of at most max_body_bytes;
  -- the client's request has no Transfer-Encoding.
  pub forwards_only-Admitted :
      (max_body_bytes : ℕ) (r : HttpRequest) (at : Readings) (n : NetworkEnforcer T.State)
      (f : Forward)
      → (handle K T U max_body_bytes r at n).0 ≡ forwards f
      → (a : Admitted K T (tool_and_rest r.path).0 r.token at n) × Forwarded U max_body_bytes r
          a.route.upstream_base_url f
  unfolding handle
  forwards_only-Admitted max_body_bytes r at n f h =
      let (tool_name, rest) = tool_and_rest r.path in
      let decided = (authorize_and_resolve K T tool_name r.token at n).0 in
      let (reason, base, allowed, sent) =
        handle_answer-forwards U max_body_bytes r rest f decided h in
      let a = Admitted-authorize K T tool_name at n r.token (ap lets_through allowed) in
      let routed : some a.route.upstream_base_url ≡ base =
        cc (Admitted-answer K T tool_name r.token at n a, allowed) in
      (
        a,
        by_target-forwards U max_body_bytes r a.route.upstream_base_url rest f
            (resolve_target U base rest) (ap (λ o. resolve_target U o rest) (sym routed)) sent,
      )
