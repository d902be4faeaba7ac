-- ===== src/Network/Upstream.antt =====
-- The end of `_handle` of src/toolboundary/network.py: the upstream's answer, sent back.
use toolboundary.Common.{
  ℕ, ◌≡◌, refl, String, Bool, true, not, ◌&&◌, List, [], ◌∷◌, arith, length, count_if,
  if◌then◌else◌, Bool-cases, inl, inr,
}
use toolboundary.Common.Names.{same_codes-eq}
use toolboundary.Common.Text.{codes, lower, same_codes}

-- how `urllib.request.urlopen` ends: with a response, an HTTPError, or another exception
pub data Upstream : Type 0 where
  responded : ℕ → List (String × String) → List ℕ → Upstream
  http_error : ℕ → List ℕ → Upstream
  failed : Upstream

-- what the client is sent; `length_header` is the Content-Length that the handler writes last
pub record Relayed : Type 0 where
  pub status : ℕ
  pub headers : List (String × String)
  pub length_header : ℕ
  pub body : List ℕ

-- `k.lower() not in {"transfer-encoding", "connection"}`
unfoldable pub is_relayed : String → Bool
unfolding lower same_codes
is_relayed name =
    let k = lower (codes name) in
    not (same_codes k (codes "transfer-encoding")) && not (same_codes k (codes "connection"))

unfoldable pub relayed_headers : List (String × String) → List (String × String)
unfolding is_relayed
relayed_headers [] = []
relayed_headers ((k, v) ∷ headers) =
    let rest = relayed_headers headers in if is_relayed k then (k, v) ∷ rest else rest

abbrev pub unreachable_body : List ℕ
unreachable_body = codes "{\"error\":\"upstream_unreachable\"}"

unfoldable pub relay : Upstream → Relayed
unfolding relayed_headers
relay (responded status headers body) = record {
  status = status;
  headers = relayed_headers headers;
  length_header = length body;
  body = body;
}
relay (http_error code body) = record {
  status = code;
  headers = [];
  length_header = length body;
  body = body;
}
relay failed = record {
  status = 502;
  headers = [];
  length_header = length unreachable_body;
  body = unreachable_body;
}

-- a header that has the name, in any case
abbrev pub is_named : String → String × String → Bool
is_named name (k, v) = same_codes (lower (codes k)) (codes name)

named-is_relayed : (k v : String) → is_named "content-length" (k, v) ≡ true → is_relayed k ≡ true
unfolding is_relayed
named-is_relayed k v h =
    let same = same_codes-eq (lower (codes k)) (codes "content-length") h in
    rw (same, is_relayed) refl

relayed-count :
    (headers : List (String × String))
    → count_if (is_named "content-length") (relayed_headers headers)
      ≡ count_if (is_named "content-length") headers
unfolding relayed_headers
relayed-count [] = refl
relayed-count ((k, v) ∷ headers) = elim (Bool-cases (is_relayed k)) [
  | inl kept ↦ rw (kept, relayed_headers) (omega (arith, relayed-count headers))
  | inr dropped ↦ elim (Bool-cases (is_named "content-length" (k, v))) [
    | inl named ↦ absurd (cc (dropped, named-is_relayed k v named))
    | inr other ↦ rw (dropped, other) (omega (arith, relayed-count headers))
  ]
]

-- The handler writes the length of the body that it sends, and also relays every Content-Length of
-- the upstream: a response that had one is sent with two.
pub relay-lengths :
    (status : ℕ) (headers : List (String × String)) (body : List ℕ)
    → ((relay (responded status headers body)).length_header
        ≡ length (relay (responded status headers body)).body)
      × (count_if (is_named "content-length") (relay (responded status headers body)).headers
          ≡ count_if (is_named "content-length") headers)
unfolding relay
relay-lengths status headers body = (refl, relayed-count headers)
