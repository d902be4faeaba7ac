-- ===== src/Network/Handler.antt =====
-- src/toolboundary/network.py: `_resolve_target`, and the HTTP handler up to the request that it
-- sends upstream. The callback of a denied request is in Denied, what the upstream answers in
-- Network/Upstream.
pub mod Headers
pub mod Authority
pub mod Forwarding
pub mod Denied
use Prim.Native.Char.{code}
use Prim.Native.String.{◌++◌}
use toolboundary.Common.{
  ℕ, String, Bool, true, false, not, ◌&&◌, ◌||◌, Option, none, some, List, [], ◌∷◌, ltb, eqb, ◌==◌,
  if◌then◌else◌,
}
use toolboundary.Common.Dict.{Dict, insert}
use toolboundary.Common.Int.{ℤ, pos, negsuc}
use toolboundary.Common.Text.{codes, lower, same_codes}
use toolboundary.Tokens.{Crypto}
use toolboundary.Tokens.Store.{TokenStore}
use toolboundary.Network.{NetworkEnforcer, Answer, answer, raised, Readings, authorize_and_resolve}

-- what `urlsplit` gives, as far as it is used
pub record Parts : Type 0 where
  pub scheme : String
  pub netloc : String
  pub path : String

-- the standard library's functions on URLs and numbers; `none` is a ValueError
pub record Urls : Type 0 where
  pub urlsplit : String → Option Parts
  pub unquote : String → String
  pub join : String → String → String
  pub parse_int : String → Option ℤ

-- `s.lstrip("/")`
unfoldable pub lstrip_slash : String → String
lstrip_slash String.[] = String.[]
lstrip_slash (String.◌∷◌ c s) =
    let rest = lstrip_slash s in if eqb (code c) b'/' then rest else String.◌∷◌ c s

-- `s.partition(sep)`: what is before the first separator, and what is behind it if there is one
unfoldable pub partition : ℕ → String → String × Option String
partition sep String.[] = (String.[], none)
partition sep (String.◌∷◌ c s) =
    let (before, after) = partition sep s in
    if eqb (code c) sep then (String.[], some s) else (String.◌∷◌ c before, after)

-- `"\\" in s or "\x00" in s`
unfoldable pub has_bad_character : String → Bool
has_bad_character String.[] = false
has_bad_character (String.◌∷◌ c s) = eqb (code c) 92 || eqb (code c) 0 || has_bad_character s

-- `s.split("/")`: the first segment, and the others
unfoldable pub split_slash : String → String × List String
split_slash String.[] = (String.[], [])
split_slash (String.◌∷◌ c s) =
    let (segment, rest) = split_slash s in
    if eqb (code c) b'/' then (String.[], segment ∷ rest) else (String.◌∷◌ c segment, rest)

unfoldable pub any_dot_dot : List String → Bool
any_dot_dot [] = false
any_dot_dot (s ∷ segments) = s == ".." || any_dot_dot segments

unfoldable pub has_dot_dot : String → Bool
unfolding split_slash any_dot_dot
has_dot_dot s = let (segment, rest) = split_slash s in any_dot_dot (segment ∷ rest)

-- a target, None, or the ValueError of `urlsplit`
pub data Resolved : Type 0 where
  target : String → Resolved
  nothing : Resolved
  url_error : Resolved

module _ (U : Urls) where
  -- the text before the last test
  unfoldable pub joined : Parts → String → String → Option String → String
  unfolding lstrip_slash
  joined base path rest query =
      let base_path = if base.path == "" then "/" else base.path in
      let whole = base.scheme ++ "://" ++ base.netloc ++ U.join base_path (lstrip_slash path) in
      elim query [ none ↦ whole | some q ↦ whole ++ "?" ++ q ]

  -- `if urlsplit(target).netloc != base_parts.netloc: return None`
  unfoldable pub same_authority : Parts → String → Resolved
  same_authority base url = elim (U.urlsplit url) [
    | none ↦ url_error
    | some parts ↦ if parts.netloc == base.netloc then target url else nothing
  ]

  unfoldable pub resolve_target : Option String → String → Resolved
  unfolding partition has_bad_character has_dot_dot joined same_authority
  resolve_target none rest = nothing
  resolve_target (some base) rest = elim (U.urlsplit base) [
    | none ↦ url_error
    | some parts ↦
        let (path, query) = partition b'?' rest in
        if has_bad_character (U.unquote path) || has_dot_dot (U.unquote path)
        then nothing
        else same_authority parts (joined parts path rest query)
  ]

-- a request as `BaseHTTPRequestHandler` gives it; the token is the header X-ToolBoundary-Token
pub record HttpRequest : Type 0 where
  pub command : String
  pub path : String
  pub token : Option (List ℕ)
  pub transfer_encoding : Option String
  pub content_length : Option String
  pub headers : List (String × String)

-- the request that is sent upstream, with the number of bytes that are read for its body
pub record Forward : Type 0 where
  pub method : String
  pub url : String
  pub headers : Dict String
  pub body_length : ℕ

-- an error reply with its status and reason, a request to the upstream, or an exception
pub data Reply : Type 0 where
  refused : ℕ → String → Reply
  forwards : Forward → Reply
  crashed : Reply

-- `k.lower() not in {…}`
unfoldable pub is_forwarded : String → Bool
unfolding lower same_codes
is_forwarded name =
    let k = lower (codes name) in
    not (same_codes k (codes "host"))
    && not (same_codes k (codes "x-toolboundary-token"))
    && not (same_codes k (codes "content-length"))

-- the dict comprehension: of several headers of one spelling the last value stays, in the first
-- place
unfoldable pub put_forwarded : List (String × String) → Dict String → Dict String
unfolding is_forwarded insert
put_forwarded [] d = d
put_forwarded ((k, v) ∷ headers) d =
    put_forwarded headers (if is_forwarded k then insert k v d else d)

unfoldable pub forward_headers : List (String × String) → Dict String
unfolding put_forwarded
forward_headers headers = put_forwarded headers []

-- `int(self.headers.get("Content-Length", 0))`
unfoldable pub content_length_of : Urls → Option String → Option ℤ
content_length_of U none = some (pos 0)
content_length_of U (some text) = U.parse_int text

-- the tests on the body, for a target
unfoldable pub handle_body : Urls → ℕ → HttpRequest → String → Reply
unfolding content_length_of forward_headers
handle_body U max_body_bytes r url = elim r.transfer_encoding [
  | some encoding ↦ refused 400 "unsupported_transfer_encoding"
  | none ↦ elim (content_length_of U r.content_length) [
    | none ↦ refused 400 "invalid_content_length"
    | some (negsuc n) ↦ refused 400 "invalid_content_length"
    | some (pos n) ↦
        if ltb max_body_bytes n
        then refused 413 "body_too_large"
        else forwards (record {
          method = r.command;
          url = url;
          headers = forward_headers r.headers;
          body_length = n;
        })
  ]
]

-- what follows the decision
unfoldable pub handle_answer : Urls → ℕ → HttpRequest → String → Answer → Reply
unfolding resolve_target handle_body
handle_answer U max_body_bytes r rest raised = crashed
handle_answer U max_body_bytes r rest (answer false reason base) = refused 403 reason
handle_answer U max_body_bytes r rest (answer true reason base) =
    elim (resolve_target U base rest) [
      | url_error ↦ crashed
      | nothing ↦ refused 400 "bad_path"
      | target url ↦ handle_body U max_body_bytes r url
    ]

-- "/<tool_name>/<rest>"
unfoldable pub tool_and_rest : String → String × String
unfolding lstrip_slash partition
tool_and_rest path =
    let (tool_name, rest) = partition b'/' (lstrip_slash path) in
    (tool_name, elim rest [ none ↦ "" | some s ↦ s ])

module _ (K : Crypto) (T : TokenStore) (U : Urls) where
  -- `_handle`, with the proxy's `max_body_bytes`
  unfoldable pub handle :
      ℕ → HttpRequest → Readings → NetworkEnforcer T.State → Reply × NetworkEnforcer T.State
  unfolding tool_and_rest handle_answer authorize_and_resolve
  handle max_body_bytes r at n =
      let (tool_name, rest) = tool_and_rest r.path in
      let (decision, n') = authorize_and_resolve K T tool_name r.token at n in
      (handle_answer U max_body_bytes r rest decision, n')
