-- ===== src/Tests/Proxy.antt =====
-- A request over HTTP to the proxy.
use toolboundary.Common.{◌≡◌, ap, none, some, [], ◌∷◌}
use toolboundary.Common.Dict.{insert}
use toolboundary.Common.Text.{lower, same_codes}
use Prim.Native.String.{◌++◌}
use toolboundary.Tokens.Store.{in_memory_store}
use toolboundary.Network.Decision.{Admitted}
use toolboundary.Network.Handler.{
  Urls, lstrip_slash, partition, has_bad_character, split_slash, any_dot_dot, has_dot_dot, joined,
  same_authority, resolve_target, HttpRequest, Forward, forwards, is_forwarded, put_forwarded,
  forward_headers, content_length_of, handle_body, handle_answer, tool_and_rest, handle,
}
use toolboundary.Network.Handler.Forwarding.{Forwarded, forwards_only-Admitted}
use toolboundary.Tests.Tokens.{crypto, wire, proxy, at, search_passes}

-- every URL is one of the host "search"
abbrev urls : Urls
urls = record {
  urlsplit = λ url. some (record { scheme = "https"; netloc = "search"; path = "" });
  unquote = λ s. s;
  join = λ a b. a ++ b;
  parse_int = λ s. none;
}

abbrev get_request : HttpRequest
get_request = record {
  command = "GET";
  path = "/search/q?n=1";
  token = some wire;
  transfer_encoding = none;
  content_length = none;
  headers = ("Host", "localhost") ∷ ("Accept", "text/plain") ∷ [];
}

abbrev get_sent : Forward
get_sent = record {
  method = "GET";
  url = "https://search/q?n=1";
  headers = ("Accept", "text/plain") ∷ [];
  body_length = 0;
}

get_is_sent :
    (handle crypto in_memory_store urls 1024 get_request (at 9) proxy).0 ≡ forwards get_sent
unfolding handle tool_and_rest lstrip_slash partition handle_answer resolve_target has_bad_character
    split_slash any_dot_dot has_dot_dot joined same_authority handle_body content_length_of
    forward_headers put_forwarded insert is_forwarded lower same_codes
get_is_sent = ap (handle_answer urls 1024 get_request "q?n=1") search_passes

forwards_only-Admitted_example :
    (a : Admitted crypto in_memory_store "search" (some wire) (at 9) proxy) × Forwarded urls 1024
      get_request a.route.upstream_base_url get_sent
unfolding tool_and_rest lstrip_slash partition
forwards_only-Admitted_example =
    forwards_only-Admitted crypto in_memory_store urls 1024 get_request (at 9) proxy get_sent
      get_is_sent
