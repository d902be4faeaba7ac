-- ===== src/Lib.antt =====
-- Verification of toolboundary, a library that stands between an AI agent and its tools: every
-- tool call is checked against a declared boundary, recorded, and, where that is set up,
-- authorized by an external provider and enforced by a local proxy.
--
-- The parts, and the files that model them:
--   * src/toolboundary/enums.py, permissions.py, exceptions.py, audit.py and provider.py are
--     the data: Enums, Permissions, Exceptions, Provider, and Audit, with the sinks in
--     Audit/Sinks. An exception is a value of `Error`, and a message is its template with the
--     values in it. A sink is what it has taken and on which events it raises.
--   * src/toolboundary/_rate_limiter.py is RateLimiter. RateLimiter/Interface is what a
--     boundary asks of a limiter: one method, and the laws of a sliding window.
--     RateLimiter/Window and Contract show the laws of the in-memory limiter;
--     RateLimiter/History is the specification that remembers every admitted call, and
--     RateLimiter/Refinement compares the two.
--   * src/toolboundary/redis_backend.py is Redis. Redis/Server has the commands of a server, with
--     their documented behaviour; Redis/Limiter has the two scripts and the limiter's methods,
--     Redis/Limiter/Contract shows that they keep the laws of a sliding window, for a window
--     whose start is not in it, Refinement compares them with the same specification as the
--     in-memory limiter, Outage reads `check` against a server that does not reply, and Reset is
--     `reset`. Redis/TokenStore is the token store, and SingleUse below it its contract.
--   * src/toolboundary/boundary.py is Boundary: the object's state, the constructor, the kill
--     switch and the permissions. Numeric has its conversion of amounts. Boundary/Checks and
--     Boundary/Limits hold the thirteen `_check_…` methods, Boundary/Check runs them in the
--     source's order for `check` and `evaluate`, Boundary/Authorize is `authorize_call`,
--     Boundary/Execution is `record_execution` and Boundary/Token is `check_and_authorize`.
--     Boundary/Policy states what a boundary permits, without the code's tests, and its
--     children compare both. Boundary/KillSwitch reads `check` against the kill switch,
--     Boundary/Budget against the limiter's laws, Boundary/Authorize/Binding has what an
--     authorization says of its call, and Boundary/Reach the states that the calls of a boundary
--     reach, in any order, with the calls after `engage_kill_switch` in Reach/Halting.
--   * src/toolboundary/evidence.py is Evidence, over the values of Json; Evidence/Order has its
--     canonical form against the order of a dict's items, and Evidence/Content what it keeps of a
--     value.
--   * src/toolboundary/tokens.py is Tokens, with the wire form in Tokens/Wire, `verify` in
--     Tokens/Issuer and the in-memory store in Tokens/Store, where `SingleUse` is what the
--     proxy asks of a store.
--   * src/toolboundary/network.py is Network: the decision on a request, over any token store,
--     in Network/Handler the HTTP handler up to the request that it sends upstream, in
--     Network/Handler/Denied the handler with the callback of a denied request, in
--     Network/Upstream what it sends back, in Network/Lifecycle the start and stop of the server,
--     and in Network/Fleet several proxies on one store.
--   * src/toolboundary/_redact.py is Redact, and src/toolboundary/decorators.py is Decorators:
--     the wrapper of `guarded_tool` around a function that acts on a world of its own. Guarding is
--     what it shares with the wrappers of src/toolboundary/integrations/langchain.py and
--     crewai.py, which are Integrations/LangChain and Integrations/CrewAi.
--   * src/toolboundary/integrations/agentkey.py is Integrations/AgentKey, an instance of the
--     provider protocol over a client, with `record` in Recording below it.
--   * Common has the helpers, and Tests the concrete data to which the theorems are applied.
--
-- State is passed on explicitly: a method takes the object's state and returns it with its
-- result. What a call reads of the world (the clock, the environment, fresh ids) is an
-- argument, one for each time the source reads it, as the clock of the token test and that of
-- the store. Each method of a locked object is one step. Clock readings are natural numbers, of
-- nanoseconds in the limiter; a test `t < now - window` is written with a sum. A finite double
-- is the integer number of units of 2 ^ -1074, so that comparisons are exact. Every loop is
-- structural recursion, but the one of Redis's `reset`, which runs on fuel: more than the number
-- of rounds that an iteration over the keys can take is enough, and is shown to be.
--
-- Parameters are the code that is not the repository's: the conversions `float(x)`
-- (FloatParsing), SHA-256 and the text of `json.dumps` (Hashing), HMAC-SHA256 and the codecs of
-- tokens (Crypto, with CryptoLaws: a signature is made of hexadecimal digits, and decoding
-- gives back what was encoded), the functions of urllib and posixpath (Urls), the commands of a
-- Redis server (SortedSets, Strings and Keyspace, with their laws, under one clock for the replicas
-- and the server), the client of AgentKey, the tools of the frameworks and how a call's arguments
-- bind to their signatures, the external provider (EvidenceProvider), policy hooks, the audit
-- sinks of a trail and the guarded function.
--
-- Not modelled: values and results that are not JSON values, on which `json.dumps` or the encoding
-- as UTF-8 can raise (keys of several types, cycles, lone surrogates; a result of this kind makes
-- `record_execution` raise after it has consumed the authorization and before the audit event);
-- what is written to the log, the threads of the proxy's server, `to_json` of an
-- event but for its having no line's end, and a file that cannot be written. Tokens whose JSON
-- fields have other types than the issuer gives them are not modelled either, nor are answers of
-- AgentKey whose fields are no texts or truth values. Threads inside one method are modelled for
-- `mark_used` of the in-memory store only, in Tokens/Threads. The package's exports and the
-- examples are not code with a behaviour of its own.
pub mod Common
pub mod Enums
pub mod Permissions
pub mod RateLimiter
pub mod Numeric
pub mod Exceptions
pub mod Audit
pub mod Json
pub mod Provider
pub mod Boundary
pub mod Evidence
pub mod Tokens
pub mod Network
pub mod Redact
pub mod Guarding
pub mod Decorators
pub mod Integrations
pub mod Tests
pub mod Redis
