-- ===== src/Redis/Connection.antt =====
-- `_make_client` of src/toolboundary/redis_backend.py.
use toolboundary.Common.{String, Option, none, some}

-- how it ends: with a client, with a ValueError, or with an ImportError
pub data Made (C : Type 0) : Type 0 where
  made : C → Made C
  value_error import_error : String → Made C

-- `from_url` is the function of the redis package, where that is installed
unfoldable pub make_client : {C : Type 0} → Option (String → C) → Option String → Option C → Made C
make_client from_url (some url) (some client) =
    value_error "Pass either redis_url or client, not both."
make_client from_url none (some client) = made client
make_client from_url none none = value_error "Provide redis_url=... or client=..."
make_client none (some url) none =
    import_error
      "toolboundary.redis_backend requires the 'redis' package. Install it with: pip install toolboundary[redis]"
make_client (some connect) (some url) none = made (connect url)
