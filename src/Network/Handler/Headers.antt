-- ===== src/Network/Handler/Headers.antt =====
-- The headers that the proxy of src/toolboundary/network.py sends upstream.
use toolboundary.Common.{
  ℕ, ◌≡◌, ◌≢◌, inl, inr, String, true, false, List, [], ◌∷◌, arith, All, Bool-cases, ◌==◌,
}
use toolboundary.Common.Dict.{Dict, insert}
use toolboundary.Common.Names.{same_codes_refl}
use toolboundary.Common.Text.{codes, lower, same_codes}
use toolboundary.Network.Handler.{is_forwarded, put_forwarded, forward_headers}

-- a header that is sent on is none of the three, in capitals or not
abbrev pub IsClients : String × String → Type 0
IsClients (k, v) =
    let name = lower (codes k) in
    (name ≢ codes "host") × (name ≢ codes "x-toolboundary-token") × (name ≢ codes "content-length")

forwarded-IsClients : (k v : String) → is_forwarded k ≡ true → IsClients (k, v)
unfolding is_forwarded
forwarded-IsClients k v kept =
    let name = lower (codes k) in
    (
      λ same. refused_name name (codes "host") same (ground arith),
      λ same. refused_name name (codes "x-toolboundary-token") same (ground arith),
      λ same. refused_name name (codes "content-length") same (ground arith),
    )
  where
    refused_name : (name other : List ℕ) → name ≡ other → same_codes name other ≡ false → ⊥
    refused_name name other same apart = cc (apart, same, same_codes_refl other)

insert-All :
    (k v : String) (d : Dict String)
    → IsClients (k, v)
    → All IsClients d
    → All IsClients (insert k v d)
unfolding insert
insert-All k v [] h all = (h, tt)
insert-All k v ((j, w) ∷ d) h all = elim (Bool-cases (j == k)) [
  | inl same ↦ rw (same, insert) (all.0, all.1)
  | inr other ↦ rw (other, insert) (all.0, insert-All k v d h all.1)
]

put_forwarded-All :
    (headers : List (String × String)) (d : Dict String)
    → All IsClients d
    → All IsClients (put_forwarded headers d)
unfolding put_forwarded
put_forwarded-All [] d all = all
put_forwarded-All ((k, v) ∷ headers) d all = elim (Bool-cases (is_forwarded k)) [
  | inl kept ↦
      rw (kept, put_forwarded)
        (put_forwarded-All headers (insert k v d)
          (insert-All k v d (forwarded-IsClients k v kept) all))
  | inr dropped ↦ rw (dropped, put_forwarded) (put_forwarded-All headers d all)
]

pub forward_headers-All :
    (headers : List (String × String)) → All IsClients (forward_headers headers)
unfolding forward_headers
forward_headers-All headers = put_forwarded-All headers [] tt
