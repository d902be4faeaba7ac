-- ===== src/Network/Handler/Authority.antt =====
-- The authority of the URL that `_resolve_target` of src/toolboundary/network.py gives.
use toolboundary.Common.{
  ◌≡◌, refl, ◌||◌, inl, inr, String, Option, none, some, Bool-cases, eq_iff, ◌==◌, if◌then◌else◌,
}
use toolboundary.Network.Handler.{
  Parts, Urls, partition, has_bad_character, has_dot_dot, Resolved, target, nothing, url_error,
  joined, same_authority, resolve_target,
}

-- the same origin as the base
abbrev pub SameAuthority : Urls → String → String → Type 0
SameAuthority U base url =
    (from to : Parts) × (U.urlsplit base ≡ some from)
    × (U.urlsplit url ≡ some to)
    × (to.netloc ≡ from.netloc)

module _ (U : Urls) where
  abbrev compare_authority : Parts → String → Option Parts → Resolved
  compare_authority base url o = elim o [
    | none ↦ url_error
    | some parts ↦ if parts.netloc == base.netloc then target url else nothing
  ]

  compare_authority-target :
      (base : Parts) (url url' : String) (o : Option Parts)
      → compare_authority base url o ≡ target url'
      → (parts : Parts) × (o ≡ some parts) × (parts.netloc ≡ base.netloc) × (url ≡ url')
  compare_authority-target base url url' none h = absurd (cc (h))
  compare_authority-target base url url' (some parts) h =
      elim (Bool-cases (parts.netloc == base.netloc)) [
        | inl same ↦ (parts, refl, (eq_iff parts.netloc base.netloc).0 same, cc (rw same at h))
        | inr other ↦ absurd (cc (rw other at h))
      ]

  same_authority-target :
      (base : Parts) (url url' : String)
      → same_authority U base url ≡ target url'
      → (parts : Parts) × (U.urlsplit url' ≡ some parts) × (parts.netloc ≡ base.netloc)
  unfolding same_authority
  same_authority-target base url url' h =
      let (parts, split, same, url_same) =
        compare_authority-target base url url' (U.urlsplit url) h in
      (parts, cc (split, url_same), same)

  abbrev resolve_from : String → Option Parts → Resolved
  resolve_from rest o = elim o [
    | none ↦ url_error
    | some parts ↦
        let (path, query) = partition b'?' rest in
        if has_bad_character (U.unquote path) || has_dot_dot (U.unquote path)
        then nothing
        else same_authority U parts (joined U parts path rest query)
  ]

  resolve_from-target :
      (rest url : String) (o : Option Parts)
      → resolve_from rest o ≡ target url
      → (from to : Parts) × (o ≡ some from) × (U.urlsplit url ≡ some to) × (to.netloc ≡ from.netloc)
  resolve_from-target rest url none h = absurd (cc (h))
  resolve_from-target rest url (some parts) h =
      let path = (partition b'?' rest).0 in
      elim (Bool-cases (has_bad_character (U.unquote path) || has_dot_dot (U.unquote path))) [
        | inl bad ↦ absurd (cc (rw bad at h))
        | inr good ↦
            let (to, split, same) = same_authority-target parts _ url (rw good at h) in
            (parts, to, refl, split, same)
      ]

  pub resolve_target-SameAuthority :
      (base rest url : String)
      → resolve_target U (some base) rest ≡ target url
      → SameAuthority U base url
  unfolding resolve_target
  resolve_target-SameAuthority base rest url h = resolve_from-target rest url (U.urlsplit base) h
