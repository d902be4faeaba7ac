-- ===== src/Redis/Limiter/Contract.antt =====
-- The limiter over Redis keeps the sliding-window contract while the server answers: a call is
-- counted for less than the window, whose start is not in it.
use toolboundary.Common.{
  ℕ, suc, ◌≡◌, refl, inl, inr, String, true, false, [], arith, leb, count_if, ◌==◌, eq_iff,
  Bool-cases,
}
use toolboundary.RateLimiter.Interface.{SlidingWindowLaws}
use toolboundary.Redis.Server.{answered, SortedSets, SortedSetLaws}
use toolboundary.Redis.Key.{redis_key}
use toolboundary.Redis.Limiter.{Client, Shared, member_of, check_and_record, redis_limiter}
use toolboundary.Redis.Limiter.Window.{within, Sound-same, Sound-later}
use toolboundary.Redis.Limiter.Script.{
  Drawn, view, IsSound, view-IsFading, Sound-more, reply, script-IsSound, script-others,
}

module _ (R : SortedSets) (laws : SortedSetLaws R) (C : Client)
    (always_answered : (i : ℕ) → C.link i ≡ answered)
    (distinct : (t t' i i' : ℕ) → member_of C t i ≡ member_of C t' i' → i ≡ i') where
  module _ (v : ℕ) where
    abbrev w : ℕ
    w = suc v

    abbrev IsValid : Shared R → ℕ → Type 0
    IsValid s t = (k : String) → IsSound R laws C distinct w s.calls s.server t k

    abbrev counted : String → ℕ → Shared R → ℕ
    counted k t s = count_if (within w t) (view R laws C distinct s.server k t)

    -- a call that may be admitted is the script's
    check-reply :
        (k : String) (m t : ℕ) (s : Shared R)
        → leb m 0 ≡ false
        → check_and_record R C k m w t s ≡ (
          (reply R laws C distinct k m w t s.calls s.server).0,
          record {
            server = (reply R laws C distinct k m w t s.calls s.server).1;
            calls = suc s.calls;
          },
        )
    unfolding check_and_record
    check-reply k m t s some_calls = rw (some_calls, always_answered s.calls) refl

    check-none :
        (k : String) (m t : ℕ) (s : Shared R)
        → leb m 0 ≡ true
        → check_and_record R C k m w t s ≡ (false, s)
    unfolding check_and_record
    check-none k m t s no_calls = rw no_calls refl

    -- The contract of a sliding-window limiter, for windows of one positive length.
    pub redis_laws : SlidingWindowLaws (redis_limiter R C) w v
    redis_laws = record {
      Valid = IsValid;
      count = counted;
      valid_later = λ s t t' h le k.
          Sound-later w (Drawn R laws C distinct s.calls) (view R laws C distinct s.server k) t t'
            (view-IsFading R laws C distinct s.server k) le (h k);
      valid_step = λ k m t s h j. elim (Bool-cases (leb m 0)) [
        | inl no_calls ↦ rw (check-none k m t s no_calls) (h j)
        | inr some_calls ↦ rw (check-reply k m t s some_calls) (elim (Bool-cases (k == j)) [
          | inl same ↦
              rw (← (eq_iff k j).0 same)
                ((script-IsSound R laws C distinct k m w t s.calls s.server (h k)).1)
          | inr other ↦ Sound-more R laws C distinct w s.calls t _ j (
              Sound-same w (Drawn R laws C distinct s.calls) (view R laws C distinct s.server j) _ t
                (script-others R laws C distinct k m w t s.calls s.server j other) (h j))
        ])
      ];
      admits = λ k m t s h. elim (Bool-cases (leb m 0)) [
        | inl no_calls ↦ rw (check-none k m t s no_calls) (ground (arith, no_calls))
        | inr some_calls ↦
            rw (check-reply k m t s some_calls)
              ((script-IsSound R laws C distinct k m w t s.calls s.server (h k)).0)
      ];
      counts = λ k j m t t' s h le. elim (Bool-cases (leb m 0)) [
        | inl no_calls ↦ rw (check-none k m t s no_calls) (ground arith)
        | inr some_calls ↦ rw (check-reply k m t s some_calls) (elim (Bool-cases (k == j)) [
          | inl same ↦
              rw (same, ← (eq_iff k j).0 same)
                (ground (
                  arith,
                  (script-IsSound R laws C distinct k m w t s.calls s.server (h k)).2 t' le,
                ))
          | inr other ↦
              rw (other, script-others R laws C distinct k m w t s.calls s.server j other t' le)
                (omega arith)
        ])
      ];
    }

    -- A server that holds none of the limiter's keys is a valid start, with no calls to count.
    pub redis_laws-start :
        (s : Shared R)
        → ((k : String) (t : ℕ) → laws.entries s.server (redis_key C.key_prefix k) t ≡ [])
        → (redis_laws.Valid s 0) × ((k : String) (t : ℕ) → redis_laws.count k t s ≡ 0)
    unfolding redis_laws
    redis_laws-start s empty = (
      λ k. record {
        past = rw (empty k 0) tt;
        known = rw (empty k 0) tt;
        lasting = λ t le. rw (empty k t, empty k 0) refl;
      },
      λ k t. rw (empty k t) refl,
    )
