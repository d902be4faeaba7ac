-- ===== src/Redis/Limiter/Window.antt =====
-- The sorted set of one key, seen as its entries at every time.
use toolboundary.Common.{
  ℕ, ◌+◌, ◌≤◌, ◌<◌, ◌≡◌, refl, ◌⊎◌, inl, inr, String, Bool, List, [], ◌∷◌, ◌++◌, arith, ltb, length,
  count_if, count_if-append, All, keep, if◌then◌else◌, Bool-cases,
}
use toolboundary.Common.Int.{pos, ltb_ℤ, minus}

abbrev pub Entries : Type 0
Entries = List (String × ℕ)

-- what `ZREMRANGEBYSCORE key -inf cutoff` leaves, for a window of the length `w`
abbrev pub above_cutoff : ℕ → ℕ → String × ℕ → Bool
above_cutoff w now e = ltb_ℤ (minus now w) (pos e.1)

-- an entry lies in the window that ends at `t`, whose start is not in it
abbrev pub within : ℕ → ℕ → String × ℕ → Bool
within w t e = ltb t (e.1 + w)

pub length-keep :
    (w now : ℕ) (es : Entries) → length (keep (above_cutoff w now) es) ≡ count_if (within w now) es
length-keep w now [] = refl
length-keep w now (e ∷ es) = ground (arith, length-keep w now es)

-- Later windows see no difference between the entries and what the removal left of them.
pub count_if-keep :
    (w now t : ℕ) (es : Entries)
    → now ≤ t
    → count_if (within w t) (keep (above_cutoff w now) es) ≡ count_if (within w t) es
count_if-keep w now t [] le = refl
count_if-keep w now t (e ∷ es) le = ground (arith, count_if-keep w now t es le)

pub count_if-insert :
    (p : String × ℕ → Bool) (e : String × ℕ) (xs ys : Entries)
    → count_if p (xs ++ e ∷ ys) ≡ count_if p (xs ++ ys) + (if p e then 1 else 0)
count_if-insert p e xs ys = omega (arith, count_if-append p xs (e ∷ ys), count_if-append p xs ys)

module _ (P : String × ℕ → Type 0) where
  pub All-keep : (p : String × ℕ → Bool) (es : Entries) → All P es → All P (keep p es)
  All-keep p [] h = tt
  All-keep p (e ∷ es) h = elim (Bool-cases (p e)) [
    | inl kept ↦ rw kept (h.0, All-keep p es h.1)
    | inr dropped ↦ rw dropped (All-keep p es h.1)
  ]

  pub All-insert :
      (e : String × ℕ) (xs ys : Entries) → All P (xs ++ ys) → P e → All P (xs ++ e ∷ ys)
  All-insert e [] ys h pe = (pe, h)
  All-insert e (x ∷ xs) ys h pe = (h.0, All-insert e xs ys h.1 pe)

pub count_if-old :
    (w t t' : ℕ) (es : Entries) → All (λ e. e.1 ≤ t) es → t + w ≤ t' → count_if (within w t') es ≡ 0
count_if-old w t t' [] h le = refl
count_if-old w t t' (e ∷ es) h le = ground (arith, h.0, count_if-old w t t' es h.1 le)

-- as time goes on, the entries stay, or are gone
abbrev pub IsFading : (ℕ → Entries) → Type 0
IsFading view = (t t' : ℕ) → t ≤ t' → (view t' ≡ view t) ⊎ (view t' ≡ [])

module _ (w : ℕ) (Known : String → Type 0) (view : ℕ → Entries) where
  -- at `t`: the entries are of the past and of known members, and the key outlives their windows
  pub record Sound (t : ℕ) : Type 0 where
    pub past : All (λ e. e.1 ≤ t) (view t)
    pub known : All (λ e. Known e.0) (view t)
    pub lasting :
        (t' : ℕ) → t ≤ t' → count_if (within w t') (view t') ≡ count_if (within w t') (view t)

  All-later : (t t' : ℕ) (es : Entries) → t ≤ t' → All (λ e. e.1 ≤ t) es → All (λ e. e.1 ≤ t') es
  All-later t t' [] le h = tt
  All-later t t' (e ∷ es) le h = (omega (arith, h.0), All-later t t' es le h.1)

  pub Sound-later : (t t' : ℕ) → IsFading view → t ≤ t' → Sound t → Sound t'
  Sound-later t t' fading le h = elim (fading t t' le) [
    | inl same ↦ record {
      past = rw same (All-later t t' (view t) le h.past);
      known = rw same h.known;
      lasting = λ t'' le'. rw same (h.lasting t'' (omega arith));
    }
    | inr gone ↦ record {
      past = rw gone tt;
      known = rw gone tt;
      lasting = λ t'' le'. elim (fading t' t'' le') [
        | inl same ↦ rw same refl
        | inr gone' ↦ rw (gone, gone') refl
      ];
    }
  ]

-- the entries that a removal leaves at every time from now on
pub Sound-keep :
    (w : ℕ) (Known : String → Type 0) (view view' : ℕ → Entries) (now : ℕ)
    → ((t : ℕ) → now ≤ t → view' t ≡ keep (above_cutoff w now) (view t))
    → Sound w Known view now
    → Sound w Known view' now
Sound-keep w Known view view' now e h =
    let p = above_cutoff w now in
    record {
      past = rw (e now (omega arith)) (All-keep (λ e. e.1 ≤ now) p (view now) h.past);
      known = rw (e now (omega arith)) (All-keep (λ e. Known e.0) p (view now) h.known);
      lasting = λ t le.
          rw
            (
              e t le,
              e now (omega arith),
              count_if-keep w now t (view t) le,
              count_if-keep w now t (view now) le,
            )
            (h.lasting t le);
    }

-- a new entry of the time `now` in a set that then lives until `until`, past the end of its window
module _ (w : ℕ) (Known : String → Type 0) (now until : ℕ) (m : String) (xs ys : Entries)
    (view : ℕ → Entries) (after : now + w ≤ until) (fading : IsFading view)
    (alive : (t : ℕ) → now ≤ t → t < until → view t ≡ xs ++ (m, now) ∷ ys)
    (past : All (λ e. e.1 ≤ now) (xs ++ (m, now) ∷ ys)) where
  at_now : now < until → view now ≡ xs ++ (m, now) ∷ ys
  at_now soon = alive now (omega arith) soon

  -- every window from now on counts the entries that there are now
  pub count_if-alive :
      (t : ℕ)
      → now < until
      → now ≤ t
      → count_if (within w t) (view t) ≡ count_if (within w t) (xs ++ (m, now) ∷ ys)
  count_if-alive t soon le = elim (Bool-cases (ltb t until)) [
    | inl alive_still ↦ rw (alive t le (ground arith)) refl
    | inr late ↦
        let none_left = count_if-old w now t (xs ++ (m, now) ∷ ys) past (ground arith) in
        elim (fading now t le) [
          | inl same ↦ rw (same, at_now soon) refl
          | inr gone ↦ rw (gone, none_left) refl
        ]
  ]

  pub Sound-insert :
      now < until → All (λ e. Known e.0) (xs ++ (m, now) ∷ ys) → Sound w Known view now
  Sound-insert soon known = record {
    past = rw (at_now soon) past;
    known = rw (at_now soon) known;
    lasting = λ t le. rw (count_if-alive t soon le, at_now soon) refl;
  }

pub Sound-same :
    (w : ℕ) (Known : String → Type 0) (view view' : ℕ → Entries) (now : ℕ)
    → ((t : ℕ) → now ≤ t → view' t ≡ view t)
    → Sound w Known view now
    → Sound w Known view' now
Sound-same w Known view view' now e h = record {
  past = rw (e now (omega arith)) h.past;
  known = rw (e now (omega arith)) h.known;
  lasting = λ t le. rw (e t le, e now (omega arith)) (h.lasting t le);
}
