-- ===== src/Handler/Body/Caps.antt =====
-- The cap of readBody, on the wire and after decompression.
use event_tracking.Prelude.{
  ℕ, zero, suc, ◌+◌, ◌*◌, ◌≤◌, ◌<◌, String, ◌≡◌, ◌≢◌, ◌↔◌, ◌⊎◌, eq_iff, refl, arith, true, false,
  List, [], ◌∷◌, Option, none, some, ◌==◌, Result, ok, err, ltb, leb, length, if◌then◌else◌,
  Bool-cases, Option-cases, inl, inr, ap, sym, ◌∙◌,
}
use mathlib.Core.Option.{some-injective}
use mathlib.Core.Path.{subst}
use event_tracking.Limits.{max_batch_bytes}
use event_tracking.Handler.Body.{
  End, eof, broken, max_bytes, Stream, BodyError, too_large, unreadable, take, max_bytes_reader,
  limit_reader, read_all, read_body,
}

length-take : (n : ℕ) (xs : List ℕ) → n ≤ length xs → length (take n xs) ≡ n
length-take zero xs h = refl
length-take (suc n) [] h = absurd (ground arith)
length-take (suc n) (x ∷ xs) h = ground (arith, length-take n xs (ground arith))

-- exactly when reading succeeds
drained_iff :
    (s : Stream) (b : List ℕ)
    → (read_all s.content s.ending ≡ ok b)
      ↔ ((s.content ≡ b) × (s.ending ≡ eof) × (length b ≤ max_batch_bytes))
unfolding read_all
drained_iff s b = go s.content s.ending
  where
    go :
        (xs : List ℕ) (e : End)
        → (read_all xs e ≡ ok b) ↔ ((xs ≡ b) × (e ≡ eof) × (length b ≤ max_batch_bytes))
    go xs eof = (λ h. ground arith, λ h. ground arith)
    go xs broken = (λ h. absurd (ground arith), λ h. absurd (ground arith))
    go xs max_bytes = (λ h. absurd (ground arith), λ h. absurd (ground arith))

-- what is read of a source under the cap `n` of a reader
capped_ending :
    (n : ℕ) (s : Stream)
    → ltb n (length s.content) ≡ true
    → (max_bytes_reader n s).ending ≡ max_bytes
unfolding max_bytes_reader
capped_ending n s h = ground (arith)

capped_id : (n : ℕ) (s : Stream) → ltb n (length s.content) ≡ false → max_bytes_reader n s ≡ s
unfolding max_bytes_reader
capped_id n s h = ground (arith)

limited_id : (n : ℕ) (s : Stream) → leb n (length s.content) ≡ false → limit_reader n s ≡ s
unfolding limit_reader
limited_id n s h = ground (arith)

limited_length :
    (n : ℕ) (s : Stream) → leb n (length s.content) ≡ true → length (limit_reader n s).content ≡ n
unfolding limit_reader
limited_length n s h = ground (arith, length-take n s.content)

limited_ending : (n : ℕ) (s : Stream) → s.ending ≡ eof → (limit_reader n s).ending ≡ eof
unfolding limit_reader
limited_ending n s h = ground (arith, Bool-cases (leb n (length s.content)))

abbrev pub decided : List ℕ → Result BodyError (List ℕ)
decided b = if ltb max_batch_bytes (length b) then err too_large else ok b

read_all-eof : (b : List ℕ) → read_all b eof ≡ decided b
unfolding read_all
read_all-eof b = refl

read_all-max_bytes : (b : List ℕ) → read_all b max_bytes ≡ err too_large
unfolding read_all
read_all-max_bytes b = refl

-- reading the whole of a source
abbrev pub drain : Stream → Result BodyError (List ℕ)
drain s = read_all s.content s.ending

plain_lem :
    (s : Stream) → s.ending ≡ eof → drain (max_bytes_reader max_batch_bytes s) ≡ decided s.content
plain_lem s h = elim (Bool-cases (ltb max_batch_bytes (length s.content))) [
  | inl t ↦ rw (capped_ending max_batch_bytes s t, read_all-max_bytes _, t) refl
  | inr f ↦ rw (capped_id max_batch_bytes s f, h, read_all-eof _) refl
]

over : (n : ℕ) → leb (max_batch_bytes + 1) n ≡ true → ltb max_batch_bytes n ≡ true
over n h = ground arith

gzip_lem :
    (s : Stream) → s.ending ≡ eof → drain (limit_reader (max_batch_bytes + 1) s) ≡ decided s.content
gzip_lem s h = elim (Bool-cases (leb (max_batch_bytes + 1) (length s.content))) [
  | inl t ↦
      rw
        (
          limited_ending (max_batch_bytes + 1) s h,
          read_all-eof _,
          limited_length (max_batch_bytes + 1) s t,
        )
        (rw (over (length s.content) t) refl)
  | inr f ↦ rw (limited_id (max_batch_bytes + 1) s f, h, read_all-eof _) refl
]

IsWhole : Stream → List ℕ → Type 0
IsWhole s b = (s.content ≡ b) × (s.ending ≡ eof) × (length b ≤ max_batch_bytes)

capped_iff :
    (s : Stream) (b : List ℕ) → (drain (max_bytes_reader max_batch_bytes s) ≡ ok b) ↔ IsWhole s b
unfolding IsWhole
capped_iff s b = elim (Bool-cases (ltb max_batch_bytes (length s.content))) [
  | inl t ↦ (
    λ h. absurd (
        ground (
          arith,
          ((drained_iff (max_bytes_reader max_batch_bytes s) b).0 h).1,
          capped_ending max_batch_bytes s t,
        )),
    λ (c, e, l). absurd (ground (arith, ap length c)),
  )
  | inr f ↦ rw (capped_id max_batch_bytes s f) (drained_iff s b)
]

limited_iff :
    (s : Stream) (b : List ℕ) → (drain (limit_reader (max_batch_bytes + 1) s) ≡ ok b) ↔ IsWhole s b
unfolding IsWhole
limited_iff s b = elim (Bool-cases (leb (max_batch_bytes + 1) (length s.content))) [
  | inl t ↦ (
    λ h.
        let (c, e, l) = (drained_iff (limit_reader (max_batch_bytes + 1) s) b).0 h in
        absurd (omega (arith, ap length c, limited_length (max_batch_bytes + 1) s t)),
    λ (c, e, l). absurd (ground (arith, ap length c)),
  )
  | inr f ↦ rw (limited_id (max_batch_bytes + 1) s f) (drained_iff s b)
]

module _ (gunzip : Stream → Option Stream) where
  -- A plain body that arrives whole is accepted up to the cap and is too large above it.
  pub read_body_plain :
      (encoding : String) (body : Stream)
      → (encoding == "gzip") ≡ false
      → body.ending ≡ eof
      → read_body gunzip encoding body ≡ decided body.content
  unfolding read_body
  read_body_plain encoding body e h = rw e (plain_lem body h)

  -- A compressed body that decompresses to its end is accepted if what it decompresses to is within
  -- the cap, and is too large otherwise.
  pub read_body_gzip :
      (body inner : Stream)
      → gunzip (max_bytes_reader max_batch_bytes body) ≡ some inner
      → inner.ending ≡ eof
      → read_body gunzip "gzip" body ≡ decided inner.content
  unfolding read_body
  read_body_gzip body inner e h = rw e (gzip_lem inner h)

  -- What of a body the decompressor gets under a cap: all of it, or as much as the cap, which then
  -- ends with the error of the cap.
  abbrev pub IsCapped : ℕ → Stream → Stream → Type 0
  IsCapped n body s =
      ((length body.content ≤ n) × (s ≡ body))
      ⊎ ((n < length body.content)
          × (s ≡ record { content = take n body.content; ending = max_bytes }))

  capped : (n : ℕ) (body : Stream) → IsCapped n body (max_bytes_reader n body)
  unfolding max_bytes_reader
  capped n body = elim (Bool-cases (ltb n (length body.content))) [
    | inl t ↦ rw t (inr (ground arith, refl))
    | inr f ↦ rw f (inl (ground arith, refl))
  ]

  eq_of_capped : (n : ℕ) (body w : Stream) → IsCapped n body w → w ≡ max_bytes_reader n body
  unfolding max_bytes_reader
  eq_of_capped n body w (inl (h, e)) = e ∙ sym (capped_id n body (ground arith))
  eq_of_capped n body w (inr (h, e)) =
      let t : ltb n (length body.content) ≡ true = ground arith in rw t e

  -- The content of a body under a coding: the body itself, or what it is decompressed to.
  abbrev pub IsContent : String → Stream → Stream → Type 0
  IsContent encoding body s =
      ((encoding ≢ "gzip") × (s ≡ body))
      ⊎ ((encoding ≡ "gzip") × ((w : Stream) × IsCapped (1024 * 1024) body w × (gunzip w ≡ some s)))

  module _ (encoding : String) (body : Stream) where
    abbrev source : Stream
    source = max_bytes_reader max_batch_bytes body

    plain_eq : (encoding == "gzip") ≡ false → read_body gunzip encoding body ≡ drain source
    unfolding read_body
    plain_eq f = rw f refl

    gzip_eq :
        (s : Stream)
        → (encoding == "gzip") ≡ true
        → gunzip source ≡ some s
        → read_body gunzip encoding body ≡ drain (limit_reader (max_batch_bytes + 1) s)
    unfolding read_body
    gzip_eq s g e = rw (g, e) refl

    broken_eq :
        (encoding == "gzip") ≡ true
        → gunzip source ≡ none
        → read_body gunzip encoding body ≡ err unreadable
    unfolding read_body
    broken_eq g e = rw (g, e) refl

    content_plain :
        (s : Stream) → (encoding == "gzip") ≡ false → IsContent encoding body s → s ≡ body
    content_plain s f (inl (n, e)) = e
    content_plain s f (inr (g, w)) = absurd (ground (arith, eq_iff encoding "gzip"))

    content_gzip :
        (s : Stream)
        → (encoding == "gzip") ≡ true
        → IsContent encoding body s
        → gunzip source ≡ some s
    content_gzip s g (inl (n, e)) = absurd (n ((eq_iff encoding "gzip").0 g))
    content_gzip s g (inr (q, (w, x, e))) =
        ap gunzip (sym (eq_of_capped (1024 * 1024) body w x)) ∙ e

    abbrev pub IsRead : List ℕ → Type 0
    IsRead b =
        (s : Stream) × IsContent encoding body s
        × (s.content ≡ b)
        × (s.ending ≡ eof)
        × (length b ≤ 1024 * 1024)

    gzip_iff :
        (b : List ℕ)
        → (encoding == "gzip") ≡ true
        → (read_body gunzip encoding body ≡ ok b) ↔ IsRead b
    unfolding IsWhole
    gzip_iff b g = elim (Option-cases (gunzip source)) [
      | inl n ↦ rw (broken_eq g n) (
        λ h. absurd (ground arith),
        λ (s, c, w, x, y). absurd (ground (arith, content_gzip s g c)),
      )
      | inr (s, e) ↦ rw (gzip_eq s g e) (
        λ h.
            let (c, x, y) = (limited_iff s b).0 h in
            (
              s,
              inr ((eq_iff encoding "gzip").0 g, (source, capped (1024 * 1024) body, e)),
              c,
              x,
              y,
            ),
        λ (t, c, x, y, z).
            let same = some-injective t s (sym (content_gzip t g c) ∙ e) in
            (limited_iff s b).1 (subst (λ t. IsWhole t b) same (x, y, z)),
      )
    ]

    -- A body is read as `b` exactly when `b` is the whole of its content, decompressed where the
    -- coding says so, which ends without an error and is at most 1 MiB.
    pub read_body_iff : (b : List ℕ) → (read_body gunzip encoding body ≡ ok b) ↔ IsRead b
    unfolding IsWhole
    read_body_iff b = elim (Bool-cases (encoding == "gzip")) [
      | inl g ↦ gzip_iff b g
      | inr f ↦ rw (plain_eq f) (
        λ h.
            let (c, x, y) = (capped_iff body b).0 h in
            (body, inl (λ q. ground (arith, eq_iff encoding "gzip"), refl), c, x, y),
        λ (t, c, x, y, z).
            (capped_iff body b).1 (subst (λ t. IsWhole t b) (content_plain t f c) (x, y, z)),
      )
    ]
