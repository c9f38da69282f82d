-- ===== src/Boundaries/Listing/Decoding.antt =====
-- The loop over the output of `go list -json`, against the packages that the output holds.
use event_tracking.Prelude.{
  ℕ, zero, suc, ◌<◌, ◌≡◌, refl, arith, String, List, [], some, Result, ok, err, ◌⊎◌, inl, inr,
}
use event_tracking.Boundaries.{PkgInfo}
use event_tracking.Boundaries.Listing.{
  Decoded, object, end, malformed, Go, size, put_package, decode_all,
}

-- Decode consumes something when it finds an object.
pub record IsDecoder (decode : String → Decoded) : Type 0 where
  pub consumes :
      (text : String) (p : PkgInfo) (rest : String)
      → decode text ≡ object p rest
      → size rest < size text

Decoded-cases :
    (d : Decoded)
    → (d ≡ end)
      ⊎ ((e : String) × (d ≡ malformed e))
      ⊎ ((p : PkgInfo) × (rest : String) × (d ≡ object p rest))
Decoded-cases end = inl refl
Decoded-cases (malformed e) = inr (inl (e, refl))
Decoded-cases (object p rest) = inr (inr (p, rest, refl))

module _ (go : Go) where
  -- The objects in a text, up to its end or to the first that is no package.
  pub data Emits : String → Result String (List PkgInfo) → Type 0 where
    done : {text : String} → go.decode text ≡ end → Emits text (ok [])
    stopped : {text : String} (e : String) → go.decode text ≡ malformed e → Emits text (err e)
    next :
        {text rest : String} {r : Result String (List PkgInfo)} (p : PkgInfo)
        → go.decode text ≡ object p rest
        → Emits rest r
        → Emits text (put_package p r)

  -- With more fuel than the text has characters the loop ends, with what the text holds.
  pub decode_all_lem :
      IsDecoder go.decode
      → (f : ℕ) (text : String) → size text < f
      → (r : Result String (List PkgInfo)) × (decode_all go f text ≡ some r) × Emits text r
  unfolding decode_all
  decode_all_lem law zero text h = absurd (omega arith)
  decode_all_lem law (suc f) text h = elim (Decoded-cases (go.decode text)) [
    | inl e ↦ (ok [], rw (decode_all, e) refl, done e)
    | inr (inl (m, e)) ↦ (err m, rw (decode_all, e) refl, stopped m e)
    | inr (inr (p, rest, e)) ↦
        let (r, q, emits) = decode_all_lem law f rest (omega (arith, law.consumes text p rest e)) in
        (put_package p r, rw (decode_all, e, q) refl, next p e emits)
  ]

  -- It ends with what the text holds, whatever the fuel beyond that.
  pub decode_all_of_Emits :
      IsDecoder go.decode
      → {text : String} {r : Result String (List PkgInfo)} → Emits text r
      → (f : ℕ) → size text < f
      → decode_all go f text ≡ some r
  unfolding decode_all
  decode_all_of_Emits law x zero h = absurd (omega arith)
  decode_all_of_Emits law (done e) (suc f) h = rw (decode_all, e) refl
  decode_all_of_Emits law (stopped m e) (suc f) h = rw (decode_all, e) refl
  decode_all_of_Emits law (next {text} {rest} p e x) (suc f) h =
      rw (decode_all, e, decode_all_of_Emits law x f (omega (arith, law.consumes text p rest e)))
        refl
