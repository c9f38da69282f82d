-- ===== src/Examples/Signer.antt =====
-- A signer that signs one token, and the library that knows its one key.
use mathlib.Core.Path.{subst}
use event_tracking.Prelude.{
  String, ◌*◌, ◌≡◌, refl, arith, true, false, Bool, ◌&&◌, Option, none, some, List, [], ◌∷◌, ◌==◌,
  eq_iff, if◌then◌else◌,
}
use event_tracking.Prelude.Int.{ℤ, pos, ◌+ℤ◌}
use event_tracking.Prelude.Text.{is_space, NoSpace}
use event_tracking.Time.{Time, second}
use event_tracking.Tenant.Jose.{
  Jose, IsJose, Headers, Token, ClaimValue, text, whole, fraction, null, other, on_wire,
}
use event_tracking.Tenant.Keys.{is_value}
use event_tracking.Tenant.Keys.Shape.{is_value_sound}
use event_tracking.Tenant.Verify.{same_int}
use event_tracking.Examples.Samples.{noon}

unfoldable pub is_text : Option ClaimValue → String → Bool
is_text (some (text s)) want = s == want
is_text _ want = false

unfoldable pub is_whole : Option ClaimValue → ℤ → Bool
is_whole (some (whole z)) want = same_int z want
is_whole _ want = false

unfoldable pub is_time : Option Time → Time → Bool
is_time (some t) want = same_int t want
is_time none want = false

unfoldable pub is_one : List String → String → Bool
is_one (a ∷ []) want = a == want
is_one _ want = false

text_of_test : (o : Option ClaimValue) (s : String) → is_text o s ≡ true → o ≡ some (text s)
unfolding is_text
text_of_test (some (text x)) s h = ground (arith, eq_iff x s)
text_of_test (some (whole x)) s h = absurd (ground arith)
text_of_test (some (fraction x)) s h = absurd (ground arith)
text_of_test (some null) s h = absurd (ground arith)
text_of_test (some other) s h = absurd (ground arith)
text_of_test none s h = absurd (ground arith)

whole_of_test : (o : Option ClaimValue) (z : ℤ) → is_whole o z ≡ true → o ≡ some (whole z)
unfolding is_whole
whole_of_test (some (whole x)) z h = ground (arith)
whole_of_test (some (text x)) s h = absurd (ground arith)
whole_of_test (some (fraction x)) s h = absurd (ground arith)
whole_of_test (some null) s h = absurd (ground arith)
whole_of_test (some other) s h = absurd (ground arith)
whole_of_test none s h = absurd (ground arith)

time_of_test : (o : Option Time) (z : Time) → is_time o z ≡ true → o ≡ some z
unfolding is_time
time_of_test (some x) z h = ground (arith)
time_of_test none s h = absurd (ground arith)

one_of_test : (o : List String) (s : String) → is_one o s ≡ true → o ≡ s ∷ []
unfolding is_one
one_of_test [] s h = absurd (ground arith)
one_of_test (x ∷ []) s h = ground (arith, eq_iff x s)
one_of_test (x ∷ y ∷ ys) s h = absurd (ground arith)

-- the token that the signer signs
abbrev pub sample : Token
sample = record {
  iss = some "issuer";
  aud = "ingest" ∷ [];
  iat = some noon;
  exp = some (noon +ℤ pos (2700 * second));
  nbf = some noon;
  scope = some (text "write:events");
  tenant_id = some (text "t1");
  install_id = some (text "i1");
  trust_tier = some (whole (pos 1));
}

unfoldable pub is_sample : Token → Bool
is_sample t =
    is_value t.iss "issuer"
    && (is_one t.aud "ingest"
        && (is_time t.iat noon
            && (is_time t.exp (noon +ℤ pos (2700 * second))
                && (is_time t.nbf noon
                    && (is_text t.scope "write:events"
                        && (is_text t.tenant_id "t1"
                            && (is_text t.install_id "i1" && is_whole t.trust_tier (pos 1))))))))

sample_of_parts :
    (t : Token)
    → t.iss ≡ sample.iss
    → t.aud ≡ sample.aud
    → t.iat ≡ sample.iat
    → t.exp ≡ sample.exp
    → t.nbf ≡ sample.nbf
    → t.scope ≡ sample.scope
    → t.tenant_id ≡ sample.tenant_id
    → t.install_id ≡ sample.install_id
    → t.trust_tier ≡ sample.trust_tier
    → t ≡ sample
sample_of_parts t a b c d e f g h i = cc

and_left : (a b : Bool) → a && b ≡ true → a ≡ true
and_left true b h = refl
and_left false b h = h

and_right : (a b : Bool) → a && b ≡ true → b ≡ true
and_right true b h = h
and_right false b h = absurd (ground arith)

sample_of_test : (t : Token) → is_sample t ≡ true → t ≡ sample
unfolding is_sample
sample_of_test t h1 =
    let h2 = and_right _ _ h1 in
    let h3 = and_right _ _ h2 in
    let h4 = and_right _ _ h3 in
    let h5 = and_right _ _ h4 in
    let h6 = and_right _ _ h5 in
    let h7 = and_right _ _ h6 in
    let h8 = and_right _ _ h7 in
    sample_of_parts t (is_value_sound t.iss "issuer" (and_left _ _ h1))
      (one_of_test t.aud "ingest" (and_left _ _ h2)) (time_of_test t.iat noon (and_left _ _ h3))
      (time_of_test t.exp (noon +ℤ pos (2700 * second)) (and_left _ _ h4))
      (time_of_test t.nbf noon (and_left _ _ h5))
      (text_of_test t.scope "write:events" (and_left _ _ h6))
      (text_of_test t.tenant_id "t1" (and_left _ _ h7))
      (text_of_test t.install_id "i1" (and_left _ _ h8))
      (whole_of_test t.trust_tier (pos 1) (and_right _ _ h8))

abbrev pub sample_headers : Headers
sample_headers = record { alg = some "EdDSA"; typ = some "at+jwt"; kid = some "k1" }

abbrev pub signer : Jose
signer = record {
  Key = Unit {0};
  Set = Unit {0};
  PrivateKey = Unit {0};
  lookup_key_id = λ s kid. if kid == "k1" then some tt else none;
  key_usage = λ k. some "sig";
  key_type = λ k. "OKP";
  curve = λ k. some "Ed25519";
  parse_jws = λ raw. if raw == "tok" then some (sample_headers ∷ []) else none;
  parse_jwt = λ raw k. if raw == "tok" then some (on_wire sample) else none;
  sign =
      λ t typ kid k. if is_sample t && (typ == "at+jwt" && kid == "k1") then some "tok" else none;
}

pub signed_lem :
    (t : Token) (typ kid raw : String)
    → signer.sign t typ kid tt ≡ some raw
    → (t ≡ sample) × (typ ≡ "at+jwt") × (kid ≡ "k1") × ("tok" ≡ raw)
signed_lem t typ kid raw h = ground (arith, sample_of_test t, eq_iff typ "at+jwt", eq_iff kid "k1")

pub tok-NoSpace : NoSpace "tok"
unfolding is_space
tok-NoSpace = (refl, (refl, (refl, tt)))

abbrev pub signer-IsJose : IsJose signer
signer-IsJose = record {
  IsPublicOf = λ k half. Unit;
  compact = λ t typ kid raw k h. subst NoSpace (signed_lem t typ kid raw h).3 tok-NoSpace;
  headers = λ t typ kid raw k h. ground (arith, signed_lem t typ kid raw h, eq_iff raw "tok");
  verifies =
      λ t typ kid raw k half is_half h. let e = signed_lem t typ kid raw h in rw (← e.3, e.0) refl;
}
