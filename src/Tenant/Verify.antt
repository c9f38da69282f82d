-- ===== src/Tenant/Verify.antt =====
-- pkg/tenant/verify.go: Verify, stripBearer, hasScope
pub mod Conditions
pub mod Acceptance
use event_tracking.Prelude.{
  ℕ, ◌*◌, ◌-◌, ◌^◌, String, Bool, true, false, not, ◌&&◌, ◌||◌, List, [], ◌∷◌, Option, none, some,
  ◌==◌, Result, ok, err, leb, eqb, ltb, if◌then◌else◌,
}
use event_tracking.Prelude.Int.{ℤ, pos, negsuc, pos_part, neg_part, ◌+ℤ◌, ltb_ℤ}
use event_tracking.Prelude.Text.{cut_space, equal_fold, trim_space, fields}
use event_tracking.Time.{Time, second}
use event_tracking.Tenant.{Claims, token_type, scope_write_events}
use event_tracking.Tenant.Jose.{
  Jose, Headers, ClaimValue, whole, fraction, text, null, other, Token,
}
use event_tracking.Tenant.Keys.{Cache, key, is_value}

-- The sentinel errors of the package, and the error of a resolver.
pub data Error : Type 0 where
  bad_alg bad_type bad_issuer bad_audience expired bad_scope unknown_kid malformed : Error
  legacy_cutoff unresolved : Error

abbrev pub clock_skew : ℕ
clock_skew = 60 * second

-- the immutable fields of Verifier
pub record Config : Type 0 where
  pub issuer : String
  pub audience : String

unfoldable pub strip_bearer : String → String
strip_bearer bearer = elim (cut_space bearer) [
  | none ↦ bearer
  | some (scheme, rest) ↦ if equal_fold scheme "Bearer" then trim_space rest else bearer
]

unfoldable pub contains : List String → String → Bool
contains [] want = false
contains (s ∷ ss) want = s == want || contains ss want

unfoldable pub has_scope : String → String → Bool
has_scope scope want = contains (fields scope) want

-- safeGet into a string variable, which keeps "" on an error
abbrev pub get_text : Option ClaimValue → Option String
get_text (some (text s)) = some s
get_text _ = none

abbrev pub text_or_empty : Option String → String
text_or_empty none = ""
text_or_empty (some s) = s

-- `int(f)` of a float64: out of range the conversion of amd64 gives the least integer
abbrev pub to_int : ℤ → ℤ
to_int z = if ltb (pos_part z) (2 ^ 63) && leb (neg_part z) (2 ^ 63) then z else negsuc (2 ^ 63 - 1)

abbrev pub same_int : ℤ → ℤ → Bool
same_int a b = eqb (pos_part a) (pos_part b) && eqb (neg_part a) (neg_part b)

-- The trust_tier claim; `none` is the malformed token.
unfoldable pub tier_of : Option ClaimValue → Option ℕ
tier_of (some (whole z)) =
    let tier = to_int z in
    if not (same_int tier z) || (not (same_int tier (pos 0)) && not (same_int tier (pos 1)))
    then none
    else some (pos_part tier)
tier_of _ = none

abbrev is_only : List String → String → Bool
is_only (a ∷ []) want = a == want
is_only _ want = false

-- `!ok || now.After(exp.Add(clockSkew))`
abbrev is_expired : Option Time → Time → Bool
is_expired none now = true
is_expired (some exp) now = ltb_ℤ (exp +ℤ pos clock_skew) now

-- `ok && now.Add(clockSkew).Before(nbf)`
abbrev is_early : Option Time → Time → Bool
is_early none now = false
is_early (some nbf) now = ltb_ℤ (now +ℤ pos clock_skew) nbf

-- the checks after the signature
unfoldable pub check_claims : Config → Time → Token → Result Error Claims
check_claims cfg now t =
    let scope = text_or_empty (get_text t.scope) in
    let tenant_id = text_or_empty (get_text t.tenant_id) in
    let install_id = text_or_empty (get_text t.install_id) in
    if not (is_value t.iss cfg.issuer)
    then err bad_issuer
    else if not (is_only t.aud cfg.audience)
    then err bad_audience
    else if is_expired t.exp now
    then err expired
    else if is_early t.nbf now
    then err expired
    else if not (has_scope scope scope_write_events)
    then err bad_scope
    else if tenant_id == ""
    then err malformed
    else if install_id == ""
    then err malformed
    else elim (tier_of t.trust_tier) [
      | none ↦ err malformed
      | some tier ↦ ok (record {
        tenant_id = tenant_id;
        install_id = install_id;
        scope = scope;
        trust_tier = tier;
      })
    ]

module _ (j : Jose) (fetch : ℕ → Option j.Set) (cfg : Config) where
  abbrev check_signed : Option Token → Time → Result Error Claims
  check_signed none now = err malformed
  check_signed (some t) now = check_claims cfg now t

  -- from the algorithm check on
  unfoldable pub check_headers : String → Headers → Time → Cache j → Result Error Claims × Cache j
  check_headers raw h now c =
      let (k, c') = key j fetch (text_or_empty h.kid) now c in
      if not (is_value h.alg "EdDSA")
      then (err bad_alg, c)
      else if not (is_value h.typ token_type)
      then (err bad_type, c)
      else elim k [
        | none ↦ (err unknown_kid, c')
        | some k ↦ (check_signed (j.parse_jwt raw k) now, c')
      ]

  abbrev check_signatures :
      String → Option (List Headers) → Time → Cache j → Result Error Claims × Cache j
  check_signatures raw (some (h ∷ [])) now c = check_headers raw h now c
  check_signatures raw _ now c = (err malformed, c)

  unfoldable pub verify : String → Time → Cache j → Result Error Claims × Cache j
  verify bearer now c =
      let raw = strip_bearer bearer in check_signatures raw (j.parse_jws raw) now c
