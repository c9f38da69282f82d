-- ===== src/Tenant/Jose.antt =====
-- What pkg/tenant uses of github.com/lestrrat-go/jwx, which is not part of the repository: parsing
-- and verifying of signed tokens, key sets, and signing.
use event_tracking.Prelude.{String, ◌≡◌, List, [], ◌∷◌, Option, none, some}
use event_tracking.Prelude.Int.{ℤ, scale}
use event_tracking.Prelude.Text.{NoSpace}
use event_tracking.Time.{Time, second, unix}

-- The protected headers of a signature.
pub record Headers : Type 0 where
  pub alg : Option String
  pub typ : Option String
  pub kid : Option String

-- A private claim, as jwt.Token.Get hands it over: a float64 that is a whole number, one that is not
-- (with its part before the point), a string, JSON null, or another JSON value.
pub data ClaimValue : Type 0 where
  whole fraction : ℤ → ClaimValue
  text : String → ClaimValue
  null other : ClaimValue

pub record Token : Type 0 where
  pub iss : Option String
  pub aud : List String
  pub iat : Option Time
  pub exp : Option Time
  pub nbf : Option Time
  pub scope : Option ClaimValue
  pub tenant_id : Option ClaimValue
  pub install_id : Option ClaimValue
  pub trust_tier : Option ClaimValue

pub record Jose : Type 1 where
  pub Key : Type 0
  pub Set : Type 0
  pub PrivateKey : Type 0
  pub lookup_key_id : Set → String → Option Key
  pub key_usage : Key → Option String
  pub key_type : Key → String
  pub curve : Key → Option String
  -- jws.Parse: the headers of each signature; `none` is its error
  pub parse_jws : String → Option (List Headers)
  -- jwt.Parse with an EdDSA key and no validation of the claims; `none` is its error
  pub parse_jwt : String → Key → Option Token
  -- jwt.Sign with an EdDSA key and the protected headers typ and kid; `none` is its error
  pub sign : Token → String → String → PrivateKey → Option String

-- A NumericDate is written in whole seconds.
abbrev pub to_seconds : Time → Time
to_seconds t = scale second (unix t)

abbrev pub date_on_wire : Option Time → Option Time
date_on_wire none = none
date_on_wire (some t) = some (to_seconds t)

abbrev pub on_wire : Token → Token
on_wire t = record t {
  iat = date_on_wire t.iat;
  exp = date_on_wire t.exp;
  nbf = date_on_wire t.nbf;
}

-- What the library documents of signing: the compact form is base64url and dots, has the headers
-- and the algorithm that it was signed with, and verifies with the public half of the key.
pub record IsJose (j : Jose) : Type 1 where
  -- a form of the public half of a private key, with any key id and use
  pub IsPublicOf : j.PrivateKey → j.Key → Type 0
  pub compact :
      (t : Token) (typ kid raw : String) (k : j.PrivateKey)
      → j.sign t typ kid k ≡ some raw
      → NoSpace raw
  pub headers :
      (t : Token) (typ kid raw : String) (k : j.PrivateKey)
      → j.sign t typ kid k ≡ some raw
      → j.parse_jws raw ≡ some (record { alg = some "EdDSA"; typ = some typ; kid = some kid } ∷ [])
  pub verifies :
      (t : Token) (typ kid raw : String) (k : j.PrivateKey) (half : j.Key)
      → IsPublicOf k half
      → j.sign t typ kid k ≡ some raw
      → j.parse_jwt raw half ≡ some (on_wire t)
