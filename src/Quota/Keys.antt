-- ===== src/Quota/Keys.antt =====
-- quota.go: the names of the counters.
use Prim.Native.Char.{Char, code}
use text.Mathlib.TextLemmas.{cons-append}
use event_tracking.Prelude.{ℕ, String, ap, ◌≡◌, ◌≢◌, arith}
use event_tracking.Prelude.Text.{◌+++◌, decimal_ℤ}
use event_tracking.Time.{Time, unix, format_date}
use event_tracking.Tenant.{Claims}
use event_tracking.Quota.{rate_key, day_key}

-- the code point of the first character, 0 for the empty text
first_code : String → ℕ
first_code String.[] = 0
first_code (String.◌∷◌ c s) = code c

first_code-append : (c : Char) (s x : String) → first_code ((String.◌∷◌ c s) +++ x) ≡ code c
unfolding first_code
first_code-append c s x = rw cons-append

pub rate_key-ne-day_key : (c d : Claims) (t u : Time) → rate_key c t ≢ day_key d u
unfolding rate_key day_key
rate_key-ne-day_key c d t u e = ground (
  arith,
  ap first_code e,
  first_code-append "r" "l:{"
      (c.tenant_id +++ "}:" +++ c.install_id +++ ":" +++ decimal_ℤ (unix t)),
  first_code-append "q" ":{" (d.tenant_id +++ "}:" +++ format_date u),
)
