-- ===== src/Examples/Tokens.antt =====
-- Tokens and write keys of a signer with one key, published from the first request on.
use mathlib.Core.List.{Memᴰ}
use event_tracking.Prelude.{
  ℕ, String, ◌*◌, ◌≡◌, ◌≢◌, ◌↔◌, refl, eq_iff, arith, true, false, Option, none, some, [], ◌∷◌, ok,
}
use event_tracking.Prelude.Int.{pos, ◌≤ℤ◌, ◌+ℤ◌, ◌-ℤ◌, int_laws}
use event_tracking.Prelude.Text.{◌+++◌, fields, starts_with, cut_space}
use event_tracking.Time.{Time, second, time_sub}
use event_tracking.Tenant.{Claims, scope_write_events}
use event_tracking.Tenant.Keys.{
  new_cache, key, jwks_min_refetch, lookup, has_signing_shape, find_key, refetch_locked,
  may_refetch, older_than, refresh,
}
use event_tracking.Tenant.Keys.Shape.{IsPublished, key-IsPublished}
use event_tracking.Tenant.Keys.Fetches.{run, run_fetches}
use event_tracking.Tenant.Mint.{Minter, token_of, mint}
use event_tracking.Tenant.Mint.RoundTrip.{verify-mint}
use event_tracking.Tenant.Verify.{Config, verify, strip_bearer}
use event_tracking.Tenant.Verify.Acceptance.{IsAccepted, verify_iff}
use event_tracking.Tenant.Legacy.{LegacyResolver, verify_or_legacy, legacy_claims, legacy_prefix}
use event_tracking.Tenant.Legacy.Cutover.{IsLegacyKey, verify_or_legacy_iff}
use event_tracking.Examples.Samples.{noon, claims}
use event_tracking.Examples.Signer.{
  signer, signer-IsJose, is_sample, is_text, is_whole, is_time, is_one,
}

abbrev pub minter : Minter signer
minter = record {
  kid = "k1";
  key = tt;
  issuer = "issuer";
  audience = "ingest";
  ttl = 2700 * second;
}

abbrev pub config : Config
config = record { issuer = "issuer"; audience = "ingest" }

-- the endpoint that always answers
abbrev pub endpoint : ℕ → Option signer.Set
endpoint n = some tt

abbrev pub soon : Time
soon = noon +ℤ pos (60 * second)

pub found : (key signer endpoint "k1" soon (new_cache signer)).0 ≡ some tt
unfolding key find_key refresh refetch_locked may_refetch older_than lookup has_signing_shape
    time_sub ◌-ℤ◌ ◌+ℤ◌
found = refl

junk_unsigned : signer.parse_jws (strip_bearer "junk") ≡ none
unfolding strip_bearer cut_space
junk_unsigned = refl

pub may_write : Memᴰ scope_write_events (fields claims.scope)
unfolding fields
may_write = Memᴰ.head refl

pub named : (claims.tenant_id ≢ "") × (claims.install_id ≢ "")
named = (ground (arith, eq_iff "t1" ""), ground (arith, eq_iff "i1" ""))

minted : mint signer minter claims noon ≡ some ("tok", pos 2700)
unfolding mint token_of is_sample is_text is_whole is_time is_one ◌+ℤ◌
minted = refl

key-IsPublished_example :
    (◌≢◌ {A = String} "k1" "")
    × IsPublished signer endpoint "k1" tt soon (key signer endpoint "k1" soon (new_cache signer)).1
key-IsPublished_example = key-IsPublished signer endpoint "k1" soon (new_cache signer) tt found

run_fetches_example :
    pos (
        jwks_min_refetch
        * (run signer endpoint (new_cache signer) (("k1", soon) ∷ ("k2", soon) ∷ [])).fetches)
      +ℤ (new_cache signer).last_refetch
    ≤ℤ pos (jwks_min_refetch * 0)
      +ℤ (run signer endpoint (new_cache signer) (("k1", soon) ∷ ("k2", soon) ∷ [])).last_refetch
run_fetches_example =
    run_fetches signer endpoint (new_cache signer) (("k1", soon) ∷ ("k2", soon) ∷ [])

verify-mint_example :
    (verify signer endpoint config ("Bearer " +++ "tok") soon (new_cache signer)).0 ≡ ok claims
verify-mint_example =
    verify-mint signer signer-IsJose endpoint minter claims noon soon (new_cache signer) tt "tok"
      (pos 2700) tt minted found (omega int_laws) (omega int_laws) named.0 named.1 may_write
      (omega arith)

verify_iff_example :
    ((verify signer endpoint config "Bearer tok" soon (new_cache signer)).0 ≡ ok claims)
    ↔ IsAccepted signer endpoint config "Bearer tok" soon (new_cache signer) claims
verify_iff_example = verify_iff signer endpoint config "Bearer tok" soon (new_cache signer) claims

abbrev write_keys : LegacyResolver
write_keys key = some ("t1", "deprecating")

abbrev key_claims : Claims
key_claims = legacy_claims (λ s. "0123456789abcdef") "wk_live_1" "t1"

verify_or_legacy_iff_example :
    (((verify_or_legacy
          (λ s. "0123456789abcdef")
          signer
          endpoint
          config
          "Bearer wk_live_1"
          soon
          write_keys
          (new_cache signer)).0
        ≡ (ok key_claims, true))
      ↔ IsLegacyKey
          (λ s. "0123456789abcdef")
          signer
          endpoint
          config
          write_keys
          "Bearer wk_live_1"
          soon
          (new_cache signer)
          key_claims)
    × (((verify_or_legacy
            (λ s. "0123456789abcdef")
            signer
            endpoint
            config
            "Bearer wk_live_1"
            soon
            write_keys
            (new_cache signer)).0
          ≡ (ok key_claims, false))
        ↔ ((starts_with (strip_bearer "Bearer wk_live_1") legacy_prefix ≡ false)
            × IsAccepted signer endpoint config "Bearer wk_live_1" soon
                (new_cache signer)
                key_claims))
verify_or_legacy_iff_example =
    verify_or_legacy_iff (λ s. "0123456789abcdef") signer endpoint config write_keys
      "Bearer wk_live_1" soon (new_cache signer) key_claims
