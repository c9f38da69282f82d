-- ===== src/Examples/Keyed.antt =====
-- A write key before the wired service.
use mathlib.Core.List.{Memᴰ}
use event_tracking.Prelude.{◌≡◌, ◌↔◌, refl, sym, ◌∙◌, true, [], ◌∷◌, ok}
use event_tracking.ControlPlane.Tenants.WriteKeys.{AreUnique}
use event_tracking.Tenant.Verify.{strip_bearer}
use event_tracking.Service.Wiring.{batch_deps}
use event_tracking.Service.Wiring.WriteKeys.{IsOpenKey, write_key_accepted_iff}
use event_tracking.Examples.Tokens.{soon, config}
use event_tracking.Examples.Twice.{ours, before, holder}

only : {A : Type 0} {x y : A} → Memᴰ x (y ∷ []) → x ≡ y
only (Memᴰ.head e) = e
only (Memᴰ.tail m) = elim m [ ]

one_each : AreUnique before.clients before.tenants
one_each = record {
  one_client = λ c c' sum m m' h h'. only m ∙ sym (only m');
  one_tenant = λ t t' m m' h. only m ∙ sym (only m');
}

write_key_accepted_iff_example :
    (((batch_deps ours config).verify_or_legacy "wk_live_1" soon before).0 ≡ (ok holder, true))
    ↔ IsOpenKey ours config (strip_bearer "wk_live_1") holder before
write_key_accepted_iff_example =
    write_key_accepted_iff ours config "wk_live_1" soon before holder refl one_each
