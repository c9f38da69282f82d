-- ===== src/Examples/Ingest.antt =====
-- Validation and enrichment at concrete events.
use event_tracking.Prelude.{◌≡◌, ◌↔◌, ◌≢◌, refl, false, none, some}
use event_tracking.Prelude.Int.{int_laws, scale, pos, ◌-ℤ◌, ◌+ℤ◌, floor_div}
use event_tracking.Time.{unix_milli}
use event_tracking.Contract.{Reject}
use event_tracking.Validate
use event_tracking.Validate.Spec.{IsStorable, Blames}
use event_tracking.Validate.Laws.{event_iff}
use event_tracking.Validate.Rejects.{event-Blames}
use event_tracking.Enrich.Skew.{correct, shifted}
use event_tracking.Enrich.Skew.Bounds.{InWindow, correct_cases, correct_repeated}
use event_tracking.Examples.Samples.{noon, texts, click, bare}

event_iff_example : (Validate.event texts click ≡ none) ↔ IsStorable texts click
event_iff_example = event_iff texts click

click_valid : Validate.event texts click ≡ none
unfolding Validate.event Validate.check_event Validate.check_props Validate.check_prop
    Validate.check_kind Validate.min_ts_client_ms Validate.max_ts_client_ms ◌-ℤ◌
click_valid = refl

abbrev fault : Reject
fault = record {
  event_id = "e2";
  code = "INVALID_PROPERTY_TYPE";
  message = "props.x: no value set";
}

bare_rejected : Validate.event texts bare ≡ some fault
unfolding Validate.event Validate.check_event Validate.check_props Validate.check_prop
    Validate.check_kind Validate.min_ts_client_ms Validate.max_ts_client_ms ◌-ℤ◌
bare_rejected = refl

event-Blames_example : ("e2" ≡ bare.event_id) × Blames texts bare "INVALID_PROPERTY_TYPE"
event-Blames_example = event-Blames texts bare fault bare_rejected

correct_cases_example : correct (pos 5) (pos 2) (pos 9000000) ≡ (pos 7000000, false)
unfolding ◌+ℤ◌ scale
correct_cases_example =
    (correct_cases (pos 5) (pos 2) (pos 9000000) (pos 7000000) (omega int_laws) refl).0
      (omega int_laws) (omega int_laws)

correct_repeated_example :
    (InWindow (shifted (pos 5) (pos 0)) noon
      → InWindow (shifted (pos 5) (pos 0)) (noon +ℤ pos 1)
      → (correct (pos 5) (pos 0) (noon +ℤ pos 1)).0 ≡ (correct (pos 5) (pos 0) noon).0)
    × (¬ InWindow (shifted (pos 5) (pos 0)) noon
        → ¬ InWindow (shifted (pos 5) (pos 0)) (noon +ℤ pos 1)
        → noon ≢ noon +ℤ pos 1
        → (correct (pos 5) (pos 0) (noon +ℤ pos 1)).0 ≢ (correct (pos 5) (pos 0) noon).0)
correct_repeated_example = correct_repeated (pos 5) (pos 0) noon (noon +ℤ pos 1)

one_second : unix_milli noon -ℤ pos 1785628799000 ≡ pos 1000
unfolding unix_milli ◌-ℤ◌ floor_div
one_second = refl
