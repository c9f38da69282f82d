-- ===== src/Examples/Imports.antt =====
-- The import checker over a go command that lists two directories.
use event_tracking.Prelude.{◌≡◌, refl, ap, arith, String, ◌<◌, [], ◌∷◌, some, ok, err}
use event_tracking.Prelude.Text.{fields}
use event_tracking.Boundaries.{
  PkgInfo, all_violations, violations, breaches, service_of, cut_prefix, first_segment, is_pkg,
}
use event_tracking.Boundaries.Listing.{
  Decoded, object, end, Go, size, decode_all, packages_in, packages_of, list_packages,
  check_boundaries, Exit,
}
use event_tracking.Boundaries.Listing.Decoding.{IsDecoder}
use event_tracking.Boundaries.Listing.Verdict.{check_boundaries_ends}

abbrev service_import : PkgInfo
service_import = record {
  import_path = "github.com/dhiazfathra/event-tracking/pkg/tenant";
  imports = "github.com/dhiazfathra/event-tracking/services/ingest/cmd" ∷ [];
  test_imports = [];
  x_test_imports = [];
}

abbrev own_import : PkgInfo
own_import = record {
  import_path = "github.com/dhiazfathra/event-tracking/services/ingest/cmd";
  imports = "github.com/dhiazfathra/event-tracking/services/ingest/internal/quota" ∷ [];
  test_imports = [];
  x_test_imports = [];
}

-- An output is a text of one character for each package.
abbrev decode_char : PkgInfo → String → Decoded
decode_char p String.[] = end
decode_char p (String.◌∷◌ c s) = object p s

decode_char_shorter :
    (p : PkgInfo) (text : String) (q : PkgInfo) (rest : String)
    → decode_char p text ≡ object q rest
    → size rest < size text
unfolding size
decode_char_shorter p String.[] q rest e = cc
decode_char_shorter p (String.◌∷◌ c s) q rest e =
    let same : s ≡ rest = cc in omega (arith, ap size same)

decode_char-IsDecoder : (p : PkgInfo) → IsDecoder (decode_char p)
decode_char-IsDecoder p = record { consumes = decode_char_shorter p }

abbrev go_with : PkgInfo → Go
go_with p = record {
  list_modules = ok "/repo/pkg /repo/services";
  list_in = λ dir. ok "{}";
  decode = decode_char p;
}

abbrev absent : Go
absent = record {
  list_modules = err (record { error = "exit status 1"; stderr = "no go.work" });
  list_in = λ dir. ok "";
  decode = decode_char own_import;
}

lawful_exit :
    check_boundaries (go_with own_import)
    ≡ some (record { code = 0; stdout = "module boundaries OK" ∷ []; stderr = [] })
unfolding check_boundaries list_packages packages_of fields packages_in decode_all size
    all_violations violations breaches service_of cut_prefix first_segment is_pkg
lawful_exit = refl

absent_exit :
    check_boundaries absent
    ≡ some (record {
      code = 2;
      stdout = [];
      stderr = "go list failed: go list -m: exit status 1: no go.work" ∷ [];
    })
unfolding check_boundaries list_packages
absent_exit = refl

check_boundaries_ends_example : (o : Exit) × (check_boundaries (go_with service_import) ≡ some o)
check_boundaries_ends_example =
    check_boundaries_ends (go_with service_import) (decode_char-IsDecoder service_import)
