-- ===== src/Boundaries.antt =====
-- tools/checkboundaries/main.go: the rules on the imports of the repository's packages
pub mod Paths
pub mod Rules
pub mod Listing
use Prim.Native.String
use Prim.Native.String.{String}
use event_tracking.Prelude.{
  Bool, true, false, not, ◌&&◌, List, [], ◌∷◌, ◌++◌, Option, none, some, ◌==◌, is_some,
  if◌then◌else◌,
}
use event_tracking.Prelude.Text.{◌+++◌}

abbrev pub module_prefix : String
module_prefix = "github.com/dhiazfathra/event-tracking/"

pub record PkgInfo : Type 0 where
  pub import_path : String
  pub imports : List String
  pub test_imports : List String
  pub x_test_imports : List String

-- strings.CutPrefix: the rest, or `none` when the prefix is not there
unfoldable pub cut_prefix : String → String → Option String
cut_prefix s String.[] = some s
cut_prefix String.[] (String.◌∷◌ p ps) = none
cut_prefix (String.◌∷◌ c s) (String.◌∷◌ p ps) =
    let rest = cut_prefix s ps in if String.◌∷◌ c "" == String.◌∷◌ p "" then rest else none

-- strings.SplitN(s, "/", 2)[0]
unfoldable pub first_segment : String → String
first_segment String.[] = ""
first_segment (String.◌∷◌ c s) =
    let rest = first_segment s in if String.◌∷◌ c "" == "/" then "" else String.◌∷◌ c rest

abbrev pub segment_or_empty : Option String → String
segment_or_empty none = ""
segment_or_empty (some rest) = first_segment rest

unfoldable pub service_of : String → String
service_of path = segment_or_empty (cut_prefix path (module_prefix +++ "services/"))

unfoldable pub is_pkg : String → Bool
is_pkg path = is_some (cut_prefix path (module_prefix +++ "pkg/"))

abbrev pub merged_imports : PkgInfo → List String
merged_imports p = p.imports ++ p.test_imports ++ p.x_test_imports

-- the messages for one import
unfoldable pub breaches : String → String → List String
breaches pkg imp =
    let self = service_of pkg in
    let other = service_of imp in
    (if not (self == "") && (not (other == "") && not (other == self))
      then (pkg +++ " imports " +++ imp +++ " (services/* may not import each other)") ∷ []
      else [])
    ++ (if is_pkg pkg && not (other == "")
        then (pkg +++ " imports " +++ imp +++ " (pkg/* may not import services/*)") ∷ []
        else [])

unfoldable pub violations : String → List String → List String
violations pkg [] = []
violations pkg (imp ∷ imports) = breaches pkg imp ++ violations pkg imports

-- the loop of main over the packages
unfoldable pub all_violations : List PkgInfo → List String
all_violations [] = []
all_violations (p ∷ ps) = violations p.import_path (merged_imports p) ++ all_violations ps
