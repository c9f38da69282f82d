-- ===== src/Boundaries/Listing.antt =====
-- tools/checkboundaries/main.go: listPackages and main. The go command and the decoder of
-- encoding/json are parameters.
pub mod Decoding
pub mod Verdict
use Prim.Native.String
use event_tracking.Prelude.{
  ℕ, zero, suc, String, List, [], ◌∷◌, ◌++◌, map, Option, none, some, Result, ok, err,
}
use event_tracking.Prelude.Text.{◌+++◌, fields}
use event_tracking.Boundaries.{PkgInfo, all_violations}

-- What one call of Decode finds in the text that is left: a package and the text behind it, the end
-- of the text, or an error.
pub data Decoded : Type 0 where
  object : PkgInfo → String → Decoded
  end : Decoded
  malformed : String → Decoded

-- A failed command: its error, and what it printed to its standard error.
pub record Failure : Type 0 where
  pub error : String
  pub stderr : String

-- `go list -m -f {{.Dir}}`, `go list -json ./...` in a directory, and Decode.
pub record Go : Type 0 where
  pub list_modules : Result Failure String
  pub list_in : String → Result Failure String
  pub decode : String → Decoded

unfoldable pub size : String → ℕ
size String.[] = 0
size (String.◌∷◌ c s) = suc (size s)

abbrev pub put_package : PkgInfo → Result String (List PkgInfo) → Result String (List PkgInfo)
put_package p (ok ps) = ok (p ∷ ps)
put_package p (err e) = err e

abbrev pub put_packages : List PkgInfo → Result String (List PkgInfo) → Result String (List PkgInfo)
put_packages ps (ok qs) = ok (ps ++ qs)
put_packages ps (err e) = err e

abbrev pub no_modules : Failure → String
no_modules f = "go list -m: " +++ f.error +++ ": " +++ f.stderr

abbrev pub no_packages : String → Failure → String
no_packages dir f = "go list ./... in " +++ dir +++ ": " +++ f.error +++ ": " +++ f.stderr

module _ (go : Go) where
  -- The loop over the objects of one output. Each call of Decode takes a unit of fuel; `none` says
  -- that it ran out.
  unfoldable pub decode_all : ℕ → String → Option (Result String (List PkgInfo))
  decode_all zero text = none
  decode_all (suc f) text = elim (go.decode text) [
    | end ↦ some (ok [])
    | malformed e ↦ some (err e)
    | object p rest ↦ elim (decode_all f rest) [ none ↦ none | some r ↦ some (put_package p r) ]
  ]

  -- The body of the loop over the directories. An object takes at least a character, and the end
  -- takes a call too.
  unfoldable pub packages_in : String → Option (Result String (List PkgInfo))
  packages_in dir = elim (go.list_in dir) [
    | err f ↦ some (err (no_packages dir f))
    | ok text ↦ decode_all (suc (size text)) text
  ]

  unfoldable pub packages_of : List String → Option (Result String (List PkgInfo))
  packages_of [] = some (ok [])
  packages_of (dir ∷ dirs) = elim (packages_in dir) [
    | none ↦ none
    | some (err e) ↦ some (err e)
    | some (ok ps) ↦ elim (packages_of dirs) [ none ↦ none | some r ↦ some (put_packages ps r) ]
  ]

  unfoldable pub list_packages : Option (Result String (List PkgInfo))
  list_packages = elim go.list_modules [
    | err f ↦ some (err (no_modules f))
    | ok dirs ↦ packages_of (fields dirs)
  ]

-- The exit of the process, and the lines that it printed.
pub record Exit : Type 0 where
  pub code : ℕ
  pub stdout : List String
  pub stderr : List String

abbrev pub verdict_of : List String → Exit
verdict_of [] = record { code = 0; stdout = "module boundaries OK" ∷ []; stderr = [] }
verdict_of (v ∷ vs) = record {
  code = 1;
  stdout = [];
  stderr = "module boundary violations:" ∷ map (λ line. "  " +++ line) (v ∷ vs);
}

abbrev pub verdict : Result String (List PkgInfo) → Exit
verdict (err e) = record { code = 2; stdout = []; stderr = ("go list failed: " +++ e) ∷ [] }
verdict (ok ps) = verdict_of (all_violations ps)

-- `none` says that a loop ran out of fuel.
unfoldable pub check_boundaries : Go → Option Exit
check_boundaries go = elim (list_packages go) [ none ↦ none | some r ↦ some (verdict r) ]
