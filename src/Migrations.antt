-- ===== src/Migrations.antt =====
-- What the two migration runners share (pkg/clickhouse/migrate.go, pkg/controlplane/migrate.go): which
-- files of a directory are migrations, in which order, and what a ledger leaves to do.
pub mod Order
pub mod Pending
use Prim.Native.Char.{code}
use Prim.Native.String
use event_tracking.Prelude.{
  String, Bool, true, false, not, ◌&&◌, ◌||◌, List, [], ◌∷◌, ◌++◌, Option, none, some, ◌==◌, ltb,
  eqb, if◌then◌else◌,
}

-- An entry that fs.ReadDir lists.
pub record Entry : Type 0 where
  pub name : String
  pub is_dir : Bool

-- strings.HasSuffix
unfoldable pub has_suffix : String → String → Bool
has_suffix String.[] t = "" == t
has_suffix (String.◌∷◌ c s) t = let rest = has_suffix s t in String.◌∷◌ c s == t || rest

-- Go's `<=` on strings, whose bytes are in the order of their characters
unfoldable pub leb_text : String → String → Bool
leb_text String.[] t = true
leb_text (String.◌∷◌ c s) String.[] = false
leb_text (String.◌∷◌ c s) (String.◌∷◌ d t) =
    let rest = leb_text s t in ltb (code c) (code d) || eqb (code c) (code d) && rest

-- sort.Strings
unfoldable pub insert : String → List String → List String
insert s [] = s ∷ []
insert s (t ∷ ts) = let rest = insert s ts in if leb_text s t then s ∷ t ∷ ts else t ∷ rest

unfoldable pub sort_strings : List String → List String
sort_strings [] = []
sort_strings (s ∷ ss) = insert s (sort_strings ss)

-- The loop that keeps the names of the files that end in ".sql".
unfoldable pub sql_files : List Entry → List String
sql_files [] = []
sql_files (e ∷ es) =
    let rest = sql_files es in
    if not e.is_dir && has_suffix e.name ".sql" then e.name ∷ rest else rest

abbrev pub migration_names : List Entry → List String
migration_names es = sort_strings (sql_files es)

-- fs.FS: ReadDir of "." and ReadFile; `none` is an error
pub record Directory : Type 0 where
  pub read_dir : Option (List Entry)
  pub read_file : String → Option String

abbrev pub names_in : Option (List Entry) → List String
names_in none = []
names_in (some entries) = migration_names entries

-- SELECT EXISTS (… WHERE name = $1), and the lookup in the map of applied names
unfoldable pub is_applied : String → List String → Bool
is_applied name [] = false
is_applied name (n ∷ ns) = n == name || is_applied name ns
