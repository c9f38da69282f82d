-- ===== src/ControlPlane/Installs.antt =====
-- pkg/controlplane/store.go: IssueInstall, on the table installs and its two partial unique indexes
-- (pkg/controlplane/sql/0001_control_plane.sql).
pub mod Stable
use event_tracking.Prelude.{
  ℕ, String, ◌≡◌, ◌↔◌, refl, arith, Bool, true, false, not, ◌&&◌, ◌||◌, List, [], ◌∷◌, Option, none,
  some, ◌==◌, eq_iff, is_some, if◌then◌else◌,
}
use event_tracking.Prelude.Text.{◌+++◌}

pub record Install : Type 0 where
  pub install_id : String
  pub tenant_id : String
  pub platform : String
  pub trust_tier : ℕ
  pub attest_subject : Option String
  pub device_key : String

-- What the indexes compare: (tenant_id, attest_subject) of the rows with a subject, and
-- (tenant_id, device_key) of the rows without.
pub data Anchor : Type 0 where
  attested unattested : String → String → Anchor

abbrev pub anchor : String → Option String → String → Anchor
anchor tenant_id none device_key = unattested tenant_id device_key
anchor tenant_id (some subject) device_key = attested tenant_id subject

abbrev pub anchor_of : Install → Anchor
anchor_of r = anchor r.tenant_id r.attest_subject r.device_key

unfoldable pub same_anchor : Anchor → Anchor → Bool
same_anchor (attested t s) (attested u x) = t == u && s == x
same_anchor (unattested t s) (unattested u x) = t == u && s == x
same_anchor (attested t s) (unattested u x) = false
same_anchor (unattested t s) (attested u x) = false

pub same_anchor_iff : (a b : Anchor) → (same_anchor a b ≡ true) ↔ (a ≡ b)
unfolding same_anchor
same_anchor_iff (attested t s) (attested u x) = ground (arith, eq_iff t u, eq_iff s x)
same_anchor_iff (unattested t s) (unattested u x) = ground (arith, eq_iff t u, eq_iff s x)
same_anchor_iff (attested t s) (unattested u x) = ground arith
same_anchor_iff (unattested t s) (attested u x) = ground arith

-- the install under an anchor
unfoldable pub find : List Install → Anchor → Option String
find [] a = none
find (r ∷ rows) a = if same_anchor (anchor_of r) a then some r.install_id else find rows a

-- INSERT … ON CONFLICT … DO UPDATE SET trust_tier = EXCLUDED.trust_tier RETURNING install_id. The
-- first part is what RETURNING yields.
unfoldable pub upsert : Install → List Install → String × List Install
upsert n [] = (n.install_id, n ∷ [])
upsert n (r ∷ rows) =
    let (id, rows') = upsert n rows in
    if same_anchor (anchor_of r) (anchor_of n)
    then (r.install_id, record r { trust_tier = n.trust_tier } ∷ rows)
    else (id, r ∷ rows')

-- the primary key, install_id
unfoldable pub is_taken : String → List Install → Bool
is_taken id [] = false
is_taken id (r ∷ rows) = r.install_id == id || is_taken id rows

-- The table, what the random source gives for 16 bytes in hexadecimal, and whether the next
-- statement fails.
pub record Database : Type 0 where
  pub installs : List Install
  pub entropy : Option String
  pub fails : Bool

abbrev pub subject_or_null : String → Option String
subject_or_null subject = if subject == "" then none else some subject

-- the row that the statement proposes
abbrev pub new_install : String → String → String → String → String → ℕ → Install
new_install hex tenant_id platform subject device_key tier = record {
  install_id = "ins_" +++ hex;
  tenant_id = tenant_id;
  platform = platform;
  trust_tier = tier;
  attest_subject = subject_or_null subject;
  device_key = device_key;
}

-- The statement; a new row whose id is there already breaks the primary key. The reference to the
-- table of tenants is left out.
unfoldable pub run_upsert : Install → Database → Option String × Database
run_upsert n db =
    if db.fails
      || (is_taken n.install_id db.installs && not (is_some (find db.installs (anchor_of n))))
    then (none, db)
    else (some (upsert n db.installs).0, record db { installs = (upsert n db.installs).1 })

-- after the random source was read
abbrev pub issue_with :
    Option String → String → String → String → String → ℕ → Database → Option String × Database
issue_with none tenant_id platform subject device_key tier db = (none, db)
issue_with (some hex) tenant_id platform subject device_key tier db =
    run_upsert (new_install hex tenant_id platform subject device_key tier) db

-- IssueInstall; `none` is its error.
unfoldable pub issue_install :
    String → String → String → String → ℕ → Database → Option String × Database
issue_install tenant_id platform subject device_key tier db =
    issue_with db.entropy tenant_id platform subject device_key tier db
