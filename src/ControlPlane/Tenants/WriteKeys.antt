-- ===== src/ControlPlane/Tenants/WriteKeys.antt =====
-- pkg/controlplane/store.go: which write keys ResolveLegacy resolves.
use mathlib.Core.List.{Memᴰ}
use mathlib.Core.Path.{subst, ap₂}
use event_tracking.Prelude.{
  String, ◌≡◌, ◌↔◌, inl, inr, refl, sym, ap, ◌∙◌, Bool, true, false, not, ◌&&◌, List, [], ◌∷◌, ◌++◌,
  Option, none, some, ◌==◌, eq_iff, eq_refl, ok, arith, Bool-cases, Memᴰ-append_cases,
  Memᴰ-append_of, if◌then◌else◌,
}
use event_tracking.ControlPlane.Tenants.{
  ClientRow, TenantRow, first_row, modes_of, has_hash, legacy_rows, resolve_legacy,
}

-- A row of client_ids in force has the digest, and `x` is its tenant and that tenant's mode.
pub record Opens (sum : String) (clients : List ClientRow) (tenants : List TenantRow)
    (x : String × String) : Type 0 where
  pub client : ClientRow
  pub is_client : Memᴰ client clients
  pub hashed : client.legacy_key_hash ≡ some sum
  pub in_force : client.is_revoked ≡ false
  pub tenant : TenantRow
  pub is_tenant : Memᴰ tenant tenants
  pub owner : tenant.tenant_id ≡ client.tenant_id
  pub is : x ≡ (client.tenant_id, tenant.legacy_key_mode)

-- The UNIQUE constraint on the digests, and the primary key of tenants.
pub record AreUnique (clients : List ClientRow) (tenants : List TenantRow) : Type 0 where
  pub one_client :
      (c c' : ClientRow) (sum : String)
      → Memᴰ c clients
      → Memᴰ c' clients
      → c.legacy_key_hash ≡ some sum
      → c'.legacy_key_hash ≡ some sum
      → c ≡ c'
  pub one_tenant :
      (t t' : TenantRow) → Memᴰ t tenants → Memᴰ t' tenants → t.tenant_id ≡ t'.tenant_id → t ≡ t'

-- the tenant's row and what it gives
abbrev Moded : String → List TenantRow → String × String → Type 0
Moded tenant_id tenants x =
    (t : TenantRow) × Memᴰ t tenants
    × (t.tenant_id ≡ tenant_id)
    × (x ≡ (tenant_id, t.legacy_key_mode))

modes_of-Moded :
    (tenant_id : String) (tenants : List TenantRow) (x : String × String)
    → Memᴰ x (modes_of tenant_id tenants)
    → Moded tenant_id tenants x
unfolding modes_of
modes_of-Moded tenant_id [] x m = elim m [ ]
modes_of-Moded tenant_id (t ∷ tenants) x m =
    go (t.tenant_id == tenant_id) refl (modes_of-Moded tenant_id tenants x) m
  where
    later : Moded tenant_id tenants x → Moded tenant_id (t ∷ tenants) x
    later (s, i, a, b) = (s, Memᴰ.tail i, a, b)

    go :
        (b : Bool)
        → (t.tenant_id == tenant_id) ≡ b
        → (Memᴰ x (modes_of tenant_id tenants) → Moded tenant_id tenants x)
        → Memᴰ x (
            if b
            then (tenant_id, t.legacy_key_mode) ∷ modes_of tenant_id tenants
            else modes_of tenant_id tenants)
        → Moded tenant_id (t ∷ tenants) x
    go true e ih (Memᴰ.head p) = (t, Memᴰ.head refl, (eq_iff t.tenant_id tenant_id).0 e, p)
    go true e ih (Memᴰ.tail m) = later (ih m)
    go false e ih m = later (ih m)

Moded-modes_of :
    (tenant_id : String) (tenants : List TenantRow) (x : String × String)
    → Moded tenant_id tenants x
    → Memᴰ x (modes_of tenant_id tenants)
unfolding modes_of
Moded-modes_of tenant_id [] x (t, m, a, p) = elim m [ ]
Moded-modes_of tenant_id (s ∷ tenants) x (t, Memᴰ.head e, a, p) =
    let same : (s.tenant_id == tenant_id) ≡ true =
      (eq_iff s.tenant_id tenant_id).1 (ap (λ y. y.tenant_id) (sym e) ∙ a) in
    rw same (Memᴰ.head (p ∙ ap (λ y. (tenant_id, y.legacy_key_mode)) e))
Moded-modes_of tenant_id (s ∷ tenants) x (t, Memᴰ.tail m, a, p) =
    let rest = Moded-modes_of tenant_id tenants x (t, m, a, p) in
    elim (Bool-cases (s.tenant_id == tenant_id)) [
      | inl y ↦ rw y (Memᴰ.tail rest)
      | inr n ↦ rw n rest
    ]

has_hash-some : (sum : String) (o : Option String) → has_hash sum o ≡ true → o ≡ some sum
has_hash-some sum none h = absurd (ground arith)
has_hash-some sum (some x) h = ap some ((eq_iff x sum).0 h)

legacy_rows-Opens :
    (sum : String) (clients : List ClientRow) (tenants : List TenantRow) (x : String × String)
    → Memᴰ x (legacy_rows sum clients tenants)
    → Opens sum clients tenants x
unfolding legacy_rows
legacy_rows-Opens sum [] tenants x m = elim m [ ]
legacy_rows-Opens sum (c ∷ clients) tenants x m =
    go (has_hash sum c.legacy_key_hash) c.is_revoked refl refl
      (λ n. later (legacy_rows-Opens sum clients tenants x n)) m
  where
    later : Opens sum clients tenants x → Opens sum (c ∷ clients) tenants x
    later o = record {
      client = o.client;
      is_client = Memᴰ.tail o.is_client;
      hashed = o.hashed;
      in_force = o.in_force;
      tenant = o.tenant;
      is_tenant = o.is_tenant;
      owner = o.owner;
      is = o.is;
    }

    here :
        has_hash sum c.legacy_key_hash ≡ true
        → c.is_revoked ≡ false
        → Moded c.tenant_id tenants x
        → Opens sum (c ∷ clients) tenants x
    here a b (t, i, own, p) = record {
      client = c;
      is_client = Memᴰ.head refl;
      hashed = has_hash-some sum c.legacy_key_hash a;
      in_force = b;
      tenant = t;
      is_tenant = i;
      owner = own;
      is = p;
    }

    go :
        (a b : Bool)
        → has_hash sum c.legacy_key_hash ≡ a
        → c.is_revoked ≡ b
        → (Memᴰ x (legacy_rows sum clients tenants) → Opens sum (c ∷ clients) tenants x)
        → Memᴰ x (
            if a && not b
            then modes_of c.tenant_id tenants ++ legacy_rows sum clients tenants
            else legacy_rows sum clients tenants)
        → Opens sum (c ∷ clients) tenants x
    go true false e f ih m = elim (Memᴰ-append_cases x (modes_of c.tenant_id tenants) _ m) [
      | inl n ↦ here e f (modes_of-Moded c.tenant_id tenants x n)
      | inr n ↦ ih n
    ]
    go true true e f ih m = ih m
    go false b e f ih m = ih m

Opens-legacy_rows :
    (sum : String) (clients : List ClientRow) (tenants : List TenantRow) (x : String × String)
    (c : ClientRow)
    → Memᴰ c clients
    → c.legacy_key_hash ≡ some sum
    → c.is_revoked ≡ false
    → Moded c.tenant_id tenants x
    → Memᴰ x (legacy_rows sum clients tenants)
unfolding legacy_rows
Opens-legacy_rows sum [] tenants x c m h f t = elim m [ ]
Opens-legacy_rows sum (d ∷ clients) tenants x c (Memᴰ.head e) h f t =
    let hashed : has_hash sum d.legacy_key_hash ≡ true =
      ap (λ y. has_hash sum y.legacy_key_hash) (sym e) ∙ ap (has_hash sum) h ∙ eq_refl sum in
    let kept : d.is_revoked ≡ false = ap (λ y. y.is_revoked) (sym e) ∙ f in
    rw (hashed, kept)
      (Memᴰ-append_of x (modes_of d.tenant_id tenants) _
        (inl (Moded-modes_of d.tenant_id tenants x (subst (λ y. Moded y.tenant_id tenants x) e t))))
Opens-legacy_rows sum (d ∷ clients) tenants x c (Memᴰ.tail m) h f t =
    go (has_hash sum d.legacy_key_hash && not d.is_revoked)
      (Opens-legacy_rows sum clients tenants x c m h f t)
  where
    go :
        (b : Bool)
        → Memᴰ x (legacy_rows sum clients tenants)
        → Memᴰ x (
            if b
            then modes_of d.tenant_id tenants ++ legacy_rows sum clients tenants
            else legacy_rows sum clients tenants)
    go true n = Memᴰ-append_of x (modes_of d.tenant_id tenants) _ (inr n)
    go false n = n

Opens-unique :
    (sum : String) (clients : List ClientRow) (tenants : List TenantRow) (x y : String × String)
    → AreUnique clients tenants
    → Opens sum clients tenants x
    → Opens sum clients tenants y
    → x ≡ y
Opens-unique sum clients tenants x y u a b =
    let c : a.client ≡ b.client =
      u.one_client a.client b.client sum a.is_client b.is_client a.hashed b.hashed in
    let t : a.tenant ≡ b.tenant =
      u.one_tenant a.tenant b.tenant a.is_tenant b.is_tenant
        (a.owner ∙ ap (λ z. z.tenant_id) c ∙ sym b.owner) in
    a.is ∙ ap₂ (λ v z. (v.tenant_id, z.legacy_key_mode)) c t ∙ sym b.is

first_row_iff :
    {A : Type 0} (P : A → Type 0) (rows : List A) (x : A)
    → ((y : A) → Memᴰ y rows → P y)
    → ((y z : A) → P y → P z → y ≡ z)
    → (P x → Memᴰ x rows)
    → (first_row false rows ≡ ok x) ↔ P x
first_row_iff P [] x sound unique complete =
    (λ h. absurd (ground arith), λ p. elim (complete p) [ ])
first_row_iff P (y ∷ rows) x sound unique complete = (
  λ h. subst P (ground arith) (sound y (Memᴰ.head refl)),
  λ p. ap ok (unique y x (sound y (Memᴰ.head refl)) p),
)

-- Where no two clients share a digest and no two tenants an id, a write key resolves to a tenant and
-- its mode exactly when a client in force has the key's digest and belongs to that tenant.
pub resolve_legacy_iff :
    (sha256 : String → String) (clients : List ClientRow) (tenants : List TenantRow) (key : String)
    (x : String × String)
    → AreUnique clients tenants
    → (resolve_legacy sha256 false clients tenants key ≡ ok x)
      ↔ Opens (sha256 key) clients tenants x
unfolding resolve_legacy
resolve_legacy_iff sha256 clients tenants key x u =
    let sum = sha256 key in
    first_row_iff (Opens sum clients tenants) (legacy_rows sum clients tenants) x
      (legacy_rows-Opens sum clients tenants) (λ y z. Opens-unique sum clients tenants y z u)
      (λ o.
        Opens-legacy_rows sum clients tenants x o.client o.is_client o.hashed o.in_force
          (o.tenant, o.is_tenant, o.owner, o.is))
