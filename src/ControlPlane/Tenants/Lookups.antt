-- ===== src/ControlPlane/Tenants/Lookups.antt =====
-- What the lookups in the tables of the control plane find.
use mathlib.Core.List.{Memᴰ}
use event_tracking.Prelude.{
  String, ◌≡◌, ◌↔◌, refl, sym, ap, ◌∙◌, Bool, true, false, not, ◌&&◌, List, [], ◌∷◌, ◌==◌, eq_iff,
  ok, All, arith, if◌then◌else◌,
}
use event_tracking.ControlPlane.Tenants.{ClientRow, first_row, tenants_of, resolve_tenant}

-- the primary key of client_ids
abbrev pub HaveDistinctIds : List ClientRow → Type 0
HaveDistinctIds [] = Unit
HaveDistinctIds (r ∷ rows) =
    All (λ s. (s.client_id == r.client_id) ≡ false) rows × HaveDistinctIds rows

-- a row that is in force for the client
abbrev pub Grants : String → String → List ClientRow → Type 0
Grants client_id tenant_id rows =
    (r : ClientRow) × Memᴰ r rows
    × (r.client_id ≡ client_id)
    × (r.is_revoked ≡ false)
    × (r.tenant_id ≡ tenant_id)

pub found :
    (client_id tenant_id : String) (rows : List ClientRow)
    → resolve_tenant false rows client_id ≡ ok tenant_id
    → Grants client_id tenant_id rows
unfolding tenants_of
found client_id tenant_id [] h = absurd (ground arith)
found client_id tenant_id (r ∷ rows) h =
    go (r.client_id == client_id) r.is_revoked refl refl h (λ k. found client_id tenant_id rows k)
  where
    later : Grants client_id tenant_id rows → Grants client_id tenant_id (r ∷ rows)
    later (s, m, i, v, t) = (s, Memᴰ.tail m, i, v, t)

    go :
        (a b : Bool)
        → (r.client_id == client_id) ≡ a
        → r.is_revoked ≡ b
        → first_row false (
            if a && not b
            then r.tenant_id ∷ tenants_of client_id rows
            else tenants_of client_id rows)
          ≡ ok tenant_id
        → (first_row false (tenants_of client_id rows) ≡ ok tenant_id
            → Grants client_id tenant_id rows)
        → Grants client_id tenant_id (r ∷ rows)
    go true false e f h ih =
        (r, Memᴰ.head refl, (eq_iff r.client_id client_id).0 e, f, ground arith)
    go true true e f h ih = later (ih h)
    go false b e f h ih = later (ih h)

apart_of :
    (r s : ClientRow) (rows : List ClientRow)
    → Memᴰ s rows
    → All (λ s. (s.client_id == r.client_id) ≡ false) rows
    → (s.client_id == r.client_id) ≡ false
apart_of r s [] m h = elim m [ ]
apart_of r s (x ∷ xs) (Memᴰ.head e) (h, hs) = ap (λ x. x.client_id == r.client_id) e ∙ h
apart_of r s (x ∷ xs) (Memᴰ.tail m) (h, hs) = apart_of r s xs m hs

granted :
    (client_id tenant_id : String) (rows : List ClientRow)
    → HaveDistinctIds rows
    → Grants client_id tenant_id rows
    → resolve_tenant false rows client_id ≡ ok tenant_id
unfolding tenants_of
granted client_id tenant_id [] d (s, m, i, v, t) = elim m [ ]
granted client_id tenant_id (r ∷ rows) d (s, Memᴰ.head e, i, v, t) =
    rw
      (
        ap (λ x. x.client_id == client_id) (sym e) ∙ (eq_iff s.client_id client_id).1 i,
        sym (ap (λ x. x.is_revoked) e) ∙ v,
      )
      (ap (λ x. ok x.tenant_id) (sym e) ∙ ap ok t)
granted client_id tenant_id (r ∷ rows) (far, d) (s, Memᴰ.tail m, i, v, t) =
    let apart = apart_of r s rows m far in
    rw (other apart) (granted client_id tenant_id rows d (s, m, i, v, t))
  where
    other : (s.client_id == r.client_id) ≡ false → (r.client_id == client_id) ≡ false
    other h = ground (arith, eq_iff s.client_id r.client_id, eq_iff r.client_id client_id)

-- A client id resolves to a tenant exactly when the table has a row of the client with that tenant
-- that is not revoked, if no query fails.
pub resolve_tenant_iff :
    (clients : List ClientRow) (client_id tenant_id : String)
    → HaveDistinctIds clients
    → (resolve_tenant false clients client_id ≡ ok tenant_id) ↔ Grants client_id tenant_id clients
resolve_tenant_iff clients client_id tenant_id d =
    (found client_id tenant_id clients, granted client_id tenant_id clients d)
