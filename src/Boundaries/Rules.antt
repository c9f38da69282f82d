-- ===== src/Boundaries/Rules.antt =====
-- tools/checkboundaries/main.go against the rules in its opening comment.
use event_tracking.Prelude.{
  String, ◌≡◌, ◌≢◌, ◌↔◌, refl, sym, ◌∙◌, arith, false, List, [], ◌∷◌, ◌++◌, ◌==◌, eq_iff, All,
  Bool-cases, inl, inr,
}
use event_tracking.Boundaries.Paths.{InService, InPkg, service_of_iff, is_pkg_iff}
use event_tracking.Boundaries.{
  PkgInfo, service_of, is_pkg, merged_imports, breaches, violations, all_violations,
}

-- An import of a package of a service comes from the service itself or from a package that is
-- neither in a service nor under pkg/.
abbrev pub IsPermitted : String → String → Type 0
IsPermitted pkg imp =
    (service : String)
    → InService imp service
    → (¬ InPkg pkg) × ((own : String) → InService pkg own → own ≡ service)

-- the same in terms of the tool's tests
abbrev Passes : String → String → Type 0
Passes pkg imp =
    service_of imp ≢ ""
    → (is_pkg pkg ≡ false) × (service_of pkg ≢ "" → service_of imp ≡ service_of pkg)

breaches-Passes : (pkg imp : String) → (breaches pkg imp ≡ []) ↔ Passes pkg imp
unfolding breaches
breaches-Passes pkg imp = (
  λ h other. ground (
    arith,
    eq_iff (service_of pkg) "",
    eq_iff (service_of imp) "",
    eq_iff (service_of imp) (service_of pkg),
  ),
  λ h. elim (Bool-cases (service_of imp == "")) [
    | inl t ↦ ground arith
    | inr f ↦
        let p = h (λ e. ground (arith, eq_iff (service_of imp) "")) in
        ground
          (arith, p.0, p.1, eq_iff (service_of pkg) "", eq_iff (service_of imp) (service_of pkg))
  ],
)

Passes-iff : (pkg imp : String) → Passes pkg imp ↔ IsPermitted pkg imp
Passes-iff pkg imp = (
  λ h service inside.
      let named = inside.0 in
      let e = (service_of_iff imp service named).1 inside in
      let (outside, own_only) = h (λ z. named (sym e ∙ z)) in
      (
        λ p. ground (arith, (is_pkg_iff pkg).1 p),
        λ own there.
            let q = (service_of_iff pkg own there.0).1 there in
            sym q ∙ sym (own_only (λ z. there.0 (sym q ∙ z))) ∙ e,
      ),
  λ h named.
      let (outside, own_only) =
        h (service_of imp) ((service_of_iff imp (service_of imp) named).0 refl) in
      (
        elim (Bool-cases (is_pkg pkg)) [
          | inl t ↦ absurd (outside ((is_pkg_iff pkg).0 t))
          | inr f ↦ f
        ],
        λ own. sym (own_only (service_of pkg) ((service_of_iff pkg (service_of pkg) own).0 refl)),
      ),
)

breaches_iff : (pkg imp : String) → (breaches pkg imp ≡ []) ↔ IsPermitted pkg imp
breaches_iff pkg imp = (
  λ h. (Passes-iff pkg imp).0 ((breaches-Passes pkg imp).0 h),
  λ h. (breaches-Passes pkg imp).1 ((Passes-iff pkg imp).1 h),
)

append-nil_iff : (xs ys : List String) → (xs ++ ys ≡ []) ↔ ((xs ≡ []) × (ys ≡ []))
append-nil_iff [] ys = (λ h. (refl, h), λ h. h.1)
append-nil_iff (x ∷ xs) ys = (λ h. absurd (ground arith), λ h. absurd (ground arith))

violations_iff :
    (pkg : String) (imports : List String)
    → (violations pkg imports ≡ []) ↔ All (IsPermitted pkg) imports
unfolding violations
violations_iff pkg [] = (λ h. tt, λ h. refl)
violations_iff pkg (imp ∷ imports) = (
  λ h.
      let e = (append-nil_iff (breaches pkg imp) (violations pkg imports)).0 h in
      ((breaches_iff pkg imp).0 e.0, (violations_iff pkg imports).0 e.1),
  λ h.
      (append-nil_iff (breaches pkg imp) (violations pkg imports)).1
        ((breaches_iff pkg imp).1 h.0, (violations_iff pkg imports).1 h.1),
)

-- The tool reports nothing exactly when every import of every package, those of its tests included,
-- is permitted.
pub all_violations_iff :
    (ps : List PkgInfo)
    → (all_violations ps ≡ []) ↔ All (λ p. All (IsPermitted p.import_path) (merged_imports p)) ps
unfolding all_violations
all_violations_iff [] = (λ h. tt, λ h. refl)
all_violations_iff (p ∷ ps) = (
  λ h.
      let e =
        (append-nil_iff (violations p.import_path (merged_imports p)) (all_violations ps)).0 h in
      ((violations_iff p.import_path (merged_imports p)).0 e.0, (all_violations_iff ps).0 e.1),
  λ h.
      (append-nil_iff (violations p.import_path (merged_imports p)) (all_violations ps)).1
        ((violations_iff p.import_path (merged_imports p)).1 h.0, (all_violations_iff ps).1 h.1),
)
