-- ===== src/Boundaries/Listing/Verdict.antt =====
-- The whole of checkboundaries: that it ends, and when it reports success.
use event_tracking.Prelude.{
  suc, ◌≡◌, ◌⊎◌, inl, inr, refl, arith, String, List, [], ◌∷◌, ◌++◌, Option, some, Result, ok, err,
  All,
}
use event_tracking.Prelude.Text.{fields}
use event_tracking.Boundaries.{PkgInfo, merged_imports}
use event_tracking.Boundaries.Rules.{IsPermitted}
use event_tracking.Boundaries.Listing.{
  no_modules, no_packages, Go, size, packages_in, packages_of, list_packages, Exit, verdict,
  check_boundaries,
}
use event_tracking.Boundaries.Listing.Decoding.{IsDecoder, Emits, decode_all_lem}

-- No import of the package, those of its tests included, breaks a rule.
abbrev pub IsLawful : PkgInfo → Type 0
IsLawful p = All (IsPermitted p.import_path) (merged_imports p)

Result-cases : {E A : Type 0} (r : Result E A) → ((a : A) × (r ≡ ok a)) ⊎ ((e : E) × (r ≡ err e))
Result-cases (ok a) = inl (a, refl)
Result-cases (err e) = inr (e, refl)

module _ (go : Go) where
  -- The packages of the directories, in their order: the go command lists each directory, and
  -- prints nothing but packages.
  pub data Gathers : List String → List PkgInfo → Type 0 where
    none_left : Gathers [] []
    one_more :
        {dir : String} {dirs : List String} {ps qs : List PkgInfo} (text : String)
        → go.list_in dir ≡ ok text
        → Emits go text (ok ps)
        → Gathers dirs qs
        → Gathers (dir ∷ dirs) (ps ++ qs)

  -- The packages of the workspace.
  abbrev pub Lists : List PkgInfo → Type 0
  Lists ps = (dirs : String) × (go.list_modules ≡ ok dirs) × Gathers (fields dirs) ps

  -- A listing that ends: with all packages, or with an error.
  abbrev Ends : (List PkgInfo → Type 0) → Option (Result String (List PkgInfo)) → Type 0
  Ends IsListing o =
      ((ps : List PkgInfo) × (o ≡ some (ok ps)) × IsListing ps)
      ⊎ ((e : String) × (o ≡ some (err e)))

  by_result :
      (Holds : Result String (List PkgInfo) → Type 0) (r : Result String (List PkgInfo))
      {o : Option (Result String (List PkgInfo))}
      → o ≡ some r
      → Holds r
      → Ends (λ ps. Holds (ok ps)) o
  by_result Holds (ok ps) q h = inl (ps, q, h)
  by_result Holds (err e) q h = inr (e, q)

  module _ (law : IsDecoder go.decode) where
    packages_in_lem :
        (dir : String)
        → Ends
            (λ ps. (text : String) × (go.list_in dir ≡ ok text) × Emits go text (ok ps))
            (packages_in go dir)
    unfolding packages_in
    packages_in_lem dir = elim (Result-cases (go.list_in dir)) [
      | inr (f, e) ↦ inr (no_packages dir f, rw (packages_in, e) refl)
      | inl (text, e) ↦
          let (r, q, x) = decode_all_lem go law (suc (size text)) text (omega arith) in
          by_result (λ r. (text : String) × (go.list_in dir ≡ ok text) × Emits go text r) r
            (rw (packages_in, e, q) refl) (text, e, x)
    ]

    packages_of_lem : (dirs : List String) → Ends (Gathers dirs) (packages_of go dirs)
    unfolding packages_of
    packages_of_lem [] = inl ([], refl, none_left)
    packages_of_lem (dir ∷ dirs) = elim (packages_in_lem dir) [
      | inr (e, q) ↦ inr (e, rw (packages_of, q) refl)
      | inl (ps, q, (text, listed, x)) ↦ elim (packages_of_lem dirs) [
        | inr (e, q') ↦ inr (e, rw (packages_of, q, q') refl)
        | inl (qs, q', g) ↦ inl (ps ++ qs, rw (packages_of, q, q') refl, one_more text listed x g)
      ]
    ]

    list_packages_lem : Ends Lists (list_packages go)
    unfolding list_packages
    list_packages_lem = elim (Result-cases go.list_modules) [
      | inr (f, e) ↦ inr (no_modules f, simp (list_packages, e))
      | inl (dirs, e) ↦ elim (packages_of_lem (fields dirs)) [
        | inr (m, q) ↦ inr (m, simp (list_packages, e, q))
        | inl (ps, q, g) ↦ inl (ps, simp (list_packages, e, q), (dirs, e, g))
      ]
    ]

    check_boundaries-verdict :
        (r : Result String (List PkgInfo))
        → list_packages go ≡ some r
        → check_boundaries go ≡ some (verdict r)
    unfolding check_boundaries
    check_boundaries-verdict r q = rw (check_boundaries, q) refl

    -- checkboundaries ends, whatever the go command answers: every loop over an output has the fuel
    -- that it needs.
    pub check_boundaries_ends : (o : Exit) × (check_boundaries go ≡ some o)
    check_boundaries_ends = elim list_packages_lem [
      | inl (ps, q, x) ↦ (verdict (ok ps), check_boundaries-verdict (ok ps) q)
      | inr (e, q) ↦ (verdict (err e), check_boundaries-verdict (err e) q)
    ]
