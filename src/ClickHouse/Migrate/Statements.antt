-- ===== src/ClickHouse/Migrate/Statements.antt =====
-- pkg/clickhouse/migrate.go: the statements of a file, against a description of them.
use Prim.Native.Char.{Char}
use mathlib.Core.Path.{subst}
use text.Mathlib.TextLemmas.{cons-append, nil-append}
use event_tracking.Prelude.{
  String, ◌≡◌, ◌≢◌, sym, ap, ◌∙◌, arith, List, [], ◌∷◌, ◌==◌, eq_iff, inl, inr, Bool-cases,
}
use event_tracking.Prelude.Text.{◌+++◌, trim_space}
use event_tracking.ClickHouse.Migrate.{to_first, split_statements, statements_in, statements}

-- The text has no semicolon.
abbrev pub IsPiece : String → Type 0
IsPiece String.[] = Unit
IsPiece (String.◌∷◌ c s) = (String.◌∷◌ c "" ≢ ";") × IsPiece s

-- The texts are what stands between the semicolons of a body.
pub data Cuts : String → List String → Type 0 where
  last : {p : String} → IsPiece p → Cuts p (p ∷ [])
  next : {p s : String} {ps : List String} → IsPiece p → Cuts s ps → Cuts (p +++ ";" +++ s) (p ∷ ps)

-- The statements are the trimmed pieces that are not blank, in their order.
pub data Trims : List String → List String → Type 0 where
  done : Trims [] []
  blank : {p : String} {ps qs : List String} → trim_space p ≡ "" → Trims ps qs → Trims (p ∷ ps) qs
  statement :
      {p : String} {ps qs : List String}
      → trim_space p ≢ ""
      → Trims ps qs
      → Trims (p ∷ ps) (trim_space p ∷ qs)

-- The statements of a file are what stands between its semicolons, less the blank ones.
abbrev pub AreStatements : String → List String → Type 0
AreStatements body qs = (ps : List String) × Cuts body ps × Trims ps qs

one : (c : Char) (s : String) → String.◌∷◌ c "" +++ s ≡ String.◌∷◌ c s
one c s = cons-append c "" s ∙ ap (String.◌∷◌ c) (nil-append s)

longer :
    (c : Char) (s : String) (ps : List String)
    → String.◌∷◌ c "" ≢ ";"
    → Cuts s ps
    → Cuts (String.◌∷◌ c s) (to_first (String.◌∷◌ c "") ps)
longer c s ps plain (last h) = rw (one c s) (last (plain, h))
longer c s ps plain (next {p = p} {s = t} {ps = qs} h rest) =
    rw (one c p) (
      subst (λ x. Cuts x (String.◌∷◌ c p ∷ qs)) (cons-append c p (";" +++ t))
        (next (plain, h) rest))

split_statements-Cuts : (body : String) → Cuts body (split_statements body)
unfolding split_statements
split_statements-Cuts String.[] = last tt
split_statements-Cuts (String.◌∷◌ c s) = elim (Bool-cases (String.◌∷◌ c "" == ";")) [
  | inl t ↦ rw t (
      subst (λ x. Cuts x ("" ∷ split_statements s))
        (nil-append (";" +++ s)
          ∙ ap (λ x. x +++ s) (sym ((eq_iff (String.◌∷◌ c "") ";").0 t))
          ∙ one c s)
        (next tt (split_statements-Cuts s)))
  | inr f ↦
      rw f
        (longer c s _ (λ e. ground (arith, eq_iff (String.◌∷◌ c "") ";")) (split_statements-Cuts s))
]

statements_in-Trims : (ps : List String) → Trims ps (statements_in ps)
unfolding statements_in
statements_in-Trims [] = done
statements_in-Trims (p ∷ ps) = elim (Bool-cases (trim_space p == "")) [
  | inl t ↦ rw t (blank ((eq_iff (trim_space p) "").0 t) (statements_in-Trims ps))
  | inr f ↦
      rw f (statement (λ e. ground (arith, eq_iff (trim_space p) "")) (statements_in-Trims ps))
]

pub statements-AreStatements : (body : String) → AreStatements body (statements body)
statements-AreStatements body =
    (split_statements body, split_statements-Cuts body, statements_in-Trims _)
