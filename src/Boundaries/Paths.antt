-- ===== src/Boundaries/Paths.antt =====
-- tools/checkboundaries/main.go: which import paths lie in a service and which in pkg/.
use Prim.Native.String.{String}
use Prim.Native.Char.{Char}
use mathlib.Core.Path.{subst, ap₂}
use mathlib.Core.Option.{some-injective}
use text.Mathlib.TextLemmas.{cons-append, nil-append}
use event_tracking.Prelude.{
  ◌≡◌, ◌≢◌, ◌↔◌, ◌⊎◌, refl, sym, ap, ◌∙◌, arith, true, false, Option, none, some, ◌==◌, eq_iff, inl,
  inr, Bool-cases, Option-cases,
}
use event_tracking.Prelude.Text.{◌+++◌}
use event_tracking.Boundaries.{module_prefix, cut_prefix, first_segment, service_of, is_pkg}

-- The text has no slash.
abbrev pub IsSegment : String → Type 0
IsSegment String.[] = Unit
IsSegment (String.◌∷◌ c s) = (String.◌∷◌ c "" ≢ "/") × IsSegment s

-- The text begins with the segment, which ends at a slash or with the text.
abbrev pub BeginsWith : String → String → Type 0
BeginsWith s rest = IsSegment s × ((rest ≡ s) ⊎ ((more : String) × (rest ≡ s +++ "/" +++ more)))

-- The package lies in the service of the name, a directory under services/.
abbrev pub InService : String → String → Type 0
InService path name =
    (name ≢ "")
    × ((rest : String) × (path ≡ "github.com/dhiazfathra/event-tracking/services/" +++ rest)
        × BeginsWith name rest)

-- The package lies under pkg/.
abbrev pub InPkg : String → Type 0
InPkg path = (rest : String) × (path ≡ "github.com/dhiazfathra/event-tracking/pkg/" +++ rest)

injective :
    (c d : Char) (s t : String)
    → String.◌∷◌ c s ≡ String.◌∷◌ d t
    → (String.◌∷◌ c "" ≡ String.◌∷◌ d "") × (s ≡ t)
injective c d s t h = (ap head h, ap tail h)
  where
    head : String → String
    head String.[] = ""
    head (String.◌∷◌ c s) = String.◌∷◌ c ""

    tail : String → String
    tail String.[] = ""
    tail (String.◌∷◌ c s) = s

cons_eq :
    (c d : Char) (s t : String)
    → String.◌∷◌ c "" ≡ String.◌∷◌ d ""
    → s ≡ t
    → String.◌∷◌ c s ≡ String.◌∷◌ d t
cons_eq c d s t e h = sym (one c s) ∙ ap₂ (λ x y. x +++ y) e h ∙ one d t
  where
    one : (c : Char) (s : String) → String.◌∷◌ c "" +++ s ≡ String.◌∷◌ c s
    one c s = cons-append c "" s ∙ ap (String.◌∷◌ c) (nil-append s)

cut_prefix_iff : (s p rest : String) → (cut_prefix s p ≡ some rest) ↔ (s ≡ p +++ rest)
unfolding cut_prefix
cut_prefix_iff s String.[] rest =
    (λ h. some-injective s rest h ∙ sym (nil-append rest), λ h. ap some (h ∙ nil-append rest))
cut_prefix_iff String.[] (String.◌∷◌ p ps) rest =
    (λ h. absurd (ground arith), λ h. absurd (nil_apart (h ∙ cons-append p ps rest)))
  where
    IsNil : String → Type 0
    IsNil String.[] = Unit
    IsNil (String.◌∷◌ c s) = ⊥

    nil_apart : "" ≡ String.◌∷◌ p (ps +++ rest) → ⊥
    nil_apart h = subst IsNil h tt
cut_prefix_iff (String.◌∷◌ c s) (String.◌∷◌ p ps) rest =
    elim (Bool-cases (String.◌∷◌ c "" == String.◌∷◌ p "")) [
      | inl t ↦ rw t (
        λ h.
            cons_eq c p s (ps +++ rest) ((eq_iff (String.◌∷◌ c "") (String.◌∷◌ p "")).0 t)
              ((cut_prefix_iff s ps rest).0 h)
            ∙ sym (cons-append p ps rest),
        λ h. (cut_prefix_iff s ps rest).1 (injective c p s _ (h ∙ cons-append p ps rest)).1,
      )
      | inr f ↦ rw f (
        λ h. absurd (ground arith),
        λ h.
            let e = (injective c p s _ (h ∙ cons-append p ps rest)).0 in
            absurd (ground (arith, eq_iff (String.◌∷◌ c "") (String.◌∷◌ p ""))),
      )
    ]

first_segment-BeginsWith : (rest : String) → BeginsWith (first_segment rest) rest
unfolding first_segment
first_segment-BeginsWith String.[] = (tt, inl refl)
first_segment-BeginsWith (String.◌∷◌ c s) = elim (Bool-cases (String.◌∷◌ c "" == "/")) [
  | inl t ↦ rw t (
    tt,
    inr (
      s,
      cons_eq c "/" s s ((eq_iff (String.◌∷◌ c "") "/").0 t) refl
          ∙ sym
              (nil-append ("/" +++ s) ∙ cons-append "/" "" s ∙ ap (String.◌∷◌ "/") (nil-append s)),
    ),
  )
  | inr f ↦
      let (seg, begins) = first_segment-BeginsWith s in
      rw f (
        ((λ e. ground (arith, eq_iff (String.◌∷◌ c "") "/")), seg),
        elim begins [
          | inl e ↦ inl (ap (String.◌∷◌ c) e)
          | inr (more, e) ↦
              inr (more, ap (String.◌∷◌ c) e ∙ sym (cons-append c (first_segment s) ("/" +++ more)))
        ],
      )
]

-- A segment that a text begins with is its first.
first_segment_whole : (name : String) → IsSegment name → first_segment name ≡ name
unfolding first_segment
first_segment_whole String.[] h = refl
first_segment_whole (String.◌∷◌ c s) (plain, h) =
    let f : (String.◌∷◌ c "" == "/") ≡ false =
      ground (arith, plain, eq_iff (String.◌∷◌ c "") "/") in
    rw f (ap (String.◌∷◌ c) (first_segment_whole s h))

first_segment_cut :
    (name more : String) → IsSegment name → first_segment (name +++ "/" +++ more) ≡ name
unfolding first_segment
first_segment_cut String.[] more h = subst (λ x. first_segment x ≡ "") (sym slash) refl
  where
    slash : "" +++ "/" +++ more ≡ String.◌∷◌ "/" more
    slash =
        nil-append ("/" +++ more) ∙ cons-append "/" "" more ∙ ap (String.◌∷◌ "/") (nil-append more)
first_segment_cut (String.◌∷◌ c s) more (plain, h) =
    let f : (String.◌∷◌ c "" == "/") ≡ false =
      ground (arith, plain, eq_iff (String.◌∷◌ c "") "/") in
    rw (cons-append c s ("/" +++ more), first_segment, f)
      (ap (String.◌∷◌ c) (first_segment_cut s more h))

first_segment_iff : (rest name : String) → (first_segment rest ≡ name) ↔ BeginsWith name rest
first_segment_iff rest name = (
  λ h. subst (λ x. BeginsWith x rest) h (first_segment-BeginsWith rest),
  λ (seg, begins). elim begins [
    | inl e ↦ ap first_segment e ∙ first_segment_whole name seg
    | inr (more, e) ↦ ap first_segment e ∙ first_segment_cut name more seg
  ],
)

missing : {o : Option String} {s : String} → o ≡ none → o ≡ some s → ⊥
missing e h = ground arith

-- what service_of and is_pkg find
pub service_of_iff :
    (path name : String) → name ≢ "" → (service_of path ≡ name) ↔ InService path name
unfolding service_of
service_of_iff path name named =
    elim (Option-cases (cut_prefix path (module_prefix +++ "services/"))) [
      | inl e ↦ rw e (
        λ h. absurd (named (sym h)),
        λ (n, (rest, p, begins)). absurd (missing e ((cut_prefix_iff path _ rest).1 p)),
      )
      | inr (rest, e) ↦ rw e (
        λ h.
            let begins = (first_segment_iff rest name).0 h in
            (named, (rest, (cut_prefix_iff path _ rest).0 e, begins)),
        λ (n, (rest', p, (seg, begins))).
            let same = some-injective rest' rest (sym ((cut_prefix_iff path _ rest').1 p) ∙ e) in
            (first_segment_iff rest name).1 (subst (BeginsWith name) same (seg, begins)),
      )
    ]

pub is_pkg_iff : (path : String) → (is_pkg path ≡ true) ↔ InPkg path
unfolding is_pkg
is_pkg_iff path = elim (Option-cases (cut_prefix path (module_prefix +++ "pkg/"))) [
  | inl e ↦ rw e (
    λ h. absurd (ground arith),
    λ (rest, h). absurd (missing e ((cut_prefix_iff path _ rest).1 h)),
  )
  | inr (rest, e) ↦ rw e (λ h. (rest, (cut_prefix_iff path _ rest).0 e), λ h. refl)
]
