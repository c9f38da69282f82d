-- ===== src/Prelude/Text.antt =====
-- Texts: Go's `strings` and `strconv` as far as the program uses them.
use Prim.Native.Nat.{ℕ, zero, suc, ◌+◌, ◌/◌, ◌%◌}
use Prim.Native.Char.{Char, code}
use mathlib.Core.Bool.{Bool, true, false, ◌&&◌, ◌||◌}
use mathlib.Core.Option.{Option, none, some}
use mathlib.Core.List.{List, [], ◌∷◌}
use text.Mathlib.Text.{◌==◌}
pub use text.Mathlib.Text.{starts_with}
use Prim.Native.String.{String}
use Prim.Native.String
use mathlib.Core.Path.{◌≡◌, refl, ap, ◌∙◌}
use text.Mathlib.TextLemmas.{cons-append, nil-append}
use event_tracking.Prelude.Int.{ℤ, pos, negsuc}
use event_tracking.Prelude.Tests.{ltb, leb, eqb, if◌then◌else◌}

infixr 67 ◌∷ˢ◌
abbrev ◌∷ˢ◌ : Char → String → String
c ∷ˢ s = String.◌∷◌ c s

infixr 65 ◌+++◌
-- `s + t` on Go strings
abbrev pub ◌+++◌ : String → String → String
s +++ t = String.◌++◌ s t

digit : ℕ → String
digit zero = "0"
digit (suc zero) = "1"
digit (suc (suc zero)) = "2"
digit (suc (suc (suc zero))) = "3"
digit (suc (suc (suc (suc zero)))) = "4"
digit (suc (suc (suc (suc (suc zero))))) = "5"
digit (suc (suc (suc (suc (suc (suc zero)))))) = "6"
digit (suc (suc (suc (suc (suc (suc (suc zero))))))) = "7"
digit (suc (suc (suc (suc (suc (suc (suc (suc zero)))))))) = "8"
digit _ = "9"

-- A number below 2 ^ 64 has at most 20 digits.
decimal_fuel : ℕ → ℕ → String
decimal_fuel zero n = ""
decimal_fuel (suc f) n =
    let more = decimal_fuel f (n / 10) in if ltb n 10 then digit n else more +++ digit (n % 10)

-- `%d` and `strconv.Itoa` at a number that is not negative and fits 64 bits
unfoldable pub decimal : ℕ → String
unfolding decimal_fuel digit
decimal n = decimal_fuel 20 n

-- `%d` at a signed number
unfoldable pub decimal_ℤ : ℤ → String
decimal_ℤ (pos n) = decimal n
decimal_ℤ (negsuc n) = "-" +++ decimal (suc n)

decimal_test : decimal 1048576 ≡ "1048576"
unfolding decimal
decimal_test = refl

-- The code points that Go's unicode.IsSpace names.
unfoldable pub is_space : Char → Bool
is_space c =
    let n = code c in
    leb 9 n && leb n 13
    || eqb n 32
    || eqb n 0x85
    || eqb n 0xa0
    || eqb n 0x1680
    || leb 0x2000 n && leb n 0x200a
    || eqb n 0x2028
    || eqb n 0x2029
    || eqb n 0x202f
    || eqb n 0x205f
    || eqb n 0x3000

push : String → Char → String
push s c = s +++ (String.◌∷◌ c "")

-- strings.TrimSpace, from the left and from the right
trim_left : String → String
trim_left String.[] = ""
trim_left (String.◌∷◌ c s) = let rest = trim_left s in if is_space c then rest else String.◌∷◌ c s

trim_right : String → String
trim_right String.[] = ""
trim_right (String.◌∷◌ c s) =
    let rest = trim_right s in if is_space c && rest == "" then "" else String.◌∷◌ c rest

unfoldable pub trim_space : String → String
unfolding trim_left trim_right is_space
trim_space s = trim_right (trim_left s)

-- strings.Fields: the maximal runs of characters that are no space
fields_from : String → String → List String
fields_from cur String.[] = if cur == "" then [] else cur ∷ []
fields_from cur (String.◌∷◌ c s) =
    let closed = if cur == "" then fields_from "" s else cur ∷ fields_from "" s in
    let longer = fields_from (push cur c) s in if is_space c then closed else longer

unfoldable pub fields : String → List String
unfolding fields_from push is_space
fields s = fields_from "" s

-- strings.Cut(s, " "): the texts before and after the first space
cut_from : String → String → Option (String × String)
cut_from before String.[] = none
cut_from before (String.◌∷◌ c s) =
    let rest = cut_from (push before c) s in if eqb (code c) 32 then some (before, s) else rest

unfoldable pub cut_space : String → Option (String × String)
unfolding cut_from push
cut_space s = cut_from "" s

-- strings.EqualFold against a text of ASCII letters other than k and s, which have no other folds
lower : Char → ℕ
lower c = if leb 65 (code c) && leb (code c) 90 then code c + 32 else code c

unfoldable pub equal_fold : String → String → Bool
unfolding lower
equal_fold String.[] String.[] = true
equal_fold String.[] (String.◌∷◌ d t) = false
equal_fold (String.◌∷◌ c s) String.[] = false
equal_fold (String.◌∷◌ c s) (String.◌∷◌ d t) = eqb (lower c) (lower d) && equal_fold s t

fields_test : fields " read  write:events" ≡ "read" ∷ "write:events" ∷ []
unfolding fields
fields_test = refl

trim_test : trim_space "  a b " ≡ "a b"
unfolding trim_space
trim_test = refl

abbrev pub NoSpace : String → Type 0
NoSpace String.[] = Unit
NoSpace (String.◌∷◌ c s) = (is_space c ≡ false) × NoSpace s

trim_right_id : (s : String) → NoSpace s → trim_right s ≡ s
unfolding trim_right
trim_right_id String.[] h = refl
trim_right_id (String.◌∷◌ c s) (p, h) = rw (p, trim_right_id s h)

trim_left_id : (s : String) → NoSpace s → trim_left s ≡ s
unfolding trim_left
trim_left_id String.[] h = refl
trim_left_id (String.◌∷◌ c s) (p, h) = rw p

-- A text without spaces is its own trimming.
pub trim_space_id : (s : String) → NoSpace s → trim_space s ≡ s
unfolding trim_space
trim_space_id s h = rw (trim_left_id s h) (trim_right_id s h)

bearer_chars : (s : String) → "Bearer " +++ s ≡ "B" ∷ˢ "e" ∷ˢ "a" ∷ˢ "r" ∷ˢ "e" ∷ˢ "r" ∷ˢ " " ∷ˢ s
bearer_chars s =
    cons-append "B" "earer " s
    ∙ ap (String.◌∷◌ "B") (
        cons-append "e" "arer " s
        ∙ ap (String.◌∷◌ "e") (
            cons-append "a" "rer " s
            ∙ ap (String.◌∷◌ "a") (
                cons-append "r" "er " s
                ∙ ap (String.◌∷◌ "r") (
                    cons-append "e" "r " s
                    ∙ ap (String.◌∷◌ "e") (
                        cons-append "r" " " s
                        ∙ ap (String.◌∷◌ "r")
                            (cons-append " " "" s ∙ ap (String.◌∷◌ " ") (nil-append s)))))))

-- The scheme of a bearer credential is cut off whole.
pub cut_space-bearer : (s : String) → cut_space ("Bearer " +++ s) ≡ some ("Bearer", s)
unfolding cut_space
cut_space-bearer s = rw (bearer_chars s) refl
