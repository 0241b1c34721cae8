-- ===== src/Prelude/Decimal.antt =====
-- Python's `str` of an `int`: decimal digits, with a sign below 0.
use Prim.Native.Nat.{ℕ, zero, suc, ◌/◌, ◌%◌}
use Prim.Native.Char.{code}
use Prim.Native.String.{String, [], ◌∷◌, ◌++◌}
use mathlib.Core.Bool.{Bool, true, false}
use mathlib.Core.Path.{◌≡◌, refl, sym, ap, ◌∙◌}
use mathlib.Core.Logic.{inl, inr}
use text.Mathlib.Text.{◌==◌ as str_eq}
use text.Mathlib.TextEquality.{eq_iff}
use text.Mathlib.TextLemmas.{cons-append}
use boostlock.Prelude.Tests.{ltb, leb, Bool-cases, ◌==◌, if◌then◌else◌}
use boostlock.Prelude.Int.{ℤ, pos, negsuc}

abbrev digit : ℕ → String
digit d =
    if d == 0
    then "0"
    else if d == 1
    then "1"
    else if d == 2
    then "2"
    else if d == 3
    then "3"
    else if d == 4
    then "4"
    else if d == 5
    then "5"
    else if d == 6
    then "6"
    else if d == 7
    then "7"
    else if d == 8
    then "8"
    else "9"

-- One round writes the last digit; a number is below 10 after as many rounds as its value.
digits : ℕ → ℕ → String → String
digits zero n out = out
digits (suc fuel) n out =
    let rest = digits fuel (n / 10) (digit (n % 10) ++ out) in
    if ltb n 10 then digit n ++ out else rest

unfoldable pub str_ℕ : ℕ → String
unfolding digits
str_ℕ n = digits (suc n) n ""

unfoldable pub str_ℤ : ℤ → String
unfolding str_ℕ
str_ℤ (pos n) = str_ℕ n
str_ℤ (negsuc n) = "-" ++ str_ℕ (suc n)

str_target : str_ℤ (pos 4000000) ≡ "4000000"
unfolding str_ℤ
str_target = refl

-- whether a text starts with a digit or with a sign
abbrev pub starts_low : String → Bool
starts_low [] = false
starts_low (c ∷ rest) = leb (code c) 57

append-starts_low : (s t : String) → starts_low s ≡ true → starts_low (s ++ t) ≡ true
append-starts_low [] t low = cc
append-starts_low (c ∷ s) t low = rw (cons-append c s t) low

if_low :
    (b : Bool) (s t : String)
    → starts_low s ≡ true
    → starts_low t ≡ true
    → starts_low (if b then s else t) ≡ true
if_low true s t hs ht = hs
if_low false s t hs ht = ht

digit_low : (d : ℕ) → starts_low (digit d) ≡ true
digit_low d = if_low (d == 0) "0" _ refl (
    if_low (d == 1) "1" _ refl (
      if_low (d == 2) "2" _ refl (
        if_low (d == 3) "3" _ refl (
          if_low (d == 4) "4" _ refl (
            if_low (d == 5) "5" _ refl (
              if_low (d == 6) "6" _ refl
                (if_low (d == 7) "7" _ refl (if_low (d == 8) "8" _ refl refl))))))))

digit-starts_low : (d : ℕ) (out : String) → starts_low (digit d ++ out) ≡ true
digit-starts_low d out = append-starts_low (digit d) out (digit_low d)

digits-starts_low :
    (fuel n : ℕ) (out : String) → starts_low out ≡ true → starts_low (digits fuel n out) ≡ true
unfolding digits
digits-starts_low zero n out low = low
digits-starts_low (suc fuel) n out low =
    if_low (ltb n 10) _ _ (digit-starts_low n out)
      (digits-starts_low fuel (n / 10) (digit (n % 10) ++ out) (digit-starts_low (n % 10) out))

str_ℤ-starts_low : (n : ℤ) → starts_low (str_ℤ n) ≡ true
unfolding str_ℤ str_ℕ digits
str_ℤ-starts_low (pos n) =
    if_low (ltb n 10) _ _ (digit-starts_low n "")
      (digits-starts_low n (n / 10) _ (digit-starts_low (n % 10) ""))
str_ℤ-starts_low (negsuc n) = append-starts_low "-" (str_ℕ (suc n)) refl

clash : {A : Type 0} (b : Bool) → b ≡ false → b ≡ true → A
clash b h1 h2 = cc

-- a number never reads like a word
pub str_ℤ-other_word :
    (n : ℤ) (word : String) → starts_low word ≡ false → str_eq (str_ℤ n) word ≡ false
str_ℤ-other_word n word high = elim (Bool-cases (str_eq (str_ℤ n) word)) [
  | inl same ↦
      clash (starts_low word) high
        (ap starts_low (sym ((eq_iff (str_ℤ n) word).0 same)) ∙ str_ℤ-starts_low n)
  | inr other ↦ other
]
