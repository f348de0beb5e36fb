-- ===== src/Prelude/Bytes.antt =====
-- `std::string` as its list of bytes, the comparison of texts, and `std::to_string`.
use Prim.Native.Char.{code}
use Prim.Native.String.{String}
use Prim.Native.Nat.{ℕ, zero, suc, ◌+◌, ◌-◌, ◌*◌, ◌/◌, ◌%◌, ◌≤◌, ◌<◌}
use mathlib.Core.Path.{◌≡◌, refl, sym, ap, ◌∙◌}
use mathlib.Core.Logic.{◌↔◌, ◌⊎◌, inl, inr, ◌≢◌}
use mathlib.Core.Bool.{Bool, true, false, ◌&&◌}
use mathlib.Core.List.{List, [], ◌∷◌, ◌++◌}
use native.Mathlib.Omega.{arith}
use hybrid_blockchain_for_re.Prelude.Tests.{ltb, ◌==◌, if◌then◌else◌, Bool-cases}
use hybrid_blockchain_for_re.Prelude.Lists.{All, All-append, length, length-append, replicate}
use hybrid_blockchain_for_re.Prelude.Int.{ℤ, pos, negsuc}

abbrev pub Text : Type 0
Text = List ℕ

-- The bytes of an ASCII literal.
abbrev pub codes : String → Text
codes String.[] = []
codes (String.◌∷◌ c s) = code c ∷ codes s

unfoldable pub text_eq : Text → Text → Bool
text_eq [] [] = true
text_eq [] (y ∷ ys) = false
text_eq (x ∷ xs) [] = false
text_eq (x ∷ xs) (y ∷ ys) = x == y && text_eq xs ys

pub text_eq_refl : (s : Text) → text_eq s s ≡ true
unfolding text_eq
text_eq_refl [] = refl
text_eq_refl (x ∷ xs) = ground (arith, text_eq_refl xs)

pub text_eq→eq : (s t : Text) → text_eq s t ≡ true → s ≡ t
unfolding text_eq
text_eq→eq [] [] h = refl
text_eq→eq [] (y ∷ ys) h = cc
text_eq→eq (x ∷ xs) [] h = cc
text_eq→eq (x ∷ xs) (y ∷ ys) h = ground (arith, text_eq→eq xs ys)

pub text_eq_iff : (s t : Text) → (text_eq s t ≡ true) ↔ (s ≡ t)
text_eq_iff s t = (text_eq→eq s t, λ e. rw (← e) (text_eq_refl s))

pub text_eq-ne : (s t : Text) → s ≢ t → text_eq s t ≡ false
text_eq-ne s t h = ground (arith, text_eq→eq s t)

pub text_eq_false→ne : (s t : Text) → text_eq s t ≡ false → s ≢ t
text_eq_false→ne s t h e = ground (arith, text_eq_iff s t)

pub Text-cases : (s t : Text) → (s ≡ t) ⊎ (s ≢ t)
Text-cases s t = elim (Bool-cases (text_eq s t)) [
  | inl h ↦ inl (text_eq→eq s t h)
  | inr h ↦ inr (text_eq_false→ne s t h)
]

-- s.empty()
abbrev pub is_empty {ℓ} : {A : Type ℓ} → List A → Bool
is_empty [] = true
is_empty (x ∷ xs) = false

-- The decimal digits of a number, the leading digit first. `f` bounds the digits' count.
decimal_fuel : ℕ → ℕ → Text
decimal_fuel zero n = []
decimal_fuel (suc f) n =
    let more = decimal_fuel f (n / 10) ++ (48 + n % 10) ∷ [] in
    if ltb n 10 then (48 + n) ∷ [] else more

-- std::to_string of an unsigned or a non-negative number.
unfoldable pub decimal : ℕ → Text
unfolding decimal_fuel
decimal n = decimal_fuel (suc n) n

-- std::to_string of an int.
unfoldable pub to_string : ℤ → Text
unfolding decimal
to_string (pos n) = decimal n
to_string (negsuc n) = 45 ∷ decimal (suc n)

-- The number that a text of decimal digits stands for, as std::stoi reads it.
value_from : ℕ → Text → ℕ
value_from acc [] = acc
value_from acc (c ∷ s) = value_from (acc * 10 + (c - 48)) s

unfoldable pub decimal_value : Text → ℕ
unfolding value_from
decimal_value s = value_from 0 s

abbrev pub IsDigit : ℕ → Type 0
IsDigit c = (48 ≤ c) × (c ≤ 57)

value_from-append :
    (acc : ℕ) (s t : Text) → value_from acc (s ++ t) ≡ value_from (value_from acc s) t
unfolding value_from
value_from-append acc [] t = refl
value_from-append acc (c ∷ s) t = value_from-append (acc * 10 + (c - 48)) s t

decimal_fuel-IsDigit : (f n : ℕ) → All IsDigit (decimal_fuel f n)
unfolding decimal_fuel
decimal_fuel-IsDigit zero n = tt
decimal_fuel-IsDigit (suc f) n = elim (Bool-cases (ltb n 10)) [
  | inl h ↦ rw h (ground arith)
  | inr h ↦ rw h (All-append IsDigit _ _ (decimal_fuel-IsDigit f (n / 10)) (omega arith))
]

pub decimal-IsDigit : (n : ℕ) → All IsDigit (decimal n)
unfolding decimal
decimal-IsDigit n = decimal_fuel-IsDigit (suc n) n

value-decimal_fuel : (f n : ℕ) → n < f → value_from 0 (decimal_fuel f n) ≡ n
unfolding decimal_fuel value_from
value-decimal_fuel zero n h = elim h [ ]
value-decimal_fuel (suc f) n h = elim (Bool-cases (ltb n 10)) [
  | inl e ↦ rw e (ground arith)
  | inr e ↦
      rw (e, value_from-append 0 (decimal_fuel f (n / 10)) ((48 + n % 10) ∷ []))
        (ground (arith, value-decimal_fuel f (n / 10)))
]

-- Reading back what was printed gives the number.
pub decimal_value-decimal : (n : ℕ) → decimal_value (decimal n) ≡ n
unfolding decimal_value decimal
decimal_value-decimal n = value-decimal_fuel (suc n) n (omega arith)

-- A text of one line.
abbrev pub IsLine : Text → Type 0
IsLine = All (λ c. c ≢ 10)

-- Two texts split at their first `c` are equal part by part.
pub split_injective :
    (c : ℕ) (a b r s : Text)
    → All (λ x. x ≢ c) a
    → All (λ x. x ≢ c) b
    → a ++ c ∷ r ≡ b ++ c ∷ s
    → (a ≡ b) × (r ≡ s)
split_injective c [] [] r s ha hb e = (refl, ground (arith, e))
split_injective c [] (y ∷ b) r s ha hb e = absurd (hb.0 (ground (arith, e)))
split_injective c (x ∷ a) [] r s ha hb e = absurd (ha.0 (ground (arith, e)))
split_injective c (x ∷ a) (y ∷ b) r s ha hb e = ground (arith, split_injective c a b r s ha.1 hb.1)

digits-IsLine : (s : Text) → All IsDigit s → IsLine s
digits-IsLine [] h = tt
digits-IsLine (c ∷ s) h = (omega arith, digits-IsLine s h.1)

pub to_string-IsLine : (n : ℤ) → IsLine (to_string n)
unfolding to_string
to_string-IsLine (pos n) = digits-IsLine (decimal n) (decimal-IsDigit n)
to_string-IsLine (negsuc n) =
    (omega arith, digits-IsLine (decimal (suc n)) (decimal-IsDigit (suc n)))

pub decimal_injective : (m n : ℕ) → decimal m ≡ decimal n → m ≡ n
decimal_injective m n e =
    sym (decimal_value-decimal m) ∙ ap decimal_value e ∙ decimal_value-decimal n

minus-ne-digits : (s t : Text) → All IsDigit s → s ≢ 45 ∷ t
minus-ne-digits [] t h e = cc
minus-ne-digits (c ∷ s) t h e = ground (arith, e)

pub to_string_injective : (m n : ℤ) → to_string m ≡ to_string n → m ≡ n
unfolding to_string
to_string_injective (pos m) (pos n) e = ap pos (decimal_injective m n e)
to_string_injective (pos m) (negsuc n) e =
    absurd (minus-ne-digits (decimal m) _ (decimal-IsDigit m) e)
to_string_injective (negsuc m) (pos n) e =
    absurd (minus-ne-digits (decimal n) _ (decimal-IsDigit n) (sym e))
to_string_injective (negsuc m) (negsuc n) e =
    let same : suc m ≡ suc n = decimal_injective (suc m) (suc n) (ground (arith, e)) in
    ground (arith, same)

-- Zeros in front do not change the value.
pub decimal_value-zeros : (k : ℕ) (s : Text) → decimal_value (replicate k 48 ++ s) ≡ decimal_value s
unfolding decimal_value value_from
decimal_value-zeros zero s = refl
decimal_value-zeros (suc k) s = decimal_value-zeros k s

power_of_ten : ℕ → ℕ
power_of_ten zero = 1
power_of_ten (suc k) = 10 * power_of_ten k

length-decimal_fuel : (f n k : ℕ) → n < power_of_ten (suc k) → length (decimal_fuel f n) ≤ suc k
unfolding decimal_fuel power_of_ten
length-decimal_fuel zero n k h = omega arith
length-decimal_fuel (suc f) n zero h = ground (arith, h)
length-decimal_fuel (suc f) n (suc k) h = elim (Bool-cases (ltb n 10)) [
  | inl one ↦ rw one (omega arith)
  | inr more ↦ rw more (
      omega (
        arith,
        length-append (decimal_fuel f (n / 10)) ((48 + n % 10) ∷ []),
        length-decimal_fuel f (n / 10) k (omega (arith, h)),
      ))
]

-- A number below ten thousand has at most four digits.
pub length-decimal_four : (n : ℕ) → n < 10000 → length (decimal n) ≤ 4
unfolding decimal power_of_ten
length-decimal_four n h = length-decimal_fuel (suc n) n 3 h
