-- ===== src/Identifiers/Digits.antt =====
-- The four-digit numbers of Code/PrivateChain/Server/identifier_utils.cpp, written and read back.
use hybrid_blockchain_for_re.Prelude.{
  ℕ, zero, suc, ◌+◌, ◌-◌, ◌<◌, ◌≡◌, refl, ◌∙◌, true, [], ◌∷◌, ◌++◌, Text, decimal, decimal_value,
  decimal_value-decimal, decimal_value-zeros, decimal-IsDigit, length-decimal_four, IsDigit, All,
  All-append, length, length-append, length-replicate, replicate, drop-append_length, arith,
  ==_refl,
}
use hybrid_blockchain_for_re.Workflow.{four_digits}
use hybrid_blockchain_for_re.Identifiers.{
  all_digits, is_four_digit_suffix, starts_with, matches_prefix,
}

-- Numbers below ten thousand are written with four digits.
pub length-four_digits : (n : ℕ) → n < 10000 → length (four_digits n) ≡ 4
unfolding four_digits
length-four_digits n h = omega (
  arith,
  length-append (replicate (4 - length (decimal n)) b'0') (decimal n),
  length-replicate {A = ℕ} (4 - length (decimal n)) b'0',
  length-decimal_four n h,
)

pub decimal_value-four_digits : (n : ℕ) → decimal_value (four_digits n) ≡ n
unfolding four_digits
decimal_value-four_digits n =
    decimal_value-zeros (4 - length (decimal n)) (decimal n) ∙ decimal_value-decimal n

zeros-IsDigit : (k : ℕ) → All IsDigit (replicate k b'0')
zeros-IsDigit zero = tt
zeros-IsDigit (suc k) = (omega arith, zeros-IsDigit k)

all_digits-IsDigit : (s : Text) → All IsDigit s → all_digits s ≡ true
unfolding all_digits
all_digits-IsDigit [] h = refl
all_digits-IsDigit (c ∷ s) h = ground (arith, all_digits-IsDigit s)

pub all_digits-four_digits : (n : ℕ) → all_digits (four_digits n) ≡ true
unfolding four_digits
all_digits-four_digits n = all_digits-IsDigit _ (
    All-append IsDigit (replicate (4 - length (decimal n)) b'0') (decimal n)
      (zeros-IsDigit (4 - length (decimal n))) (decimal-IsDigit n))

pub starts_with-append : (prefix s : Text) → starts_with (prefix ++ s) prefix ≡ true
unfolding starts_with
starts_with-append [] s = refl
starts_with-append (c ∷ prefix) s = ground (arith, starts_with-append prefix s)

-- A prefix with a number below ten thousand matches the prefix.
pub matches_prefix-four_digits :
    (prefix : Text) (n : ℕ) → n < 10000 → matches_prefix (prefix ++ four_digits n) prefix ≡ true
unfolding matches_prefix is_four_digit_suffix
matches_prefix-four_digits prefix n h =
    rw
      (
        starts_with-append prefix (four_digits n),
        length-append prefix (four_digits n),
        length-four_digits n h,
        ==_refl (length prefix + 4),
        drop-append_length (length prefix) prefix (four_digits n) refl,
        all_digits-four_digits n,
      )
      refl
