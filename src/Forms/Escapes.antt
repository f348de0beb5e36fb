-- ===== src/Forms/Escapes.antt =====
-- Code/PrivateChain/Server/server.cpp: what percent_encode_component writes, percent_decode and
-- form_decode read back.
use hybrid_blockchain_for_re.Prelude.{
  ℕ, ◌+◌, ◌*◌, ◌/◌, ◌%◌, ◌<◌, ◌≡◌, refl, ap, ◌∙◌, true, false, ◌||◌, some, [], ◌∷◌, Text, All,
  arith, ◌==◌, Bool-cases, inl, inr,
}
use hybrid_blockchain_for_re.Forms.{
  hex_value, percent, prepend, percent_decode, plus_to_space, form_decode, unreserved, hexadecimal,
  percent_encode_component,
}

-- The bytes of a C string: not 0.
abbrev pub IsByte : ℕ → Type 0
IsByte c = (0 < c) × (c < 256)

percent_decode-plain :
    (c : ℕ) (s : Text)
    → (c == percent) ≡ false
    → percent_decode (c ∷ s) ≡ prepend c (percent_decode s)
unfolding percent_decode
percent_decode-plain c [] h = rw h refl
percent_decode-plain c (x ∷ []) h = rw h refl
percent_decode-plain c (x ∷ y ∷ s) h = rw h refl

hex_value-hexadecimal : (d : ℕ) → d < 16 → hex_value (hexadecimal d) ≡ some d
unfolding hex_value
hex_value-hexadecimal d h = ground (arith, h)

unreserved-plain : (c : ℕ) → unreserved c ≡ true → (c == percent) ≡ false
unreserved-plain c h = ground (arith, h)

-- A text of bytes other than 0 comes back from its percent encoding.
pub percent_decode-encode :
    (s : Text) → All IsByte s → percent_decode (percent_encode_component s) ≡ some s
unfolding percent_decode percent_encode_component
percent_decode-encode [] h = refl
percent_decode-encode (c ∷ s) h = elim (Bool-cases (unreserved c)) [
  | inl plain ↦ rw plain (
      percent_decode-plain c (percent_encode_component s) (unreserved-plain c plain)
      ∙ ap (prepend c) (percent_decode-encode s h.1))
  | inr escape ↦
      let whole : (c / 16) % 16 * 16 + c % 16 ≡ c = omega (arith, h.0) in
      let nonzero : (c == 0) ≡ false = ground (arith, h.0) in
      rw
        (
          escape,
          hex_value-hexadecimal ((c / 16) % 16) (omega arith),
          hex_value-hexadecimal (c % 16) (omega arith),
          whole,
          nonzero,
          percent_decode-encode s h.1,
        )
        refl
]

-- A character that no percent encoding has: none of the separators of a form.
abbrev pub IsSafe : ℕ → Type 0
IsSafe c = (c == b'&' || (c == b'=' || c == 43)) ≡ false

unreserved-IsSafe : (c : ℕ) → unreserved c ≡ true → IsSafe c
unreserved-IsSafe c h = ground (arith, h)

hexadecimal-IsSafe : (d : ℕ) → d < 16 → IsSafe (hexadecimal d)
hexadecimal-IsSafe d h = ground (arith, h)

pub encode-IsSafe : (s : Text) → All IsSafe (percent_encode_component s)
unfolding percent_encode_component
encode-IsSafe [] = tt
encode-IsSafe (c ∷ s) = elim (Bool-cases (unreserved c)) [
  | inl plain ↦ rw plain (unreserved-IsSafe c plain, encode-IsSafe s)
  | inr escape ↦ rw escape (
    refl,
    (
      hexadecimal-IsSafe ((c / 16) % 16) (omega arith),
      (hexadecimal-IsSafe (c % 16) (omega arith), encode-IsSafe s),
    ),
  )
]

plus_to_space-same : (s : Text) → All IsSafe s → plus_to_space s ≡ s
unfolding plus_to_space
plus_to_space-same [] h = refl
plus_to_space-same (c ∷ s) h =
    let no_plus : (c == 43) ≡ false = ground (arith, h.0) in
    rw no_plus (ap (◌∷◌ c) (plus_to_space-same s h.1))

-- The same for a form's text, in which '+' stands for a space.
pub form_decode-encode :
    (s : Text) → All IsByte s → form_decode (percent_encode_component s) ≡ some s
unfolding form_decode
form_decode-encode s h =
    ap percent_decode (plus_to_space-same (percent_encode_component s) (encode-IsSafe s))
    ∙ percent_decode-encode s h
