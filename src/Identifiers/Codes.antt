-- ===== src/Identifiers/Codes.antt =====
-- The product codes of Code/PrivateChain/Server/identifier_utils.cpp: words of capital letters and
-- digits with single dashes between them, which normalizing leaves as they are.
use hybrid_blockchain_for_re.Prelude.{
  ℕ, ◌≡◌, refl, ap, sym, ◌∙◌, Bool, true, false, ◌||◌, ◌&&◌, not, [], ◌∷◌, ◌++◌, append-nil,
  append_assoc, Text, is_empty, All, arith, if◌then◌else◌, Bool-cases, inl, inr, ◌⊎◌,
}
use hybrid_blockchain_for_re.Identifiers.{
  is_space, is_digit, is_upper, is_alnum, to_upper, trim_front, trim_back, trim_copy, dash,
  code_loop, product_code,
}

-- A capital letter or a digit.
abbrev pub IsCodeChar : ℕ → Type 0
IsCodeChar c = (is_digit c || is_upper c) ≡ true

-- What may stand behind a letter or digit, or (with `true`) behind a dash or in front.
abbrev pub After : Bool → Text → Type 0
After true [] = ⊥
After false [] = Unit {0}
After must (c ∷ s) = (IsCodeChar c × After false s) ⊎ ((must ≡ false) × (c ≡ dash) × After true s)

-- Words of letters and digits with one dash between two of them; or nothing.
abbrev pub IsCode : Text → Type 0
IsCode s = (s ≡ []) ⊎ After true s

upper-IsCodeChar : (c : ℕ) → is_alnum c ≡ true → IsCodeChar (to_upper c)
upper-IsCodeChar c h = ground (arith, h)

code_char-alnum :
    (c : ℕ) → IsCodeChar c → (is_alnum c ≡ true) × (to_upper c ≡ c) × (is_space c ≡ false)
code_char-alnum c h = (ground (arith, h), ground (arith, h), ground (arith, h))

After-snoc :
    (must : Bool) (s : Text) (c : ℕ) → After must s → IsCodeChar c → After must (s ++ c ∷ [])
After-snoc true [] c a h = absurd a
After-snoc false [] c a h = inl (h, tt)
After-snoc must (x ∷ s) c (inl (k, a)) h = inl (k, After-snoc false s c a h)
After-snoc must (x ∷ s) c (inr (m, d, a)) h = inr (m, d, After-snoc true s c a h)

After-dash :
    (must : Bool) (s : Text) (c : ℕ)
    → After must s
    → IsCodeChar c
    → After must ((s ++ dash ∷ []) ++ c ∷ [])
After-dash true [] c a h = absurd a
After-dash false [] c a h = inr (refl, refl, inl (h, tt))
After-dash must (x ∷ s) c (inl (k, a)) h = inl (k, After-dash false s c a h)
After-dash must (x ∷ s) c (inr (m, d, a)) h = inr (m, d, After-dash true s c a h)

grown-IsCode :
    (code : Text) (pending : Bool) (c : ℕ)
    → IsCode code
    → IsCodeChar c
    → IsCode ((if pending && not (is_empty code) then code ++ dash ∷ [] else code) ++ c ∷ [])
grown-IsCode [] true c v h = inr (inl (h, tt))
grown-IsCode [] false c v h = inr (inl (h, tt))
grown-IsCode (x ∷ code) pending c (inl e) h = absurd (cc e)
grown-IsCode (x ∷ code) true c (inr a) h = inr (After-dash true (x ∷ code) c a h)
grown-IsCode (x ∷ code) false c (inr a) h = inr (After-snoc true (x ∷ code) c a h)

code_loop-IsCode :
    (code : Text) (pending : Bool) (s : Text) → IsCode code → IsCode (code_loop code pending s)
unfolding code_loop
code_loop-IsCode code pending [] v = v
code_loop-IsCode code pending (c ∷ s) v = elim (Bool-cases (is_alnum c)) [
  | inl kept ↦ rw kept (
      code_loop-IsCode
        ((if pending && not (is_empty code) then code ++ dash ∷ [] else code) ++ to_upper c ∷ [])
        false s (grown-IsCode code pending (to_upper c) v (upper-IsCodeChar c kept)))
  | inr skipped ↦ rw skipped (code_loop-IsCode code (not (is_empty code)) s v)
]

full_text : (code : Text) (c : ℕ) → is_empty (code ++ c ∷ []) ≡ false
full_text [] c = refl
full_text (x ∷ code) c = refl

-- On the rest of a code, the loop copies it.
code_loop-After :
    (must : Bool) (code s : Text)
    → is_empty code ≡ false
    → After must s
    → code_loop code must s ≡ (if must then code ++ dash ∷ s else code ++ s)
unfolding code_loop
code_loop-After true code [] h a = absurd a
code_loop-After false code [] h a = sym (append-nil code)
code_loop-After true code (c ∷ s) h (inl (k, a)) =
    let (alnum, same, _) = code_char-alnum c k in
    rw (alnum, h, same)
      (code_loop-After false ((code ++ dash ∷ []) ++ c ∷ []) s (full_text (code ++ dash ∷ []) c) a
        ∙ append_assoc (code ++ dash ∷ []) (c ∷ []) s
        ∙ append_assoc code (dash ∷ []) (c ∷ s))
code_loop-After false code (c ∷ s) h (inl (k, a)) =
    let (alnum, same, _) = code_char-alnum c k in
    rw (alnum, same)
      (code_loop-After false (code ++ c ∷ []) s (full_text code c) a ∙ append_assoc code (c ∷ []) s)
code_loop-After true code (c ∷ s) h (inr (m, d, a)) = absurd (cc m)
code_loop-After false code (c ∷ s) h (inr (m, d, a)) = rw (d, h) (code_loop-After true code s h a)

not_spaces : (must : Bool) (s : Text) → After must s → All (λ c. is_space c ≡ false) s
not_spaces true [] a = absurd a
not_spaces false [] a = tt
not_spaces must (c ∷ s) (inl (k, a)) = ((code_char-alnum c k).2, not_spaces false s a)
not_spaces must (c ∷ s) (inr (m, d, a)) = (rw d refl, not_spaces true s a)

trim_back-same : (s : Text) → All (λ c. is_space c ≡ false) s → trim_back s ≡ s
unfolding trim_back
trim_back-same [] h = refl
trim_back-same (c ∷ s) h = rw (h.0, trim_back-same s h.1) refl

trim_copy-same : (s : Text) → All (λ c. is_space c ≡ false) s → trim_copy s ≡ s
unfolding trim_copy trim_front trim_back
trim_copy-same [] h = refl
trim_copy-same (c ∷ s) h = rw (h.0) (trim_back-same (c ∷ s) h)

code_fixed : (s : Text) → IsCode s → product_code s ≡ s
unfolding product_code code_loop trim_copy trim_front trim_back
code_fixed s (inl e) = rw e refl
code_fixed [] (inr a) = absurd a
code_fixed (c ∷ s) (inr (inr (m, d, a))) = absurd (cc m)
code_fixed (c ∷ s) (inr (inl (k, a))) =
    let (alnum, same, _) = code_char-alnum c k in
    let trimmed = trim_copy-same (c ∷ s) (not_spaces true (c ∷ s) (inl (k, a))) in
    ap (code_loop [] false) trimmed ∙ rw (alnum, same) (code_loop-After false (c ∷ []) s refl a)

-- A product code is empty, or made of words of capital letters and digits with one dash between
-- two of them; and normalizing it again changes nothing.
pub product_code-IsCode :
    (product : Text)
    → IsCode (product_code product) × (product_code (product_code product) ≡ product_code product)
product_code-IsCode product =
    let v : IsCode (product_code product) =
      unfold product_code in code_loop-IsCode [] false (trim_copy product) (inl refl) in
    (v, code_fixed (product_code product) v)
