-- ===== src/Forms/Printed.antt =====
-- Code/PrivateChain/Server/server.cpp, `parse_form`: a form that is written from fields is parsed
-- into these fields.
use hybrid_blockchain_for_re.Prelude.{
  ◌≡◌, refl, ap, ◌∙◌, false, some, List, [], ◌∷◌, ◌++◌, Text, is_empty, All, arith, ◌==◌,
}
use hybrid_blockchain_for_re.Forms.{
  percent_encode_component, split_text, cut_at, parse_pairs, parse_form,
}
use hybrid_blockchain_for_re.Forms.Escapes.{IsByte, IsSafe, encode-IsSafe, form_decode-encode}

-- A pair of a form, and a form of one pair or more.
print_pair : Text × Text → Text
print_pair (key, value) = percent_encode_component key ++ b'=' ∷ percent_encode_component value

unfoldable pub print_form : Text × Text → List (Text × Text) → Text
unfolding print_pair
print_form p [] = print_pair p
print_form p (q ∷ pairs) = print_pair p ++ b'&' ∷ print_form q pairs

-- A field with a name; the bytes are other than 0.
abbrev pub IsField : Text × Text → Type 0
IsField (key, value) = (is_empty key ≡ false) × All IsByte key × All IsByte value

-- The fields, the last one in front.
abbrev pub push_fields : List (Text × Text) → List (Text × Text) → List (Text × Text)
push_fields fields [] = fields
push_fields fields (p ∷ pairs) = push_fields (p ∷ fields) pairs

NoAmpersand : Text → Type 0
NoAmpersand s = All (λ c. (c == b'&') ≡ false) s

split_text-rest :
    (s rest : Text) → NoAmpersand s → split_text (s ++ b'&' ∷ rest) b'&' ≡ s ∷ split_text rest b'&'
unfolding NoAmpersand split_text
split_text-rest [] rest h = refl
split_text-rest (c ∷ s) rest h = rw (h.0, split_text-rest s rest h.1) refl

split_text-last : (s : Text) → NoAmpersand s → split_text s b'&' ≡ s ∷ []
unfolding NoAmpersand split_text
split_text-last [] h = refl
split_text-last (c ∷ s) h = rw (h.0, split_text-last s h.1) refl

cut_at-first : (s rest : Text) → All IsSafe s → cut_at b'=' (s ++ b'=' ∷ rest) ≡ some (s, rest)
unfolding cut_at
cut_at-first [] rest h = refl
cut_at-first (c ∷ s) rest h =
    let other : (c == b'=') ≡ false = ground (arith, h.0) in
    rw (other, cut_at-first s rest h.1) refl

safe-plain : (t : Text) → All IsSafe t → NoAmpersand t
unfolding NoAmpersand
safe-plain [] h = tt
safe-plain (c ∷ t) h = (ground (arith, h.0), safe-plain t h.1)

safe-NoAmpersand : (s t : Text) → All IsSafe s → All IsSafe t → NoAmpersand (s ++ b'=' ∷ t)
unfolding NoAmpersand
safe-NoAmpersand [] t hs ht = (refl, safe-plain t ht)
safe-NoAmpersand (c ∷ s) t hs ht = (ground (arith, hs.0), safe-NoAmpersand s t hs.1 ht)

print_pair-NoAmpersand : (p : Text × Text) → NoAmpersand (print_pair p)
unfolding print_pair
print_pair-NoAmpersand (key, value) =
    safe-NoAmpersand (percent_encode_component key) (percent_encode_component value)
      (encode-IsSafe key) (encode-IsSafe value)

-- One printed pair is parsed into its field.
parse_pairs-pair :
    (p : Text × Text) (pieces : List Text) (fields : List (Text × Text))
    → IsField p
    → parse_pairs (print_pair p ∷ pieces) fields ≡ parse_pairs pieces (p ∷ fields)
unfolding parse_pairs print_pair
parse_pairs-pair (key, value) pieces fields (named, bytes, value_bytes) =
    rw
      (
        parse_pairs,
        print_pair,
        cut_at-first (percent_encode_component key) (percent_encode_component value)
            (encode-IsSafe key),
        form_decode-encode key bytes,
        form_decode-encode value value_bytes,
        named,
      )
      refl

parse_pairs-print_form :
    (p : Text × Text) (pairs fields : List (Text × Text))
    → All IsField (p ∷ pairs)
    → parse_pairs (split_text (print_form p pairs) b'&') fields
      ≡ some (push_fields fields (p ∷ pairs))
unfolding print_form
parse_pairs-print_form p [] fields h =
    ap (λ x. parse_pairs x fields) (split_text-last (print_pair p) (print_pair-NoAmpersand p))
    ∙ parse_pairs-pair p [] fields h.0
    ∙ unfold parse_pairs in refl
parse_pairs-print_form p (q ∷ pairs) fields h =
    ap (λ x. parse_pairs x fields)
      (split_text-rest (print_pair p) (print_form q pairs) (print_pair-NoAmpersand p))
    ∙ parse_pairs-pair p (split_text (print_form q pairs) b'&') fields h.0
    ∙ parse_pairs-print_form q pairs (p ∷ fields) h.1

-- A form that is written from fields, in percent encoding, is parsed into the map of these fields, a
-- later field in front of the earlier ones, where each name is not empty and no byte of a name or of
-- a value is zero (`IsField`).
pub parse_form-print_form :
    (p : Text × Text) (pairs : List (Text × Text))
    → All IsField (p ∷ pairs)
    → parse_form (print_form p pairs) ≡ some (push_fields [] (p ∷ pairs))
unfolding parse_form
parse_form-print_form p pairs h = parse_pairs-print_form p pairs [] h
