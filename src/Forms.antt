-- ===== src/Forms.antt =====
-- Code/PrivateChain/Server/server.cpp, the texts of HTTP forms and queries: percent_decode,
-- percent_encode_component, form_decode, parse_form, form_field_value, split_text, request_path and
-- query_parameter. The map of fields is a list with the newest entry in front.
pub mod Escapes
pub mod Printed
mod Tests
use hybrid_blockchain_for_re.Prelude.{
  ℕ, zero, suc, ◌+◌, ◌-◌, ◌*◌, ◌/◌, ◌%◌, Bool, true, false, ◌||◌, ◌&&◌, not, Option, none, some,
  List, [], ◌∷◌, ◌++◌, Text, text_eq, is_empty, ltb, leb, ◌==◌, if◌then◌else◌,
}

-- hex_value; -1 is `none`.
unfoldable pub hex_value : ℕ → Option ℕ
hex_value ch =
    if leb 48 ch && leb ch 57
    then some (ch - 48)
    else if leb 97 ch && leb ch 102
    then some (ch - 97 + 10)
    else if leb 65 ch && leb ch 70
    then some (ch - 65 + 10)
    else none

abbrev pub percent : ℕ
percent = 37

-- decoded += c, in front of what the rest gives.
abbrev pub prepend : ℕ → Option Text → Option Text
prepend c none = none
prepend c (some s) = some (c ∷ s)

-- The byte of two digits; '\0' is refused.
abbrev pub escaped : Option ℕ → Option ℕ → Option Text → Option Text
escaped none low rest = none
escaped (some high) none rest = none
escaped (some high) (some low) rest =
    if high * 16 + low == 0 then none else prepend (high * 16 + low) rest

-- percent_decode
unfoldable pub percent_decode : Text → Option Text
unfolding hex_value
percent_decode [] = some []
percent_decode (c ∷ []) = if not (c == percent) then some (c ∷ []) else none
percent_decode (c ∷ h ∷ []) =
    let plain = prepend c (percent_decode (h ∷ [])) in if not (c == percent) then plain else none
percent_decode (c ∷ h ∷ l ∷ s) =
    let plain = prepend c (percent_decode (h ∷ l ∷ s)) in
    let byte = escaped (hex_value h) (hex_value l) (percent_decode s) in
    if not (c == percent) then plain else byte

-- std::replace(value.begin(), value.end(), '+', ' ')
unfoldable pub plus_to_space : Text → Text
plus_to_space [] = []
plus_to_space (c ∷ s) = (if c == 43 then 32 else c) ∷ plus_to_space s

-- form_decode
unfoldable pub form_decode : Text → Option Text
form_decode value = percent_decode (plus_to_space value)

-- unreserved
abbrev pub unreserved : ℕ → Bool
unreserved c =
    (leb 65 c && leb c 90)
    || ((leb 97 c && leb c 122)
        || ((leb 48 c && leb c 57)
            || (c == b'-'
                || (c == b'_'
                    || (c == b'.'
                        || (c == b'!'
                            || (c == b'~'
                                || (c == b'*' || (c == 39 || (c == b'(' || c == b')'))))))))))

-- hexadecimal[d]
abbrev pub hexadecimal : ℕ → ℕ
hexadecimal d = if ltb d 10 then 48 + d else 55 + d

-- percent_encode_component
unfoldable pub percent_encode_component : Text → Text
percent_encode_component [] = []
percent_encode_component (c ∷ s) =
    let rest = percent_encode_component s in
    if unreserved c
    then c ∷ rest
    else percent ∷ hexadecimal ((c / 16) % 16) ∷ hexadecimal (c % 16) ∷ rest

abbrev pub prepend_first : ℕ → List Text → List Text
prepend_first c [] = []
prepend_first c (p ∷ pieces) = (c ∷ p) ∷ pieces

-- split_text
unfoldable pub split_text : Text → ℕ → List Text
split_text [] separator = [] ∷ []
split_text (c ∷ s) separator =
    let pieces = split_text s separator in
    if c == separator then [] ∷ pieces else prepend_first c pieces

-- find(c), with the two parts of the text round it.
unfoldable pub cut_at : ℕ → Text → Option (Text × Text)
cut_at separator [] = none
cut_at separator (c ∷ s) =
    let later : Option (Text × Text) = elim (cut_at separator s) [
      | none ↦ none
      | some (before, after) ↦ some (c ∷ before, after)
    ] in
    if c == separator then some ([], s) else later

-- The body of parse_form's loop, for the pair's two decoded parts.
abbrev pub add_field : Option Text → Option Text → List (Text × Text) → Option (List (Text × Text))
add_field none value fields = none
add_field (some key) none fields = none
add_field (some key) (some value) fields =
    if is_empty key then none else some ((key, value) ∷ fields)

-- The loop of parse_form, over the pieces between the ampersands.
unfoldable pub parse_pairs : List Text → List (Text × Text) → Option (List (Text × Text))
parse_pairs [] fields = some fields
parse_pairs (pair ∷ pairs) fields = elim (cut_at b'=' pair) [
  | none ↦ none
  | some (key, value) ↦ elim (add_field (form_decode key) (form_decode value) fields) [
    | none ↦ none
    | some more ↦ parse_pairs pairs more
  ]
]

-- parse_form
unfoldable pub parse_form : Text → Option (List (Text × Text))
parse_form body = parse_pairs (split_text body b'&') []

-- form_field_value
unfoldable pub form_field_value : List (Text × Text) → Text → Text
form_field_value [] name = []
form_field_value ((key, value) ∷ fields) name =
    if text_eq key name then value else form_field_value fields name

-- request_path
unfoldable pub request_path : Text → Text
request_path target = elim (cut_at b'?' target) [ none ↦ target | some (path, query) ↦ path ]

-- The test on a pair of the query.
abbrev pub named_value : Option Text → Option Text → Text → Option Text
named_value none value name = none
named_value (some key) none name = none
named_value (some key) (some value) name = if text_eq key name then some value else none

-- The loop of query_parameter.
unfoldable pub find_parameter : List Text → Text → Option Text
find_parameter [] name = none
find_parameter (pair ∷ pairs) name =
    let later = find_parameter pairs name in
    elim (cut_at b'=' pair) [
      | none ↦ later
      | some (key, value) ↦ elim (named_value (percent_decode key) (percent_decode value) name) [
        | some found ↦ some found
        | none ↦ later
      ]
    ]

-- query_parameter
unfoldable pub query_parameter : Text → Text → Option Text
query_parameter target name = elim (cut_at b'?' target) [
  | none ↦ none
  | some (path, query) ↦ find_parameter (split_text query b'&') name
]
