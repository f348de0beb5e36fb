-- ===== src/Forms/Tests.antt =====
-- Runs of the form functions of Code/PrivateChain/Server/server.cpp, and each theorem at an input.
use hybrid_blockchain_for_re.Prelude.{◌≡◌, refl, none, some, [], ◌∷◌, codes, arith, text_eq}
use hybrid_blockchain_for_re.Forms.{
  hex_value, percent_decode, plus_to_space, form_decode, percent_encode_component, split_text,
  cut_at, parse_pairs, parse_form, form_field_value, request_path, find_parameter, query_parameter,
}
use hybrid_blockchain_for_re.Forms.Escapes.{percent_decode-encode}
use hybrid_blockchain_for_re.Forms.Printed.{print_form, push_fields, parse_form-print_form}

program : Unit {0}
unfolding hex_value percent_decode plus_to_space form_decode percent_encode_component split_text
    cut_at parse_pairs parse_form form_field_value request_path find_parameter query_parameter
    text_eq print_form
program = tt

encoded : percent_encode_component (codes "a b&") ≡ codes "a%20b%26"
unfolding program
encoded = refl

truncated : percent_decode (codes "a%2") ≡ none
unfolding program
truncated = refl

zero_refused : percent_decode (codes "%00") ≡ none
unfolding program
zero_refused = refl

plus_read : form_decode (codes "a+b") ≡ some (codes "a b")
unfolding program
plus_read = refl

query_read : query_parameter (codes "/a?x=1&y=%32") (codes "y") ≡ some (codes "2")
unfolding program
query_read = refl

path_read : request_path (codes "/a?x=1") ≡ codes "/a"
unfolding program
path_read = refl

bare_refused : parse_form (codes "a=1&b") ≡ none
unfolding program
bare_refused = refl

percent_decode-encode_example :
    percent_decode (percent_encode_component (codes "a=+")) ≡ some (codes "a=+")
percent_decode-encode_example = percent_decode-encode (codes "a=+") (omega arith)

parse_form-print_form_example :
    parse_form (print_form (codes "k", codes "v=") ((codes "m", codes "+") ∷ []))
    ≡ some (push_fields [] ((codes "k", codes "v=") ∷ (codes "m", codes "+") ∷ []))
parse_form-print_form_example =
    parse_form-print_form (codes "k", codes "v=") ((codes "m", codes "+") ∷ [])
      ((refl, (omega arith), (omega arith)), ((refl, (omega arith), (omega arith)), tt))
