-- ===== src/Prelude/Keys.antt =====
-- Lists of texts as `std::unordered_set<std::string>`: membership, distinct lists, their sizes.
use Prim.Native.Nat.{suc, ◌≤◌}
use mathlib.Core.Path.{◌≡◌, refl, sym, ap, ◌∙◌}
use mathlib.Core.Logic.{inl, inr}
use mathlib.Core.Bool.{Bool, true, false, ◌||◌}
use mathlib.Core.List.{List, [], ◌∷◌}
use native.Mathlib.Omega.{arith}
use hybrid_blockchain_for_re.Prelude.Tests.{if◌then◌else◌, Bool-cases}
use hybrid_blockchain_for_re.Prelude.Lists.{length, All}
use hybrid_blockchain_for_re.Prelude.Bytes.{
  Text, text_eq, text_eq→eq, text_eq_refl, text_eq-ne, text_eq_false→ne,
}

-- Whether the set holds the key.
unfoldable pub member : Text → List Text → Bool
member k [] = false
member k (x ∷ xs) = text_eq x k || member k xs

abbrev pub Distinct : List Text → Type 0
Distinct [] = Unit {0}
Distinct (x ∷ xs) = (member x xs ≡ false) × Distinct xs

abbrev pub Among : List Text → List Text → Type 0
Among xs ys = All (λ x. member x ys ≡ true) xs

remove : Text → List Text → List Text
remove k [] = []
remove k (x ∷ xs) = if text_eq x k then xs else x ∷ remove k xs

length-remove :
    (k : Text) (xs : List Text) → member k xs ≡ true → suc (length (remove k xs)) ≡ length xs
unfolding member remove
length-remove k [] h = absurd (let no = h in cc no)
length-remove k (x ∷ xs) h = elim (Bool-cases (text_eq x k)) [
  | inl hit ↦ rw hit refl
  | inr miss ↦ rw miss (ap suc (length-remove k xs (rw miss at h)))
]

member-remove :
    (k j : Text) (xs : List Text)
    → text_eq j k ≡ false
    → member j xs ≡ true
    → member j (remove k xs) ≡ true
unfolding member remove
member-remove k j [] ne h = h
member-remove k j (x ∷ xs) ne h = elim (Bool-cases (text_eq x k)) [
  | inl hit ↦
      let same = text_eq→eq x k hit in
      let other = text_eq-ne x j (λ e. text_eq_false→ne j k ne (sym e ∙ same)) in
      rw hit (rw other at h)
  | inr miss ↦ elim (Bool-cases (text_eq x j)) [
    | inl here ↦ rw (miss, here) refl
    | inr there ↦ rw (miss, there) (member-remove k j xs ne (rw there at h))
  ]
]

Among-remove :
    (k : Text) (xs ys : List Text) → member k xs ≡ false → Among xs ys → Among xs (remove k ys)
unfolding member
Among-remove k [] ys d a = tt
Among-remove k (x ∷ xs) ys d a =
    (member-remove k x ys (ground (arith, d)) a.0, Among-remove k xs ys (ground (arith, d)) a.1)

-- The pigeonhole principle.
pub length-Among : (xs ys : List Text) → Distinct xs → Among xs ys → length xs ≤ length ys
length-Among [] ys d a = omega arith
length-Among (x ∷ xs) ys d a = omega (
  arith,
  length-remove x ys a.0,
  length-Among xs (remove x ys) d.1 (Among-remove x xs ys d.0 a.1),
)

-- No text of the one list is in the other.
abbrev pub Fresh : List Text → List Text → Type 0
Fresh xs ys = All (λ x. member x ys ≡ false) xs

pub Fresh-head : (k : Text) (xs ys : List Text) → Fresh xs (k ∷ ys) → member k xs ≡ false
unfolding member
Fresh-head k [] ys h = refl
Fresh-head k (x ∷ xs) ys h =
    let ne : text_eq k x ≡ false = ground (arith, h.0) in
    let other = text_eq-ne x k (λ e. text_eq_false→ne k x ne (sym e)) in
    rw other (Fresh-head k xs ys h.1)

pub Fresh-tail : (k : Text) (xs ys : List Text) → Fresh xs (k ∷ ys) → Fresh xs ys
unfolding member
Fresh-tail k [] ys h = tt
Fresh-tail k (x ∷ xs) ys h = (ground (arith, h.0), Fresh-tail k xs ys h.1)

Among-cons : (k : Text) (xs ys : List Text) → Among xs ys → Among xs (k ∷ ys)
unfolding member
Among-cons k [] ys a = tt
Among-cons k (x ∷ xs) ys a = (ground (arith, a.0), Among-cons k xs ys a.1)

Among-refl : (xs : List Text) → Among xs xs
unfolding member
Among-refl [] = tt
Among-refl (x ∷ xs) = (rw (text_eq_refl x) refl, Among-cons x xs xs (Among-refl xs))

Among-part :
    (xs ys zs : List Text)
    → Distinct xs
    → Among xs ys
    → length ys ≤ length xs
    → Among zs ys
    → Among zs xs
Among-part xs ys [] d a l b = tt
Among-part xs ys (z ∷ zs) d a l b = elim (Bool-cases (member z xs)) [
  | inl hit ↦ (hit, Among-part xs ys zs d a l b.1)
  | inr miss ↦ absurd (omega (arith, length-Among (z ∷ xs) ys (miss, d) (b.0, a), l))
]

-- Distinct texts of a list, as many as it has: they are all of its texts.
pub Among-full :
    (xs ys : List Text) → Distinct xs → Among xs ys → length ys ≤ length xs → Among ys xs
Among-full xs ys d a l = Among-part xs ys ys d a l (Among-refl ys)
