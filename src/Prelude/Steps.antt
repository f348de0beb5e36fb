-- ===== src/Prelude/Steps.antt =====
-- Chains of steps that may fail, over Option, and the entry of a list at an index.
use Prim.Native.Nat.{ℕ, zero, suc}
use mathlib.Core.Path.{◌≡◌, refl, subst}
use mathlib.Core.List.{List, [], ◌∷◌}
use hybrid_blockchain_for_re.Prelude.Lists.{get_elem?, All}
use mathlib.Core.Bool.{Bool, true, false}
use mathlib.Core.Option.{Option, none, some}

infixl 5 ◌>>=◌ ◌>>◌
abbrev pub ◌>>=◌ : {A B : Type 0} → Option A → (A → Option B) → Option B
none >>= f = none
some a >>= f = f a

abbrev pub ◌>>◌ : {B : Type 0} → Option (Unit {0}) → Option B → Option B
m >> k = m >>= λ _. k

abbrev pub guard : Bool → Option (Unit {0})
guard true = some tt
guard false = none

pub >>=-some :
    {A B : Type 0} (m : Option A) (f : A → Option B) {b : B}
    → (m >>= f) ≡ some b
    → (a : A) × (m ≡ some a) × (f a ≡ some b)
>>=-some none f e = absurd (let bad = e in cc bad)
>>=-some (some a) f e = (a, refl, e)

pub guard-some :
    {B : Type 0} (c : Bool) (k : Option B) {b : B}
    → (guard c >> k) ≡ some b
    → (c ≡ true) × (k ≡ some b)
guard-some true k e = (refl, e)
guard-some false k e = absurd (let bad = e in cc bad)

pub guard-true : {B : Type 0} (c : Bool) (k : Option B) → c ≡ true → (guard c >> k) ≡ k
guard-true true k e = refl
guard-true false k e = absurd (let bad = e in cc bad)

pub some_injective : {A : Type 0} → (a b : A) → ◌≡◌ {A = Option A} (some a) (some b) → a ≡ b
some_injective a b e = cc e

pub All-at :
    {A : Type 0} (P : A → Type 0) (xs : List A) (i : ℕ) (a : A)
    → All P xs
    → get_elem? xs i ≡ some a
    → P a
All-at P [] i a h at = absurd (let no = at in cc no)
All-at P (x ∷ xs) zero a h at = subst P (some_injective x a at) h.0
All-at P (x ∷ xs) (suc i) a h at = All-at P xs i a h.1 at
