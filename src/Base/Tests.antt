-- ===== src/Base/Tests.antt =====
-- Boolean tests on the native numbers, the conditional, machine words, and case splits that keep
-- their equation.
use Prim.Native.Nat.{ℕ, ◌+◌, ◌-◌, ◌%◌, ◌^◌, compare, Ordering}
use mathlib.Core.Path.{◌≡◌, refl}
use mathlib.Core.Logic.{◌⊎◌, inl, inr}
use mathlib.Core.Bool.{Bool, true, false}
use mathlib.Core.Option.{Option, none, some}

abbrev pub ltb : ℕ → ℕ → Bool
ltb a b = elim (compare a b) [ Ordering.lt ↦ true | _ ↦ false ]

abbrev pub leb : ℕ → ℕ → Bool
leb a b = elim (compare a b) [ Ordering.gt ↦ false | _ ↦ true ]

infix 50 ◌==◌
abbrev pub ◌==◌ : ℕ → ℕ → Bool
a == b = elim (compare a b) [ Ordering.eq ↦ true | _ ↦ false ]

infix 1 if◌then◌else◌
abbrev pub if◌then◌else◌ {ℓ} : {A : Type ℓ} → Bool → A → A → A
if true then x else y = x
if false then x else y = y

pub Bool-cases : (b : Bool) → (b ≡ true) ⊎ (b ≡ false)
Bool-cases true = inl refl
Bool-cases false = inr refl

pub Option-cases {ℓ} : {A : Type ℓ} (o : Option A) → (o ≡ none) ⊎ ((a : A) × (o ≡ some a))
Option-cases none = inl refl
Option-cases (some a) = inr (a, refl)

-- `size_t` and `unsigned long` have 64 bits.
abbrev pub word_size : ℕ
word_size = 2 ^ 64

-- `++`, `--` and `-=` on a `size_t`, with their wrap-around.
abbrev pub incr : ℕ → ℕ
incr n = (n + 1) % word_size

abbrev pub decr : ℕ → ℕ
decr n = (n + word_size - 1) % word_size

abbrev pub sub_word : ℕ → ℕ → ℕ
sub_word a b = (a + word_size - b) % word_size

-- What a call does: it returns, or the program reads a null or dangling pointer, leaves an array,
-- divides by zero, or fails an assertion.
pub data Outcome {ℓ} (A : Type ℓ) : Type ℓ where
  ok : A → Outcome A
  crash : Outcome A

infixl 5 ◌>>=◌ ◌>>◌
abbrev pub ◌>>=◌ {ℓ κ} : {A : Type ℓ} {B : Type κ} → Outcome A → (A → Outcome B) → Outcome B
ok a >>= f = f a
crash >>= f = crash

abbrev pub ◌>>◌ {ℓ} : {B : Type ℓ} → Outcome (Unit {0}) → Outcome B → Outcome B
m >> k = m >>= λ _. k

abbrev pub assert : Bool → Outcome (Unit {0})
assert true = ok tt
assert false = crash

pub Outcome-cases {ℓ} : {A : Type ℓ} (o : Outcome A) → (o ≡ crash) ⊎ ((a : A) × (o ≡ ok a))
Outcome-cases crash = inl refl
Outcome-cases (ok a) = inr (a, refl)
