-- ===== src/Base/Text/Decimal.antt =====
-- `int(str(n))` is `n`.
use Prim.Native.Nat.{ℕ, zero, suc, ◌+◌, ◌-◌, ◌*◌, ◌/◌, ◌%◌, ◌<◌}
use mathlib.Core.Option
use mathlib.Core.Path.{◌≡◌, refl, ap, ◌∙◌}
use mathlib.Core.Bool.{true, false}
use mathlib.Core.Option.{Option, none, some}
use mathlib.Core.List.{[], ◌∷◌, reverse, reverse-append, reverse-reverse}
use native.Mathlib.Omega.{arith}
use mathlib.Core.Logic.{inl, inr}
use public_gbrain_agentos.Base.Tests.{Bool-cases, ltb}
use public_gbrain_agentos.Base.Int.{ℤ, pos, negsuc}
use public_gbrain_agentos.Base.Lists.{All, All-append, All-map}
use public_gbrain_agentos.Base.Text.{
  Text, strip, strip_left, is_space, is_digit, decimal, decimal_ℤ, decimal_digits, int_of,
  int_digits, int_signed, int_unsigned, negated,
}

abbrev pub IsDigits : Text → Type 0
IsDigits = All (λ c. is_digit c ≡ true)

abbrev pub IsSolid : Text → Type 0
IsSolid = All (λ c. is_space c ≡ false)

digit_solid : (c : ℕ) → is_digit c ≡ true → is_space c ≡ false
digit_solid c h = ground arith

pub IsDigits-IsSolid : (s : Text) → IsDigits s → IsSolid s
IsDigits-IsSolid s h = All-map (λ c. is_digit c ≡ true) (λ c. is_space c ≡ false) digit_solid s h

strip_left_solid : (s : Text) → IsSolid s → strip_left s ≡ s
unfolding strip_left
strip_left_solid [] h = refl
strip_left_solid (c ∷ s) h = rw h.0

All-reverse : (P : ℕ → Type 0) (s : Text) → All P s → All P (reverse s)
All-reverse P [] h = tt
All-reverse P (c ∷ s) h =
    rw (reverse-append (c ∷ []) s)
      (All-append P (reverse s) (c ∷ []) (All-reverse P s h.1) (h.0, tt))

-- A text without white space is not changed by `strip`.
pub strip_solid : (s : Text) → IsSolid s → strip s ≡ s
unfolding strip
strip_solid s h = rw (strip_left_solid s h) (
    rw (strip_left_solid (reverse s) (All-reverse (λ c. is_space c ≡ false) s h))
      (reverse-reverse s))

int_digits_cons :
    (a c : ℕ) (s : Text)
    → is_digit c ≡ true
    → int_digits a (c ∷ s) ≡ int_digits (a * 10 + (c - 48)) s
unfolding int_digits
int_digits_cons a c [] h = rw h
int_digits_cons a c (d ∷ s) h = rw h

digit_of : (n : ℕ) → is_digit (48 + n % 10) ≡ true
digit_of n = ground arith

-- After the digits of `n` have been read, the value is `n`.
read_digits :
    (fuel n : ℕ) (acc : Text)
    → n < fuel
    → int_digits 0 (decimal_digits fuel n acc) ≡ int_digits n acc
unfolding decimal_digits
read_digits zero n acc h = absurd (omega arith)
read_digits (suc fuel) n acc h = elim (Bool-cases (ltb n 10)) [
  | inl small ↦ rw small (first_digit ∙ ap (λ m. int_digits m acc) (ground arith))
  | inr large ↦ rw large (
      read_digits fuel (n / 10) ((48 + n % 10) ∷ acc) (ground arith)
      ∙ int_digits_cons (n / 10) (48 + n % 10) acc (digit_of n)
      ∙ ap (λ m. int_digits m acc) (omega arith))
]
  where
    first_digit : int_digits 0 ((48 + n % 10) ∷ acc) ≡ int_digits (0 * 10 + (48 + n % 10 - 48)) acc
    first_digit = int_digits_cons 0 (48 + n % 10) acc (digit_of n)

decimal_digits-IsDigits :
    (fuel n : ℕ) (acc : Text) → IsDigits acc → IsDigits (decimal_digits fuel n acc)
unfolding decimal_digits
decimal_digits-IsDigits zero n acc h = h
decimal_digits-IsDigits (suc fuel) n acc h =
    ground (
      arith,
      digit_of n,
      decimal_digits-IsDigits fuel (n / 10) ((48 + n % 10) ∷ acc) (digit_of n, h),
    )

pub decimal-IsDigits : (n : ℕ) → IsDigits (decimal n)
unfolding decimal
decimal-IsDigits n = decimal_digits-IsDigits (suc n) n [] tt

int_digits_nil : (n : ℕ) → int_digits n [] ≡ some n
unfolding int_digits
int_digits_nil n = refl

-- the digits, with a first one
decimal_shape :
    (fuel n : ℕ) (acc : Text)
    → n < fuel
    → (c : ℕ) × (s : Text) × (decimal_digits fuel n acc ≡ c ∷ s)
unfolding decimal_digits
decimal_shape zero n acc h = absurd (omega arith)
decimal_shape (suc fuel) n acc h = elim (Bool-cases (ltb n 10)) [
  | inl small ↦ (48 + n % 10, acc, rw small)
  | inr large ↦
      let (c, s, e) = decimal_shape fuel (n / 10) ((48 + n % 10) ∷ acc) (ground arith) in
      (c, s, rw large e)
]

int_unsigned_shape :
    (t : Text) (c : ℕ) (s : Text) → t ≡ c ∷ s → IsDigits t → int_unsigned t ≡ int_digits 0 t
unfolding int_unsigned
int_unsigned_shape [] c s e h = cc
int_unsigned_shape (d ∷ t) c s e h = rw h.0

int_unsigned-decimal : (n : ℕ) → int_unsigned (decimal n) ≡ some n
unfolding decimal
int_unsigned-decimal n =
    let (c, s, e) = decimal_shape (suc n) n [] (omega arith) in
    int_unsigned_shape (decimal_digits (suc n) n []) c s e (decimal-IsDigits n)
    ∙ read_digits (suc n) n [] (omega arith)
    ∙ int_digits_nil n

int_signed_digits :
    (t : Text) (c : ℕ) (s : Text)
    → t ≡ c ∷ s
    → IsDigits t
    → int_signed t ≡ Option.map pos (int_unsigned t)
unfolding int_signed
int_signed_digits [] c s e h = cc
int_signed_digits (d ∷ t) c s e h = ground arith

decimal_cons : (n : ℕ) → (c : ℕ) × (s : Text) × (decimal n ≡ c ∷ s)
unfolding decimal
decimal_cons n = decimal_shape (suc n) n [] (omega arith)

int_signed-decimal : (n : ℕ) → int_signed (decimal n) ≡ some (pos n)
int_signed-decimal n =
    let (c, s, e) = decimal_cons n in
    int_signed_digits (decimal n) c s e (decimal-IsDigits n)
    ∙ ap (Option.map pos) (int_unsigned-decimal n)

pub decimal_ℤ-IsSolid : (z : ℤ) → IsSolid (decimal_ℤ z)
unfolding decimal_ℤ
decimal_ℤ-IsSolid (pos n) = IsDigits-IsSolid (decimal n) (decimal-IsDigits n)
decimal_ℤ-IsSolid (negsuc n) = (refl, IsDigits-IsSolid (decimal (suc n)) (decimal-IsDigits (suc n)))

-- Printing an integer and reading it back, as `int(str(n))` does, gives the integer.
pub int_of-decimal_ℤ : (z : ℤ) → int_of (decimal_ℤ z) ≡ some z
unfolding int_of
int_of-decimal_ℤ z = rw (strip_solid (decimal_ℤ z) (decimal_ℤ-IsSolid z)) (signed z)
  where
    signed : (y : ℤ) → int_signed (decimal_ℤ y) ≡ some y
    signed (pos n) = unfold decimal_ℤ in int_signed-decimal n
    signed (negsuc n) =
        unfold decimal_ℤ int_signed in ap (Option.map negated) (int_unsigned-decimal (suc n))
