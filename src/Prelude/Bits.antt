-- ===== src/Prelude/Bits.antt =====
-- The bits of a number, and what the operations of the machine do to them.
use Prim.Native.Nat.{
  ℕ, zero, suc, ◌+◌, ◌-◌, ◌*◌, ◌/◌, ◌%◌, ◌≤◌, ◌<◌, min, max, bit_and, bit_or, bit_xor, digits,
  bitwise, differ, bit_and-bitwise, bit_or-bitwise, bit_xor-bitwise,
}
use mathlib.Core.Path.{◌≡◌, refl, sym, ap, ◌∙◌}
use mathlib.Core.Bool.{Bool, true, false, ◌&&◌, ◌||◌, not}
use native.Mathlib.Omega.{arith}
use libcontainer.Prelude.{◌==◌}

-- the bit of a number at a place
unfoldable pub bit : ℕ → ℕ → Bool
bit a zero = a % 2 == 1
bit a (suc i) = bit (a / 2) i

module _ (z : ℕ → ℕ) (f : ℕ → ℕ → ℕ) where
  -- One more digit to go changes nothing, if there are enough.
  one_more : (n k b : ℕ) → k ≤ n → digits z f (suc n) k b ≡ digits z f n k b
  one_more n zero b h = zero_run n
    where
      zero_run : (n : ℕ) → digits z f (suc n) 0 b ≡ digits z f n 0 b
      zero_run zero = refl
      zero_run (suc n) = refl
  one_more zero (suc k) b h = absurd (omega (arith, h))
  one_more (suc n) (suc k) b h =
      ap (λ x. x * 2 + f (suc k % 2) (b % 2)) (one_more n (suc k / 2) (b / 2) (omega (arith, h)))

  -- So the number itself is enough, and any larger count gives the same.
  surplus : (extra k b : ℕ) → digits z f (extra + k) k b ≡ digits z f k k b
  surplus zero k b = let e : 0 + k ≡ k = omega arith in ap (λ x. digits z f x k b) e
  surplus (suc extra) k b =
      let e : suc extra + k ≡ suc (extra + k) = omega arith in
      ap (λ x. digits z f x k b) e ∙ one_more (extra + k) k b (omega arith) ∙ surplus extra k b

  enough : (n k b : ℕ) → k ≤ n → digits z f n k b ≡ bitwise z f k b
  enough n k b h =
      let split : n - k + k ≡ n = omega (arith, h) in
      ap (λ x. digits z f x k b) (sym split) ∙ surplus (n - k) k b

  -- The lowest digit, where the operation with 0 on the left agrees.
  bitwise_step :
      ((b : ℕ) → z b ≡ z (b / 2) * 2 + f 0 (b % 2))
      → (a b : ℕ) → bitwise z f a b ≡ bitwise z f (a / 2) (b / 2) * 2 + f (a % 2) (b % 2)
  bitwise_step agrees zero b = agrees b
  bitwise_step agrees (suc a) b =
      ap (λ x. x * 2 + f (suc a % 2) (b % 2)) (enough a (suc a / 2) (b / 2) (omega arith))

low_or : (a b : ℕ) → bit_or a b ≡ bit_or (a / 2) (b / 2) * 2 + max (a % 2) (b % 2)
low_or a b =
    bit_or-bitwise a b
    ∙ bitwise_step (λ x. x) max (λ x. omega arith) a b
    ∙ ap (λ x. x * 2 + max (a % 2) (b % 2)) (sym (bit_or-bitwise (a / 2) (b / 2)))

low_and : (a b : ℕ) → bit_and a b ≡ bit_and (a / 2) (b / 2) * 2 + min (a % 2) (b % 2)
low_and a b =
    bit_and-bitwise a b
    ∙ bitwise_step (λ x. 0) min (λ x. omega arith) a b
    ∙ ap (λ x. x * 2 + min (a % 2) (b % 2)) (sym (bit_and-bitwise (a / 2) (b / 2)))

low_xor : (a b : ℕ) → bit_xor a b ≡ bit_xor (a / 2) (b / 2) * 2 + differ (a % 2) (b % 2)
low_xor a b =
    bit_xor-bitwise a b
    ∙ bitwise_step (λ x. x) differ (λ x. omega arith) a b
    ∙ ap (λ x. x * 2 + differ (a % 2) (b % 2)) (sym (bit_xor-bitwise (a / 2) (b / 2)))

-- The lowest bit of a number that is written by its half and its lowest digit.
half_and_digit : (n h d : ℕ) → n ≡ h * 2 + d → d < 2 → (n / 2 ≡ h) × (n % 2 ≡ d)
half_and_digit n h d e lt = (omega (arith, e), omega (arith, e))

digit_cases : (a : ℕ) → (a < 2) → (P : ℕ → Type 0) → P 0 → P 1 → P a
digit_cases zero lt P p q = p
digit_cases (suc zero) lt P p q = q
digit_cases (suc (suc a)) lt P p q = absurd (omega (arith, lt))

-- An operation on digits and one on bits, where they agree.
step_bit :
    (op : ℕ → ℕ → ℕ) (f : ℕ → ℕ → ℕ) (g : Bool → Bool → Bool)
    → ((a b : ℕ) → op a b ≡ op (a / 2) (b / 2) * 2 + f (a % 2) (b % 2))
    → ((x y : ℕ) → x < 2 → y < 2 → (f x y < 2) × ((f x y == 1) ≡ g (x == 1) (y == 1)))
    → (i a b : ℕ) → bit (op a b) i ≡ g (bit a i) (bit b i)
unfolding bit
step_bit op f g step agree zero a b =
    let d = agree (a % 2) (b % 2) (omega arith) (omega arith) in
    ap (λ x. x == 1) (half_and_digit (op a b) _ _ (step a b) d.0).1 ∙ d.1
step_bit op f g step agree (suc i) a b =
    let d = agree (a % 2) (b % 2) (omega arith) (omega arith) in
    ap (λ x. bit x i) (half_and_digit (op a b) _ _ (step a b) d.0).0
    ∙ step_bit op f g step agree i (a / 2) (b / 2)

two_digits :
    (P : ℕ → ℕ → Type 0) → P 0 0 → P 0 1 → P 1 0 → P 1 1 → (x y : ℕ) → x < 2 → y < 2 → P x y
two_digits P a b c d x y p q =
    digit_cases x p (λ u. P u y) (digit_cases y q (λ v. P 0 v) a b)
      (digit_cases y q (λ v. P 1 v) c d)

pub or-bit : (a b i : ℕ) → bit (bit_or a b) i ≡ (bit a i || bit b i)
or-bit a b i =
    step_bit bit_or max (λ x y. x || y) low_or
      (two_digits (λ x y. (max x y < 2) × ((max x y == 1) ≡ ((x == 1) || (y == 1))))
        (omega arith, refl) (omega arith, refl) (omega arith, refl) (omega arith, refl))
      i a b

and-bit : (a b i : ℕ) → bit (bit_and a b) i ≡ (bit a i && bit b i)
and-bit a b i =
    step_bit bit_and min (λ x y. x && y) low_and
      (two_digits (λ x y. (min x y < 2) × ((min x y == 1) ≡ ((x == 1) && (y == 1))))
        (omega arith, refl) (omega arith, refl) (omega arith, refl) (omega arith, refl))
      i a b

xor_bool : Bool → Bool → Bool
xor_bool true y = not y
xor_bool false y = y

xor-bit : (a b i : ℕ) → bit (bit_xor a b) i ≡ xor_bool (bit a i) (bit b i)
unfolding xor_bool
xor-bit a b i =
    step_bit bit_xor differ xor_bool low_xor
      (two_digits (λ x y. (differ x y < 2) × ((differ x y == 1) ≡ xor_bool (x == 1) (y == 1)))
        (omega arith, refl) (omega arith, refl) (omega arith, refl) (omega arith, refl))
      i a b

clear_bool : (x y : Bool) → xor_bool x (x && y) ≡ (x && not y)
unfolding xor_bool
clear_bool true y = refl
clear_bool false y = refl

-- The bits of `a &^ b`.
pub and_not-bit : (a b i : ℕ) → bit (bit_xor a (bit_and a b)) i ≡ (bit a i && not (bit b i))
and_not-bit a b i =
    xor-bit a (bit_and a b) i
    ∙ ap (λ x. xor_bool (bit a i) x) (and-bit a b i)
    ∙ clear_bool (bit a i) (bit b i)

pub zero-bit : (i : ℕ) → bit 0 i ≡ false
unfolding bit
zero-bit zero = refl
zero-bit (suc i) = zero-bit i
