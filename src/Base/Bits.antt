-- ===== src/Base/Bits.antt =====
-- Bitwise operations on machine words, at variables: what a mask of ones keeps, what the mask
-- above it keeps, and a union of words that share no bit.
use Prim.Native.Nat.{
  ℕ, zero, suc, ◌+◌, ◌-◌, ◌*◌, ◌/◌, ◌%◌, ◌^◌, ◌≤◌, ◌<◌, min, max, bit_and, bit_or, digits,
  bit_and-bitwise, bit_or-bitwise,
}
use mathlib.Core.Path.{◌≡◌, refl, ap, ◌∙◌}
use native.Mathlib.Omega.{arith}
use native.Mathlib.Nat.{
  pow-suc, mul-one, div-one, add-zero, mul_comm, div-add-mod, mod-lt, mod-eq_of_lt,
  add-mul-mod_self_left, div-div-eq-div-mul,
}

-- C's `x << k`, `x | y` and `x & y`.
infixl 60 ◌<<◌
abbrev pub ◌<<◌ : ℕ → ℕ → ℕ
x << k = x * 2 ^ k

infixl 30 ◌|||◌
abbrev pub ◌|||◌ : ℕ → ℕ → ℕ
◌|||◌ = bit_or

infixl 40 ◌&&&◌
abbrev pub ◌&&&◌ : ℕ → ℕ → ℕ
◌&&&◌ = bit_and

-- A bitwise operation by its digits: `f` joins two digits, and `rest` is what stays of the second
-- word where the first is used up. Any fuel that is not below the first word gives the same.
module _ (f : ℕ → ℕ → ℕ) (rest : ℕ → ℕ) where
  enough_fuel : (k l x y : ℕ) → x ≤ k → x ≤ l → digits rest f k x y ≡ digits rest f l x y
  enough_fuel k l zero y hk hl = both k l
    where
      both : (k l : ℕ) → digits rest f k zero y ≡ digits rest f l zero y
      both zero zero = refl
      both zero (suc l) = refl
      both (suc k) zero = refl
      both (suc k) (suc l) = refl
  enough_fuel (suc k) (suc l) (suc x) y hk hl =
      let halves = enough_fuel k l (suc x / 2) (y / 2) (omega arith) (omega arith) in
      omega (arith, halves)
  enough_fuel zero l (suc x) y hk hl = absurd (omega arith)
  enough_fuel (suc k) zero (suc x) y hk hl = absurd (omega arith)

-- Both operations at 0, from the left and from the right, and their lowest digit.
pub zero-bit_and : (y : ℕ) → bit_and 0 y ≡ 0
zero-bit_and = bit_and-bitwise 0

pub zero-bit_or : (y : ℕ) → bit_or 0 y ≡ y
zero-bit_or = bit_or-bitwise 0

pub bit_and_low_digit : (x y : ℕ) → bit_and x y ≡ min (x % 2) (y % 2) + 2 * bit_and (x / 2) (y / 2)
bit_and_low_digit zero y =
    let l = zero-bit_and y in let r = zero-bit_and (y / 2) in omega (arith, l, r)
bit_and_low_digit (suc x) y =
    let half = suc x / 2 in
    let fuel = enough_fuel min (λ _. 0) x half half (y / 2) (omega arith) (omega arith) in
    omega (arith, fuel, bit_and-bitwise half (y / 2), bit_and-bitwise (suc x) y)

pub bit_or_low_digit : (x y : ℕ) → bit_or x y ≡ max (x % 2) (y % 2) + 2 * bit_or (x / 2) (y / 2)
bit_or_low_digit zero y =
    let l = zero-bit_or y in let r = zero-bit_or (y / 2) in omega (arith, l, r)
bit_or_low_digit (suc x) y =
    let half = suc x / 2 in
    let fuel = enough_fuel max (λ b. b) x half half (y / 2) (omega arith) (omega arith) in
    omega (arith, fuel, bit_or-bitwise half (y / 2), bit_or-bitwise (suc x) y)

-- By induction on a bound, since the recursion halves.
right_zero : (k x : ℕ) → x ≤ k → (bit_and x 0 ≡ 0) × (bit_or x 0 ≡ x)
right_zero k zero h = (refl, refl)
right_zero zero (suc x) h = absurd (omega arith)
right_zero (suc k) (suc x) h =
    let ih = right_zero k (suc x / 2) (omega arith) in
    (
      omega (arith, ih.0, bit_and_low_digit (suc x) 0),
      omega (arith, ih.1, bit_or_low_digit (suc x) 0),
    )

pub bit_and-zero : (x : ℕ) → bit_and x 0 ≡ 0
bit_and-zero x = (right_zero x x (omega arith)).0

pub bit_or-zero : (x : ℕ) → bit_or x 0 ≡ x
bit_or-zero x = (right_zero x x (omega arith)).1

pub two_pow-pos : (k : ℕ) → 0 < 2 ^ k
two_pow-pos zero = omega arith
two_pow-pos (suc k) = rw pow-suc (omega (arith, two_pow-pos k))

-- The remainder by an even number, by its lowest digit.
mod-double : (p a : ℕ) → 0 < p → a % (p * 2) ≡ a / 2 % p * 2 + a % 2
mod-double p a h =
    let d : ℕ = a / 2 % p * 2 + a % 2 in
    let split : a ≡ d + p * 2 * (a / 2 / p) = omega (arith, div-add-mod (a / 2) p) in
    let small : d < p * 2 = omega (arith, mod-lt (a / 2) h) in
    ap (λ (t : ℕ). t % (p * 2)) split
    ∙ add-mul-mod_self_left d (p * 2) (a / 2 / p)
    ∙ mod-eq_of_lt small

-- A mask of `k` ones keeps the low `k` bits.
pub bit_and-low : (k a : ℕ) → bit_and a (2 ^ k - 1) ≡ a % 2 ^ k
bit_and-low zero a = omega (arith, bit_and-zero a)
bit_and-low (suc k) a =
    let half : (2 ^ k * 2 - 1) / 2 ≡ 2 ^ k - 1 = omega (arith, two_pow-pos k) in
    rw pow-suc (
      omega (
        arith,
        two_pow-pos k,
        bit_and_low_digit a (2 ^ k * 2 - 1),
        bit_and-low k (a / 2),
        ap (λ (m : ℕ). bit_and (a / 2) m) half,
        mod-double (2 ^ k) a (two_pow-pos k),
      ))

-- A mask that is a multiple of `2 ^ k` clears the low `k` bits.
pub bit_and-shift : (k a m : ℕ) → bit_and a (m * 2 ^ k) ≡ bit_and (a / 2 ^ k) m * 2 ^ k
bit_and-shift zero a m = rw (mul-one, div-one, mul-one)
bit_and-shift (suc k) a m =
    let half : m * (2 ^ k * 2) / 2 ≡ m * 2 ^ k = omega arith in
    rw pow-suc (
      omega (
        arith,
        bit_and_low_digit a (m * (2 ^ k * 2)),
        ap (λ (t : ℕ). bit_and (a / 2) t) half,
        bit_and-shift k (a / 2) m,
        ap (λ (t : ℕ). bit_and t m * 2 ^ k) (div-div-eq-div-mul a 2 (2 ^ k)),
        ap (λ (t : ℕ). bit_and (a / t) m * 2 ^ k) (mul_comm 2 (2 ^ k)),
      ))

-- The union of a multiple of `2 ^ k` and of a word below `2 ^ k` is their sum.
pub bit_or-disjoint : (k a b : ℕ) → b < 2 ^ k → bit_or (a * 2 ^ k) b ≡ a * 2 ^ k + b
bit_or-disjoint zero a b h =
    let none_left : b ≡ 0 = omega arith in rw (none_left, mul-one, bit_or-zero, add-zero)
bit_or-disjoint (suc k) a b h =
    let h' : b < 2 ^ k * 2 = rw pow-suc at h in
    let half : a * (2 ^ k * 2) / 2 ≡ a * 2 ^ k = omega arith in
    rw pow-suc (
      omega (
        arith,
        bit_or_low_digit (a * (2 ^ k * 2)) b,
        ap (λ (t : ℕ). bit_or t (b / 2)) half,
        bit_or-disjoint k a (b / 2) (omega arith),
      ))
