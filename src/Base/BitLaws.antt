-- ===== src/Base/BitLaws.antt =====
-- Laws of the bitwise operations at variables: how a mask goes through a union and through another
-- mask, and what a union keeps.
use Prim.Native.Nat.{ℕ, zero, suc, ◌+◌, ◌/◌, ◌%◌, ◌≤◌, min, max, bit_and, bit_or}
use mathlib.Core.Path.{◌≡◌, refl, ap}
use native.Mathlib.Omega.{arith}
use pebpeb_os.Base.Bits.{zero-bit_and, zero-bit_or, bit_and_low_digit, bit_or_low_digit}

-- By the lowest digit, with fuel for the digits of `x`.
bit_and_digit :
    (x y : ℕ)
    → (bit_and x y % 2 ≡ min (x % 2) (y % 2)) × (bit_and x y / 2 ≡ bit_and (x / 2) (y / 2))
bit_and_digit x y = omega (arith, bit_and_low_digit x y)

bit_or_digit :
    (x y : ℕ) → (bit_or x y % 2 ≡ max (x % 2) (y % 2)) × (bit_or x y / 2 ≡ bit_or (x / 2) (y / 2))
bit_or_digit x y = omega (arith, bit_or_low_digit x y)

assoc_below : (k x y z : ℕ) → x ≤ k → bit_and (bit_and x y) z ≡ bit_and x (bit_and y z)
assoc_below k zero y z h = rw (zero-bit_and y, zero-bit_and z, zero-bit_and (bit_and y z)) refl
assoc_below zero (suc x) y z h = absurd (omega arith)
assoc_below (suc k) (suc x) y z h =
    let ih = assoc_below k (suc x / 2) (y / 2) (z / 2) (omega arith) in
    let xy = bit_and_digit (suc x) y in
    let yz = bit_and_digit y z in
    omega (
      arith,
      ih,
      xy.0,
      yz.0,
      bit_and_low_digit (bit_and (suc x) y) z,
      bit_and_low_digit (suc x) (bit_and y z),
      ap (λ (t : ℕ). bit_and t (z / 2)) xy.1,
      ap (λ (t : ℕ). bit_and (suc x / 2) t) yz.1,
    )

pub bit_and_assoc : (x y z : ℕ) → bit_and (bit_and x y) z ≡ bit_and x (bit_and y z)
bit_and_assoc x y z = assoc_below x x y z (omega arith)

union_below : (k x y z : ℕ) → x ≤ k → bit_and (bit_or x y) z ≡ bit_or (bit_and x z) (bit_and y z)
union_below k zero y z h = rw (zero-bit_or y, zero-bit_and z, zero-bit_or (bit_and y z)) refl
union_below zero (suc x) y z h = absurd (omega arith)
union_below (suc k) (suc x) y z h =
    let ih = union_below k (suc x / 2) (y / 2) (z / 2) (omega arith) in
    let xy = bit_or_digit (suc x) y in
    let xz = bit_and_digit (suc x) z in
    let yz = bit_and_digit y z in
    omega (
      arith,
      ih,
      xy.0,
      xz.0,
      yz.0,
      bit_and_low_digit (bit_or (suc x) y) z,
      bit_or_low_digit (bit_and (suc x) z) (bit_and y z),
      ap (λ (t : ℕ). bit_and t (z / 2)) xy.1,
      ap (λ (t : ℕ). bit_or t (bit_and y z / 2)) xz.1,
      ap (λ (t : ℕ). bit_or (bit_and (suc x / 2) (z / 2)) t) yz.1,
    )

pub bit_and-bit_or : (x y z : ℕ) → bit_and (bit_or x y) z ≡ bit_or (bit_and x z) (bit_and y z)
bit_and-bit_or x y z = union_below x x y z (omega arith)

covers_below : (k x y : ℕ) → x ≤ k → (x ≤ bit_or x y) × (y ≤ bit_or x y) × (bit_or x y ≤ x + y)
covers_below k zero y h = rw zero-bit_or (omega arith)
covers_below zero (suc x) y h = absurd (omega arith)
covers_below (suc k) (suc x) y h =
    let (p, q, r) = covers_below k (suc x / 2) (y / 2) (omega arith) in
    omega (arith, bit_or_low_digit (suc x) y)

-- A union covers its parts and is no larger than their sum.
pub bit_or-covers : (x y : ℕ) → (x ≤ bit_or x y) × (y ≤ bit_or x y) × (bit_or x y ≤ x + y)
bit_or-covers x y = covers_below x x y (omega arith)

below_mask : (k x y : ℕ) → x ≤ k → bit_and x y ≤ x
below_mask k zero y h = rw zero-bit_and (omega arith)
below_mask zero (suc x) y h = absurd (omega arith)
below_mask (suc k) (suc x) y h =
    omega (arith, bit_and_low_digit (suc x) y, below_mask k (suc x / 2) (y / 2) (omega arith))

pub bit_and-le : (x y : ℕ) → bit_and x y ≤ x
bit_and-le x y = below_mask x x y (omega arith)
