-- ===== src/Base/Bits.antt =====
-- Laws of `bit_xor` at every width, from the recursion on binary digits that it stands for, and
-- the low mask of eight bits.
use Prim.Native.Nat.{
  ℕ, zero, suc, ◌+◌, ◌-◌, ◌*◌, ◌/◌, ◌%◌, ◌≤◌, ◌<◌, ◌^◌, bit_xor, bit_and, bit_or, digits, bitwise,
  differ, min, max, bit_xor-bitwise, bit_and-bitwise, bit_or-bitwise,
}
use mathlib.Core.Logic.{inl, inr}
use growatt_datalogger.Base.Tests.{Bool-cases, leb, leb→gt, leb→le}
use mathlib.Core.Path.{◌≡◌, refl, ◌∙◌, sym, ap, ap₂}
use native.Mathlib.Omega.{arith}
use native.Mathlib.Nat.{le_refl, pow-suc, div-one, div-div-eq-div-mul, one-le-pow}

module _ (z : ℕ → ℕ) (f : ℕ → ℕ → ℕ) where
  -- One more unit of fuel changes nothing once the fuel reaches the number.
  digits_more : (fuel m n : ℕ) → m ≤ fuel → digits z f (suc fuel) m n ≡ digits z f fuel m n
  digits_more zero zero n h = refl
  digits_more (suc fuel) zero n h = refl
  digits_more zero (suc m) n h = absurd (omega arith)
  digits_more (suc fuel) (suc m) n h = rw (digits_more fuel (suc m / 2) (n / 2) (omega arith))

  -- So any fuel that reaches it is as good as the number itself.
  digits-bitwise : (fuel m n : ℕ) → m ≤ fuel → digits z f fuel m n ≡ bitwise z f m n
  digits-bitwise zero zero n h = refl
  digits-bitwise zero (suc m) n h = absurd (omega arith)
  digits-bitwise (suc fuel) m n h = elim (Bool-cases (leb m fuel)) [
    | inl e ↦ digits_more fuel m n (leb→le m fuel e) ∙ digits-bitwise fuel m n (leb→le m fuel e)
    | inr e ↦
        let same : suc fuel ≡ m = omega (arith, leb→gt m fuel e) in
        ap (λ (t : ℕ). digits z f t m n) same
  ]

  bitwise-suc :
      (m n : ℕ)
      → bitwise z f (suc m) n ≡ f (suc m % 2) (n % 2) + 2 * bitwise z f (suc m / 2) (n / 2)
  bitwise-suc m n = omega (arith, digits-bitwise m (suc m / 2) (n / 2) (omega arith))

-- One digit of an exclusive or is the sum of the digits modulo 2.
differ_digits : (x y : ℕ) → x < 2 → y < 2 → differ x y ≡ (x + y) % 2
differ_digits zero zero p q = refl
differ_digits zero (suc zero) p q = refl
differ_digits zero (suc (suc y)) p q = absurd (omega arith)
differ_digits (suc zero) zero p q = refl
differ_digits (suc zero) (suc zero) p q = refl
differ_digits (suc zero) (suc (suc y)) p q = absurd (omega arith)
differ_digits (suc (suc x)) y p q = absurd (omega arith)

differ-mod : (a b : ℕ) → differ (a % 2) (b % 2) ≡ (a + b) % 2
differ-mod a b = differ_digits (a % 2) (b % 2) (omega arith) (omega arith) ∙ omega arith

pub bit_xor_step : (a b : ℕ) → bit_xor a b ≡ bit_xor (a / 2) (b / 2) * 2 + (a + b) % 2
bit_xor_step zero b = simp bit_xor-bitwise (omega arith)
bit_xor_step (suc a) b = omega (
  arith,
  bit_xor-bitwise (suc a) b,
  bit_xor-bitwise (suc a / 2) (b / 2),
  bitwise-suc (λ y. y) differ a b,
  differ-mod (suc a) b,
)

pub bit_and_step : (m n : ℕ) → bit_and m n ≡ min (m % 2) (n % 2) + 2 * bit_and (m / 2) (n / 2)
bit_and_step zero n = simp bit_and-bitwise (omega arith)
bit_and_step (suc m) n = omega (
  arith,
  bit_and-bitwise (suc m) n,
  bit_and-bitwise (suc m / 2) (n / 2),
  bitwise-suc (λ k. 0) min m n,
)

assoc_fuel :
    (n a b c : ℕ) → a ≤ n → b ≤ n → c ≤ n → bit_xor (bit_xor a b) c ≡ bit_xor a (bit_xor b c)
assoc_fuel zero zero zero zero p q r = refl
assoc_fuel zero _ _ _ p q r = absurd (omega arith)
assoc_fuel (suc n) a b c p q r =
    let h = assoc_fuel n (a / 2) (b / 2) (c / 2) (omega arith) (omega arith) (omega arith) in
    let s = bit_xor_step a b in
    let t = bit_xor_step b c in
    let e : bit_xor a b / 2 ≡ bit_xor (a / 2) (b / 2) = omega arith in
    let e' : bit_xor b c / 2 ≡ bit_xor (b / 2) (c / 2) = omega arith in
    omega (
      arith,
      bit_xor_step (bit_xor a b) c,
      bit_xor_step a (bit_xor b c),
      ap (λ (t : ℕ). bit_xor t (c / 2)) e,
      ap (λ (t : ℕ). bit_xor (a / 2) t) e',
    )

pub bit_xor_assoc : (a b c : ℕ) → bit_xor (bit_xor a b) c ≡ bit_xor a (bit_xor b c)
bit_xor_assoc a b c = assoc_fuel (a + b + c) a b c (omega arith) (omega arith) (omega arith)

comm_fuel : (n a b : ℕ) → a ≤ n → b ≤ n → bit_xor a b ≡ bit_xor b a
comm_fuel zero zero zero p q = refl
comm_fuel zero _ _ p q = absurd (omega arith)
comm_fuel (suc n) a b p q = omega (
  arith,
  bit_xor_step a b,
  bit_xor_step b a,
  comm_fuel n (a / 2) (b / 2) (omega arith) (omega arith),
)

pub bit_xor_comm : (a b : ℕ) → bit_xor a b ≡ bit_xor b a
bit_xor_comm a b = comm_fuel (a + b) a b (omega arith) (omega arith)

self_fuel : (n a : ℕ) → a ≤ n → bit_xor a a ≡ 0
self_fuel zero zero p = refl
self_fuel zero (suc a) p = absurd (omega arith)
self_fuel (suc n) a p = omega (arith, bit_xor_step a a, self_fuel n (a / 2) (omega arith))

pub bit_xor_self : (a : ℕ) → bit_xor a a ≡ 0
bit_xor_self a = self_fuel a a (omega arith)

pub zero-bit_xor : (a : ℕ) → bit_xor 0 a ≡ a
zero-bit_xor a = bit_xor-bitwise 0 a

pub bit_xor-zero : (a : ℕ) → bit_xor a 0 ≡ a
bit_xor-zero a = bit_xor_comm a 0 ∙ zero-bit_xor a

-- Applying the same mask twice gives the number back.
pub bit_xor_cancel : (a b : ℕ) → bit_xor (bit_xor a b) b ≡ a
bit_xor_cancel a b = bit_xor_assoc a b b ∙ ap (bit_xor a) (bit_xor_self b) ∙ bit_xor-zero a

pub bit_xor-lt : (k a b : ℕ) → a < 2 ^ k → b < 2 ^ k → bit_xor a b < 2 ^ k
bit_xor-lt zero zero zero p q = p
bit_xor-lt zero _ _ p q = absurd (omega arith)
bit_xor-lt (suc k) a b p q = omega (
  arith,
  bit_xor_step a b,
  pow-suc 2 k,
  bit_xor-lt k (a / 2) (b / 2) (omega (arith, pow-suc 2 k)) (omega (arith, pow-suc 2 k)),
)

halve_power : (a k : ℕ) → a / 2 ^ suc k ≡ a / 2 / 2 ^ k
halve_power a k =
    ap (λ (t : ℕ). a / t) (omega (arith, pow-suc 2 k)) ∙ sym (div-div-eq-div-mul a 2 (2 ^ k))

-- The digits above the lowest `k`.
pub bit_xor-div : (k a b : ℕ) → bit_xor a b / 2 ^ k ≡ bit_xor (a / 2 ^ k) (b / 2 ^ k)
bit_xor-div zero a b = simp div-one
bit_xor-div (suc k) a b =
    let e : bit_xor a b / 2 ≡ bit_xor (a / 2) (b / 2) = omega (arith, bit_xor_step a b) in
    simp halve_power (rw e (bit_xor-div k (a / 2) (b / 2)))

-- Two fields that do not overlap add up.
pub bit_xor_fields : (k q r : ℕ) → r < 2 ^ k → bit_xor r (2 ^ k * q) ≡ r + 2 ^ k * q
bit_xor_fields zero q zero fits = zero-bit_xor _ ∙ omega arith
bit_xor_fields zero q (suc r) fits = absurd (omega arith)
bit_xor_fields (suc k) q r fits =
    let e : 2 ^ suc k * q ≡ 2 * (2 ^ k * q) = rw (pow-suc 2 k) (omega arith) in
    let h : 2 ^ suc k ≡ 2 * 2 ^ k = omega (arith, pow-suc 2 k) in
    let e' : 2 ^ suc k * q / 2 ≡ 2 ^ k * q = omega arith in
    omega (
      arith,
      bit_xor_step r (2 ^ suc k * q),
      ap (bit_xor (r / 2)) e',
      bit_xor_fields k q (r / 2) (omega arith),
    )

zero_fuel : (n a : ℕ) → a ≤ n → bit_and a 0 ≡ 0
zero_fuel n zero h = refl
zero_fuel zero (suc a) h = absurd (omega arith)
zero_fuel (suc n) (suc a) h =
    omega (arith, bit_and_step (suc a) 0, zero_fuel n (suc a / 2) (omega arith))

bit_and_fields : (k q r : ℕ) → r < 2 ^ k → bit_and (r + 2 ^ k * q) (2 ^ k - 1) ≡ r
bit_and_fields zero q r fits = zero_fuel _ (r + 2 ^ 0 * q) (le_refl _) ∙ omega arith
bit_and_fields (suc k) q r fits =
    let h : 2 ^ suc k ≡ 2 * 2 ^ k = omega (arith, pow-suc 2 k) in
    let e : 2 ^ suc k * q ≡ 2 * (2 ^ k * q) = rw (pow-suc 2 k) (omega arith) in
    let p : 1 ≤ 2 ^ k = one-le-pow k 2 (omega arith) in
    let halves : bit_and ((r + 2 ^ suc k * q) / 2) ((2 ^ suc k - 1) / 2)
        ≡ bit_and (r / 2 + 2 ^ k * q) (2 ^ k - 1) =
      ap₂ bit_and (omega arith) (omega arith) in
    omega (
      arith,
      bit_and_step (r + 2 ^ suc k * q) (2 ^ suc k - 1),
      halves,
      bit_and_fields k q (r / 2) (omega arith),
    )

-- A mask of the `k` lowest digits is the remainder by `2 ^ k`.
pub bit_and_mask : (k a : ℕ) → bit_and a (2 ^ k - 1) ≡ a % 2 ^ k
bit_and_mask k a =
    let e : a ≡ a % 2 ^ k + 2 ^ k * (a / 2 ^ k) = omega (arith, one-le-pow k 2) in
    ap (λ (t : ℕ). bit_and t (2 ^ k - 1)) e
    ∙ bit_and_fields k (a / 2 ^ k) (a % 2 ^ k) (omega (arith, one-le-pow k 2))

bit_or_step : (m n : ℕ) → bit_or m n ≡ max (m % 2) (n % 2) + 2 * bit_or (m / 2) (n / 2)
bit_or_step zero n = simp bit_or-bitwise (omega arith)
bit_or_step (suc m) n = omega (
  arith,
  bit_or-bitwise (suc m) n,
  bit_or-bitwise (suc m / 2) (n / 2),
  bitwise-suc (λ b. b) max m n,
)

bit_or-zero : (n a : ℕ) → a ≤ n → bit_or a 0 ≡ a
bit_or-zero n zero h = simp bit_or-bitwise refl
bit_or-zero zero (suc a) h = absurd (omega arith)
bit_or-zero (suc n) (suc a) h =
    omega (arith, bit_or_step (suc a) 0, bit_or-zero n (suc a / 2) (omega arith))

-- A shifted number and a field below it add up.
pub bit_or_fields : (k q r : ℕ) → r < 2 ^ k → bit_or (2 ^ k * q) r ≡ 2 ^ k * q + r
bit_or_fields zero q zero fits = bit_or-zero _ (2 ^ 0 * q) (le_refl _) ∙ omega arith
bit_or_fields zero q (suc r) fits = absurd (omega arith)
bit_or_fields (suc k) q r fits =
    let e : 2 ^ suc k * q ≡ 2 * (2 ^ k * q) = rw (pow-suc 2 k) (omega arith) in
    let h : 2 ^ suc k ≡ 2 * 2 ^ k = omega (arith, pow-suc 2 k) in
    let e' : 2 ^ suc k * q / 2 ≡ 2 ^ k * q = omega arith in
    omega (
      arith,
      bit_or_step (2 ^ suc k * q) r,
      ap (λ (t : ℕ). bit_or t (r / 2)) e',
      bit_or_fields k q (r / 2) (omega arith),
    )
