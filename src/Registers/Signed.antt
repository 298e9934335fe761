-- ===== src/Registers/Signed.antt =====
-- `_assemble` against two's complement: the words of a signed number are read back as it.
use Prim.Native.Nat.{bit_or}
use native.Mathlib.Numerals.{towards_suc}
use native.Mathlib.Nat.{pow-suc}
use growatt_datalogger.Base.{
  List, [], ap, arith, gt→leb, leb, length, length-append, le→leb, refl, suc, true, zero, ℕ, ◌%◌,
  ◌*◌, ◌+◌, false, ◌++◌, ◌-◌, ◌/◌, ◌<◌, ◌^◌, ◌∙◌, ◌∷◌, ◌≡◌,
}
use growatt_datalogger.Base.Bits.{bit_or_fields}
use growatt_datalogger.Commands.Build.{negsuc, pos, ℤ}
use growatt_datalogger.Python.{ok}
use growatt_datalogger.Registers.Decode.{assemble, shift_in, with_sign}

-- The `k` lowest words of a number, the highest first.
abbrev pub words_below : ℕ → ℕ → List ℕ
words_below zero value = []
words_below (suc k) value = words_below k (value / 2 ^ 16) ++ (value % 2 ^ 16) ∷ []

-- A number as `k` words in two's complement.
abbrev pub signed_words : ℕ → ℤ → List ℕ
signed_words k (pos n) = words_below k n
signed_words k (negsuc n) = words_below k (2 ^ (16 * k) - suc n)

-- It has at most `16 * k - 1` binary digits beside its sign.
abbrev pub Fits : ℕ → ℤ → Type 0
Fits k (pos n) = n < 2 ^ (16 * k - 1)
Fits k (negsuc n) = n < 2 ^ (16 * k - 1)

length-words_below : (k value : ℕ) → length (words_below k value) ≡ k
length-words_below zero value = refl
length-words_below (suc k) value =
    length-append (words_below k (value / 2 ^ 16)) ((value % 2 ^ 16) ∷ [])
    ∙ omega (arith, length-words_below k (value / 2 ^ 16))

shift_in-append :
    (xs ys : List ℕ) (value : ℕ) → shift_in value (xs ++ ys) ≡ shift_in (shift_in value xs) ys
unfolding shift_in
shift_in-append [] ys value = refl
shift_in-append (x ∷ xs) ys value = shift_in-append xs ys (bit_or (2 ^ 16 * value) x)

pow_eight : (n : ℕ) → 2 ^ (n + 8) ≡ 256 * 2 ^ n
pow_eight n = simp towards_suc (omega arith)

pow_words : (k : ℕ) → 2 ^ (16 * suc k) ≡ 2 ^ 16 * 2 ^ (16 * k)
pow_words k =
    let e : 16 * suc k ≡ 16 * k + 8 + 8 = omega arith in
    omega (arith, ap (λ (t : ℕ). 2 ^ t) e, pow_eight (16 * k), pow_eight (16 * k + 8))

shift_in-words_below :
    (k value : ℕ) → value < 2 ^ (16 * k) → shift_in 0 (words_below k value) ≡ value
unfolding shift_in
shift_in-words_below zero value h = omega arith
shift_in-words_below (suc k) value h =
    let smaller : value / 2 ^ 16 < 2 ^ (16 * k) = omega (arith, pow_words k) in
    shift_in-append (words_below k (value / 2 ^ 16)) ((value % 2 ^ 16) ∷ []) 0
    ∙ ap (λ (t : ℕ). bit_or (2 ^ 16 * t) (value % 2 ^ 16))
        (shift_in-words_below k (value / 2 ^ 16) smaller)
    ∙ bit_or_fields 16 (value / 2 ^ 16) (value % 2 ^ 16) (omega arith)
    ∙ omega arith

assemble-eq :
    (words : List ℕ)
    → 0 < length words
    → assemble words true ≡ ok (with_sign (16 * length words) (shift_in 0 words))
unfolding assemble
assemble-eq [] h = absurd (omega arith)
assemble-eq (w ∷ ws) h = refl

half : (k : ℕ) → 0 < k → 2 ^ (16 * k) ≡ 2 * 2 ^ (16 * k - 1)
half zero h = absurd (omega arith)
half (suc k) h =
    let e : 16 * suc k ≡ suc (16 * k + 15) = omega arith in
    let f : 16 * suc k - 1 ≡ 16 * k + 15 = omega arith in
    omega (arith, ap (λ (t : ℕ). 2 ^ t) e, ap (λ (t : ℕ). 2 ^ t) f, pow-suc 2 (16 * k + 15))

with_sign_lem :
    (k : ℕ) (z : ℤ) → 0 < k → Fits k z → with_sign (16 * k) (shift_in 0 (signed_words k z)) ≡ z
with_sign_lem k (pos n) h f =
    let e = shift_in-words_below k n (omega (arith, half k h)) in
    rw (e, gt→leb (2 ^ (16 * k - 1)) n f) refl
with_sign_lem k (negsuc n) h f =
    let e = shift_in-words_below k (2 ^ (16 * k) - suc n) (omega (arith, half k h)) in
    let g : leb (2 ^ (16 * k - 1)) (2 ^ (16 * k) - suc n) ≡ true =
      le→leb _ _ (omega (arith, half k h)) in
    let past : leb (2 ^ (16 * k)) (2 ^ (16 * k) - suc n) ≡ false =
      gt→leb _ _ (omega (arith, half k h)) in
    rw (e, g, past) (ap negsuc (omega (arith, half k h)))

length-signed_words : (k : ℕ) (z : ℤ) → length (signed_words k z) ≡ k
length-signed_words k (pos n) = length-words_below k n
length-signed_words k (negsuc n) = length-words_below k (2 ^ (16 * k) - suc n)

-- A signed number that fits into some words, at least one, is read back from its two's complement
-- in those words, the highest first.
pub assemble-signed_words :
    (k : ℕ) (z : ℤ) → 0 < k → Fits k z → assemble (signed_words k z) true ≡ ok z
assemble-signed_words k z h f =
    let l = length-signed_words k z in
    assemble-eq (signed_words k z) (omega arith)
    ∙ ap ok (
        ap (λ (n : ℕ). with_sign (16 * n) (shift_in 0 (signed_words k z))) l
        ∙ with_sign_lem k z h f)
