-- ===== src/Prelude/Bits.antt =====
-- The binary digits of numbers, and those of `bit_and`, `bit_or` and a truncation.
use Prim.Native.Nat.{
  ℕ, zero, suc, ◌+◌, ◌*◌, ◌/◌, ◌%◌, ◌^◌, ◌≤◌, ◌<◌, min, max, digits, bit_and, bit_or,
  bit_and-bitwise, bit_or-bitwise,
}
use mathlib.Core.Path.{◌≡◌, refl, sym, ap, ◌∙◌}
use native.Mathlib.Omega.{arith}
use native.Mathlib.Nat as Nat

-- The digit `i`, the lowest at zero.
abbrev pub bit : ℕ → ℕ → ℕ
bit zero a = a % 2
bit (suc i) a = bit i (a / 2)

pub bit-lt : (i a : ℕ) → bit i a < 2
bit-lt zero a = omega arith
bit-lt (suc i) a = bit-lt i (a / 2)

pub bit-zero : (i : ℕ) → bit i 0 ≡ 0
bit-zero zero = refl
bit-zero (suc i) = bit-zero i

-- An operation on digits, and what is left of the second number behind the first.
module _ (z : ℕ → ℕ) (f : ℕ → ℕ → ℕ) (f-lt : (x y : ℕ) → x < 2 → y < 2 → f x y < 2)
    (bit-z : (i b : ℕ) → bit i (z b) ≡ f 0 (bit i b)) where
  bit-digits : (i n a b : ℕ) → a ≤ n → bit i (digits z f n a b) ≡ f (bit i a) (bit i b)
  bit-digits i zero zero b h = bit-z i b ∙ ap (λ x. f x (bit i b)) (sym (bit-zero i))
  bit-digits i zero (suc a) b h = absurd (omega arith)
  bit-digits i (suc n) zero b h = bit-z i b ∙ ap (λ x. f x (bit i b)) (sym (bit-zero i))
  bit-digits zero (suc n) (suc a) b h =
      omega (arith, f-lt (suc a % 2) (b % 2) (omega arith) (omega arith))
  bit-digits (suc i) (suc n) (suc a) b h =
      let l = f-lt (suc a % 2) (b % 2) (omega arith) (omega arith) in
      let rest = digits z f n (suc a / 2) (b / 2) in
      let half : (rest * 2 + f (suc a % 2) (b % 2)) / 2 ≡ rest = omega (arith, l) in
      ap (bit i) half ∙ bit-digits i n (suc a / 2) (b / 2) (omega arith)

pub bit-and : (i a b : ℕ) → bit i (bit_and a b) ≡ min (bit i a) (bit i b)
bit-and i a b =
    ap (bit i) (bit_and-bitwise a b)
    ∙ bit-digits (λ b. 0) min (λ x y h k. omega arith) (λ i b. bit-zero i ∙ omega arith) i a a b
        (omega arith)

pub bit-or : (i a b : ℕ) → bit i (bit_or a b) ≡ max (bit i a) (bit i b)
bit-or i a b =
    ap (bit i) (bit_or-bitwise a b)
    ∙ bit-digits (λ b. b) max (λ x y h k. omega arith) (λ i b. omega arith) i a a b (omega arith)

mul-pow_suc : (q k : ℕ) → q * 2 ^ suc k ≡ q * 2 ^ k * 2
mul-pow_suc q k = ap (λ t. q * t) (Nat.pow-suc 2 k) ∙ sym (Nat.mul_assoc q (2 ^ k) 2)

even-low : (t r : ℕ) → (t * 2 + r) % 2 ≡ r % 2
even-low t r = omega arith

even-half : (t r : ℕ) → (t * 2 + r) / 2 ≡ t + r / 2
even-half t r = omega arith

pub bit-add : (i k q r : ℕ) → i < k → bit i (q * 2 ^ k + r) ≡ bit i r
bit-add i zero q r h = absurd (omega arith)
bit-add zero (suc k) q r h = ap (λ t. (t + r) % 2) (mul-pow_suc q k) ∙ even-low (q * 2 ^ k) r
bit-add (suc i) (suc k) q r h =
    ap (λ t. bit i ((t + r) / 2)) (mul-pow_suc q k)
    ∙ ap (bit i) (even-half (q * 2 ^ k) r)
    ∙ bit-add i k q (r / 2) (omega arith)

pub bit-mod : (i k a : ℕ) → i < k → bit i (a % 2 ^ k) ≡ bit i a
bit-mod i k a h =
    sym (bit-add i k (a / 2 ^ k) (a % 2 ^ k) h) ∙ ap (bit i) (Nat.div-add-mod' a (2 ^ k))

abbrev pub plus : ℕ → ℕ → ℕ
plus zero i = i
plus (suc k) i = suc (plus k i)

pub bit-div : (i k a : ℕ) → bit i (a / 2 ^ k) ≡ bit (plus k i) a
bit-div i zero a = ap (bit i) (omega arith)
bit-div i (suc k) a =
    ap (λ p. bit i (a / p)) (Nat.pow-succ' 2 k)
    ∙ ap (bit i) (sym (Nat.div-div-eq-div-mul a 2 (2 ^ k)))
    ∙ bit-div i k (a / 2)
