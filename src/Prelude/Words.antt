-- ===== src/Prelude/Words.antt =====
-- Bytes of a number, most significant first (encoding/binary.BigEndian), and exclusive or.
use Prim.Native.Nat.{
  ℕ, zero, suc, ◌+◌, ◌*◌, ◌/◌, ◌%◌, ◌^◌, ◌≤◌, ◌<◌, bit_xor, digits, differ, bit_xor-bitwise,
}
use mathlib.Core.Path.{◌≡◌, refl, ap, ◌∙◌}
use mathlib.Core.List.{List, [], ◌∷◌}
use native.Mathlib.Omega.{arith}

-- The low `k` bytes of a number, and the number that bytes stand for.
abbrev pub be_bytes : ℕ → ℕ → List ℕ
be_bytes zero n = []
be_bytes (suc k) n = n / 256 ^ k % 256 ∷ be_bytes k n

abbrev pub be_from : ℕ → List ℕ → ℕ
be_from acc [] = acc
be_from acc (b ∷ bs) = be_from (acc * 256 + b) bs

abbrev pub be_value : List ℕ → ℕ
be_value bs = be_from 0 bs

abbrev xor_digits : ℕ → ℕ → ℕ → ℕ
xor_digits n a b = digits (λ b. b) differ n a b

xor_digits_fuel : (n m a b : ℕ) → a ≤ n → a ≤ m → xor_digits n a b ≡ xor_digits m a b
xor_digits_fuel zero zero a b p q = refl
xor_digits_fuel zero (suc m) zero b p q = refl
xor_digits_fuel zero (suc m) (suc a) b p q = absurd (omega arith)
xor_digits_fuel (suc n) zero zero b p q = refl
xor_digits_fuel (suc n) zero (suc a) b p q = absurd (omega arith)
xor_digits_fuel (suc n) (suc m) zero b p q = refl
xor_digits_fuel (suc n) (suc m) (suc a) b p q =
    omega (arith, xor_digits_fuel n m (suc a / 2) (b / 2) (omega arith) (omega arith))

zero-bit_xor : (b : ℕ) → bit_xor 0 b ≡ b
zero-bit_xor b = bit_xor-bitwise 0 b

pub bit_xor_step : (a b : ℕ) → bit_xor a b ≡ bit_xor (a / 2) (b / 2) * 2 + differ (a % 2) (b % 2)
bit_xor_step zero b = omega (arith, zero-bit_xor b, zero-bit_xor (b / 2))
bit_xor_step (suc a) b = omega (
  arith,
  bit_xor-bitwise (suc a) b,
  bit_xor-bitwise (suc a / 2) (b / 2),
  xor_digits_fuel a (suc a / 2) (suc a / 2) (b / 2) (omega arith) (omega arith),
)

differ_self : (a : ℕ) → differ a a ≡ 0
differ_self zero = refl
differ_self (suc a) = differ_self a

differ_twice : (a b : ℕ) → a < 2 → b < 2 → (differ a b < 2) × (differ (differ a b) b ≡ a)
differ_twice zero zero h k = omega arith
differ_twice zero (suc zero) h k = omega arith
differ_twice (suc zero) zero h k = omega arith
differ_twice (suc zero) (suc zero) h k = omega arith
differ_twice (suc (suc a)) b h k = absurd (omega arith)
differ_twice zero (suc (suc b)) h k = absurd (omega arith)
differ_twice (suc zero) (suc (suc b)) h k = absurd (omega arith)

bit_xor_self : (n a : ℕ) → a ≤ n → bit_xor a a ≡ 0
bit_xor_self n zero h = zero-bit_xor 0
bit_xor_self zero (suc a) h = absurd (omega arith)
bit_xor_self (suc n) (suc a) h = omega (
  arith,
  bit_xor_step (suc a) (suc a),
  bit_xor_self n (suc a / 2) (omega arith),
  differ_self (suc a % 2),
)

bit_xor_twice_fuel : (n x k : ℕ) → x ≤ n → bit_xor (bit_xor x k) k ≡ x
bit_xor_twice_fuel n zero k h =
    ap (λ t. bit_xor t k) (zero-bit_xor k) ∙ bit_xor_self k k (omega arith)
bit_xor_twice_fuel zero (suc x) k h = absurd (omega arith)
bit_xor_twice_fuel (suc n) (suc x) k h =
    let low = differ_twice (suc x % 2) (k % 2) (omega arith) (omega arith) in
    let half : bit_xor (suc x) k / 2 ≡ bit_xor (suc x / 2) (k / 2) =
      omega (arith, bit_xor_step (suc x) k, low.0) in
    let odd : bit_xor (suc x) k % 2 ≡ differ (suc x % 2) (k % 2) =
      omega (arith, bit_xor_step (suc x) k, low.0) in
    bit_xor_step (bit_xor (suc x) k) k
    ∙ (rw (half, odd)
        (omega (arith, bit_xor_twice_fuel n (suc x / 2) (k / 2) (omega arith), low.1)))

-- A mask that is applied twice is removed.
pub bit_xor_twice : (x k : ℕ) → bit_xor (bit_xor x k) k ≡ x
bit_xor_twice x k = bit_xor_twice_fuel x x k (omega arith)
