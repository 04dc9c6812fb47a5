-- ===== src/Cryptox/Words.antt =====
-- Words and bytes of the ciphers: exclusive or, rotations and little-endian numbers.
use split_wire.Prelude.{
  Bytes, List, [], ap₂, arith, bit_or, bit_xor, byte_at, refl, shr, suc, u32, zero, ℕ, ◌%◌, ◌*◌,
  ◌++◌, ◌+◌, ◌-◌, ◌/◌, ◌<◌, ◌^◌, ◌∙◌, ◌∷◌, ◌≡◌, ◌≤◌,
}
use Prim.Native.Nat.{bit_xor-bitwise, digits, differ}

abbrev xor_digits : ℕ → ℕ → ℕ → ℕ
xor_digits n a b = digits (λ b. b) differ n a b

xor_digits_fuel : (n m a b : ℕ) → a ≤ n → a ≤ m → xor_digits n a b ≡ xor_digits m a b
xor_digits_fuel zero zero a b p q = refl
xor_digits_fuel zero (suc m) zero b p q = refl
xor_digits_fuel zero (suc m) (suc a) b p q = absurd (omega arith)
xor_digits_fuel (suc n) zero zero b p q = refl
xor_digits_fuel (suc n) zero (suc a) b p q = absurd (omega arith)
xor_digits_fuel (suc n) (suc m) zero b p q = refl
xor_digits_fuel (suc n) (suc m) (suc a) b p q =
    omega (arith, xor_digits_fuel n m (suc a / 2) (b / 2) (omega arith) (omega arith))

zero-bit_xor : (b : ℕ) → bit_xor 0 b ≡ b
zero-bit_xor b = bit_xor-bitwise 0 b

differ-lt : (x y : ℕ) → x < 2 → y < 2 → differ x y < 2
differ-lt zero y h k = k
differ-lt (suc zero) zero h k = omega arith
differ-lt (suc zero) (suc zero) h k = omega arith
differ-lt (suc zero) (suc (suc y)) h k = absurd (omega arith)
differ-lt (suc (suc x)) y h k = absurd (omega arith)

differ-differ : (x y : ℕ) → x < 2 → y < 2 → differ (differ x y) y ≡ x
differ-differ zero zero h k = refl
differ-differ zero (suc zero) h k = refl
differ-differ zero (suc (suc y)) h k = absurd (omega arith)
differ-differ (suc zero) zero h k = refl
differ-differ (suc zero) (suc zero) h k = refl
differ-differ (suc zero) (suc (suc y)) h k = absurd (omega arith)
differ-differ (suc (suc x)) y h k = absurd (omega arith)

-- The lowest digit, and the rest.
bit_xor_step : (a b : ℕ) → bit_xor a b ≡ bit_xor (a / 2) (b / 2) * 2 + differ (a % 2) (b % 2)
bit_xor_step zero b = omega (arith, zero-bit_xor b, zero-bit_xor (b / 2))
bit_xor_step (suc a) b = omega (
  arith,
  bit_xor-bitwise (suc a) b,
  bit_xor-bitwise (suc a / 2) (b / 2),
  xor_digits_fuel a (suc a / 2) (suc a / 2) (b / 2) (omega arith) (omega arith),
)

bit_xor_twice_fuel : (n a b : ℕ) → a ≤ n → b ≤ n → bit_xor (bit_xor a b) b ≡ a
bit_xor_twice_fuel zero zero zero h k = refl
bit_xor_twice_fuel zero zero (suc b) h k = absurd (omega arith)
bit_xor_twice_fuel zero (suc a) b h k = absurd (omega arith)
bit_xor_twice_fuel (suc n) a b h k =
    let low = differ-lt (a % 2) (b % 2) (omega arith) (omega arith) in
    let x = bit_xor a b in
    let high : x / 2 ≡ bit_xor (a / 2) (b / 2) = omega (arith, bit_xor_step a b) in
    let digit : x % 2 ≡ differ (a % 2) (b % 2) = omega (arith, bit_xor_step a b) in
    bit_xor_step x b
    ∙ ap₂ (λ (u v : ℕ). bit_xor u (b / 2) * 2 + differ v (b % 2)) high digit
    ∙ omega (
      arith,
      bit_xor_twice_fuel n (a / 2) (b / 2) (omega arith) (omega arith),
      differ-differ (a % 2) (b % 2) (omega arith) (omega arith),
    )

pub bit_xor_twice : (a b : ℕ) → bit_xor (bit_xor a b) b ≡ a
bit_xor_twice a b = bit_xor_twice_fuel (a + b) a b (omega arith) (omega arith)

-- The 32-bit number that stands at `i` in little-endian order, and its bytes.
abbrev pub le32 : Bytes → ℕ → ℕ
le32 b i =
    byte_at b i
    + byte_at b (i + 1) * 2 ^ 8
    + byte_at b (i + 2) * 2 ^ 16
    + byte_at b (i + 3) * 2 ^ 24

abbrev pub le_bytes : ℕ → ℕ → Bytes
le_bytes zero x = []
le_bytes (suc n) x = (x % 2 ^ 8) ∷ le_bytes n (x / 2 ^ 8)

-- `PutUint32` of each word.
abbrev pub words_bytes : List ℕ → Bytes
words_bytes [] = []
words_bytes (x ∷ xs) = le_bytes 4 x ++ words_bytes xs

-- The first `n` little-endian words from `i` on.
abbrev pub words_at : ℕ → Bytes → ℕ → List ℕ
words_at zero b i = []
words_at (suc n) b i = le32 b i ∷ words_at n b (i + 4)

-- `x << n | x >> (32 - n)` and `x >> n | x << (32 - n)`.
abbrev pub rol : ℕ → ℕ → ℕ
rol x n = bit_or (u32 (x * 2 ^ n)) (shr x (32 - n))

abbrev pub ror : ℕ → ℕ → ℕ
ror x n = bit_or (shr x n) (u32 (x * 2 ^ (32 - n)))
