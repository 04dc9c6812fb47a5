-- ===== src/Prelude/Results.antt =====
-- How a Go function ends: with a result, with an error value, by a panic on an index out of range,
-- or, in the model alone, with its fuel used up; and the reads of a byte slice, with Go's checks.
use Prim.Native.Nat.{ℕ, ◌+◌, ◌-◌, ◌*◌, ◌/◌, ◌%◌}
use mathlib.Core.Path.{sym, ◌≡◌, refl, subst}
use mathlib.Core.Bool.{Bool, true, false, ◌&&◌}
use mathlib.Core.List.{List, [], ◌∷◌}
use split_wire.Prelude.Tests.{ltb, leb, if◌then◌else◌}
use split_wire.Prelude.Lists.{length, get_or, take, drop, write, set}

pub data Outcome {ℓ} (E : Type 0) (A : Type ℓ) : Type ℓ where
  ok : A → Outcome E A
  err : E → Outcome E A
  panic : Outcome E A
  out_of_fuel : Outcome E A

-- `if c { return e }`.
abbrev pub fail_if : {E : Type 0} → Bool → E → Outcome E (Unit {0})
fail_if false e = ok tt
fail_if true e = err e

-- The rest of a function, which runs where the part before it gives a result.
infixl 5 ◌>>=◌ ◌>>◌
abbrev pub ◌>>=◌ {ℓ κ} :
    {E : Type 0} {A : Type ℓ} {B : Type κ} → Outcome E A → (A → Outcome E B) → Outcome E B
panic >>= rest = panic
out_of_fuel >>= rest = out_of_fuel
err e >>= rest = err e
ok a >>= rest = rest a

abbrev pub ◌>>◌ {ℓ} : {E : Type 0} {B : Type ℓ} → Outcome E (Unit {0}) → Outcome E B → Outcome E B
first >> rest = first >>= λ _. rest

-- The function returns, with a result or with an error: no panic, and enough fuel.
abbrev pub Returns {ℓ} : {E : Type 0} {A : Type ℓ} → Outcome E A → Type 0
Returns (ok a) = Unit
Returns (err e) = Unit
Returns panic = ⊥
Returns out_of_fuel = ⊥

-- The property of the result, where there is one.
abbrev pub Ensures {ℓ κ} : {E : Type 0} {A : Type ℓ} → (A → Type κ) → Outcome E A → Type κ
Ensures P (ok a) = P a
Ensures P _ = Unit

pub Ensures-ok {ℓ κ} :
    {E : Type 0} {A : Type ℓ} (P : A → Type κ) (m : Outcome E A) {a : A}
    → Ensures P m
    → m ≡ ok a
    → P a
Ensures-ok P m {a} h e = subst (Ensures P) e h

-- The function returns, and its result, where there is one, has the property.
abbrev pub Yields {ℓ} : {E : Type 0} {A : Type ℓ} → (A → Type 0) → Outcome E A → Type 0
Yields P (ok a) = P a
Yields P (err e) = Unit
Yields P panic = ⊥
Yields P out_of_fuel = ⊥

pub Returns-Yields {ℓ} :
    {E : Type 0} {A : Type ℓ} (m : Outcome E A) → Returns m → Yields (λ a. Unit {0}) m
Returns-Yields (ok a) h = tt
Returns-Yields (err e) h = tt
Returns-Yields panic h = h
Returns-Yields out_of_fuel h = h

pub Yields-Returns {ℓ} :
    {E : Type 0} {A : Type ℓ} (P : A → Type 0) (m : Outcome E A) → Yields P m → Returns m
Yields-Returns P (ok a) h = tt
Yields-Returns P (err e) h = tt
Yields-Returns P panic h = h
Yields-Returns P out_of_fuel h = h

pub Yields-ok {ℓ} :
    {E : Type 0} {A : Type ℓ} (P : A → Type 0) (m : Outcome E A) {a : A}
    → Yields P m
    → m ≡ ok a
    → P a
Yields-ok P m {a} h e = subst (Yields P) e h

pub Yields-bind {ℓ κ} :
    {E : Type 0} {A : Type ℓ} {B : Type κ} (P : A → Type 0) (Q : B → Type 0) (m : Outcome E A)
    (f : A → Outcome E B)
    → Yields P m
    → ((a : A) → P a → Yields Q (f a))
    → Yields Q (m >>= f)
Yields-bind P Q (ok a) f h g = g a h
Yields-bind P Q (err e) f h g = tt
Yields-bind P Q panic f h g = h
Yields-bind P Q out_of_fuel f h g = h

pub Ensures-bind {ℓ κ} :
    {E : Type 0} {A : Type ℓ} {B : Type κ} (Q : B → Type 0) (m : Outcome E A) (f : A → Outcome E B)
    → ((a : A) → m ≡ ok a → Ensures Q (f a))
    → Ensures Q (m >>= f)
Ensures-bind Q (ok a) f g = g a refl
Ensures-bind Q (err e) f g = tt
Ensures-bind Q panic f g = tt
Ensures-bind Q out_of_fuel f g = tt

pub Ensures-after {ℓ κ} :
    {E : Type 0} {A : Type ℓ} {B : Type κ} (Q : B → Type 0) (m : Outcome E A) (f : A → Outcome E B)
    {a : A}
    → m ≡ ok a
    → Ensures Q (f a)
    → Ensures Q (m >>= f)
Ensures-after Q m f e h = subst (λ x. Ensures Q (x >>= f)) (sym e) h

-- A function that succeeds got a result from its first step, and its rest succeeded on that.
pub >>=-inv {ℓ κ} :
    {E : Type 0} {A : Type ℓ} {B : Type κ} {b : B} (step : Outcome E A) (rest : A → Outcome E B)
    → step >>= rest ≡ ok b
    → (got : A) × (step ≡ ok got) × (rest got ≡ ok b)
>>=-inv panic rest e = cc
>>=-inv out_of_fuel rest e = cc
>>=-inv (err x) rest e = cc
>>=-inv (ok got) rest e = (got, refl, e)

abbrev pub Bytes : Type 0
Bytes = List ℕ

abbrev pub byte_at : Bytes → ℕ → ℕ
byte_at b i = get_or b i 0

abbrev pub be16 : Bytes → ℕ → ℕ
be16 b i = byte_at b i * 256 + byte_at b (i + 1)

abbrev pub be32 : Bytes → ℕ → ℕ
be32 b i = be16 b i * 65536 + be16 b (i + 2)

-- `b[i:j]` as a value.
abbrev pub range : Bytes → ℕ → ℕ → Bytes
range b i j = take (j - i) (drop i b)

module _ {E : Type 0} where
  -- `b[i]`.
  abbrev pub at : Bytes → ℕ → Outcome E ℕ
  at b i = if ltb i (length b) then ok (byte_at b i) else panic

  -- `binary.BigEndian.Uint16(b[i:])` and `Uint32`.
  abbrev pub u16_at : Bytes → ℕ → Outcome E ℕ
  u16_at b i = if leb (i + 2) (length b) then ok (be16 b i) else panic

  abbrev pub u32_at : Bytes → ℕ → Outcome E ℕ
  u32_at b i = if leb (i + 4) (length b) then ok (be32 b i) else panic

  -- `b[i:j]`, on a slice with no room behind its end.
  abbrev pub slice : Bytes → ℕ → ℕ → Outcome E Bytes
  slice b i j = if leb i j && leb j (length b) then ok (range b i j) else panic

  -- `b[i] = v`.
  abbrev pub put : Bytes → ℕ → ℕ → Outcome E Bytes
  put b i v = if ltb i (length b) then ok (set b i v) else panic

  -- `copy(b[i:j], v)`, with `v` of that length.
  abbrev pub copy_at : Bytes → ℕ → Bytes → Outcome E Bytes
  copy_at b i v = if leb (i + length v) (length b) then ok (write b i v) else panic

-- The bytes of a 16-bit and of a 32-bit number, as `PutUint16` and `PutUint32` store them.
abbrev pub bytes16 : ℕ → Bytes
bytes16 v = (v / 256 % 256) ∷ (v % 256) ∷ []

abbrev pub bytes32 : ℕ → Bytes
bytes32 v = (v / 16777216 % 256) ∷ (v / 65536 % 256) ∷ (v / 256 % 256) ∷ (v % 256) ∷ []
