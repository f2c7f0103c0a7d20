-- ===== src/Prelude/Octets.antt =====
-- Byte strings as lists of numbers: Go's []byte, string and fixed arrays. Equality of such
-- values, and the lower-case hexadecimal spelling that fmt's %x and encoding/hex give.
use Prim.Native.Nat.{ℕ, zero, suc, ◌+◌, ◌*◌, ◌/◌, ◌%◌}
use Prim.Native.Char.{code}
use Prim.Native.String.{String}
use mathlib.Core.Path.{◌≡◌, refl}
use mathlib.Core.Logic.{◌↔◌}
use mathlib.Core.Bool.{Bool, true, false, ◌&&◌}
use mathlib.Core.List.{List, [], ◌∷◌, ◌++◌}
use native.Mathlib.Omega.{arith}
use peerdns.Prelude.Tests.{◌==◌, ltb, if◌then◌else◌}
use peerdns.Prelude.Lists.{length}

abbrev pub Bytes : Type 0
Bytes = List ℕ

-- The code points of a literal.
abbrev pub codes : String → Bytes
codes String.[] = []
codes (String.◌∷◌ c s) = code c ∷ codes s

unfoldable pub beq : Bytes → Bytes → Bool
beq [] [] = true
beq [] (y ∷ ys) = false
beq (x ∷ xs) [] = false
beq (x ∷ xs) (y ∷ ys) = (x == y) && beq xs ys

beq→eq : (xs ys : Bytes) → beq xs ys ≡ true → xs ≡ ys
unfolding beq
beq→eq [] [] h = refl
beq→eq [] (y ∷ ys) h = cc
beq→eq (x ∷ xs) [] h = cc
beq→eq (x ∷ xs) (y ∷ ys) h = ground (arith, beq→eq xs ys)

pub beq_refl : (xs : Bytes) → beq xs xs ≡ true
unfolding beq
beq_refl [] = refl
beq_refl (x ∷ xs) = ground (arith, beq_refl xs)

pub beq_iff : (xs ys : Bytes) → (beq xs ys ≡ true) ↔ (xs ≡ ys)
beq_iff xs ys = (beq→eq xs ys, λ e. rw e (beq_refl ys))

-- The digits 0-9 and a-f.
unfoldable pub hex_digit : ℕ → ℕ
hex_digit n = if ltb n 10 then 48 + n else 87 + n

unfoldable pub hex : Bytes → Bytes
unfolding hex_digit
hex [] = []
hex (b ∷ bs) = hex_digit (b / 16) ∷ hex_digit (b % 16) ∷ hex bs

pub length-hex : (bs : Bytes) → length (hex bs) ≡ 2 * length bs
unfolding hex
length-hex [] = refl
length-hex (b ∷ bs) = omega (arith, length-hex bs)

hex_digit-injective : (a b : ℕ) → hex_digit a ≡ hex_digit b → a ≡ b
unfolding hex_digit
hex_digit-injective a b h = ground arith

byte_of_digits : (a b : ℕ) → a / 16 ≡ b / 16 → a % 16 ≡ b % 16 → a ≡ b
byte_of_digits a b h k = omega arith

-- Two byte strings with one spelling are equal.
pub hex-injective : (xs ys : Bytes) → hex xs ≡ hex ys → xs ≡ ys
unfolding hex
hex-injective [] [] h = refl
hex-injective [] (y ∷ ys) h = cc
hex-injective (x ∷ xs) [] h = cc
hex-injective (x ∷ xs) (y ∷ ys) h = ground (
  arith,
  hex_digit-injective (x / 16) (y / 16),
  hex_digit-injective (x % 16) (y % 16),
  byte_of_digits x y,
  hex-injective xs ys,
)

-- The verb %d, on fuel: as many digits as there are at most.
unfoldable pub digits : ℕ → ℕ → Bytes
digits zero n = []
digits (suc fuel) n =
    let rest = digits fuel (n / 10) in
    if ltb n 10 then (48 + n) ∷ [] else rest ++ ((48 + n % 10) ∷ [])
