-- ===== src/Common/Bytes.antt =====
-- Unsigned integers as bytes: the standard library's `to_le_bytes`, `from_le_bytes` and
-- `to_be_bytes`, `from_be_bytes`, with the width in bytes as the first argument.
use Prim.Native.Nat.{ℕ, zero, suc, ◌+◌, ◌*◌, ◌/◌, ◌%◌, ◌^◌, ◌<◌, bit_and, bit_or}
use mathlib.Core.Path.{◌≡◌, refl, ap}
use mathlib.Core.Bool.{Bool, true, false}
use mathlib.Core.Logic.{inl, inr}
use mathlib.Core.List.{List, [], ◌∷◌, reverse, reverse_aux, reverse-reverse}
use native.Mathlib.Omega.{arith}
use zigbee_rust_playground.Common.Lists.{length, All}
use zigbee_rust_playground.Common.Tests.{◌==◌, ==_iff, if◌then◌else◌, Bool-cases}

abbrev pub IsByte : ℕ → Type 0
IsByte b = b < 256

unfoldable pub to_le_bytes : ℕ → ℕ → List ℕ
to_le_bytes zero x = []
to_le_bytes (suc n) x = (x % 256) ∷ to_le_bytes n (x / 256)

unfoldable pub from_le_bytes : List ℕ → ℕ
from_le_bytes [] = 0
from_le_bytes (b ∷ bs) = b + 256 * from_le_bytes bs

pub length-to_le_bytes : (n x : ℕ) → length (to_le_bytes n x) ≡ n
unfolding to_le_bytes
length-to_le_bytes zero x = refl
length-to_le_bytes (suc n) x = omega (arith, length-to_le_bytes n (x / 256))

pub to_le_bytes-IsByte : (n x : ℕ) → All IsByte (to_le_bytes n x)
unfolding to_le_bytes
to_le_bytes-IsByte zero x = tt
to_le_bytes-IsByte (suc n) x = (omega arith, to_le_bytes-IsByte n (x / 256))

pub from_le_bytes-to_le_bytes : (n x : ℕ) → x < 256 ^ n → from_le_bytes (to_le_bytes n x) ≡ x
unfolding to_le_bytes from_le_bytes
from_le_bytes-to_le_bytes zero x h = omega arith
from_le_bytes-to_le_bytes (suc n) x h =
    omega (arith, from_le_bytes-to_le_bytes n (x / 256) (omega arith))

pub from_le_bytes-lt :
    (n : ℕ) (bs : List ℕ) → length bs ≡ n → All IsByte bs → from_le_bytes bs < 256 ^ n
unfolding from_le_bytes
from_le_bytes-lt zero [] e h = omega arith
from_le_bytes-lt zero (b ∷ bs) e h = absurd (omega arith)
from_le_bytes-lt (suc n) [] e h = absurd (omega arith)
from_le_bytes-lt (suc n) (b ∷ bs) e (hb, h) = omega (arith, from_le_bytes-lt n bs (omega arith) h)

unfoldable pub to_be_bytes : ℕ → ℕ → List ℕ
unfolding to_le_bytes
to_be_bytes n x = reverse (to_le_bytes n x)

unfoldable pub from_be_bytes : List ℕ → ℕ
unfolding from_le_bytes
from_be_bytes bs = from_le_bytes (reverse bs)

pub from_be_bytes-to_be_bytes : (n x : ℕ) → x < 256 ^ n → from_be_bytes (to_be_bytes n x) ≡ x
unfolding to_be_bytes from_be_bytes
from_be_bytes-to_be_bytes n x h =
    rw (reverse-reverse (to_le_bytes n x)) (from_le_bytes-to_le_bytes n x h)

length-reverse_aux : (bs acc : List ℕ) → length (reverse_aux bs acc) ≡ length bs + length acc
length-reverse_aux [] acc = omega arith
length-reverse_aux (b ∷ bs) acc = omega (arith, length-reverse_aux bs (b ∷ acc))

pub length-to_be_bytes : (n x : ℕ) → length (to_be_bytes n x) ≡ n
unfolding to_be_bytes
length-to_be_bytes n x =
    omega (arith, length-reverse_aux (to_le_bytes n x) [], length-to_le_bytes n x)

-- One byte is its own encoding, two bytes are the low and the high one.
pub to_le_bytes-one : (x : ℕ) → x < 256 → to_le_bytes 1 x ≡ x ∷ []
unfolding to_le_bytes
to_le_bytes-one x h = ap (λ (y : ℕ). y ∷ []) (omega arith)

-- Masks on one byte as arithmetic: two functions that agree on a range, value by value, are equal on it.
agree : (ℕ → ℕ) → (ℕ → ℕ) → ℕ → Bool
agree f g zero = true
agree f g (suc n) = if f n == g n then agree f g n else false

agree-elim : (f g : ℕ → ℕ) (bound v : ℕ) → v < bound → agree f g bound ≡ true → f v ≡ g v
unfolding agree
agree-elim f g zero v lt same = absurd (omega (arith, lt))
agree-elim f g (suc n) v lt same = elim (Bool-cases (f n == g n)) [
  | inr differ ↦ absurd (ground (arith, same, differ))
  | inl equal ↦ elim (Bool-cases (v == n)) [
    | inl last ↦ let e : v ≡ n = (==_iff v n).0 last in rw e ((==_iff (f n) (g n)).0 equal)
    | inr before ↦ agree-elim f g n v (ground (arith, lt, before)) (ground (arith, same, equal))
  ]
]

pub bit_and-top : (x : ℕ) → x < 256 → bit_and x 0x80 ≡ x / 128 * 128
unfolding agree
bit_and-top x h = agree-elim (λ v. bit_and v 0x80) (λ v. v / 128 * 128) 256 x h refl

pub bit_and-low : (x : ℕ) → x < 256 → bit_and x 0x7F ≡ x % 128
unfolding agree
bit_and-low x h = agree-elim (λ v. bit_and v 0x7F) (λ v. v % 128) 256 x h refl

pub bit_or-top : (x : ℕ) → x < 128 → bit_or x 0x80 ≡ x + 128
unfolding agree
bit_or-top x h = agree-elim (λ v. bit_or v 0x80) (λ v. v + 128) 128 x h refl

pub bit_and-one : (x : ℕ) → x < 256 → bit_and x 1 ≡ x % 2
unfolding agree
bit_and-one x h = agree-elim (λ v. bit_and v 1) (λ v. v % 2) 256 x h refl

pub bit_or-low : (x : ℕ) → x < 256 → bit_or 0 x ≡ x
unfolding agree
bit_or-low x h = agree-elim (λ v. bit_or 0 v) (λ v. v) 256 x h refl

pub bit_or-high : (x : ℕ) → x < 128 → bit_or 0x80 x ≡ 128 + x
unfolding agree
bit_or-high x h = agree-elim (λ v. bit_or 0x80 v) (λ v. 128 + v) 128 x h refl

pub bit_or-IsByte : (x : ℕ) → x < 256 → bit_or 0x80 x < 256
unfolding agree
bit_or-IsByte x h =
    let kept : bit_or 0x80 x ≡ bit_or 0x80 x % 256 =
      agree-elim (λ v. bit_or 0x80 v) (λ v. bit_or 0x80 v % 256) 256 x h refl in
    omega (arith, kept)
