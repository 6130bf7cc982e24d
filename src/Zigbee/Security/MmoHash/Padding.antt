-- ===== src/Zigbee/Security/MmoHash/Padding.antt =====
-- The padding of the hash as a number: a bit that is set, zero bits, and the length.
use native.Mathlib.Omega.{pow_step}
use native.Mathlib.Nat.{
  mod-add-div, mod-lt, mod-eq_of_lt, mul-add-mod_self_left, div-eq_of_lt, pow-le-pow_right,
  one-le-pow, div-lt_iff_lt-mul,
}
use zigbee_rust_playground.Common.{
  ℕ, zero, suc, ◌+◌, ◌*◌, ◌/◌, ◌%◌, ◌^◌, ◌<◌, ◌≤◌, ◌≡◌, refl, sym, ap, ◌∙◌, inl, inr, ltb, bit_or,
  bit_or-low, bit_or-high, bit_or-IsByte, All, IsByte, if◌then◌else◌, arith, Bool, true, false,
  Bool-cases, List, [], ◌∷◌, length,
}
use zigbee_rust_playground.Zigbee.Security.MmoHash.{length_part, padding_byte, padding}

-- The number that bytes stand for, the first of which counts most.
unfoldable pub big_endian : List ℕ → ℕ
big_endian [] = 0
big_endian (b ∷ bs) = b * 256 ^ length bs + big_endian bs

pub length-padding :
    (bits : ℕ) (small : Bool) (first k : ℕ) → length (padding bits small first k) ≡ k
unfolding padding
length-padding bits small first zero = refl
length-padding bits small first (suc k) = ap suc (length-padding bits small 0 k)

pub pow_sum : (a b : ℕ) → 2 ^ (a + b) ≡ 2 ^ a * 2 ^ b
pow_sum zero b = let e : 0 + b ≡ b = omega arith in rw e (omega arith)
pow_sum (suc a) b =
    let e : suc a + b ≡ suc (a + b) = omega arith in
    rw e (grind (arith, pow_step 2 (a + b), pow_sum a b, pow_step 2 a))

pow_256 : (k : ℕ) → 2 ^ (k * 8) ≡ 256 ^ k
pow_256 zero = refl
pow_256 (suc k) =
    let e : suc k * 8 ≡ 8 + k * 8 = omega arith in
    rw e (omega (arith, pow_sum 8 (k * 8), pow_256 k, pow_step 256 k))

length_part-digit : (bits k : ℕ) → bits < 2 ^ 64 → length_part bits k ≡ bits / 256 ^ k % 256
unfolding length_part
length_part-digit bits k h = elim (Bool-cases (ltb (k * 8) 64)) [
  | inl inside ↦ rw inside (rw (pow_256 k) refl)
  | inr beyond ↦
      let big : 256 ^ 8 ≤ 256 ^ k =
        pow-le-pow_right {n = 256} (omega arith) {i = 8} (ground (arith, beyond)) in
      let nothing : bits / 256 ^ k ≡ 0 = div-eq_of_lt (omega (arith, h, big)) in
      rw beyond (rw nothing refl)
]

mod-step : (x d : ℕ) → 0 < d → x / d % 256 * d + x % d ≡ x % (256 * d)
mod-step x d h =
    let s = x / d % 256 in
    let q = x / d / 256 in
    let parts : x ≡ 256 * d * q + (s * d + x % d) =
      sym (mod-add-div x d)
      ∙ ap (λ y. x % d + d * y) (sym (mod-add-div (x / d) 256))
      ∙ grind arith in
    let less : s * d + x % d < 256 * d =
      grind (arith, mod-lt x h, mod-lt (x / d) {m = 256} (omega arith)) in
    sym (
      ap (λ y. y % (256 * d)) parts
      ∙ mul-add-mod_self_left (256 * d) q (s * d + x % d)
      ∙ mod-eq_of_lt less)

big_endian-cons :
    {b d k v : ℕ} (bs : List ℕ)
    → b ≡ d
    → length bs ≡ k
    → big_endian bs ≡ v
    → big_endian (b ∷ bs) ≡ d * 256 ^ k + v
unfolding big_endian
big_endian-cons bs digit places rest i = digit i * 256 ^ places i + rest i

-- The digit of a byte behind the first.
later_digit : (bits k : ℕ) → bits < 2 ^ 64 → bit_or 0 (length_part bits k) ≡ bits / 256 ^ k % 256
later_digit bits k h =
    rw (length_part-digit bits k h) (bit_or-low (bits / 256 ^ k % 256) (omega arith))

first_digit :
    (bits k : ℕ)
    → bits < 2 ^ 64
    → bits < 128 * 256 ^ k
    → bit_or 0x80 (length_part bits k) ≡ 128 + bits / 256 ^ k
first_digit bits k h room =
    let less : bits / 256 ^ k < 128 =
      (div-lt_iff_lt-mul {k = 256 ^ k} {x = bits} {y = 128} (one-le-pow k 256 (omega arith))).1
        room in
    let digit : bits / 256 ^ k % 256 ≡ bits / 256 ^ k = omega (arith, less) in
    rw (length_part-digit bits k h) (rw digit (bit_or-high (bits / 256 ^ k) less))

-- The number of a padding without its first bit is the length, as far as there is room for it.
big_endian-small :
    (bits k : ℕ) → bits < 2 ^ 64 → big_endian (padding bits true 0 k) ≡ bits % 256 ^ k
unfolding padding padding_byte
big_endian-small bits zero h = unfold big_endian in omega arith
big_endian-small bits (suc k) h =
    big_endian-cons _ (later_digit bits k h) (length-padding bits true 0 k)
      (big_endian-small bits k h)
    ∙ rw (pow_step 256 k) (mod-step bits (256 ^ k) (one-le-pow k 256 (omega arith)))

big_endian-big :
    (bits k : ℕ) → bits < 2 ^ 64 → big_endian (padding bits false 0 (suc k)) ≡ bits % 256 ^ k * 256
unfolding padding padding_byte
big_endian-big bits zero h = unfold big_endian in omega arith
big_endian-big bits (suc k) h =
    big_endian-cons _ (later_digit bits k h) (length-padding bits false 0 (suc k))
      (big_endian-big bits k h)
    ∙ rw (pow_step 256 k) (grind (arith, mod-step bits (256 ^ k) (one-le-pow k 256 (omega arith))))

-- The padding is the bit that ends the message, and the length behind it, where there is room for both.
pub big_endian-padding :
    (bits k : ℕ) (small : Bool)
    → bits < 2 ^ 64
    → (if small then bits else bits * 256) < 128 * 256 ^ k
    → big_endian (padding bits small 0x80 (suc k))
      ≡ 128 * 256 ^ k + (if small then bits else bits * 256)
unfolding padding padding_byte
big_endian-padding bits k true h room =
    big_endian-cons _ (first_digit bits k h room) (length-padding bits true 0 k)
      (big_endian-small bits k h)
    ∙ grind (arith, mod-add-div bits (256 ^ k))
big_endian-padding bits zero false h room = unfold big_endian in omega (arith, room)
big_endian-padding bits (suc k) false h room =
    let room' : bits < 128 * 256 ^ k = omega (arith, room, pow_step 256 k) in
    big_endian-cons _ (first_digit bits k h room') (length-padding bits false 0 (suc k))
      (big_endian-big bits k h)
    ∙ rw (pow_step 256 k) (grind (arith, mod-add-div bits (256 ^ k)))

padding_byte-IsByte : (bits : ℕ) (small : Bool) (k : ℕ) → padding_byte bits small k < 256
unfolding padding_byte length_part
padding_byte-IsByte bits true k = ground arith
padding_byte-IsByte bits false zero = omega arith
padding_byte-IsByte bits false (suc k) = ground arith

later-IsByte : (bits : ℕ) (small : Bool) (k : ℕ) → All IsByte (padding bits small 0 k)
unfolding padding
later-IsByte bits small zero = tt
later-IsByte bits small (suc k) = (
  rw (bit_or-low (padding_byte bits small k) (padding_byte-IsByte bits small k))
      (padding_byte-IsByte bits small k),
  later-IsByte bits small k,
)

pub padding-IsByte : (bits : ℕ) (small : Bool) (k : ℕ) → All IsByte (padding bits small 0x80 k)
unfolding padding
padding-IsByte bits small zero = tt
padding-IsByte bits small (suc k) = (
  bit_or-IsByte (padding_byte bits small k) (padding_byte-IsByte bits small k),
  later-IsByte bits small k,
)

-- A number of `e` bits is below the bit that ends the message.
pub below_first : (x e j : ℕ) → x < 2 ^ e → e ≤ 7 + j * 8 → x < 128 * 256 ^ j
below_first x e j h le =
    let big : 2 ^ e ≤ 2 ^ (7 + j * 8) = pow-le-pow_right {n = 2} (omega arith) {i = e} le in
    omega (arith, h, big, pow_sum 7 (j * 8), pow_256 j)
