-- ===== src/Zigbee/Security/MmoHash.antt =====
-- old_src/zigbee/security/mmohash.rs: the hash of Matyas, Meyer and Oseas, that takes its data in parts.
-- The block cipher is a third-party trait, and a parameter: what a key makes of a block. The length of
-- a block and of a key is `n` bytes. The number of bytes of a message is taken to stay below 2 ^ 64,
-- where the sum in `input` does not overflow.
pub mod Padding
pub mod Blocks
pub mod Ends
pub mod Suffix
pub mod Code
use Prim.Native.Nat.{bit_xor}
use zigbee_rust_playground.Common.Opt.{◌>>=◌}
use zigbee_rust_playground.Common.{
  ℕ, zero, suc, ◌+◌, ◌-◌, ◌*◌, ◌/◌, ◌%◌, ◌^◌, ◌==◌, ltb, bit_or, if◌then◌else◌, Bool, true, false,
  not, Option, none, some, List, [], ◌∷◌, length,
}

pub record MmoHash : Type 0 where
  pub hash : List ℕ
  pub buffer : List ℕ
  pub filled : ℕ
  pub byte_length : ℕ

unfoldable pub zeros : ℕ → List ℕ
zeros zero = []
zeros (suc n) = 0 ∷ zeros n

-- `default`, and what `reset` makes of any state.
unfoldable pub default : ℕ → MmoHash
default n = record { hash = zeros n; buffer = zeros n; filled = 0; byte_length = 0 }

-- `self.hash[i] ^= self.buffer[i]` for every place.
unfoldable pub xor_bytes : List ℕ → List ℕ → List ℕ
xor_bytes [] bytes = []
xor_bytes (x ∷ xs) [] = x ∷ xs
xor_bytes (x ∷ xs) (b ∷ bs) = bit_xor x b ∷ xor_bytes xs bs

-- `self.buffer[index] = byte`, for an index in range.
unfoldable pub set_at : ℕ → ℕ → List ℕ → List ℕ
set_at index byte [] = []
set_at zero byte (x ∷ xs) = byte ∷ xs
set_at (suc index) byte (x ∷ xs) = x ∷ set_at index byte xs

module _ (n : ℕ) (encrypt_block : List ℕ → List ℕ → List ℕ) where
  unfoldable pub process_block : MmoHash → MmoHash
  process_block m = record m {
    hash = xor_bytes (encrypt_block m.hash m.buffer) m.buffer;
    buffer = zeros n;
    filled = 0;
  }

  -- The body of the loop of `input`.
  unfoldable pub input_byte : ℕ → MmoHash → MmoHash
  input_byte byte m =
      let m' : MmoHash = record m {
        buffer = set_at m.filled byte m.buffer;
        filled = m.filled + 1;
      } in
      if m.filled + 1 == n then process_block m' else m'

  unfoldable pub input_bytes : List ℕ → MmoHash → MmoHash
  input_bytes [] m = m
  input_bytes (byte ∷ data_left) m = input_bytes data_left (input_byte byte m)

  unfoldable pub input : List ℕ → MmoHash → MmoHash
  input data_bytes m =
      let m' = input_bytes data_bytes m in
      record m' { byte_length = m'.byte_length + length data_bytes }

  -- `padding_bytes` in `fixed_result`
  unfoldable pub padding_length : ℕ → Bool → ℕ
  padding_length filled fits_small_suffix =
      let required = (1 + (if fits_small_suffix then n else n * 3) + 7) / 8 in
      let left = n - filled in if ltb left required then left + n else left

-- The part of the length in bits that a byte of the padding has, `places` bytes before its end.
unfoldable pub length_part : ℕ → ℕ → ℕ
length_part length_in_bits places =
    if ltb (places * 8) 64 then length_in_bits / 2 ^ (places * 8) % 256 else 0

-- The byte that `left` bytes follow. A big suffix has a byte of zero bits behind it.
unfoldable pub padding_byte : ℕ → Bool → ℕ → ℕ
padding_byte length_in_bits true left = length_part length_in_bits left
padding_byte length_in_bits false zero = 0
padding_byte length_in_bits false (suc left) = length_part length_in_bits left

-- The loop over the bytes of the padding, the first of which has the bit that ends the message.
unfoldable pub padding : ℕ → Bool → ℕ → ℕ → List ℕ
padding length_in_bits fits_small_suffix first zero = []
padding length_in_bits fits_small_suffix first (suc left) =
    bit_or first (padding_byte length_in_bits fits_small_suffix left)
    ∷ padding length_in_bits fits_small_suffix 0 left

-- `x >> amount` on a `usize` of 64 bits: a build with overflow checks panics for an amount of 64 or
-- more, and another takes the amount modulo 64.
unfoldable pub shift_right : Bool → ℕ → ℕ → Option ℕ
shift_right checks x amount =
    if ltb amount 64
    then some (x / 2 ^ amount)
    else if checks
    then none
    else some (x / 2 ^ (amount % 64))

-- `self.length * 8`: a build with overflow checks panics where the product has more than 64 bits, and
-- another takes it modulo 2 ^ 64.
unfoldable pub bit_length : Bool → ℕ → Option ℕ
bit_length checks bytes =
    if ltb (bytes * 8) (2 ^ 64)
    then some (bytes * 8)
    else if checks
    then none
    else some (bytes * 8 % 2 ^ 64)

-- `fixed_result` after its first assertion.
unfoldable pub padded_result : ℕ → (List ℕ → List ℕ → List ℕ) → ℕ → Bool → MmoHash → Option (List ℕ)
padded_result n encrypt_block length_in_bits fits_small_suffix m =
    let bytes =
      padding length_in_bits fits_small_suffix 0x80
        (padding_length n encrypt_block m.filled fits_small_suffix) in
    let m' = input n encrypt_block bytes m in if m'.filled == 0 then some m'.hash else none

-- `fixed_result` in a build with overflow checks or without, with `none` where it panics: an operation
-- overflows, one of its assertions fails, or there is no first byte of padding for blocks of no bytes.
unfoldable pub fixed_result : Bool → ℕ → (List ℕ → List ℕ → List ℕ) → MmoHash → Option (List ℕ)
fixed_result checks n encrypt_block m = if n == 0 then none else do
  length_in_bits ← bit_length checks m.byte_length
  small_left ← shift_right checks length_in_bits n
  big_left ← shift_right checks length_in_bits (2 * n)
  (if big_left == 0 then padded_result n encrypt_block length_in_bits (small_left == 0) m else none)
