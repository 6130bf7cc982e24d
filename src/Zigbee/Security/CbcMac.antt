-- ===== src/Zigbee/Security/CbcMac.antt =====
-- old_src/zigbee/security/cbcmac.rs: a CBC-MAC that takes its data in parts. The block cipher is a
-- third-party trait, and a parameter: what `encrypt_block` makes of a block with the key in place.
pub mod Blocks
use Prim.Native.Nat.{bit_xor}
use zigbee_rust_playground.Common.{
  ℕ, zero, suc, ◌+◌, ◌==◌, ltb, if◌then◌else◌, List, [], ◌∷◌, length,
}

pub record CbcMac : Type 0 where
  pub buffer : List ℕ
  pub filled : ℕ

-- `GenericArray::generate(|_| 0)`
unfoldable pub zeros : ℕ → List ℕ
zeros zero = []
zeros (suc n) = 0 ∷ zeros n

-- `new` and `from_cipher`, for a cipher with blocks of `n` bytes.
unfoldable pub new : ℕ → CbcMac
new n = record { buffer = zeros n; filled = 0 }

-- `self.buffer[index] ^= byte`, for an index in range.
unfoldable pub xor_at : ℕ → ℕ → List ℕ → List ℕ
xor_at index byte [] = []
xor_at zero byte (x ∷ xs) = bit_xor x byte ∷ xs
xor_at (suc index) byte (x ∷ xs) = x ∷ xor_at index byte xs

module _ (encrypt_block : List ℕ → List ℕ) where
  unfoldable pub input_byte : ℕ → CbcMac → CbcMac
  input_byte byte m =
      let buffer = xor_at m.filled byte m.buffer in
      if m.filled + 1 == length buffer
      then record { buffer = encrypt_block buffer; filled = 0 }
      else record { buffer = buffer; filled = m.filled + 1 }

  unfoldable pub input : List ℕ → CbcMac → CbcMac
  input [] m = m
  input (byte ∷ data_left) m = input data_left (input_byte byte m)

  unfoldable pub result : CbcMac → List ℕ
  result m = if ltb 0 m.filled then encrypt_block m.buffer else m.buffer

unfoldable pub reset : CbcMac → CbcMac
reset m = record { buffer = zeros (length m.buffer); filled = 0 }
