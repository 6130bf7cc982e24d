-- ===== src/Pack/RoundTrip.antt =====
-- What is packed is unpacked again, with whatever follows it.
use zigbee_rust_playground.Common.{
  ℕ, zero, suc, ◌/◌, ◌%◌, ap, All, All-take, All-drop, length-take, length-drop, IsByte,
  from_le_bytes-lt, ◌+◌, ◌<◌, ◌^◌, ◌≡◌, refl, arith, List, ◌∷◌, ◌++◌, length, length-append, take,
  drop, ok, to_le_bytes, length-to_le_bytes, from_le_bytes-to_le_bytes,
}
use zigbee_rust_playground.Pack.{unpack_uint}

take-to_le_bytes : (n x : ℕ) (rest : List ℕ) → take n (to_le_bytes n x ++ rest) ≡ to_le_bytes n x
unfolding to_le_bytes
take-to_le_bytes zero x rest = refl
take-to_le_bytes (suc n) x rest = ap (◌∷◌ (x % 256)) (take-to_le_bytes n (x / 256) rest)

drop-to_le_bytes : (n x : ℕ) (rest : List ℕ) → drop n (to_le_bytes n x ++ rest) ≡ rest
unfolding to_le_bytes
drop-to_le_bytes zero x rest = refl
drop-to_le_bytes (suc n) x rest = drop-to_le_bytes n (x / 256) rest

-- An unsigned integer of `n` bytes is read back from its little-endian bytes.
pub unpack_uint-to_le_bytes :
    (n x : ℕ) (rest : List ℕ) → x < 256 ^ n → unpack_uint n (to_le_bytes n x ++ rest) ≡ ok (x, rest)
unfolding unpack_uint
unpack_uint-to_le_bytes n x rest h = ground (
  arith,
  length-append (to_le_bytes n x) rest,
  length-to_le_bytes n x,
  take-to_le_bytes n x rest,
  drop-to_le_bytes n x rest,
  from_le_bytes-to_le_bytes n x h,
)

-- A reading of `n` bytes fails only on fewer than `n` bytes; otherwise it takes exactly `n`.
pub unpack_uint_takes :
    (n : ℕ) (bytes : List ℕ) {x : ℕ} {rest : List ℕ}
    → All IsByte bytes
    → unpack_uint n bytes ≡ ok (x, rest)
    → (x < 256 ^ n) × (length rest + n ≡ length bytes) × All IsByte rest
unfolding unpack_uint
unpack_uint_takes n bytes h e = ground (
  arith,
  length-take n bytes,
  length-drop n bytes,
  from_le_bytes-lt n (take n bytes),
  All-take IsByte n bytes h,
  All-drop IsByte n bytes h,
)
