-- ===== src/Zigbee/Security/MmoHash/Suffix.antt =====
-- What a padding is to be, and that the padding of the hash is that.
use native.Mathlib.Nat.{le-div_iff_mul-le, div-lt_iff_lt-mul, one-le-pow}
use zigbee_rust_playground.Common.{
  ℕ, zero, suc, ◌+◌, ◌-◌, ◌*◌, ◌/◌, ◌^◌, ◌<◌, ◌≤◌, ◌≡◌, refl, sym, ap, ◌∙◌, ◌⊎◌, inl, inr, ◌==◌,
  if◌then◌else◌, arith, Bool, true, false, Bool-cases, All, IsByte, List, length,
}
use zigbee_rust_playground.Zigbee.Security.MmoHash.{padding_length, padding}
use zigbee_rust_playground.Zigbee.Security.MmoHash.Padding.{
  big_endian, length-padding, big_endian-padding, padding-IsByte, below_first, pow_sum,
}
use zigbee_rust_playground.Zigbee.Security.MmoHash.Ends.{padding_length-room}

-- Bytes that are a bit that is set, zero bits, and a suffix in the bits of a field; with one block of
-- `n` bytes less there is no room for that bit and the field.
pub record IsPadding (n field suffix : ℕ) (bytes : List ℕ) : Type 0 where
  pub are_bytes : All IsByte bytes
  pub value : big_endian bytes ≡ 128 * 256 ^ (length bytes - 1) + suffix
  pub has_room : field + 1 ≤ 8 * length bytes
  pub shortest : 8 * length bytes ≤ field + 8 * n

-- The suffix of a message of so many bits: its length, or its length and a byte of zero bits.
abbrev pub IsSuffix : ℕ → ℕ → List ℕ → Type 0
IsSuffix n bits bytes =
    ((bits < 2 ^ n) × IsPadding n n bits bytes)
    ⊎ ((2 ^ n ≤ bits) × IsPadding n (n * 3) (bits * 256) bytes)

module _ (n : ℕ) (encrypt_block : List ℕ → List ℕ → List ℕ) where
  IsPadding-padding :
      (bits k suffix field : ℕ) (small : Bool)
      → suffix ≡ (if small then bits else bits * 256)
      → bits < 2 ^ 64
      → suffix < 128 * 256 ^ (k - 1)
      → field + 1 ≤ 8 * k
      → 8 * k ≤ field + 8 * n
      → IsPadding n field suffix (padding bits small 0x80 k)
  IsPadding-padding bits zero suffix field small e h room r1 r2 = absurd (omega (arith, r1))
  IsPadding-padding bits (suc j) suffix field small e h room r1 r2 =
      let size : length (padding bits small 0x80 (suc j)) ≡ suc j =
        length-padding bits small 0x80 (suc j) in
      let one_less : j ≡ length (padding bits small 0x80 (suc j)) - 1 = omega (arith, size) in
      let before : suc j - 1 ≡ j = omega arith in
      let fits : (if small then bits else bits * 256) < 128 * 256 ^ j =
        rw (sym e) (rw before at room) in
      record {
        are_bytes = padding-IsByte bits small (suc j);
        value =
            big_endian-padding bits j small h fits
            ∙ ap (λ i. 128 * 256 ^ i + (if small then bits else bits * 256)) one_less
            ∙ ap (λ x. 128 * 256 ^ (length (padding bits small 0x80 (suc j)) - 1) + x) (sym e);
        has_room = omega (arith, size, r1);
        shortest = omega (arith, size, r2);
      }

  -- The padding of `fixed_result` in both cases.
  pub padding-IsSuffix :
      (bits filled : ℕ)
      → filled < n
      → 8 ≤ n
      → n < 32
      → bits < 2 ^ (2 * n)
      → bits < 2 ^ 64
      → IsSuffix n bits (
          padding bits
            (bits / 2 ^ n == 0)
            0x80
            (padding_length n encrypt_block filled (bits / 2 ^ n == 0)))
  padding-IsSuffix bits filled h big lt less h64 = elim (Bool-cases (bits / 2 ^ n == 0)) [
    | inl small ↦
        let (r1, r2) = padding_length-room n encrypt_block filled true h in
        let below : bits < 2 ^ n = omega (
          arith,
          (div-lt_iff_lt-mul {k = 2 ^ n} {x = bits} {y = 1} (one-le-pow n 2 (omega arith))).0
              (ground (arith, small)),
        ) in
        rw small (
          inl (
            below,
            IsPadding-padding bits (padding_length n encrypt_block filled true) bits n true refl h64
                (below_first bits n (padding_length n encrypt_block filled true - 1) below
                  (omega (arith, r1)))
                r1 r2,
          ))
    | inr large ↦
        let (r1, r2) = padding_length-room n encrypt_block filled false h in
        let above : 2 ^ n ≤ bits = omega (
          arith,
          (le-div_iff_mul-le {k = 2 ^ n} {x = 1} {y = bits} (one-le-pow n 2 (omega arith))).0
              (ground (arith, large)),
        ) in
        let room : bits * 256 < 2 ^ (2 * n + 8) = omega (arith, less, pow_sum (2 * n) 8) in
        rw large (
          inr (
            above,
            IsPadding-padding bits (padding_length n encrypt_block filled false) (bits * 256)
                (n * 3) false refl h64
                (below_first (bits * 256) (2 * n + 8)
                  (padding_length n encrypt_block filled false - 1) room (omega (arith, r1, big)))
                r1 r2,
          ))
  ]
