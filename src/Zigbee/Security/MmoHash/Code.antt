-- ===== src/Zigbee/Security/MmoHash/Code.antt =====
-- The hash of a message is that of the blocks of the message and its padding.
use native.Mathlib.Nat.{div-eq_of_lt, pow-le-pow_right}
use zigbee_rust_playground.Common.{
  ℕ, suc, ◌-◌, ◌*◌, ◌/◌, ◌^◌, ◌<◌, ◌≤◌, ◌≡◌, refl, sym, ap, ◌∙◌, inl, inr, ◌==◌, ==_iff, ltb, arith,
  Bool, true, false, some, All, List, [], ◌∷◌, ◌++◌, append-nil, length,
}
use zigbee_rust_playground.Zigbee.Security.MmoHash.{
  MmoHash, zeros, default, input, input_bytes, padding_length, padding, shift_right, bit_length,
  padded_result, fixed_result,
}
use zigbee_rust_playground.Zigbee.Security.MmoHash.Padding.{length-padding}
use zigbee_rust_playground.Zigbee.Security.MmoHash.Blocks.{
  join, chain, IsBlock, Took, input_bytes-Took, default-Took,
}
use zigbee_rust_playground.Zigbee.Security.MmoHash.Ends.{
  input_bytes-filled, padding_length-ends, input_bytes-length,
}
use zigbee_rust_playground.Zigbee.Security.MmoHash.Suffix.{IsSuffix, padding-IsSuffix}

shift_right-below :
    (checks : Bool) (x amount : ℕ)
    → amount < 64
    → shift_right checks x amount ≡ some (x / 2 ^ amount)
unfolding shift_right
shift_right-below checks x amount h =
    let inside : ltb amount 64 ≡ true = ground (arith, h) in rw inside refl

bit_length-below :
    (checks : Bool) (bytes : ℕ) → bytes * 8 < 2 ^ 64 → bit_length checks bytes ≡ some (bytes * 8)
unfolding bit_length
bit_length-below checks bytes h =
    let inside : ltb (bytes * 8) (2 ^ 64) ≡ true = ground (arith, h) in rw inside refl

length-nil : (bytes : List ℕ) → length bytes ≡ 0 → bytes ≡ []
length-nil [] h = refl
length-nil (b ∷ bytes) h = absurd (omega (arith, h))

module _ (n : ℕ) (encrypt_block : List ℕ → List ℕ → List ℕ) where
  fixed_result-padded :
      (checks : Bool) (bits : ℕ) (m : MmoHash)
      → 0 < n
      → n < 32
      → m.byte_length * 8 ≡ bits
      → bits < 2 ^ (2 * n)
      → bits < 2 ^ 64
      → fixed_result checks n encrypt_block m
        ≡ padded_result n encrypt_block bits (bits / 2 ^ n == 0) m
  unfolding fixed_result
  fixed_result-padded checks bits m some_bytes lt size less h64 =
      let blocks : (n == 0) ≡ false = ground (arith, some_bytes) in
      let nothing : bits / 2 ^ (2 * n) ≡ 0 = div-eq_of_lt less in
      rw blocks (
        rw (bit_length-below checks m.byte_length (omega (arith, size, h64)) ∙ ap some size) (
          rw (shift_right-below checks bits n (omega (arith, lt)))
            (rw (shift_right-below checks bits (2 * n) (omega (arith, lt))) (rw nothing refl))))

  -- A hash that took some blocks and a part of one: the padding ends the last block.
  padded_result-code :
      (bits : ℕ) (small : Bool) (m : MmoHash) (done : List (List ℕ)) (part : List ℕ) (room : ℕ)
      → Took n encrypt_block m done part room
      → (blocks : List (List ℕ)) × (join blocks
          ≡ (join done ++ part)
            ++ padding bits small 0x80 (padding_length n encrypt_block m.filled small))
        × All (IsBlock n encrypt_block) blocks
        × (padded_result n encrypt_block bits small m ≡ some (chain encrypt_block (zeros n) blocks))
  unfolding padded_result input
  padded_result-code bits small m done part room t =
      let h : m.filled < n = omega (arith, t.filled_eq, t.size) in
      let bytes = padding bits small 0x80 (padding_length n encrypt_block m.filled small) in
      let size : length bytes ≡ padding_length n encrypt_block m.filled small =
        length-padding bits small 0x80 _ in
      let (blocks, left, room', t', e) =
        input_bytes-Took n encrypt_block bytes m done part room t in
      let m' = input_bytes n encrypt_block bytes m in
      let ends : m'.filled ≡ 0 = input_bytes-filled n encrypt_block bytes m h (
        inr (elim (padding_length-ends n encrypt_block m.filled small h) [
          | inl one ↦ inl (omega (arith, size, one))
          | inr two ↦ inr (omega (arith, size, two))
        ])) in
      let none_left : left ≡ [] = length-nil left (sym t'.filled_eq ∙ ends) in
      (
        blocks,
        sym (append-nil (join blocks)) ∙ ap (λ l. join blocks ++ l) (sym none_left) ∙ e,
        t'.are_blocks,
        rw ((==_iff m'.filled 0).1 ends) (ap some t'.hash_eq),
      )

  input-Took :
      (message : List ℕ) (left : ℕ)
      → n ≡ suc left
      → (done : List (List ℕ)) × (part : List ℕ) × (room : ℕ) × Took n encrypt_block
          (input n encrypt_block message (default n))
          done
          part
          room
        × (join done ++ part ≡ message)
  unfolding input join
  input-Took message left first =
      let (done, part, room, t, e) =
        input_bytes-Took n encrypt_block message (default n) [] [] left
          (default-Took n encrypt_block left first) in
      (
        done,
        part,
        room,
        record {
          hash_eq = t.hash_eq;
          buffer_eq = t.buffer_eq;
          filled_eq = t.filled_eq;
          size = t.size;
          are_blocks = t.are_blocks;
        },
        e,
      )

  input-length :
      (message : List ℕ)
      → (input n encrypt_block message (default n)).byte_length * 8 ≡ length message * 8
  unfolding input default
  input-length message = omega (arith, input_bytes-length n encrypt_block message (default n))

  -- The hash of a message of fewer than 2 ^ (2 * n) bits, for blocks of at least 8 and fewer than 32
  -- bytes, in a build with overflow checks and without: it is that of the blocks that the message and a
  -- padding make, each of which is encrypted with the hash so far and then combined with it. The padding
  -- is a bit that is set, zero bits, and the length of the message in bits: as `n` bits where it is
  -- below 2 ^ n, and otherwise, in `n * 3` bits, before a byte of zero bits. It is the shortest that
  -- has room for these and ends with a block.
  pub fixed_result-code :
      (checks : Bool) (message : List ℕ)
      → 8 ≤ n
      → n < 32
      → length message * 8 < 2 ^ (2 * n)
      → (bytes : List ℕ) × (blocks : List (List ℕ)) × IsSuffix n (length message * 8) bytes
        × (join blocks ≡ message ++ bytes)
        × All (IsBlock n encrypt_block) blocks
        × (fixed_result checks n encrypt_block (input n encrypt_block message (default n))
            ≡ some (chain encrypt_block (zeros n) blocks))
  fixed_result-code checks message big lt less =
      let first : n ≡ suc (n - 1) = omega (arith, big) in
      let bits = length message * 8 in
      let wide : 2 ^ (2 * n) ≤ 2 ^ 64 =
        pow-le-pow_right {n = 2} (omega arith) {i = 2 * n} {j = 64} (omega (arith, lt)) in
      let h64 : bits < 2 ^ 64 = omega (arith, less, wide) in
      let small = bits / 2 ^ n == 0 in
      let m = input n encrypt_block message (default n) in
      let (done, part, room, t, e) = input-Took message (n - 1) first in
      let h : m.filled < n = omega (arith, t.filled_eq, t.size) in
      let (blocks, joined, are_blocks, code) = padded_result-code bits small m done part room t in
      let bytes = padding bits small 0x80 (padding_length n encrypt_block m.filled small) in
      (
        bytes,
        blocks,
        padding-IsSuffix n encrypt_block bits m.filled h big lt less h64,
        joined ∙ ap (λ l. l ++ bytes) e,
        are_blocks,
        fixed_result-padded checks bits m (omega (arith, big)) lt (input-length message) less h64
            ∙ code,
      )
