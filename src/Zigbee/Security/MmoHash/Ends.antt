-- ===== src/Zigbee/Security/MmoHash/Ends.antt =====
-- The padding of the hash ends with a block, and is as short as that allows.
use zigbee_rust_playground.Common.{
  ℕ, ◌+◌, ◌-◌, ◌*◌, ◌/◌, ◌<◌, ◌≤◌, ◌≡◌, refl, ◌∙◌, ◌⊎◌, inl, inr, ◌==◌, ==_iff, ltb, if◌then◌else◌,
  arith, Bool, true, false, Bool-cases, List, [], ◌∷◌, length,
}
use zigbee_rust_playground.Zigbee.Security.MmoHash.{
  MmoHash, process_block, input_byte, input_bytes, padding_length,
}

module _ (n : ℕ) (encrypt_block : List ℕ → List ℕ → List ℕ) where
  filled-input_byte :
      (b : ℕ) (m : MmoHash)
      → (input_byte n encrypt_block b m).filled ≡ (if m.filled + 1 == n then 0 else m.filled + 1)
  unfolding input_byte process_block
  filled-input_byte b m = elim (Bool-cases (m.filled + 1 == n)) [
    | inl full ↦ simp full refl
    | inr more ↦ simp more refl
  ]

  -- Data that reaches the end of a block, or of the next one.
  pub input_bytes-filled :
      (bytes : List ℕ) (m : MmoHash)
      → m.filled < n
      → (m.filled + length bytes ≡ 0)
        ⊎ ((m.filled + length bytes ≡ n) ⊎ (m.filled + length bytes ≡ n + n))
      → (input_bytes n encrypt_block bytes m).filled ≡ 0
  unfolding input_bytes
  input_bytes-filled [] m h ends = ground (arith, h, ends)
  input_bytes-filled (b ∷ bytes) m h ends =
      let now = filled-input_byte b m in
      elim (Bool-cases (m.filled + 1 == n)) [
        | inl full ↦
            let e = (==_iff (m.filled + 1) n).0 full in
            let at : (input_byte n encrypt_block b m).filled ≡ 0 = now ∙ rw full refl in
            input_bytes-filled bytes (input_byte n encrypt_block b m) (ground (arith, at, h))
              (elim ends [
                | inl none_left ↦ absurd (omega (arith, none_left))
                | inr (inl one) ↦ inl (omega (arith, at, e, one))
                | inr (inr two) ↦ inr (inl (omega (arith, at, e, two)))
              ])
        | inr more ↦
            let at : (input_byte n encrypt_block b m).filled ≡ m.filled + 1 = now ∙ rw more refl in
            input_bytes-filled bytes (input_byte n encrypt_block b m) (ground (arith, at, more, h))
              (elim ends [
                | inl none_left ↦ absurd (omega (arith, none_left))
                | inr (inl one) ↦ inr (inl (omega (arith, at, one)))
                | inr (inr two) ↦ inr (inr (omega (arith, at, two)))
              ])
      ]

  pub padding_length-ends :
      (filled : ℕ) (small : Bool)
      → filled < n
      → (filled + padding_length n encrypt_block filled small ≡ n)
        ⊎ (filled + padding_length n encrypt_block filled small ≡ n + n)
  unfolding padding_length
  padding_length-ends filled small h =
      elim (Bool-cases (ltb (n - filled) ((1 + (if small then n else n * 3) + 7) / 8))) [
        | inl short ↦ rw short (inr (omega (arith, h)))
        | inr enough ↦ rw enough (inl (omega (arith, h)))
      ]

  -- The padding has room for its first bit and the field, and is no block longer than that takes.
  pub padding_length-room :
      (filled : ℕ) (small : Bool)
      → filled < n
      → ((if small then n else n * 3) + 1 ≤ 8 * padding_length n encrypt_block filled small)
        × (8 * padding_length n encrypt_block filled small ≤ (if small then n else n * 3) + 8 * n)
  unfolding padding_length
  padding_length-room filled true h = elim (Bool-cases (ltb (n - filled) ((1 + n + 7) / 8))) [
    | inl short ↦ rw short (omega (arith, h), ground (arith, h, short))
    | inr enough ↦ rw enough (ground (arith, h, enough), omega (arith, h))
  ]
  padding_length-room filled false h = elim (Bool-cases (ltb (n - filled) ((1 + n * 3 + 7) / 8))) [
    | inl short ↦ rw short (omega (arith, h), ground (arith, h, short))
    | inr enough ↦ rw enough (ground (arith, h, enough), omega (arith, h))
  ]

  pub input_bytes-length :
      (bytes : List ℕ) (m : MmoHash)
      → (input_bytes n encrypt_block bytes m).byte_length ≡ m.byte_length
  unfolding input_bytes input_byte process_block
  input_bytes-length [] m = refl
  input_bytes-length (b ∷ bytes) m =
      input_bytes-length bytes (input_byte n encrypt_block b m)
      ∙ elim (Bool-cases (m.filled + 1 == n)) [ inl full ↦ rw full refl | inr more ↦ rw more refl ]
