-- ===== src/Zigbee/Security/CbcMac/Blocks.antt =====
-- The code of data taken in parts is that of its blocks, chained.
use Prim.Native.Nat.{bit_xor}
use zigbee_rust_playground.Common.{
  ℕ, zero, suc, ◌+◌, ◌<◌, ◌≡◌, refl, sym, ap, ◌∙◌, ◌==◌, ==_iff, ltb, arith, true, false, List, [],
  ◌∷◌, ◌++◌, length,
}
use zigbee_rust_playground.Zigbee.Security.CbcMac.{
  CbcMac, zeros, new, xor_at, input_byte, input, result,
}

-- The bytes of a block, each combined with the byte of the data at its place. A block of the data that
-- is cut short leaves the others, as its padding with zero bytes does.
unfoldable pub xor_bytes : List ℕ → List ℕ → List ℕ
xor_bytes [] bytes = []
xor_bytes (x ∷ xs) [] = x ∷ xs
xor_bytes (x ∷ xs) (b ∷ bs) = bit_xor x b ∷ xor_bytes xs bs

-- The same from a place on.
xor_from : ℕ → List ℕ → List ℕ → List ℕ
xor_from zero bytes xs = xor_bytes xs bytes
xor_from (suc i) bytes [] = []
xor_from (suc i) bytes (x ∷ xs) = x ∷ xor_from i bytes xs

xor_bytes-nil : (xs : List ℕ) → xor_bytes xs [] ≡ xs
unfolding xor_bytes
xor_bytes-nil [] = refl
xor_bytes-nil (x ∷ xs) = refl

xor_from-nil : (i : ℕ) (xs : List ℕ) → xor_from i [] xs ≡ xs
unfolding xor_from
xor_from-nil zero xs = xor_bytes-nil xs
xor_from-nil (suc i) [] = refl
xor_from-nil (suc i) (x ∷ xs) = ap (λ l. x ∷ l) (xor_from-nil i xs)

xor_from-cons :
    (i b : ℕ) (bs xs : List ℕ) → xor_from i (b ∷ bs) xs ≡ xor_from (suc i) bs (xor_at i b xs)
unfolding xor_from xor_bytes xor_at
xor_from-cons zero b bs [] = refl
xor_from-cons zero b bs (x ∷ xs) = refl
xor_from-cons (suc i) b bs [] = refl
xor_from-cons (suc i) b bs (x ∷ xs) = ap (λ l. x ∷ l) (xor_from-cons i b bs xs)

xor_from-next :
    (i b : ℕ) (bs xs : List ℕ) → xor_from (i + 1) bs (xor_at i b xs) ≡ xor_from i (b ∷ bs) xs
xor_from-next i b bs xs =
    ap (λ k. xor_from k bs (xor_at i b xs)) (omega arith) ∙ sym (xor_from-cons i b bs xs)

mac_of :
    {xs ys : List ℕ} {i j : ℕ}
    → xs ≡ ys
    → i ≡ j
    → Path CbcMac (record { buffer = xs; filled = i }) (record { buffer = ys; filled = j })
mac_of e e' k = record { buffer = e k; filled = e' k }

length-xor_at : (i b : ℕ) (xs : List ℕ) → length (xor_at i b xs) ≡ length xs
unfolding xor_at
length-xor_at i b [] = refl
length-xor_at zero b (x ∷ xs) = refl
length-xor_at (suc i) b (x ∷ xs) = ap suc (length-xor_at i b xs)

length-xor_bytes : (xs bs : List ℕ) → length (xor_bytes xs bs) ≡ length xs
unfolding xor_bytes
length-xor_bytes [] bs = refl
length-xor_bytes (x ∷ xs) [] = refl
length-xor_bytes (x ∷ xs) (b ∷ bs) = ap suc (length-xor_bytes xs bs)

length-zeros : (n : ℕ) → length (zeros n) ≡ n
unfolding zeros
length-zeros zero = refl
length-zeros (suc n) = ap suc (length-zeros n)

module _ (encrypt_block : List ℕ → List ℕ) where
  input-append :
      (a b : List ℕ) (m : CbcMac)
      → input encrypt_block (a ++ b) m ≡ input encrypt_block b (input encrypt_block a m)
  unfolding input
  input-append [] b m = refl
  input-append (x ∷ a) b m = input-append a b (input_byte encrypt_block x m)

  input_byte-more :
      (b filled : ℕ) (buffer : List ℕ)
      → filled + 1 < length buffer
      → input_byte encrypt_block b (record { buffer = buffer; filled = filled })
        ≡ record { buffer = xor_at filled b buffer; filled = filled + 1 }
  unfolding input_byte
  input_byte-more b filled buffer h =
      let more : (filled + 1 == length (xor_at filled b buffer)) ≡ false =
        ground (arith, length-xor_at filled b buffer, h) in
      rw more refl

  input_byte-last :
      (b filled : ℕ) (buffer : List ℕ)
      → filled + 1 ≡ length buffer
      → input_byte encrypt_block b (record { buffer = buffer; filled = filled })
        ≡ record { buffer = encrypt_block (xor_at filled b buffer); filled = 0 }
  unfolding input_byte
  input_byte-last b filled buffer h =
      let last : (filled + 1 == length (xor_at filled b buffer)) ≡ true =
        (==_iff (filled + 1) (length (xor_at filled b buffer))).1
          (h ∙ sym (length-xor_at filled b buffer)) in
      rw last refl

  -- Data that does not fill the buffer.
  input-part :
      (r buffer : List ℕ) (filled : ℕ)
      → filled + length r < length buffer
      → input encrypt_block r (record { buffer = buffer; filled = filled })
        ≡ record { buffer = xor_from filled r buffer; filled = filled + length r }
  unfolding input xor_from
  input-part [] buffer filled h =
      rw (xor_from-nil filled buffer)
        (ap (λ k. record { buffer = buffer; filled = k }) (omega arith))
  input-part (b ∷ r) buffer filled h =
      ap (input encrypt_block r) (input_byte-more b filled buffer (omega (arith, h)))
      ∙ input-part r (xor_at filled b buffer) (filled + 1)
          (omega (arith, h, length-xor_at filled b buffer))
      ∙ mac_of (xor_from-next filled b r buffer) (omega arith)

  -- Data that fills the buffer just up.
  input-block :
      (b : ℕ) (r buffer : List ℕ) (filled : ℕ)
      → filled + length (b ∷ r) ≡ length buffer
      → input encrypt_block (b ∷ r) (record { buffer = buffer; filled = filled })
        ≡ record { buffer = encrypt_block (xor_from filled (b ∷ r) buffer); filled = 0 }
  unfolding input
  input-block b [] buffer filled h =
      input_byte-last b filled buffer (omega (arith, h))
      ∙ mac_of
          (ap encrypt_block (
            sym (xor_from-nil (filled + 1) (xor_at filled b buffer))
            ∙ xor_from-next filled b [] buffer))
          refl
  input-block b (c ∷ r) buffer filled h =
      ap (input encrypt_block (c ∷ r)) (input_byte-more b filled buffer (omega (arith, h)))
      ∙ input-block c r (xor_at filled b buffer) (filled + 1)
          (omega (arith, h, length-xor_at filled b buffer))
      ∙ mac_of (ap encrypt_block (xor_from-next filled b (c ∷ r) buffer)) refl

  -- The blocks of the data, chained from a first one on.
  unfoldable pub chain : List ℕ → List (List ℕ) → List ℕ
  chain c [] = c
  chain c (block ∷ blocks) = chain (encrypt_block (xor_bytes c block)) blocks

  -- The code of full blocks and a last one that is shorter, or empty where there is none.
  unfoldable pub code : List ℕ → List (List ℕ) → List ℕ → List ℕ
  code c blocks [] = chain c blocks
  code c blocks (b ∷ r) = encrypt_block (xor_bytes (chain c blocks) (b ∷ r))

unfoldable pub joined : List (List ℕ) → List ℕ
joined [] = []
joined (block ∷ blocks) = block ++ joined blocks

abbrev pub AreBlocks : ℕ → List (List ℕ) → Type 0
AreBlocks n [] = Unit {0}
AreBlocks n (block ∷ blocks) = (length block ≡ n) × AreBlocks n blocks

module _ (n : ℕ) (encrypt_block : List ℕ → List ℕ) where
  input-full :
      (block c : List ℕ)
      → 0 < n
      → length block ≡ n
      → length c ≡ n
      → input encrypt_block block (record { buffer = c; filled = 0 })
        ≡ record { buffer = encrypt_block (xor_bytes c block); filled = 0 }
  input-full [] c positive size size' = absurd (omega (arith, positive, size))
  input-full (b ∷ r) c positive size size' =
      input-block encrypt_block b r c 0 (omega (arith, size, size')) ∙ unfold xor_from in refl

  input-chain :
      (blocks : List (List ℕ)) (c : List ℕ)
      → ((xs : List ℕ) → length xs ≡ n → length (encrypt_block xs) ≡ n)
      → 0 < n
      → AreBlocks n blocks
      → length c ≡ n
      → (input encrypt_block (joined blocks) (record { buffer = c; filled = 0 })
          ≡ record { buffer = chain encrypt_block c blocks; filled = 0 })
        × (length (chain encrypt_block c blocks) ≡ n)
  unfolding joined chain
  input-chain [] c keeps positive a size = (unfold input in refl, size)
  input-chain (block ∷ blocks) c keeps positive (h, a) size =
      let next = keeps (xor_bytes c block) (length-xor_bytes c block ∙ size) in
      let (e, size') =
        input-chain blocks (encrypt_block (xor_bytes c block)) keeps positive a next in
      (
        input-append encrypt_block block (joined blocks) (record { buffer = c; filled = 0 })
            ∙ ap (input encrypt_block (joined blocks)) (input-full block c positive h size)
            ∙ e,
        size',
      )

  result-xor_from :
      (r : List ℕ) (blocks : List (List ℕ)) (c : List ℕ)
      → result encrypt_block
          (record { buffer = xor_from 0 r (chain encrypt_block c blocks); filled = 0 + length r })
        ≡ code encrypt_block c blocks r
  unfolding result code xor_from
  result-xor_from [] blocks c = xor_bytes-nil (chain encrypt_block c blocks)
  result-xor_from (b ∷ r) blocks c =
      let positive : ltb 0 (0 + suc (length r)) ≡ true = ground arith in rw (positive, result) refl

  -- A cipher with blocks of `n` bytes: the code of data is that of its blocks chained from a block of
  -- zero bytes on, with what is left of the data as a last block where it is not empty.
  pub result-code :
      (blocks : List (List ℕ)) (r : List ℕ)
      → ((xs : List ℕ) → length xs ≡ n → length (encrypt_block xs) ≡ n)
      → 0 < n
      → AreBlocks n blocks
      → length r < n
      → result encrypt_block (input encrypt_block (joined blocks ++ r) (new n))
        ≡ code encrypt_block (zeros n) blocks r
  unfolding new
  result-code blocks r keeps positive a less =
      let (e, size) = input-chain blocks (zeros n) keeps positive a (length-zeros n) in
      let all =
        input-append encrypt_block (joined blocks) r (record { buffer = zeros n; filled = 0 })
        ∙ ap (input encrypt_block r) e
        ∙ input-part encrypt_block r (chain encrypt_block (zeros n) blocks) 0
            (omega (arith, less, size)) in
      ap (result encrypt_block) all ∙ result-xor_from r blocks (zeros n)
