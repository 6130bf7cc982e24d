-- ===== src/Zigbee/Security/MmoHash/Blocks.antt =====
-- The hash of data that is taken byte by byte is that of its blocks, chained.
use zigbee_rust_playground.Common.{
  ℕ, zero, suc, ◌+◌, ◌≡◌, refl, sym, ap, ◌∙◌, ◌==◌, ==_iff, arith, true, false, All, List, [], ◌∷◌,
  ◌++◌, append-nil, append_assoc, length,
}
use zigbee_rust_playground.Zigbee.Security.MmoHash.{
  MmoHash, default, zeros, set_at, xor_bytes, process_block, input_byte, input_bytes,
}

-- The blocks of a message, one after the other.
unfoldable pub join : List (List ℕ) → List ℕ
join [] = []
join (b ∷ bs) = b ++ join bs

module _ (encrypt_block : List ℕ → List ℕ → List ℕ) where
  -- The hash so far is the key that the next block is encrypted with, and is combined with it.
  unfoldable pub chain : List ℕ → List (List ℕ) → List ℕ
  chain hash [] = hash
  chain hash (b ∷ bs) = chain (xor_bytes (encrypt_block hash b) b) bs

  chain-append :
      (hash b : List ℕ) (bs : List (List ℕ))
      → chain hash (bs ++ (b ∷ [])) ≡ xor_bytes (encrypt_block (chain hash bs) b) b
  unfolding chain
  chain-append hash b [] = refl
  chain-append hash b (x ∷ bs) = chain-append (xor_bytes (encrypt_block hash x) x) b bs

join-append : (bs : List (List ℕ)) (b : List ℕ) → join (bs ++ (b ∷ [])) ≡ join bs ++ b
unfolding join
join-append [] b = append-nil b
join-append (x ∷ bs) b = ap (λ l. x ++ l) (join-append bs b) ∙ sym (append_assoc x (join bs) b)

-- A buffer of `room` bytes behind those that came in takes one more.
set_at-next :
    (b room : ℕ) (part : List ℕ)
    → set_at (length part) b (part ++ zeros (suc room)) ≡ (part ++ (b ∷ [])) ++ zeros room
unfolding set_at zeros
set_at-next b room [] = refl
set_at-next b room (x ∷ part) = ap (λ l. x ∷ l) (set_at-next b room part)

All-append-one :
    (P : List ℕ → Type 0) (bs : List (List ℕ)) (b : List ℕ)
    → All P bs
    → P b
    → All P (bs ++ (b ∷ []))
All-append-one P [] b h hb = (hb, tt)
All-append-one P (x ∷ bs) b (h, hs) hb = (h, All-append-one P bs b hs hb)

length-append-one : (part : List ℕ) (b : ℕ) → length (part ++ (b ∷ [])) ≡ length part + 1
length-append-one [] b = refl
length-append-one (x ∷ part) b = omega (arith, length-append-one part b)

one_more :
    (front part : List ℕ) (b : ℕ) (bytes : List ℕ)
    → (front ++ (part ++ (b ∷ []))) ++ bytes ≡ (front ++ part) ++ (b ∷ bytes)
one_more front part b bytes =
    ap (λ l. l ++ bytes) (sym (append_assoc front part (b ∷ [])))
    ∙ append_assoc (front ++ part) (b ∷ []) bytes

module _ (n : ℕ) (encrypt_block : List ℕ → List ℕ → List ℕ) where
  abbrev pub IsBlock : List ℕ → Type 0
  IsBlock b = length b ≡ n

  -- A hash that took the blocks `done` and then the bytes `part`, with `room` for more.
  pub record Took (m : MmoHash) (done : List (List ℕ)) (part : List ℕ) (room : ℕ) : Type 0 where
    pub hash_eq : m.hash ≡ chain encrypt_block (zeros n) done
    pub buffer_eq : m.buffer ≡ part ++ zeros (suc room)
    pub filled_eq : m.filled ≡ length part
    pub size : length part + suc room ≡ n
    pub are_blocks : All IsBlock done

  buffer-next :
      (b room : ℕ) (m : MmoHash) (done : List (List ℕ)) (part : List ℕ)
      → Took m done part room
      → set_at m.filled b m.buffer ≡ (part ++ (b ∷ [])) ++ zeros room
  buffer-next b room m done part t =
      ap (λ i. set_at i b m.buffer) t.filled_eq
      ∙ ap (set_at (length part) b) t.buffer_eq
      ∙ set_at-next b room part

  input_byte-full :
      (b : ℕ) (m : MmoHash) (done : List (List ℕ)) (part : List ℕ)
      → Took m done part 0
      → Took (input_byte n encrypt_block b m) (done ++ ((part ++ (b ∷ [])) ∷ [])) [] (length part)
  unfolding input_byte process_block zeros
  input_byte-full b m done part t =
      let full : (m.filled + 1 == n) ≡ true =
        (==_iff (m.filled + 1) n).1 (omega (arith, t.filled_eq, t.size)) in
      let block : set_at m.filled b m.buffer ≡ part ++ (b ∷ []) =
        buffer-next b 0 m done part t ∙ append-nil (part ++ (b ∷ [])) in
      let whole : n ≡ suc (length part) = omega (arith, t.size) in
      rw full (record {
        hash_eq = rw block (
            ap (λ h. xor_bytes (encrypt_block h (part ++ (b ∷ []))) (part ++ (b ∷ []))) t.hash_eq
            ∙ sym (chain-append encrypt_block (zeros n) (part ++ (b ∷ [])) done));
        buffer_eq = ap zeros whole;
        filled_eq = refl;
        size = omega (arith, t.size);
        are_blocks =
            All-append-one IsBlock done (part ++ (b ∷ [])) t.are_blocks
              (length-append-one part b ∙ t.size);
      })

  input_byte-room :
      (b : ℕ) (m : MmoHash) (done : List (List ℕ)) (part : List ℕ) (room : ℕ)
      → Took m done part (suc room)
      → Took (input_byte n encrypt_block b m) done (part ++ (b ∷ [])) room
  unfolding input_byte
  input_byte-room b m done part room t =
      let more : (m.filled + 1 == n) ≡ false = ground (arith, t.filled_eq, t.size) in
      rw more (record {
        hash_eq = t.hash_eq;
        buffer_eq = buffer-next b (suc room) m done part t;
        filled_eq = omega (arith, t.filled_eq, length-append-one part b);
        size = omega (arith, t.size, length-append-one part b);
        are_blocks = t.are_blocks;
      })

  -- All the data that came in is that of the blocks and what follows them.
  pub input_bytes-Took :
      (bytes : List ℕ) (m : MmoHash) (done : List (List ℕ)) (part : List ℕ) (room : ℕ)
      → Took m done part room
      → (done' : List (List ℕ)) × (part' : List ℕ) × (room' : ℕ) × Took
          (input_bytes n encrypt_block bytes m)
          done'
          part'
          room'
        × (join done' ++ part' ≡ (join done ++ part) ++ bytes)
  unfolding input_bytes
  input_bytes-Took [] m done part room t =
      (done, part, room, t, sym (append-nil (join done ++ part)))
  input_bytes-Took (b ∷ bytes) m done part zero t =
      let (done', part', room', t', e) =
        input_bytes-Took bytes (input_byte n encrypt_block b m) (done ++ ((part ++ (b ∷ [])) ∷ []))
          [] (length part) (input_byte-full b m done part t) in
      (
        done',
        part',
        room',
        t',
        e
            ∙ ap (λ l. l ++ bytes)
                (append-nil (join (done ++ ((part ++ (b ∷ [])) ∷ [])))
                  ∙ join-append done (part ++ (b ∷ [])))
            ∙ one_more (join done) part b bytes,
      )
  input_bytes-Took (b ∷ bytes) m done part (suc room) t =
      let (done', part', room', t', e) =
        input_bytes-Took bytes (input_byte n encrypt_block b m) done (part ++ (b ∷ [])) room
          (input_byte-room b m done part room t) in
      (done', part', room', t', e ∙ one_more (join done) part b bytes)

  pub default-Took : (left : ℕ) → n ≡ suc left → Took (default n) [] [] left
  unfolding default chain
  default-Took left e = record {
    hash_eq = refl;
    buffer_eq = ap zeros e;
    filled_eq = refl;
    size = omega (arith, e);
    are_blocks = tt;
  }
