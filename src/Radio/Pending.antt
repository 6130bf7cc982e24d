-- ===== src/Radio/Pending.antt =====
-- The requests that set a slot of the radio's tables of addresses with pending data.
use zigbee_rust_playground.Common.{
  ℕ, ◌+◌, ◌%◌, ◌^◌, ◌≡◌, ◌≢◌, ◌<◌, refl, sym, ap, ◌∙◌, arith, List, [], ◌∷◌, length, length-append,
  take, drop, take-append_of, drop-append_of, Option, none, some, to_le_bytes, from_le_bytes,
  length-to_le_bytes, from_le_bytes-to_le_bytes, bit_and, bit_or, bit_and-low, bit_or-top,
}
use zigbee_rust_playground.Radio.{
  set_pending_short, set_pending_extended, short_bytes, extended_bytes, into_raw,
}

abbrev pub IsShort : Option (ℕ × ℕ) → Type 0
IsShort none = Unit {0}
IsShort (some (pan, address)) = (pan < 256 ^ 2) × (address < 256 ^ 2)

abbrev pub IsExtended : Option ℕ → Type 0
IsExtended none = Unit {0}
IsExtended (some address) = address < 256 ^ 8

abbrev head_or : ℕ → List ℕ → ℕ
head_or d [] = d
head_or d (b ∷ bs) = b

abbrev tail : List ℕ → List ℕ
tail [] = []
tail (b ∷ bs) = bs

to_le_bytes-injective :
    (n a b : ℕ) → a < 256 ^ n → b < 256 ^ n → to_le_bytes n a ≡ to_le_bytes n b → a ≡ b
to_le_bytes-injective n a b p q e =
    sym (from_le_bytes-to_le_bytes n a p) ∙ ap from_le_bytes e ∙ from_le_bytes-to_le_bytes n b q

length-short : (pan address : ℕ) → length (short_bytes (some (pan, address))) ≡ 4
unfolding short_bytes
length-short pan address = omega (
  arith,
  length-append (to_le_bytes 2 pan) (to_le_bytes 2 address),
  length-to_le_bytes 2 pan,
  length-to_le_bytes 2 address,
)

short_bytes-injective :
    (a b : Option (ℕ × ℕ)) → IsShort a → IsShort b → short_bytes a ≡ short_bytes b → a ≡ b
unfolding short_bytes
short_bytes-injective none none p q e = refl
short_bytes-injective none (some (pan, address)) p q e =
    absurd (omega (arith, ap length e, length-short pan address))
short_bytes-injective (some (pan, address)) none p q e =
    absurd (omega (arith, ap length e, length-short pan address))
short_bytes-injective (some (pan, address)) (some (pan', address')) (p1, p2) (q1, q2) e =
    let e1 : to_le_bytes 2 pan ≡ to_le_bytes 2 pan' =
      sym (take-append_of 2 (to_le_bytes 2 pan) (to_le_bytes 2 address) (length-to_le_bytes 2 pan))
      ∙ ap (take 2) e
      ∙ take-append_of 2 (to_le_bytes 2 pan') (to_le_bytes 2 address')
          (length-to_le_bytes 2 pan') in
    let e2 : to_le_bytes 2 address ≡ to_le_bytes 2 address' =
      sym (drop-append_of 2 (to_le_bytes 2 pan) (to_le_bytes 2 address) (length-to_le_bytes 2 pan))
      ∙ ap (drop 2) e
      ∙ drop-append_of 2 (to_le_bytes 2 pan') (to_le_bytes 2 address')
          (length-to_le_bytes 2 pan') in
    rw
      (to_le_bytes-injective 2 pan pan' p1 q1 e1, to_le_bytes-injective 2 address address' p2 q2 e2)

extended_bytes-injective :
    (a b : Option ℕ) → IsExtended a → IsExtended b → extended_bytes a ≡ extended_bytes b → a ≡ b
unfolding extended_bytes
extended_bytes-injective none none p q e = refl
extended_bytes-injective none (some x) p q e =
    absurd (omega (arith, ap length e, length-to_le_bytes 8 x))
extended_bytes-injective (some x) none p q e =
    absurd (omega (arith, ap length e, length-to_le_bytes 8 x))
extended_bytes-injective (some x) (some y) p q e = ap some (to_le_bytes-injective 8 x y p q e)

short_index : (index : ℕ) → index < 128 → bit_and (index % 256) 0x7F ≡ index
short_index index h = omega (arith, bit_and-low (index % 256) (omega arith), h)

extended_index : (index : ℕ) → index < 128 → bit_or (index % 256) 0x80 ≡ index + 128
extended_index index h = omega (arith, bit_or-top (index % 256) (omega (arith, h)), h)

-- Requests for short addresses have the same data only for the same slot and the same address, for
-- slots below 128 and numbers of 16 bits.
pub into_raw-set_pending_short :
    (token token' index index' : ℕ) (a b : Option (ℕ × ℕ))
    → index < 128
    → index' < 128
    → IsShort a
    → IsShort b
    → (into_raw (set_pending_short token index a)).1
      ≡ (into_raw (set_pending_short token' index' b)).1
    → (index ≡ index') × (a ≡ b)
unfolding into_raw
into_raw-set_pending_short token token' index index' a b h h' p q e = (
  sym (short_index index h) ∙ ap (head_or 0) e ∙ short_index index' h',
  short_bytes-injective a b p q (ap tail e),
)

-- Requests for extended addresses have the same data only for the same slot and the same address, for
-- slots below 128 and addresses of 64 bits.
pub into_raw-set_pending_extended :
    (token token' index index' : ℕ) (a b : Option ℕ)
    → index < 128
    → index' < 128
    → IsExtended a
    → IsExtended b
    → (into_raw (set_pending_extended token index a)).1
      ≡ (into_raw (set_pending_extended token' index' b)).1
    → (index ≡ index') × (a ≡ b)
unfolding into_raw
into_raw-set_pending_extended token token' index index' a b h h' p q e =
    let same : index + 128 ≡ index' + 128 =
      sym (extended_index index h) ∙ ap (head_or 0) e ∙ extended_index index' h' in
    (omega (arith, same), extended_bytes-injective a b p q (ap tail e))

-- No request for a short address has the data of one for an extended address, for slots below 128.
pub into_raw-short_extended :
    (token token' index index' : ℕ) (a : Option (ℕ × ℕ)) (b : Option ℕ)
    → index < 128
    → index' < 128
    → (into_raw (set_pending_short token index a)).1
      ≢ (into_raw (set_pending_extended token' index' b)).1
unfolding into_raw
into_raw-short_extended token token' index index' a b h h' e =
    let same : index ≡ index' + 128 =
      sym (short_index index h) ∙ ap (head_or 0) e ∙ extended_index index' h' in
    omega (arith, same, h)
