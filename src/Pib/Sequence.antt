-- ===== src/Pib/Sequence.antt =====
-- The sequence numbers that the PIB hands out.
use zigbee_rust_playground.Common.{ℕ, zero, suc, ◌+◌, ◌%◌, ◌<◌, ◌≡◌, ◌≢◌, ◌∙◌, arith}
use zigbee_rust_playground.Pib.{Pib, next_data_sequence_nr}

-- The PIB after a number of frames.
unfoldable pub after : ℕ → Pib → Pib
unfolding next_data_sequence_nr
after zero p = p
after (suc n) p = after n (next_data_sequence_nr p).1

-- The sequence number of the nth frame from here.
unfoldable pub data_sequence_nr : ℕ → Pib → ℕ
unfolding next_data_sequence_nr
data_sequence_nr n p = (next_data_sequence_nr (after n p)).0

data_sequence_nr-mod :
    (n : ℕ) (p : Pib) → p.mac_dsn < 256 → data_sequence_nr n p ≡ (p.mac_dsn + n) % 256
unfolding after data_sequence_nr
data_sequence_nr-mod zero p h = omega (arith, h)
data_sequence_nr-mod (suc n) p h =
    data_sequence_nr-mod n (record p { mac_dsn = (p.mac_dsn + 1) % 256 }) (omega (arith, h))
    ∙ omega (arith, h)

-- From a sequence number of 8 bits on, of frames that take their numbers one after another no two
-- fewer than 256 frames apart have the same one.
pub data_sequence_nr-distinct :
    (i j : ℕ) (p : Pib)
    → p.mac_dsn < 256
    → i < j
    → j < i + 256
    → data_sequence_nr i p ≢ data_sequence_nr j p
data_sequence_nr-distinct i j p h lt near same =
    omega (arith, same, data_sequence_nr-mod i p h, data_sequence_nr-mod j p h)
