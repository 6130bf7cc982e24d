-- ===== src/Bitfield.antt =====
-- The accessors that the `bitfield!` macro of the crate bitfield gives a struct over a u16, which
-- frame.rs calls through `FrameControl` and `SuperframeSpecification`. The crate is not part of the
-- repository, so the accessors are a parameter with their documented effect as laws: for the bits
-- `hi` down to `lo` the getter returns the field, and the setter replaces it by the low bits of the
-- value and keeps all other bits.
use zigbee_rust_playground.Common.{ℕ, ◌+◌, ◌-◌, ◌*◌, ◌/◌, ◌%◌, ◌^◌, ◌≤◌, ◌<◌, ◌≡◌, refl}

pub record Bitfield : Type 0 where
  pub get : ℕ → ℕ → ℕ → ℕ
  pub set : ℕ → ℕ → ℕ → ℕ → ℕ
  pub get_lem :
      (hi lo word : ℕ)
      → lo ≤ hi
      → hi < 16
      → word < 2 ^ 16
      → get hi lo word ≡ word / 2 ^ lo % 2 ^ (hi + 1 - lo)
  pub set_lem :
      (hi lo word value : ℕ)
      → lo ≤ hi
      → hi < 16
      → word < 2 ^ 16
      → set hi lo word value
        ≡ word / 2 ^ (hi + 1) * 2 ^ (hi + 1) + value % 2 ^ (hi + 1 - lo) * 2 ^ lo + word % 2 ^ lo

-- Accessors by division and remainder, which meet the laws.
abbrev pub arithmetic : Bitfield
arithmetic = record {
  get = λ hi lo word. word / 2 ^ lo % 2 ^ (hi + 1 - lo);
  set = λ hi lo word value.
      word / 2 ^ (hi + 1) * 2 ^ (hi + 1) + value % 2 ^ (hi + 1 - lo) * 2 ^ lo + word % 2 ^ lo;
  get_lem = λ hi lo word p q r. refl;
  set_lem = λ hi lo word value p q r. refl;
}
