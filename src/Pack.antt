-- ===== src/Pack.antt =====
-- src/pack: errors, packing targets, and the packing of integers, booleans, tuples and options.
-- An unpacking function takes the bytes and returns the value with the bytes that follow it.
pub mod Targets
pub mod RoundTrip
use zigbee_rust_playground.Common.{
  ℕ, ◌+◌, ◌<◌, ◌≤◌, ltb, if◌then◌else◌, bit_of, Bool, true, false, Option, none, some, is_some,
  String, List, [], ◌∷◌, ◌++◌, length, take, drop, Result, ok, err, ◌>>=◌, map_err, to_le_bytes,
  from_le_bytes,
}

-- pack.rs: UnpackError
pub data UnpackError : Type 0 where
  not_enough_data : UnpackError
  invalid_enum_tag : UnpackError
  unsupported : Option String → UnpackError
  unimplemented : Option String → UnpackError

-- pack.rs: PackError
pub data PackError (E : Type 0) : Type 0 where
  not_allowed : Option String → PackError E
  target_error : E → PackError E

-- ext_enum.rs: ExtEnumError
pub data ExtEnumError : Type 0 where
  invalid_tag : ExtEnumError

-- `impl From<ExtEnumError> for UnpackError`
abbrev pub from_ext_enum : ExtEnumError → UnpackError
from_ext_enum invalid_tag = invalid_enum_tag

abbrev pub Unpack : Type 0 → Type 0
Unpack A = List ℕ → Result UnpackError (A × List ℕ)

-- target.rs: the trait PackTarget with its associated type.
pub record PackTarget (T : Type 0) : Type 1 where
  pub Error : Type 0
  pub append : T → List ℕ → Result Error T

-- vec_target.rs
pub record VecPackTarget : Type 0 where
  pub bytes : List ℕ

pub data VecPackError : Type 0 where

unfoldable pub vec_new : VecPackTarget
vec_new = record { bytes = [] }

unfoldable pub vec_append : VecPackTarget → List ℕ → Result VecPackError VecPackTarget
vec_append target chunk = ok (record { bytes = target.bytes ++ chunk })

instance abbrev pub vec_target : PackTarget VecPackTarget
vec_target = record { Error = VecPackError; append = vec_append }

-- slice_target.rs: a fixed buffer and the number of its bytes that are written.
pub record SlicePackTarget : Type 0 where
  pub target : List ℕ
  pub offset : ℕ

pub data SlicePackError : Type 0 where
  not_enough_space : SlicePackError

unfoldable pub slice_new : List ℕ → SlicePackTarget
slice_new target = record { target = target; offset = 0 }

unfoldable pub slice_append : SlicePackTarget → List ℕ → Result SlicePackError SlicePackTarget
slice_append (s) chunk =
    if ltb (length target) (offset + length chunk)
    then err not_enough_space
    else ok (record {
      target = take offset target ++ (chunk ++ drop (offset + length chunk) target);
      offset = offset + length chunk;
    })
  where
    open s use {target, offset}

instance abbrev pub slice_target : PackTarget SlicePackTarget
slice_target = record { Error = SlicePackError; append = slice_append }

-- `default_impl!` for the unsigned types: `n` is the size of the type in bytes.
unfoldable pub unpack_uint : ℕ → Unpack ℕ
unpack_uint n bytes =
    if ltb (length bytes) n
    then err not_enough_data
    else ok (from_le_bytes (take n bytes), drop n bytes)

-- `impl Pack for bool`
unfoldable pub unpack_bool : Unpack Bool
unpack_bool bytes = do (x, rest) ← unpack_uint 1 bytes; ok (ltb 0 x, rest)

-- The tuple implementation, for two components; longer tuples nest it to the right.
unfoldable pub unpack_pair : {A B : Type 0} → Unpack A → Unpack B → Unpack (A × B)
unpack_pair ua ub bytes = do (a, rest) ← ua bytes; (b, rest') ← ub rest; ok ((a, b), rest')

-- `impl PackTagged for Option<T>`: `unpack_data`. Its `get_tag` is `is_some`.
unfoldable pub unpack_option : {A : Type 0} → Unpack A → Bool → Unpack (Option A)
unpack_option ua true bytes = do (inner, rest) ← ua bytes; ok (some inner, rest)
unpack_option ua false bytes = ok (none, bytes)

module _ {T : Type 0} ⦃t : PackTarget T⦄ where
  unfoldable pub append : List ℕ → T → Result (PackError t.Error) T
  append chunk target = map_err target_error (t.append target chunk)

  unfoldable pub pack_uint : ℕ → ℕ → T → Result (PackError t.Error) T
  unfolding append
  pack_uint n x target = append (to_le_bytes n x) target

  unfoldable pub pack_bool : Bool → T → Result (PackError t.Error) T
  unfolding pack_uint
  pack_bool b target = pack_uint 1 (bit_of b) target

  unfoldable pub pack_pair :
      {A B : Type 0}
      → (A → T → Result (PackError t.Error) T)
      → (B → T → Result (PackError t.Error) T)
      → A × B
      → T
      → Result (PackError t.Error) T
  pack_pair pa pb (a, b) target = do target ← pa a target; pb b target

  -- `impl PackTagged for Option<T>`: `pack_data`.
  unfoldable pub pack_option :
      {A : Type 0}
      → (A → T → Result (PackError t.Error) T)
      → Option A
      → T
      → Result (PackError t.Error) T
  pack_option pa (some inner) target = pa inner target
  pack_option pa none target = ok target
