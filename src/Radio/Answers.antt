-- ===== src/Radio/Answers.antt =====
-- What the answers of the radio are parsed to.
use zigbee_rust_playground.Common.{
  ℕ, ◌^◌, ◌≡◌, ◌<◌, refl, arith, ◌==◌, ltb, if◌then◌else◌, Bool, true, false, ◌||◌, List, ◌++◌,
  length, length-append, take-append_of, drop-append_of, ok, err, to_be_bytes, length-to_be_bytes,
  from_be_bytes-to_be_bytes,
}
use zigbee_rust_playground.Radio.{
  RawRadioParam, RadioParamType, type_u16, type_u32, type_u64, RadioParamValue, value_u16,
  value_u32, value_u64, unexpected_response, RadioRxMode, read_value, try_value, from_rx_mode,
  try_rx_mode, try_into_u16, param_got, get_param, check_retval, unpack_result_get_param,
  value_bytes, into_raw,
}

abbrev pub type_of : RadioParamValue → RadioParamType
type_of (value_u16 v) = type_u16
type_of (value_u32 v) = type_u32
type_of (value_u64 v) = type_u64

-- The ranges of the integers.
abbrev pub IsValue : RadioParamValue → Type 0
IsValue (value_u16 v) = v < 256 ^ 2
IsValue (value_u32 v) = v < 256 ^ 4
IsValue (value_u64 v) = v < 256 ^ 8

check_retval-bytes :
    (retval : ℕ) (bytes : List ℕ)
    → retval < 256 ^ 2
    → check_retval retval (to_be_bytes 2 retval ++ bytes) ≡ ok bytes
unfolding check_retval
check_retval-bytes retval bytes h =
    let two = length-to_be_bytes 2 retval in
    let long : ltb (length (to_be_bytes 2 retval ++ bytes)) 2 ≡ false =
      ground (arith, length-append (to_be_bytes 2 retval) bytes, two) in
    let same : (retval == retval) ≡ true = ground arith in
    rw (
      long,
      take-append_of 2 (to_be_bytes 2 retval) bytes two,
      drop-append_of 2 (to_be_bytes 2 retval) bytes two,
      from_be_bytes-to_be_bytes 2 retval h,
      same,
    )

read_value-bytes :
    (size v : ℕ) (value : ℕ → RadioParamValue)
    → v < 256 ^ size
    → read_value size value (to_be_bytes size v) ≡ ok (value v)
unfolding read_value
read_value-bytes size v value h =
    let fits : (length (to_be_bytes size v) == size) ≡ true =
      ground (arith, length-to_be_bytes size v) in
    rw (fits, from_be_bytes-to_be_bytes size v h)

try_value-bytes : (v : RadioParamValue) → IsValue v → try_value (type_of v) (value_bytes v) ≡ ok v
unfolding try_value value_bytes
try_value-bytes (value_u16 v) h = read_value-bytes 2 v value_u16 h
try_value-bytes (value_u32 v) h = read_value-bytes 4 v value_u32 h
try_value-bytes (value_u64 v) h = read_value-bytes 8 v value_u64 h

-- For a value that fits its width: a radio that answers a request for a parameter of that width with
-- the return value 0 and the bytes of the value is understood as that value.
pub into_raw-get_param :
    (token : ℕ) (param : RawRadioParam) (v : RadioParamValue)
    → IsValue v
    → (into_raw (get_param token param (type_of v))).2 (ok (to_be_bytes 2 0 ++ value_bytes v))
      ≡ param_got token param (ok v)
unfolding into_raw unpack_result_get_param
into_raw-get_param token param v h =
    rw (check_retval-bytes 0 (value_bytes v) (omega arith), try_value-bytes v h)

modes :
    (a b c : Bool)
    → try_rx_mode (from_rx_mode (record { address_filter = a; autoack = b; poll_mode = c })) ≡ (
        if a || b || c
        then err unexpected_response
        else ok (record { address_filter = a; autoack = b; poll_mode = c }))
unfolding try_rx_mode from_rx_mode try_into_u16
modes true true true = refl
modes true true false = refl
modes true false true = refl
modes true false false = refl
modes false true true = refl
modes false true false = refl
modes false false true = refl
modes false false false = refl

-- A receive mode is read back from its own number only where all its flags are off: with any flag on
-- it is refused.
pub try_rx_mode-from_rx_mode :
    (m : RadioRxMode)
    → try_rx_mode (from_rx_mode m)
      ≡ (if m.address_filter || m.autoack || m.poll_mode then err unexpected_response else ok m)
try_rx_mode-from_rx_mode m = modes m.address_filter m.autoack m.poll_mode
