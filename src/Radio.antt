-- ===== src/Radio.antt =====
-- src/radio/mod.rs: the requests to the radio as commands of its serial protocol, and its answers.
-- The commands and the parameters are those of src/radio/raw.rs. A `UniqueKey` is a number.
pub mod Answers
pub mod Pending
pub mod Params
use zigbee_rust_playground.Common.{
  ℕ, ◌*◌, ◌/◌, ◌%◌, ◌+◌, ◌==◌, ltb, if◌then◌else◌, Bool, true, false, not, bit_of, List, [], ◌∷◌,
  ◌++◌, length, take, drop, Option, none, some, Result, ok, err, ◌>>=◌, to_le_bytes, to_be_bytes,
  from_be_bytes, bit_and, bit_or,
}

pub data RawRadioCommand : Type 0 where
  prepare transmit send channel_clear on off get_value set_value get_object set_object
        init_pending_table set_pending answer_ok answer_err on_packet :
      RawRadioCommand

pub data RawRadioParam : Type 0 where
  power_mode channel pan_id short_address rx_mode tx_mode tx_power cca_threshold rssi last_rssi
        last_link_quality long_address last_packet_timestamp channel_min channel_max tx_power_min
        tx_power_max :
      RawRadioParam

-- `param as u16`
unfoldable pub param_number : RawRadioParam → ℕ
param_number power_mode = 0
param_number channel = 1
param_number pan_id = 2
param_number short_address = 3
param_number rx_mode = 4
param_number tx_mode = 5
param_number tx_power = 6
param_number cca_threshold = 7
param_number rssi = 8
param_number last_rssi = 9
param_number last_link_quality = 10
param_number long_address = 11
param_number last_packet_timestamp = 12
param_number channel_min = 13
param_number channel_max = 14
param_number tx_power_min = 15
param_number tx_power_max = 16

pub data RadioParamType : Type 0 where
  type_u16 type_u32 type_u64 : RadioParamType

pub data RadioParamValue : Type 0 where
  value_u16 : ℕ → RadioParamValue
  value_u32 : ℕ → RadioParamValue
  value_u64 : ℕ → RadioParamValue

pub data RadioError : Type 0 where
  raw_error : List ℕ → RadioError
  unexpected_retval_error : ℕ → List ℕ → RadioError
  unexpected_response : RadioError
  unexpected_response_size : RadioError

-- `data.try_into()` for an array of `size` bytes, and `from_be_bytes`.
unfoldable pub read_value : ℕ → (ℕ → RadioParamValue) → List ℕ → Result RadioError RadioParamValue
read_value size value bytes =
    if length bytes == size then ok (value (from_be_bytes bytes)) else err unexpected_response_size

-- `TryFrom<(RadioParamType, &[u8])> for RadioParamValue`
unfoldable pub try_value : RadioParamType → List ℕ → Result RadioError RadioParamValue
unfolding read_value
try_value type_u16 bytes = read_value 2 value_u16 bytes
try_value type_u32 bytes = read_value 4 value_u32 bytes
try_value type_u64 bytes = read_value 8 value_u64 bytes

-- `TryInto<u16> for RadioParamValue`
unfoldable pub try_into_u16 : RadioParamValue → Result RadioError ℕ
try_into_u16 (value_u16 x) = ok x
try_into_u16 _ = err unexpected_response_size

pub record RadioRxMode : Type 0 where
  pub address_filter : Bool
  pub autoack : Bool
  pub poll_mode : Bool

-- `From<RadioRxMode> for RadioParamValue`
unfoldable pub from_rx_mode : RadioRxMode → RadioParamValue
from_rx_mode m =
    value_u16
      (bit_or (bit_or (bit_of m.address_filter) (bit_of m.autoack * 2)) (bit_of m.poll_mode * 4))

-- `TryInto<RadioRxMode> for RadioParamValue`; `value << 3` drops the bits that leave the u16.
unfoldable pub try_rx_mode : RadioParamValue → Result RadioError RadioRxMode
unfolding try_into_u16
try_rx_mode v = do
  value ← try_into_u16 v
  if not (value * 8 % 65536 == 0)
      then err unexpected_response
      else ok (record {
        address_filter = not (bit_and value 1 == 0);
        autoack = not (bit_and (value / 2) 1 == 0);
        poll_mode = not (bit_and (value / 4) 1 == 0);
      })

pub data RadioRequest : Type 0 where
  set_param : ℕ → RawRadioParam → RadioParamValue → RadioRequest
  get_param : ℕ → RawRadioParam → RadioParamType → RadioRequest
  init_pending_data_table : ℕ → RadioRequest
  set_power : ℕ → Bool → RadioRequest
  send_packet : ℕ → List ℕ → RadioRequest
  set_pending_short : ℕ → ℕ → Option (ℕ × ℕ) → RadioRequest
  set_pending_extended : ℕ → ℕ → Option ℕ → RadioRequest

-- A packet that was received.
pub record RadioPacket : Type 0 where
  pub bytes : List ℕ
  pub rssi : ℕ
  pub link_quality : ℕ

pub data RadioResponse : Type 0 where
  param_set : ℕ → RawRadioParam → Result RadioError RadioParamValue → RadioResponse
  param_got : ℕ → RawRadioParam → Result RadioError RadioParamValue → RadioResponse
  pending_data_table_initialized : ℕ → Result RadioError (Unit {0}) → RadioResponse
  power_set : ℕ → Bool → Result RadioError (Unit {0}) → RadioResponse
  packet_sent : ℕ → Result RadioError (Unit {0}) → RadioResponse
  packet_received : RadioPacket → RadioResponse
  pending_short_set : ℕ → Result RadioError (Unit {0}) → RadioResponse
  pending_extended_set : ℕ → Result RadioError (Unit {0}) → RadioResponse

abbrev pub Answer : Type 0
Answer = Result RadioError (List ℕ)

unfoldable pub check_retval : ℕ → List ℕ → Answer
check_retval expected bytes =
    if ltb (length bytes) 2
    then err unexpected_response_size
    else if not (from_be_bytes (take 2 bytes) == expected)
    then err (unexpected_retval_error (from_be_bytes (take 2 bytes)) (drop 2 bytes))
    else ok (drop 2 bytes)

unfoldable pub is_empty : List ℕ → Bool
is_empty [] = true
is_empty (b ∷ bs) = false

unfoldable pub unpack_result_get_param : RadioParamType → Answer → Result RadioError RadioParamValue
unpack_result_get_param type response = do
  bytes ← response
  rest ← check_retval 0 bytes
  try_value type rest

unfoldable pub unpack_result_set_param :
    RadioParamValue → Answer → Result RadioError RadioParamValue
unpack_result_set_param value response = do
  bytes ← response
  rest ← check_retval 0 bytes
  if not (is_empty rest) then err unexpected_response else ok value

unfoldable pub unpack_result_only_retval : ℕ → Answer → Result RadioError (Unit {0})
unpack_result_only_retval expected response = do
  bytes ← response
  rest ← check_retval expected bytes
  if not (is_empty rest) then err unexpected_response else ok tt

unfoldable pub value_bytes : RadioParamValue → List ℕ
value_bytes (value_u16 v) = to_be_bytes 2 v
value_bytes (value_u32 v) = to_be_bytes 4 v
value_bytes (value_u64 v) = to_be_bytes 8 v

unfoldable pub set_command : RadioParamValue → RawRadioCommand
set_command (value_u16 v) = set_value
set_command _ = set_object

unfoldable pub get_command : RadioParamType → RawRadioCommand
get_command type_u16 = get_value
get_command _ = get_object

unfoldable pub size_bytes : RadioParamType → List ℕ
size_bytes type_u16 = []
size_bytes type_u32 = to_be_bytes 2 4
size_bytes type_u64 = to_be_bytes 2 8

unfoldable pub short_bytes : Option (ℕ × ℕ) → List ℕ
short_bytes none = []
short_bytes (some (pan, address)) = to_le_bytes 2 pan ++ to_le_bytes 2 address

unfoldable pub extended_bytes : Option ℕ → List ℕ
extended_bytes none = []
extended_bytes (some address) = to_le_bytes 8 address

-- `RadioRequest::into_raw`: the command, its data, and what an answer is parsed to.
unfoldable pub into_raw : RadioRequest → RawRadioCommand × List ℕ × (Answer → RadioResponse)
into_raw (set_param token param value) = (
  set_command value,
  to_be_bytes 2 (param_number param) ++ value_bytes value,
  λ response. param_set token param (unpack_result_set_param value response),
)
into_raw (get_param token param type) = (
  get_command type,
  to_be_bytes 2 (param_number param) ++ size_bytes type,
  λ response. param_got token param (unpack_result_get_param type response),
)
into_raw (init_pending_data_table token) = (
  init_pending_table,
  [],
  λ response. pending_data_table_initialized token (unpack_result_only_retval 0 response),
)
into_raw (set_power token power) = (
  if power then on else off,
  [],
  λ response. power_set token power (unpack_result_only_retval 1 response),
)
into_raw (send_packet token packet) =
    (send, packet, λ response. packet_sent token (unpack_result_only_retval 0 response))
into_raw (set_pending_short token index address) = (
  set_pending,
  bit_and (index % 256) 0x7F ∷ short_bytes address,
  λ response. pending_short_set token (unpack_result_only_retval 0 response),
)
into_raw (set_pending_extended token index address) = (
  set_pending,
  bit_or (index % 256) 0x80 ∷ extended_bytes address,
  λ response. pending_extended_set token (unpack_result_only_retval 0 response),
)
