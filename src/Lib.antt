-- ===== src/Lib.antt =====
-- A model of ZigbeeRustPlayground, the IEEE 802.15.4 MAC of a Zigbee coordinator.
--
-- Frames are packed into bytes and unpacked from them. The data service keeps one queue for each
-- device: a queue hands out a frame, waits for its acknowledgement, sends it again or reports it as
-- failed, and says whether its device has pending data. The addresses of such devices go into the
-- pending tables, which keep a bounded table of slots in line with the one of the radio. The management
-- service answers the MLME and keeps the radio's parameters in line with the PAN information base
-- (PIB), which holds the attributes that they all read. The MAC's loop passes inputs to both services.
--
-- Common: lists, options, results, bytes and equality tests that the other files share.
-- Bitfield: the accessors of the crate bitfield, which is not part of the repository, with the laws
--   that its documentation gives. `arithmetic` shows that the laws can hold.
-- Pack (src/pack/*.rs): the traits `Pack` and `PackTarget` with the targets `VecPackTarget` and
--   `SlicePackTarget`. A slice is a list of bytes, `unpack` returns the value and the bytes left.
-- Frame (src/ieee802154/frame.rs): `Frame::pack` and `Frame::unpack` with all that they call; the
--   code that the macros of pack_derive generate is written out for each type. A function over any
--   `PackTarget` takes the target as an instance.
-- Mac.Waker (src/waker_store.rs).
-- Mac.PendingTable (src/ieee802154/mac/pendingtable.rs): `insert`, `remove` and `set` are
--   `insert_value`, `remove_value` and `set_pending`. A `HashSet` is a list without duplicates.
-- Mac.CombinedPendingTable (src/ieee802154/mac/combinedpendingtable.rs): its `set` is `set_address`,
--   its field `none` is `without_address`.
-- Mac.DeviceQueue (src/ieee802154/mac/devicequeue.rs): one function for each method; the long match
--   of `poll_next_action` is split into `poll_entries`, `poll_front` and `wait`.
-- Mac.DataService (src/ieee802154/mac/data.rs): one function for each method; the loop of
--   `poll_action` is `poll_round` on fuel, and `total` is how much is enough. Its map of handles is
--   Bimap, the map of the crate bimap with its documented laws.
-- Mac.Management (src/ieee802154/mac/management.rs): one function for each method, on the PIB, the
--   service and, where it is changed, the data service.
-- Mac.Service (src/ieee802154/mac/service.rs): `poll_next_input` is what the loop of `process` waits
--   for, `process_input` its body; what is sent to the channels is a list of `Output`.
-- Services (src/ieee802154/services/*.rs): the requests, confirms, indications and responses.
-- Pib (src/ieee802154/pib.rs).
-- Radio (src/radio/mod.rs, with the enums of src/radio/raw.rs): the requests as commands, and what
--   their answers are parsed to. `into_raw` returns the parser as a function. Radio.Params has the
--   equality tests.
-- Zigbee.Security.CbcMac and MmoHash (old_src/zigbee/security/cbcmac.rs and mmohash.rs): a code and a
--   hash over a block cipher that is a parameter. A `usize` has 64 bits; whether the build checks for
--   overflow is an argument of `fixed_result`.
-- Examples: runs on concrete values.
--
-- A number of w bits is a native natural number, with the wrap-around written out and its range a
-- hypothesis where a theorem needs it. A call that can panic returns an option, `none` for the panic;
-- a fallible call returns a `Result`. Loops over a list recurse on the list; only the loop of the data
-- service runs on fuel. A `HashMap` is a list of pairs (Common.Assoc), iterated in its order. A new
-- `UniqueKey`, which a third-party crate draws, is an argument, and so are the two random numbers of a
-- new PIB. A timer is of a type that is a parameter, with the function that makes one and the test
-- whether it has expired; what a poll registers with a timer is left out. A task's waker is a number,
-- and the model records the wakers that were woken.
--
-- Not modelled: the channels and tasks around the MAC with its requests at the start (`SyncRadio`), the
-- framing and the tasks of the radio's serial protocol, the derive macros themselves, the rest
-- of the earlier implementation under old_src, the executor and the firmware.
pub mod Common
pub mod Pack
pub mod Bitfield
pub mod Bimap
pub mod Frame
pub mod Services
pub mod Mac
pub mod Pib
pub mod Radio
pub mod Examples
pub mod Zigbee
