-- ===== src/Frame/Valid.antt =====
-- The ranges of the numbers in a frame: what the Rust types of the fields give.
use zigbee_rust_playground.Common.{ℕ, ◌<◌, ◌^◌, Option, none, some, Result, ok, err}
use zigbee_rust_playground.Frame.Types.{
  Address, FullAddress, AssociationError, ShortAddress, Command, association_request,
  association_response, FrameType, Frame,
}

abbrev pub IsAddress : Address → Type 0
IsAddress (Address.short a) = a.value < 256 ^ 2
IsAddress (Address.extended a) = a.value < 256 ^ 8

abbrev pub IsFullAddress : Option FullAddress → Type 0
IsFullAddress none = Unit {0}
IsFullAddress (some a) = (a.pan_id.value < 256 ^ 2) × IsAddress a.address

abbrev pub IsSequenceNumber : Option ℕ → Type 0
IsSequenceNumber none = Unit {0}
IsSequenceNumber (some n) = n < 256 ^ 1

abbrev pub IsStatus : Result AssociationError ShortAddress → Type 0
IsStatus (ok a) = a.value < 256 ^ 2
IsStatus (err e) = Unit {0}

abbrev pub IsCommand : Command → Type 0
IsCommand (association_response r) = IsStatus r.status
IsCommand _ = Unit {0}

abbrev pub IsBody : FrameType → Type 0
IsBody (FrameType.command c) = IsCommand c
IsBody _ = Unit {0}

pub record IsFrame (f : Frame) : Type 0 where
  pub sequence_number : IsSequenceNumber f.sequence_number
  pub destination : IsFullAddress f.destination
  pub source : IsFullAddress f.source
  pub body : IsBody f.frame_type

-- The capabilities of an association request are read, but not written.
abbrev pub IsWritten : FrameType → Type 0
IsWritten (FrameType.command (association_request info)) = ⊥
IsWritten _ = Unit {0}
