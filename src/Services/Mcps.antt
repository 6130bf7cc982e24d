-- ===== src/Services/Mcps.antt =====
-- src/ieee802154/services/mcps.rs. The type `Response` has no values, and is left out.
use zigbee_rust_playground.Common.{ℕ, Bool, List, Option, Result}
use zigbee_rust_playground.Frame.Types.{AddressingMode, FullAddress}
use zigbee_rust_playground.Pib.{Error}

pub record DataRequest : Type 0 where
  pub source_addressing_mode : AddressingMode
  pub destination : Option FullAddress
  pub msdu : List ℕ
  pub msdu_handle : ℕ
  pub ack_tx : Bool
  pub indirect_tx : Bool

pub record DataConfirm : Type 0 where
  pub msdu_handle : ℕ
  pub ack_payload : Result Error (List ℕ)

pub record PurgeRequest : Type 0 where
  pub msdu_handle : ℕ

pub record PurgeConfirm : Type 0 where
  pub msdu_handle : ℕ
  pub status : Result Error (Unit {0})

pub data Request : Type 0 where
  data_request : DataRequest → Request
  purge_request : PurgeRequest → Request

pub data Confirm : Type 0 where
  data_confirm : DataConfirm → Confirm
  purge_confirm : PurgeConfirm → Confirm
