-- ===== src/Mac/DataService/Tables.antt =====
-- The pending tables of the data service meet their invariant in every state that its calls reach.
use zigbee_rust_playground.Common.{ℕ, ◌≡◌, refl, inl, inr, ◌||◌, Bool-cases, Option-cases, some}
use zigbee_rust_playground.Common.Eq.{option_eq, option_beq}
use zigbee_rust_playground.Common.Assoc.{lookup}
use zigbee_rust_playground.Bimap.{BiMap}
use zigbee_rust_playground.Frame.Types.{full_address_eq, Frame, FrameType, Command, data_request}
use zigbee_rust_playground.Frame.Keys.{full_address_key}
use zigbee_rust_playground.Pib.{Pib, get_full_short_address, get_full_extended_address}
use zigbee_rust_playground.Services.Mcps
use zigbee_rust_playground.Mac.CombinedPendingTable.Slots.{
  HasTables, new-HasTables, report_init_result-HasTables, report_update_result-HasTables,
}
use zigbee_rust_playground.Mac.DeviceQueue.{DataRequest}
use zigbee_rust_playground.Mac.DataService.{
  DataService, new, insert, remove, process_init_pending_table_result, process_set_pending_result,
  process_send_result, process_frame, process_frame_ack, process_frame_data_request,
  process_mcps_data_request, process_mcps_purge_request, process_mcps_request,
}
use zigbee_rust_playground.Mac.DataService.Reach.{
  Reach, start, step, Step, polled, mcps_requested, inserted, received, sent, table_cleared,
  slot_written,
}
use zigbee_rust_playground.Mac.DataService.Counted.{poll_action-HasTables}

module _ {Timer M : Type 0} ⦃b : BiMap M⦄ where
  insert-table :
      (sleep : ℕ → Timer) (pib : Pib) (entry : DataRequest) (s : DataService Timer M)
      → (insert sleep pib entry s).pending_table ≡ s.pending_table
  unfolding insert
  insert-table sleep pib entry s = elim (Option-cases (lookup entry.destination s.queues)) [
    | inl absent ↦ rw (absent, insert) refl
    | inr (q, known) ↦ rw (known, insert) refl
  ]

  process_frame_data_request-table :
      (pib : Pib) (frame : Frame) (s : DataService Timer M)
      → (process_frame_data_request pib frame s).pending_table ≡ s.pending_table
  unfolding process_frame_data_request
  process_frame_data_request-table pib frame s =
      elim (Bool-cases (
        option_beq full_address_eq frame.destination (some (get_full_short_address pib))
        || option_beq full_address_eq frame.destination (some (get_full_extended_address pib)))) [
          | inr other ↦ rw (other, process_frame_data_request) refl
          | inl mine ↦ elim (Option-cases (lookup frame.source s.queues)) [
            | inl absent ↦ rw (mine, absent, process_frame_data_request) refl
            | inr (q, known) ↦ rw (mine, known, process_frame_data_request) refl
          ]
        ]

  process_frame-table :
      (pib : Pib) (frame : Frame) (s : DataService Timer M) (t : FrameType)
      → frame.frame_type ≡ t
      → (process_frame pib frame s).pending_table ≡ s.pending_table
  unfolding process_frame process_frame_ack
  process_frame-table pib frame s (FrameType.command data_request) same =
      rw (same, process_frame) (process_frame_data_request-table pib frame s)
  process_frame-table pib frame s (FrameType.ack x) same = rw (same, process_frame) refl
  process_frame-table pib frame s (FrameType.command (Command.association_request c)) same =
      rw (same, process_frame) refl
  process_frame-table pib frame s (FrameType.command (Command.association_response c)) same =
      rw (same, process_frame) refl
  process_frame-table pib frame s (FrameType.command Command.beacon_request) same =
      rw (same, process_frame) refl
  process_frame-table pib frame s (FrameType.beacon x) same = rw (same, process_frame) refl
  process_frame-table pib frame s (FrameType.data_frame x) same = rw (same, process_frame) refl
  process_frame-table pib frame s (FrameType.reserved x) same = rw (same, process_frame) refl
  process_frame-table pib frame s (FrameType.multipurpose x) same = rw (same, process_frame) refl
  process_frame-table pib frame s (FrameType.fragment x) same = rw (same, process_frame) refl
  process_frame-table pib frame s (FrameType.extended x) same = rw (same, process_frame) refl

  process_mcps_request-table :
      (sleep : ℕ → Timer) (key : ℕ) (pib : Pib) (request : Mcps.Request) (s : DataService Timer M)
      → (process_mcps_request sleep key pib request s).1.pending_table ≡ s.pending_table
  unfolding process_mcps_request process_mcps_data_request process_mcps_purge_request remove
  process_mcps_request-table sleep key pib (Mcps.data_request r) s = insert-table sleep pib _ s
  process_mcps_request-table sleep key pib (Mcps.purge_request r) s =
      elim (Option-cases (b.remove_by_left r.msdu_handle s.msdu_handles).0) [
        | inl unknown ↦ rw (unknown, process_mcps_request, process_mcps_purge_request) refl
        | inr ((l, k), known) ↦ rw (known, process_mcps_request, process_mcps_purge_request) refl
      ]

  step-HasTables :
      (s s' : DataService Timer M)
      → Step s s'
      → HasTables s.pending_table
      → HasTables s'.pending_table
  unfolding process_init_pending_table_result process_set_pending_result process_send_result
  step-HasTables s s' (polled fuel expired key cx pib x pib' h) i =
      poll_action-HasTables fuel expired key cx pib s x pib' s' h i
  step-HasTables s s' (mcps_requested sleep key pib request) i =
      rw (process_mcps_request-table sleep key pib request s) i
  step-HasTables s s' (inserted sleep pib entry) i = rw (insert-table sleep pib entry s) i
  step-HasTables s s' (received pib frame) i =
      rw (process_frame-table pib frame s frame.frame_type refl) i
  step-HasTables s s' (sent sleep key success) i = i
  step-HasTables s s' (table_cleared key success) i =
      report_init_result-HasTables key success s.pending_table i
  step-HasTables s s' (slot_written key success) i =
      report_update_result-HasTables key success s.pending_table i

  pub reach-HasTables : (s : DataService Timer M) → Reach s → HasTables s.pending_table
  unfolding new
  reach-HasTables s start = new-HasTables
  reach-HasTables s' (step {s} r t) = step-HasTables s s' t (reach-HasTables s r)
