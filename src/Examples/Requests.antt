-- ===== src/Examples/Requests.antt =====
-- Requests to the radio.
use zigbee_rust_playground.Common.{
  ℕ, ◌≡◌, ◌≢◌, refl, arith, ◌++◌, Option, none, some, ok, err, true, false, to_be_bytes,
}
use zigbee_rust_playground.Radio.{
  value_u32, short_address, RadioRxMode, unexpected_response, from_rx_mode, try_rx_mode, get_param,
  param_got, value_bytes, set_pending_short, set_pending_extended, into_raw,
}
use zigbee_rust_playground.Radio.Answers.{type_of, into_raw-get_param, try_rx_mode-from_rx_mode}
use zigbee_rust_playground.Radio.Pending.{
  into_raw-set_pending_short, into_raw-set_pending_extended, into_raw-short_extended,
}

into_raw-get_param_example :
    (into_raw (get_param 1 short_address (type_of (value_u32 70000)))).2
      (ok (to_be_bytes 2 0 ++ value_bytes (value_u32 70000)))
    ≡ param_got 1 short_address (ok (value_u32 70000))
into_raw-get_param_example = into_raw-get_param 1 short_address (value_u32 70000) (omega arith)

abbrev mode : RadioRxMode
mode = record { address_filter = true; autoack = true; poll_mode = false }

try_rx_mode-from_rx_mode_example : try_rx_mode (from_rx_mode mode) ≡ err unexpected_response
try_rx_mode-from_rx_mode_example = try_rx_mode-from_rx_mode mode

into_raw-set_pending_short_example :
    (◌≡◌ {A = ℕ} 7 7) × (◌≡◌ {A = Option (ℕ × ℕ)} (some (0x1234, 5)) (some (0x1234, 5)))
into_raw-set_pending_short_example =
    into_raw-set_pending_short 1 2 7 7 (some (0x1234, 5)) (some (0x1234, 5)) (omega arith)
      (omega arith) (omega arith, omega arith) (omega arith, omega arith) (unfold into_raw in refl)

into_raw-set_pending_extended_example : (◌≡◌ {A = ℕ} 7 7) × (◌≡◌ {A = Option ℕ} (some 5) (some 5))
into_raw-set_pending_extended_example =
    into_raw-set_pending_extended 1 2 7 7 (some 5) (some 5) (omega arith) (omega arith)
      (omega arith) (omega arith) (unfold into_raw in refl)

into_raw-short_extended_example :
    (into_raw (set_pending_short 1 7 none)).1 ≢ (into_raw (set_pending_extended 2 7 none)).1
into_raw-short_extended_example =
    into_raw-short_extended 1 2 7 7 none none (omega arith) (omega arith)
