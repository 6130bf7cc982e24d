-- ===== src/Examples/Attributes.antt =====
-- The PAN information base.
use zigbee_rust_playground.Common.{◌<◌, ◌≡◌, ◌≢◌, refl, arith, some, ok}
use zigbee_rust_playground.Pib.{Pib, PibProperty, PibValue, new, get, set, reset, assign, try_u16}
use zigbee_rust_playground.Pib.Access.{get-set, get-set_other, get-reset_set}
use zigbee_rust_playground.Pib.Sequence.{data_sequence_nr, data_sequence_nr-distinct}

abbrev pib : Pib
pib = new 250 254 (record { value = 0x0011223344556677 }) 11 20

abbrev quiet : Pib
quiet = record pib { phy_tx_power = 3 }

set_quiet : set PibProperty.phy_tx_power (PibValue.u16 3) pib ≡ ok quiet
unfolding set assign try_u16
set_quiet = refl

get-set_example : get PibProperty.phy_tx_power quiet ≡ some (PibValue.u16 3)
get-set_example = get-set PibProperty.phy_tx_power (PibValue.u16 3) pib quiet set_quiet

different : PibProperty.mac_dsn ≢ PibProperty.phy_tx_power
different h = ground (arith, h)

get-set_other_example : get PibProperty.mac_dsn quiet ≡ get PibProperty.mac_dsn pib
get-set_other_example =
    get-set_other PibProperty.phy_tx_power PibProperty.mac_dsn (PibValue.u16 3) pib quiet different
      set_quiet

get-reset_set_example : get PibProperty.phy_max_tx_power (reset 0 0 quiet) ≡ some (PibValue.u16 3)
get-reset_set_example = get-reset_set 0 0 3 pib quiet set_quiet

low : pib.mac_dsn < 256
unfolding new
low = ground arith

data_sequence_nr-distinct_example : data_sequence_nr 1 pib ≢ data_sequence_nr 200 pib
data_sequence_nr-distinct_example =
    data_sequence_nr-distinct 1 200 pib low (omega arith) (omega arith)
