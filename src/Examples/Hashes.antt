-- ===== src/Examples/Hashes.antt =====
-- The hash of three bytes over blocks of 16.
use zigbee_rust_playground.Common.{ℕ, ◌*◌, ◌≡◌, arith, true, some, All, List, [], ◌∷◌, ◌++◌, length}
use zigbee_rust_playground.Zigbee.Security.MmoHash.{default, zeros, input, fixed_result}
use zigbee_rust_playground.Zigbee.Security.MmoHash.Blocks.{join, chain, IsBlock}
use zigbee_rust_playground.Zigbee.Security.MmoHash.Suffix.{IsSuffix}
use zigbee_rust_playground.Zigbee.Security.MmoHash.Code.{fixed_result-code}
use zigbee_rust_playground.Examples.Codes.{shift_from}

abbrev message : List ℕ
message = 1 ∷ 2 ∷ 5 ∷ []

abbrev shift : List ℕ → List ℕ → List ℕ
shift key block = shift_from 3 block

fixed_result-code_example :
    (bytes : List ℕ) × (blocks : List (List ℕ)) × IsSuffix 16 (length message * 8) bytes
    × (join blocks ≡ message ++ bytes)
    × All (IsBlock 16 shift) blocks
    × (fixed_result true 16 shift (input 16 shift message (default 16))
        ≡ some (chain shift (zeros 16) blocks))
fixed_result-code_example =
    fixed_result-code 16 shift true message (omega arith) (omega arith) (omega arith)
