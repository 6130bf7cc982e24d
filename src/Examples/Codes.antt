-- ===== src/Examples/Codes.antt =====
-- The authentication code of three bytes over blocks of two.
use zigbee_rust_playground.Common.{ℕ, ◌+◌, ◌≡◌, ◌∙◌, refl, arith, List, [], ◌∷◌, ◌++◌, length}
use zigbee_rust_playground.Zigbee.Security.CbcMac.{new, input, result, zeros}
use zigbee_rust_playground.Zigbee.Security.CbcMac.Blocks.{code, joined, result-code}

-- A stand-in for a cipher, which adds the bytes' places to them.
abbrev pub shift_from : ℕ → List ℕ → List ℕ
shift_from k [] = []
shift_from k (x ∷ xs) = (x + k) ∷ shift_from (k + 1) xs

length-shift_from : (k : ℕ) (xs : List ℕ) → length (shift_from k xs) ≡ length xs
length-shift_from k [] = refl
length-shift_from k (x ∷ xs) = omega (arith, length-shift_from (k + 1) xs)

abbrev blocks : List (List ℕ)
blocks = (1 ∷ 2 ∷ []) ∷ []

result-code_example :
    result (shift_from 1) (input (shift_from 1) (joined blocks ++ (3 ∷ [])) (new 2))
    ≡ code (shift_from 1) (zeros 2) blocks (3 ∷ [])
result-code_example =
    result-code 2 (shift_from 1) blocks (3 ∷ []) (λ xs h. length-shift_from 1 xs ∙ h) (omega arith)
      (refl, tt) (omega arith)
