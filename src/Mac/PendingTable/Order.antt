-- ===== src/Mac/PendingTable/Order.antt =====
-- The order of the slots: each index of the table stands in it exactly once.
use zigbee_rust_playground.Common.{
  ℕ, zero, suc, ◌+◌, ◌<◌, ◌≡◌, refl, arith, ltb, ◌==◌, if◌then◌else◌, List, [], ◌∷◌, ◌++◌, length,
  length-append,
}
use zigbee_rust_playground.Mac.PendingTable.{retain_ne, range}

-- How often an index occurs.
abbrev pub count : ℕ → List ℕ → ℕ
count i [] = 0
count i (x ∷ xs) = (if x == i then 1 else 0) + count i xs

-- The indices below `n`, each once.
pub record IsOrder (n : ℕ) (order : List ℕ) : Type 0 where
  pub once : (i : ℕ) → count i order ≡ (if ltb i n then 1 else 0)
  pub all : length order ≡ n

pub count-append : (i : ℕ) (xs ys : List ℕ) → count i (xs ++ ys) ≡ count i xs + count i ys
count-append i [] ys = omega arith
count-append i (x ∷ xs) ys = omega (arith, count-append i xs ys)

pub count-retain_ne :
    (i j : ℕ) (xs : List ℕ) → count i (retain_ne j xs) ≡ (if j == i then 0 else count i xs)
unfolding retain_ne
count-retain_ne i j [] = ground arith
count-retain_ne i j (x ∷ xs) = ground (arith, count-retain_ne i j xs)

pub length-retain_ne : (j : ℕ) (xs : List ℕ) → length (retain_ne j xs) + count j xs ≡ length xs
unfolding retain_ne
length-retain_ne j [] = omega arith
length-retain_ne j (x ∷ xs) = ground (arith, length-retain_ne j xs)

pub retain_ne-absent : (j : ℕ) (xs : List ℕ) → count j xs ≡ 0 → retain_ne j xs ≡ xs
unfolding retain_ne
retain_ne-absent j [] h = refl
retain_ne-absent j (x ∷ xs) h = ground (arith, retain_ne-absent j xs)

pub promoted-IsOrder :
    (n i : ℕ) (order : List ℕ) → i < n → IsOrder n order → IsOrder n (retain_ne i order ++ (i ∷ []))
promoted-IsOrder n i order h v = record {
  once = λ j.
      ground
        (arith, v.once j, count-append j (retain_ne i order) (i ∷ []), count-retain_ne j i order);
  all = ground (
    arith,
    v.once i,
    v.all,
    length-append (retain_ne i order) (i ∷ []),
    length-retain_ne i order,
  );
}

pub demoted-IsOrder :
    (n i : ℕ) (order : List ℕ) → i < n → IsOrder n order → IsOrder n (i ∷ retain_ne i order)
demoted-IsOrder n i order h v = record {
  once = λ j. ground (arith, v.once j, count-retain_ne j i order);
  all = ground (arith, v.once i, v.all, length-retain_ne i order);
}

count-range :
    (i from n : ℕ)
    → count i (range from n) ≡ (if ltb i from then 0 else if ltb i (from + n) then 1 else 0)
unfolding range
count-range i from zero = ground arith
count-range i from (suc n) = ground (arith, count-range i (suc from) n)

length-range : (from n : ℕ) → length (range from n) ≡ n
unfolding range
length-range from zero = refl
length-range from (suc n) = omega (arith, length-range (suc from) n)

pub range-IsOrder : (n : ℕ) → IsOrder n (range 0 n)
range-IsOrder n = record { once = λ i. ground (arith, count-range i 0 n); all = length-range 0 n }
