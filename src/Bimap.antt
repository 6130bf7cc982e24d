-- ===== src/Bimap.antt =====
-- The map `BiMap` of the crate bimap, which data.rs keeps its handles in. The crate is not part of the
-- repository, so the map is a parameter with its documented effect as laws: a pair of a left and a
-- right value, each with one partner at most, and an `insert` that replaces the pairs it overlaps.
use zigbee_rust_playground.Common.{
  ℕ, ◌==◌, ◌≡◌, if◌then◌else◌, Bool, true, false, not, ◌&&◌, ◌||◌, Option, none, some,
}

pub record BiMap (M : Type 0) : Type 0 where
  pub empty : M
  pub has : M → ℕ → ℕ → Bool
  pub insert : ℕ → ℕ → M → M
  pub remove_by_left : ℕ → M → Option (ℕ × ℕ) × M
  pub remove_by_right : ℕ → M → Option (ℕ × ℕ) × M
  pub has_empty : (a b : ℕ) → has empty a b ≡ false
  pub has_insert :
      (l r : ℕ) (m : M) (a b : ℕ)
      → has (insert l r m) a b ≡ (if (l == a) || (r == b) then (l == a) && (r == b) else has m a b)
  pub left_none : (l : ℕ) (m : M) (r : ℕ) → (remove_by_left l m).0 ≡ none → has m l r ≡ false
  pub left_some :
      (l : ℕ) (m : M) (a r : ℕ)
      → (remove_by_left l m).0 ≡ some (a, r)
      → (a ≡ l) × (has m l r ≡ true)
  pub left_rest :
      (l : ℕ) (m : M) (a b : ℕ) → has (remove_by_left l m).1 a b ≡ (has m a b && not (l == a))
  pub right_none : (r : ℕ) (m : M) (l : ℕ) → (remove_by_right r m).0 ≡ none → has m l r ≡ false
  pub right_some :
      (r : ℕ) (m : M) (l b : ℕ)
      → (remove_by_right r m).0 ≡ some (l, b)
      → (b ≡ r) × (has m l r ≡ true)
  pub right_rest :
      (r : ℕ) (m : M) (a b : ℕ) → has (remove_by_right r m).1 a b ≡ (has m a b && not (r == b))
  pub one_left : (m : M) (l l' r : ℕ) → has m l r ≡ true → has m l' r ≡ true → l ≡ l'
  pub one_right : (m : M) (l r r' : ℕ) → has m l r ≡ true → has m l r' ≡ true → r ≡ r'
