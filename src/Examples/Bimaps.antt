-- ===== src/Examples/Bimaps.antt =====
-- A map of pairs that has the laws of `BiMap`: the list of its changes, the last one first.
use zigbee_rust_playground.Common.{
  ℕ, ◌==◌, ==_iff, ◌≡◌, refl, sym, ◌∙◌, arith, if◌then◌else◌, Bool, true, false, not, ◌&&◌, ◌||◌,
  Bool-cases, inl, inr, Option, none, some, List, [], ◌∷◌,
}
use zigbee_rust_playground.Bimap.{BiMap}

pub data Change : Type 0 where
  paired : ℕ → ℕ → Change
  cut_left cut_right : ℕ → Change

unfoldable pub has : List Change → ℕ → ℕ → Bool
has [] a b = false
has (paired l r ∷ m) a b = if (l == a) || (r == b) then (l == a) && (r == b) else has m a b
has (cut_left l ∷ m) a b = has m a b && not (l == a)
has (cut_right r ∷ m) a b = has m a b && not (r == b)

-- The pair of a left value, and of a right one.
unfoldable pub right_of : ℕ → List Change → List Change → Option (ℕ × ℕ)
right_of l all [] = none
right_of l all (paired a b ∷ m) = if (a == l) && has all a b then some (a, b) else right_of l all m
right_of l all (cut_left a ∷ m) = right_of l all m
right_of l all (cut_right b ∷ m) = right_of l all m

unfoldable pub left_of : ℕ → List Change → List Change → Option (ℕ × ℕ)
left_of r all [] = none
left_of r all (paired a b ∷ m) = if (b == r) && has all a b then some (a, b) else left_of r all m
left_of r all (cut_left a ∷ m) = left_of r all m
left_of r all (cut_right b ∷ m) = left_of r all m

pub has-one_left : (m : List Change) (l l' r : ℕ) → has m l r ≡ true → has m l' r ≡ true → l ≡ l'
unfolding has
has-one_left [] l l' r h h' = absurd (ground (arith, h))
has-one_left (paired a b ∷ m) l l' r h h' = elim (Bool-cases (b == r)) [
  | inl same ↦
      sym ((==_iff a l).0 (ground (arith, h, same))) ∙ (==_iff a l').0 (ground (arith, h', same))
  | inr other ↦ has-one_left m l l' r (ground (arith, h, other)) (ground (arith, h', other))
]
has-one_left (cut_left a ∷ m) l l' r h h' =
    has-one_left m l l' r (ground (arith, h)) (ground (arith, h'))
has-one_left (cut_right b ∷ m) l l' r h h' =
    has-one_left m l l' r (ground (arith, h)) (ground (arith, h'))

pub has-one_right : (m : List Change) (l r r' : ℕ) → has m l r ≡ true → has m l r' ≡ true → r ≡ r'
unfolding has
has-one_right [] l r r' h h' = absurd (ground (arith, h))
has-one_right (paired a b ∷ m) l r r' h h' = elim (Bool-cases (a == l)) [
  | inl same ↦
      sym ((==_iff b r).0 (ground (arith, h, same))) ∙ (==_iff b r').0 (ground (arith, h', same))
  | inr other ↦ has-one_right m l r r' (ground (arith, h, other)) (ground (arith, h', other))
]
has-one_right (cut_left a ∷ m) l r r' h h' =
    has-one_right m l r r' (ground (arith, h)) (ground (arith, h'))
has-one_right (cut_right b ∷ m) l r r' h h' =
    has-one_right m l r r' (ground (arith, h)) (ground (arith, h'))

pub right_of-found :
    (l : ℕ) (all m : List Change) (a r : ℕ)
    → right_of l all m ≡ some (a, r)
    → (a ≡ l) × (has all l r ≡ true)
unfolding right_of
right_of-found l all [] a r h = absurd (ground (arith, h))
right_of-found l all (paired x y ∷ m) a r h = elim (Bool-cases ((x == l) && has all x y)) [
  | inl hit ↦
      let same : x ≡ l = (==_iff x l).0 (ground (arith, hit)) in
      let there : has all x y ≡ true = ground (arith, hit) in
      let first : x ≡ a = ground (arith, h, hit) in
      let second : y ≡ r = ground (arith, h, hit) in (sym first ∙ same, rw (← same, ← second) there)
  | inr miss ↦ right_of-found l all m a r (ground (arith, h, miss))
]
right_of-found l all (cut_left x ∷ m) a r h = right_of-found l all m a r h
right_of-found l all (cut_right y ∷ m) a r h = right_of-found l all m a r h

pub left_of-found :
    (r : ℕ) (all m : List Change) (l b : ℕ)
    → left_of r all m ≡ some (l, b)
    → (b ≡ r) × (has all l r ≡ true)
unfolding left_of
left_of-found r all [] l b h = absurd (ground (arith, h))
left_of-found r all (paired x y ∷ m) l b h = elim (Bool-cases ((y == r) && has all x y)) [
  | inl hit ↦
      let same : y ≡ r = (==_iff y r).0 (ground (arith, hit)) in
      let there : has all x y ≡ true = ground (arith, hit) in
      let first : x ≡ l = ground (arith, h, hit) in
      let second : y ≡ b = ground (arith, h, hit) in (sym second ∙ same, rw (← same, ← first) there)
  | inr miss ↦ left_of-found r all m l b (ground (arith, h, miss))
]
left_of-found r all (cut_left x ∷ m) l b h = left_of-found r all m l b h
left_of-found r all (cut_right y ∷ m) l b h = left_of-found r all m l b h

pub right_of-absent :
    (l r : ℕ) (all m : List Change)
    → right_of l all m ≡ none
    → has m l r ≡ true
    → has all l r ≡ false
unfolding right_of has
right_of-absent l r all [] h there = absurd (ground (arith, there))
right_of-absent l r all (paired x y ∷ m) h there = elim (Bool-cases (x == l)) [
  | inl same ↦ elim (Bool-cases (y == r)) [
    | inl same' ↦ rw (← (==_iff x l).0 same, ← (==_iff y r).0 same') (ground (arith, h, same))
    | inr other ↦ absurd (ground (arith, there, same, other))
  ]
  | inr other ↦ right_of-absent l r all m (ground (arith, h, other)) (ground (arith, there, other))
]
right_of-absent l r all (cut_left x ∷ m) h there =
    right_of-absent l r all m h (ground (arith, there))
right_of-absent l r all (cut_right y ∷ m) h there =
    right_of-absent l r all m h (ground (arith, there))

pub left_of-absent :
    (l r : ℕ) (all m : List Change)
    → left_of r all m ≡ none
    → has m l r ≡ true
    → has all l r ≡ false
unfolding left_of has
left_of-absent l r all [] h there = absurd (ground (arith, there))
left_of-absent l r all (paired x y ∷ m) h there = elim (Bool-cases (y == r)) [
  | inl same ↦ elim (Bool-cases (x == l)) [
    | inl same' ↦ rw (← (==_iff x l).0 same', ← (==_iff y r).0 same) (ground (arith, h, same))
    | inr other ↦ absurd (ground (arith, there, same, other))
  ]
  | inr other ↦ left_of-absent l r all m (ground (arith, h, other)) (ground (arith, there, other))
]
left_of-absent l r all (cut_left x ∷ m) h there = left_of-absent l r all m h (ground (arith, there))
left_of-absent l r all (cut_right y ∷ m) h there =
    left_of-absent l r all m h (ground (arith, there))

-- A pair that a search misses is not there.
pub absent : (t : Bool) → (t ≡ true → t ≡ false) → t ≡ false
absent true h = h refl
absent false h = refl

instance abbrev pub changes : BiMap (List Change)
unfolding has
changes = record {
  empty = [];
  has = has;
  insert = λ l r m. paired l r ∷ m;
  remove_by_left = λ l m. (right_of l m m, cut_left l ∷ m);
  remove_by_right = λ r m. (left_of r m m, cut_right r ∷ m);
  has_empty = λ a b. refl;
  has_insert = λ l r m a b. refl;
  left_none = λ l m r h. absent (has m l r) (right_of-absent l r m m h);
  left_some = λ l m a r h. right_of-found l m m a r h;
  left_rest = λ l m a b. refl;
  right_none = λ r m l h. absent (has m l r) (left_of-absent l r m m h);
  right_some = λ r m l b h. left_of-found r m m l b h;
  right_rest = λ r m a b. refl;
  one_left = has-one_left;
  one_right = has-one_right;
}
