-- ===== src/Pack/Targets.antt =====
-- Packing in terms of the bytes that are written: every packing function is a sequence of appends,
-- whatever the target, and the slice target is the vector target with a bound.
use zigbee_rust_playground.Common.{
  ℕ, ◌+◌, ◌≤◌, ◌<◌, ◌⊎◌, inl, inr, sym, ap, append-nil, ◌∙◌, map_err, take-append_of,
  drop-append_of, drop-drop, ◌≡◌, refl, arith, List, [], ◌∷◌, ◌++◌, length, length-append, take,
  drop, length-take, length-drop, append_assoc, Result, ok, err, ◌>>=◌,
}
use native.Mathlib.Decide.{dec_lt}
use zigbee_rust_playground.Pack.{
  PackError, target_error, PackTarget, append, SlicePackTarget, not_enough_space, slice_append,
  VecPackTarget, vec_append, slice_target, vec_target,
}

-- What an append of `chunk` makes of a slice: the bytes written so far grow by the chunk, the bytes
-- behind them stay as they were, and so does the length of the slice.
pub record Appended (s : SlicePackTarget) (chunk : List ℕ) (s' : SlicePackTarget) : Type 0 where
  pub moved : s'.offset ≡ s.offset + length chunk
  pub written : take s'.offset s'.target ≡ take s.offset s.target ++ chunk
  pub untouched : drop s'.offset s'.target ≡ drop s'.offset s.target
  pub same_length : length s'.target ≡ length s.target

module _ (s : SlicePackTarget) (chunk : List ℕ)
    (fits : s.offset + length chunk ≤ length s.target) where
  written_slice : SlicePackTarget
  written_slice = record {
    target = take s.offset s.target ++ (chunk ++ drop (s.offset + length chunk) s.target);
    offset = s.offset + length chunk;
  }

  length-front : length (take s.offset s.target ++ chunk) ≡ s.offset + length chunk
  length-front =
      omega (arith, length-append (take s.offset s.target) chunk, length-take s.offset s.target)

  written_slice-Appended : Appended s chunk written_slice
  unfolding written_slice
  written_slice-Appended =
      let front = take s.offset s.target ++ chunk in
      let rest = drop (s.offset + length chunk) s.target in
      let regroup = append_assoc (take s.offset s.target) chunk rest in
      record {
        moved = refl;
        written = rw (← regroup) (take-append_of _ front rest length-front);
        untouched = rw (← regroup) (drop-append_of _ front rest length-front);
        same_length = rw (← regroup) (
            omega (
              arith,
              length-front,
              length-append front rest,
              length-drop (s.offset + length chunk) s.target fits,
            ));
      }

-- An append to a slice succeeds exactly when the chunk fits behind the offset, and then writes the
-- chunk there and nothing else.
pub slice_append_lem :
    (s : SlicePackTarget) (chunk : List ℕ)
    → ((s.offset + length chunk ≤ length s.target)
        × (s' : SlicePackTarget) × (slice_append s chunk ≡ ok s')
        × Appended s chunk s')
      ⊎ ((length s.target < s.offset + length chunk)
          × (slice_append s chunk ≡ err not_enough_space))
unfolding slice_append written_slice
slice_append_lem s chunk = elim (dec_lt (length s.target) (s.offset + length chunk)) [
  | yes over ↦ inr (over, ground arith)
  | no fits ↦
      let room : s.offset + length chunk ≤ length s.target = omega arith in
      inl (room, written_slice s chunk room, ground arith, written_slice-Appended s chunk room)
]

-- Appending a list of chunks, one after the other.
module _ {T : Type 0} ⦃t : PackTarget T⦄ where
  unfoldable pub append_all : List (List ℕ) → T → Result (PackError t.Error) T
  append_all [] target = ok target
  append_all (c ∷ cs) target = do target ← append c target; append_all cs target

  pub append_all-append :
      (cs ds : List (List ℕ)) (target : T)
      → append_all (cs ++ ds) target ≡ (append_all cs target >>= λ u. append_all ds u)
  unfolding append_all append
  append_all-append [] ds target = refl
  append_all-append (c ∷ cs) ds target =
      elim (t.append target c)
        as (λ r.
          (map_err target_error r >>= λ u. append_all (cs ++ ds) u)
          ≡ ((map_err target_error r >>= λ u. append_all cs u) >>= λ u. append_all ds u)) [
            | ok u ↦ append_all-append cs ds u
            | err e ↦ refl
          ]

abbrev pub concat : List (List ℕ) → List ℕ
concat [] = []
concat (c ∷ cs) = c ++ concat cs

pub concat-append : (cs ds : List (List ℕ)) → concat (cs ++ ds) ≡ concat cs ++ concat ds
concat-append [] ds = refl
concat-append (c ∷ cs) ds =
    ap (◌++◌ c) (concat-append cs ds) ∙ sym (append_assoc c (concat cs) (concat ds))

-- On a vector every list of chunks is written, in order.
pub append_all-vec :
    (cs : List (List ℕ)) (v : VecPackTarget)
    → append_all cs v ≡ ok (record { bytes = v.bytes ++ concat cs })
unfolding append_all append vec_append
append_all-vec [] v = ap (λ b. ok (record { bytes = b })) (sym (append-nil v.bytes))
append_all-vec (c ∷ cs) v =
    append_all-vec cs (record { bytes = v.bytes ++ c })
    ∙ ap (λ b. ok (record { bytes = b })) (append_assoc v.bytes c (concat cs))

-- On a slice the same bytes are written, if they fit together, and an error is returned if not.
pub append_all-slice :
    (cs : List (List ℕ)) (s : SlicePackTarget)
    → s.offset ≤ length s.target
    → ((s.offset + length (concat cs) ≤ length s.target)
        × (s' : SlicePackTarget) × (append_all cs s ≡ ok s')
        × Appended s (concat cs) s')
      ⊎ ((length s.target < s.offset + length (concat cs))
          × (append_all cs s ≡ err (target_error not_enough_space)))
unfolding append_all append
append_all-slice [] s h = inl (
  omega arith,
  s,
  refl,
  record {
    moved = omega arith;
    written = sym (append-nil (take s.offset s.target));
    untouched = refl;
    same_length = refl;
  },
)
append_all-slice (c ∷ cs) s h = elim (slice_append_lem s c) [
  | inl (room, u, e, a) ↦ elim (append_all-slice cs u (omega arith)) [
    | inl (room', s', e', a') ↦ inl (
      omega (arith, length-append c (concat cs)),
      s',
      rw e e',
      record {
        moved = omega (arith, length-append c (concat cs));
        written = a'.written ∙ rw a.written (append_assoc (take s.offset s.target) c (concat cs));
        untouched =
            a'.untouched
            ∙ drop-drop u.offset s'.offset (length (concat cs)) u.target a'.moved
            ∙ ap (drop (length (concat cs))) a.untouched
            ∙ sym (drop-drop u.offset s'.offset (length (concat cs)) s.target a'.moved);
        same_length = omega arith;
      },
    )
    | inr (over, e') ↦ inr (omega (arith, length-append c (concat cs)), rw e e')
  ]
  | inr (over, e) ↦ inr (omega (arith, length-append c (concat cs)), rw e)
]
