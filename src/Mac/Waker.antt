-- ===== src/Mac/Waker.antt =====
-- src/waker_store.rs. A task's waker is a number; `woken` lists the wakers that were woken, the last
-- one first, and is the effect of `Waker::wake`, not a field of the source's struct.
use zigbee_rust_playground.Common.{
  refl, ◌⊎◌, inl, inr, ℕ, Option, none, some, List, ◌∷◌, ◌≡◌, [], arith,
}

pub record WakerStore : Type 0 where
  pub storage : Option ℕ
  pub woken : List ℕ

unfoldable pub new : WakerStore
new = record { storage = none; woken = [] }

unfoldable pub register : WakerStore → ℕ → WakerStore
register s waker = record s { storage = some waker }

-- `wake` takes the stored waker and wakes it.
unfoldable pub wake : WakerStore → WakerStore
wake s = elim s.storage [
  | none ↦ s
  | some waker ↦ record { storage = none; woken = waker ∷ s.woken }
]

-- `pend` registers the context's waker; its caller returns `Poll::Pending`.
unfoldable pub pend : WakerStore → ℕ → WakerStore
unfolding register
pend s cx = register s cx

-- The standard library's `Poll`.
pub data Poll {ℓ} (A : Type ℓ) : Type ℓ where
  ready : A → Poll A
  pending : Poll A

pub storage-wake : (s : WakerStore) → (wake s).storage ≡ none
unfolding wake
storage-wake s = ground arith

pub Poll-cases {ℓ} : {A : Type ℓ} (p : Poll A) → (p ≡ pending) ⊎ ((a : A) × (p ≡ ready a))
Poll-cases pending = inl refl
Poll-cases (ready a) = inr (a, refl)
