-- ===== src/Prelude/FirstMatch.antt =====
-- Searches of a slot array after a write to the slot at which an earlier search stopped.
use Prim.Native.Nat.{ℕ, suc}
use mathlib.Core.Path.{◌≡◌, refl}
use mathlib.Core.Logic.{inl, inr}
use mathlib.Core.Bool.{Bool, true}
use mathlib.Core.List.{List, [], ◌∷◌}
use mathlib.Core.Option.{none, some}
use native.Mathlib.Omega.{arith}
use hyper_derp.Prelude.Tests.{Bool-cases, Option-cases}
use hyper_derp.Prelude.Lists.{set}
use hyper_derp.Prelude.Slots.{find_slot, find?}

module _ {ℓ} {A : Type ℓ} (p q : A → Bool) where
  -- A search for less than `p` stops at what was written over the first match of `p`.
  pub find?-set_first :
      (xs : List A) (i : ℕ) (x v : A)
      → find_slot p xs ≡ some (i, x)
      → ((y : A) → q y ≡ true → p y ≡ true)
      → q v ≡ true
      → find? q (set xs i v) ≡ some v
  unfolding find_slot find?
  find?-set_first [] i x v h less hit = cc
  find?-set_first (y ∷ xs) i x v h less hit = elim (Bool-cases (p y)) [
    | inl t ↦ ground arith
    | inr f ↦ elim (Option-cases (find_slot p xs)) [
      | inl e ↦ absurd (ground arith)
      | inr ((j, z), e) ↦
          let there : i ≡ suc j = ground arith in
          let same : z ≡ x = ground arith in
          ground (arith, less y, find?-set_first xs j z v e less hit)
    ]
  ]

  -- Where nothing passes `p`, nothing passes less.
  pub find?-less :
      (xs : List A) → find? p xs ≡ none → ((y : A) → q y ≡ true → p y ≡ true) → find? q xs ≡ none
  unfolding find?
  find?-less [] h less = refl
  find?-less (y ∷ xs) h less = ground (arith, less y, find?-less xs (ground arith) less)
