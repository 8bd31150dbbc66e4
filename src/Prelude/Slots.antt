-- ===== src/Prelude/Slots.antt =====
-- Fixed-size arrays of slots, which the tables of the program scan from index 0, with the laws of
-- a write to one slot. A table's `for` loop that stops at a slot is `find_index`; the slot that it
-- returns a pointer to is that index.
use Prim.Native.Nat.{ℕ, zero, suc, ◌+◌, ◌≤◌, ◌<◌}
use mathlib.Core.Path.{◌≡◌, refl, ap}
use mathlib.Core.Logic.{◌≢◌, ◌⊎◌, inl, inr}
use mathlib.Core.Bool.{Bool, true, false}
use mathlib.Core.List.{List, [], ◌∷◌, ◌++◌}
use mathlib.Core.Option
use mathlib.Core.Option.{Option, none, some}
use native.Mathlib.Omega.{arith}
use hyper_derp.Prelude.Tests.{if◌then◌else◌, to_nat, Bool-cases, Option-cases}
use hyper_derp.Prelude.Lists.{get_elem?, get_or, set, take, replicate, length}

module _ {ℓ} {A : Type ℓ} (p : A → Bool) where
  -- The index at which `for (i = 0; i < n; i++) if (p(a[i])) ...` stops.
  unfoldable pub find_index : List A → Option ℕ
  find_index [] = none
  find_index (x ∷ xs) = if p x then some 0 else Option.map suc (find_index xs)

  -- The same with the slot that the loop stops at.
  unfoldable pub find_slot : List A → Option (ℕ × A)
  find_slot [] = none
  find_slot (x ∷ xs) = if p x then some (0, x) else Option.map (λ h. (suc h.0, h.1)) (find_slot xs)

  -- The slot alone.
  unfoldable pub find? : List A → Option A
  find? [] = none
  find? (x ∷ xs) = if p x then some x else find? xs

  unfoldable pub count : List A → ℕ
  count [] = 0
  count (x ∷ xs) = to_nat (p x) + count xs

  -- The loop stops at a slot that passes the test, and that is the slot `find?` gives.
  pub find_index-found :
      (xs : List A) (i : ℕ)
      → find_index xs ≡ some i
      → (x : A) × (get_elem? xs i ≡ some x) × (p x ≡ true) × (find? xs ≡ some x)
  unfolding find_index find?
  find_index-found [] i h = cc
  find_index-found (x ∷ xs) i h = elim (Bool-cases (p x)) [
    | inl hit ↦ (x, ground arith, hit, ground arith)
    | inr miss ↦ elim (Option-cases (find_index xs)) [
      | inl e ↦ absurd (ground arith)
      | inr (j, e) ↦
          let (y, at, ok, found) = find_index-found xs j e in
          let here : i ≡ suc j = ground arith in (y, ground arith, ok, ground arith)
    ]
  ]

  -- The first element that passes, behind some that do not.
  pub find_index-append :
      (pre : List A) (x : A) (post : List A)
      → find_index pre ≡ none
      → p x ≡ true
      → find_index (pre ++ (x ∷ post)) ≡ some (length pre)
  unfolding find_index
  find_index-append [] x post h hit = rw hit refl
  find_index-append (y ∷ pre) x post h hit = elim (Bool-cases (p y)) [
    | inl t ↦ absurd (ground arith)
    | inr f ↦ elim (Option-cases (find_index pre)) [
      | inl e ↦ rw (f, find_index-append pre x post e hit) refl
      | inr (j, e) ↦ absurd (ground arith)
    ]
  ]

  pub find_index-none : (xs : List A) → find_index xs ≡ none → find? xs ≡ none
  unfolding find_index find?
  find_index-none [] h = refl
  find_index-none (x ∷ xs) h = ground (arith, find_index-none xs)

  pub find_slot-found :
      (xs : List A) (i : ℕ) (x : A)
      → find_slot xs ≡ some (i, x)
      → (get_elem? xs i ≡ some x) × (p x ≡ true) × (find? xs ≡ some x)
  unfolding find_slot find?
  find_slot-found [] i x h = cc
  find_slot-found (y ∷ ys) i x h = elim (Bool-cases (p y)) [
    | inl hit ↦ ground arith
    | inr miss ↦ elim (Option-cases (find_slot ys)) [
      | inl e ↦ absurd (ground arith)
      | inr ((j, z), e) ↦
          let (at, ok, found) = find_slot-found ys j z e in
          (ground arith, ground arith, ground arith)
    ]
  ]

  pub find_slot-none : (xs : List A) → find_slot xs ≡ none → find? xs ≡ none
  unfolding find_slot find?
  find_slot-none [] h = refl
  find_slot-none (x ∷ xs) h = ground (arith, find_slot-none xs)

  pub count-eq-zero : (xs : List A) → find? xs ≡ none → count xs ≡ 0
  unfolding find? count
  count-eq-zero [] h = refl
  count-eq-zero (x ∷ xs) h = ground (arith, count-eq-zero xs)

  -- A loop over the slots either runs to the end, and no slot passes, or stops at the first.
  pub find_slot-cases :
      (xs : List A)
      → ((find_slot xs ≡ none) × (find? xs ≡ none) × (count xs ≡ 0))
        ⊎ ((i : ℕ) × (x : A) × (find_slot xs ≡ some (i, x))
            × (get_elem? xs i ≡ some x)
            × (p x ≡ true)
            × (find? xs ≡ some x))
  find_slot-cases xs = elim (Option-cases (find_slot xs)) [
    | inl e ↦ inl (e, find_slot-none xs e, count-eq-zero xs (find_slot-none xs e))
    | inr ((i, x), e) ↦
        let (at, ok, found) = find_slot-found xs i x e in inr (i, x, e, at, ok, found)
  ]

  pub find_slot-find? : (xs : List A) → Option.map (λ h. h.1) (find_slot xs) ≡ find? xs
  find_slot-find? xs = elim (find_slot-cases xs) [
    | inl (e, f, _) ↦ rw (e, f) refl
    | inr (i, x, e, _, _, f) ↦ rw (e, f) refl
  ]

  pub find?-passes : (xs : List A) (x : A) → find? xs ≡ some x → p x ≡ true
  unfolding find?
  find?-passes [] x h = cc
  find?-passes (y ∷ xs) x h = ground (arith, find?-passes xs x)

  pub find?-eq-none : (xs : List A) → count xs ≡ 0 → find? xs ≡ none
  unfolding find? count
  find?-eq-none [] h = refl
  find?-eq-none (x ∷ xs) h = ground (arith, find?-eq-none xs)

  pub count-pos : (xs : List A) (x : A) → find? xs ≡ some x → 0 < count xs
  unfolding find? count
  count-pos [] x h = cc
  count-pos (y ∷ xs) x h = ground (arith, count-pos xs x)

  pub count-le-length : (xs : List A) → count xs ≤ length xs
  unfolding count
  count-le-length [] = omega arith
  count-le-length (x ∷ xs) = ground (arith, count-le-length xs)

  pub count-replicate : (n : ℕ) (x : A) → p x ≡ false → count (replicate n x) ≡ 0
  unfolding count
  count-replicate zero x h = refl
  count-replicate (suc n) x h = ground (arith, count-replicate n x h)

  pub find_slot-replicate : (n : ℕ) (x : A) → p x ≡ false → find_slot (replicate n x) ≡ none
  unfolding find_slot
  find_slot-replicate zero x h = refl
  find_slot-replicate (suc n) x h = ground (arith, find_slot-replicate n x h)

  pub count-append : (xs ys : List A) → count (xs ++ ys) ≡ count xs + count ys
  unfolding count
  count-append [] ys = omega arith
  count-append (x ∷ xs) ys = omega (arith, count-append xs ys)

  -- The last element counted apart.
  pub count-take_last :
      (xs : List A) (m : ℕ) (z : A)
      → length xs ≡ suc m
      → get_elem? xs m ≡ some z
      → count (take m xs) + to_nat (p z) ≡ count xs
  unfolding count
  count-take_last [] m z h a = cc
  count-take_last (x ∷ []) zero z h a = ground arith
  count-take_last (x ∷ []) (suc m) z h a = absurd (omega arith)
  count-take_last (x ∷ y ∷ xs) zero z h a = absurd (omega arith)
  count-take_last (x ∷ y ∷ xs) (suc m) z h a =
      omega (arith, count-take_last (y ∷ xs) m z (omega arith) a)

  -- A write to the slot that held `x` moves the count by the two tests.
  pub count-set :
      (xs : List A) (i : ℕ) (x v : A)
      → get_elem? xs i ≡ some x
      → count (set xs i v) + to_nat (p x) ≡ count xs + to_nat (p v)
  unfolding count
  count-set [] i x v h = cc
  count-set (y ∷ xs) zero x v h = ground arith
  count-set (y ∷ xs) (suc i) x v h = ground (arith, count-set xs i x v h)

  -- A write of a match over a match, or where there is none, leaves at most one.
  pub count-set_le :
      (xs : List A) (i : ℕ) (x v : A)
      → get_elem? xs i ≡ some x
      → count xs ≤ 1
      → (p v ≡ true → (p x ≡ true) ⊎ (count xs ≡ 0))
      → count (set xs i v) ≤ 1
  count-set_le xs i x v h one fits = ground (arith, count-set xs i x v h)

  -- A write that moves no match in or out leaves the search alone.
  pub find?-set_other :
      (xs : List A) (i : ℕ) (x v : A)
      → get_elem? xs i ≡ some x
      → p x ≡ false
      → p v ≡ false
      → find? (set xs i v) ≡ find? xs
  unfolding find?
  find?-set_other [] i x v h a b = refl
  find?-set_other (y ∷ xs) zero x v h a b = ground arith
  find?-set_other (y ∷ xs) (suc i) x v h a b = ground (arith, find?-set_other xs i x v h a b)

  -- The search finds a match written where there was none.
  pub find?-set_new :
      (xs : List A) (i : ℕ) (x v : A)
      → get_elem? xs i ≡ some x
      → find? xs ≡ none
      → p v ≡ true
      → find? (set xs i v) ≡ some v
  unfolding find?
  find?-set_new [] i x v h a b = cc
  find?-set_new (y ∷ xs) zero x v h a b = ground arith
  find?-set_new (y ∷ xs) (suc i) x v h a b = ground (arith, find?-set_new xs i x v h)

  pub find_slot-set_new :
      (xs : List A) (i : ℕ) (x v : A)
      → get_elem? xs i ≡ some x
      → find_slot xs ≡ none
      → p v ≡ true
      → find_slot (set xs i v) ≡ some (i, v)
  unfolding find_slot
  find_slot-set_new [] i x v h a b = cc
  find_slot-set_new (y ∷ xs) zero x v h a b = rw b refl
  find_slot-set_new (y ∷ xs) (suc i) x v h a b = elim (Bool-cases (p y)) [
    | inl t ↦ absurd (ground arith)
    | inr f ↦ elim (Option-cases (find_slot xs)) [
      | inl e ↦ rw (f, find_slot-set_new xs i x v h e b) refl
      | inr (z, e) ↦ absurd (ground arith)
    ]
  ]

  -- The search finds a match that replaces the only match.
  pub find?-set_only :
      (xs : List A) (i : ℕ) (x v : A)
      → get_elem? xs i ≡ some x
      → count xs ≤ 1
      → p x ≡ true
      → p v ≡ true
      → find? (set xs i v) ≡ some v
  unfolding find? count
  find?-set_only [] i x v h one a b = cc
  find?-set_only (y ∷ xs) zero x v h one a b = ground arith
  find?-set_only (y ∷ xs) (suc i) x v h one a b = elim (Option-cases (find? xs)) [
    | inl e ↦ absurd (ground (arith, count-eq-zero xs e, count-get xs i x h a))
    | inr (z, e) ↦ ground (arith, count-pos xs z e, find?-set_only xs i x v h)
  ]
    where
      count-get :
          (ys : List A) (j : ℕ) (z : A) → get_elem? ys j ≡ some z → p z ≡ true → 0 < count ys
      count-get [] j z e t = cc
      count-get (w ∷ ys) zero z e t = ground arith
      count-get (w ∷ ys) (suc j) z e t = ground (arith, count-get ys j z e t)

  -- The search is empty once the only match is written over.
  pub find?-set_gone :
      (xs : List A) (i : ℕ) (x v : A)
      → get_elem? xs i ≡ some x
      → count xs ≤ 1
      → p x ≡ true
      → p v ≡ false
      → find? (set xs i v) ≡ none
  find?-set_gone xs i x v h one a b =
      find?-eq-none (set xs i v) (ground (arith, count-set xs i x v h))

module _ {ℓ} {A : Type ℓ} where
  -- Two tests that agree give the same search and count.
  pub count_congr : (p q : A → Bool) (xs : List A) → ((x : A) → p x ≡ q x) → count p xs ≡ count q xs
  unfolding count
  count_congr p q [] h = refl
  count_congr p q (x ∷ xs) h = ground (arith, h x, count_congr p q xs h)

module _ {ℓ} {A : Type ℓ} where
  pub get_or-set_self :
      (xs : List A) (i : ℕ) (v d : A) → i < length xs → get_or (set xs i v) i d ≡ v
  get_or-set_self [] i v d h = absurd (omega arith)
  get_or-set_self (x ∷ xs) zero v d h = refl
  get_or-set_self (x ∷ xs) (suc i) v d h = get_or-set_self xs i v d (omega arith)

  pub get_or-set_ne :
      (xs : List A) (i j : ℕ) (v d : A) → i ≢ j → get_or (set xs i v) j d ≡ get_or xs j d
  get_or-set_ne [] i j v d h = refl
  get_or-set_ne (x ∷ xs) zero zero v d h = absurd (h refl)
  get_or-set_ne (x ∷ xs) zero (suc j) v d h = refl
  get_or-set_ne (x ∷ xs) (suc i) zero v d h = refl
  get_or-set_ne (x ∷ xs) (suc i) (suc j) v d h = get_or-set_ne xs i j v d (λ e. h (ap suc e))

  -- A slot below the length is what reading it gives.
  pub get_or-get_elem? :
      (xs : List A) (i : ℕ) (d : A) → i < length xs → get_elem? xs i ≡ some (get_or xs i d)
  get_or-get_elem? [] i d h = absurd (omega arith)
  get_or-get_elem? (x ∷ xs) zero d h = refl
  get_or-get_elem? (x ∷ xs) (suc i) d h = get_or-get_elem? xs i d (omega arith)
