-- ===== src/WgRelay/Texts.antt =====
-- Searches and erasures on the lists of the roster, src/wg_relay.cc.
use hyper_derp.Prelude.{
  ℕ, ◌≤◌, ◌≡◌, ◌≢◌, refl, inl, inr, Bool, true, false, List, [], ◌∷◌, ◌++◌, All, ltb, arith,
  Bool-cases,
}
use hyper_derp.Prelude.Bytes.{same_bytes, same_bytes_sound}
use hyper_derp.Prelude.Slots.{count}
use hyper_derp.WgRelay.{any, erase_first, erase_all}

-- Texts that differ.
pub same_bytes_ne : (xs ys : List ℕ) → xs ≢ ys → same_bytes xs ys ≡ false
same_bytes_ne xs ys ne = elim (Bool-cases (same_bytes xs ys)) [
  | inl same ↦ absurd (ne (same_bytes_sound xs ys same))
  | inr differ ↦ differ
]

module _ {ℓ} {A : Type ℓ} (p q : A → Bool) where
  pub count-erase_first : (xs : List A) → count q (erase_first p xs) ≤ count q xs
  unfolding erase_first count
  count-erase_first [] = omega arith
  count-erase_first (x ∷ xs) = ground (arith, count-erase_first xs)

  pub count-erase_all : (xs : List A) → count q (erase_all p xs) ≤ count q xs
  unfolding erase_all count
  count-erase_all [] = omega arith
  count-erase_all (x ∷ xs) = ground (arith, count-erase_all xs)

  -- Erasing what passes `p` loses nothing that passes `q` alone.
  pub any-erase_first :
      (xs : List A) → ((x : A) → q x ≡ true → p x ≡ false) → any q (erase_first p xs) ≡ any q xs
  unfolding erase_first any
  any-erase_first [] apart = refl
  any-erase_first (x ∷ xs) apart = ground (arith, apart x, any-erase_first xs apart)

module _ {ℓ κ} {A : Type ℓ} (P : A → Type κ) (p : A → Bool) where
  pub All-erase_all : (xs : List A) → All P xs → All P (erase_all p xs)
  unfolding erase_all
  All-erase_all [] a = tt
  All-erase_all (x ∷ xs) a = elim (Bool-cases (p x)) [
    | inl out ↦ rw out (All-erase_all xs a.1)
    | inr kept ↦ rw kept (a.0, All-erase_all xs a.1)
  ]

  pub All-erase_first : (xs : List A) → All P xs → All P (erase_first p xs)
  unfolding erase_first
  All-erase_first [] a = tt
  All-erase_first (x ∷ xs) a = elim (Bool-cases (p x)) [
    | inl out ↦ rw out a.1
    | inr kept ↦ rw kept (a.0, All-erase_first xs a.1)
  ]

module _ {ℓ κ} {A : Type ℓ} (P : A → Type κ) where
  pub All-append : (xs ys : List A) → All P xs → All P ys → All P (xs ++ ys)
  All-append [] ys a b = b
  All-append (x ∷ xs) ys a b = (a.0, All-append xs ys a.1 b)

module _ {ℓ} {A : Type ℓ} (p : A → Bool) where
  pub any-positive : (xs : List A) → any p xs ≡ false → count p xs ≡ 0
  unfolding any count
  any-positive [] h = refl
  any-positive (x ∷ xs) h = ground (arith, any-positive xs)

  -- What is left passes no more.
  pub count-erase_all_self : (xs : List A) → count p (erase_all p xs) ≡ 0
  unfolding erase_all count
  count-erase_all_self [] = refl
  count-erase_all_self (x ∷ xs) = ground (arith, count-erase_all_self xs)

  pub any-count : (xs : List A) → any p xs ≡ ltb 0 (count p xs)
  unfolding any count
  any-count [] = refl
  any-count (x ∷ xs) = ground (arith, any-count xs)

  pub erase_all-kept : (xs : List A) → All (λ x. p x ≡ false) (erase_all p xs)
  unfolding erase_all
  erase_all-kept [] = tt
  erase_all-kept (x ∷ xs) = elim (Bool-cases (p x)) [
    | inl out ↦ rw out (erase_all-kept xs)
    | inr kept ↦ rw kept (kept, erase_all-kept xs)
  ]

module _ {ℓ κ μ ν} {A : Type ℓ} (P : A → Type κ) (Q : A → Type μ) (R : A → Type ν) where
  pub All-zip : (xs : List A) → ((x : A) → P x → Q x → R x) → All P xs → All Q xs → All R xs
  All-zip [] f a b = tt
  All-zip (x ∷ xs) f a b = (f x a.0 b.0, All-zip xs f a.1 b.1)
