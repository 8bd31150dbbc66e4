-- ===== src/Ice/Progress.antt =====
-- How far the checks of a session can go, src/ice.cc.
use hyper_derp.Prelude.{
  ℕ, zero, suc, ◌≤◌, ◌<◌, ◌≡◌, refl, ap, sym, subst, ◌∙◌, inl, inr, Bool, true, false, some, List,
  [], ◌∷◌, All, All-get, get_or, get_elem?, arith,
}
use hyper_derp.Prelude.Int.{ℤ, pos, negsuc}
use hyper_derp.Prelude.Slots.{find_slot-cases, count}
use hyper_derp.Ice.{
  IceCandidatePair, IceSession, connected, is_pending, next_check, get_nominated, empty_pair,
}
use hyper_derp.Ice.Pairing.{in_use}
use hyper_derp.Ice.Checking.{
  IsSession, Run, Run-IsSession, get_elem?-take, first-highest, is_nominated, IsWellFlagged,
}

-- IceNextCheck of a well-formed session takes a pair that was not checked yet, and no other such
-- pair has a higher priority.
pub next_check-highest :
    (s : IceSession) (random : List ℕ) (i : ℕ)
    → IsSession s
    → (next_check s random).0 ≡ some i
    → (p : IceCandidatePair) × (get_elem? (in_use s) i ≡ some p)
      × (is_pending p ≡ true)
      × All (λ q. is_pending q ≡ true → q.priority ≤ p.priority) (in_use s)
unfolding next_check
next_check-highest s random i ok h = elim (find_slot-cases is_pending (in_use s)) [
  | inl (e, _, _) ↦ absurd (ground arith)
  | inr (j, p, e, at, hit, _) ↦
      let here : j ≡ i = ground arith in
      (
        p,
        subst (λ k. get_elem? (in_use s) k ≡ some p) here at,
        hit,
        first-highest is_pending (in_use s) j p ok.ordered e,
      )
]

pending : IceSession → ℕ
pending s = count is_pending (in_use s)

count-at {ℓ} :
    {A : Type ℓ} (p : A → Bool) (xs : List A) (i : ℕ) (x : A)
    → get_elem? xs i ≡ some x
    → p x ≡ true
    → 0 < count p xs
unfolding count
count-at p [] i x h t = cc
count-at p (y ∷ xs) zero x h t = ground arith
count-at p (y ∷ xs) (suc i) x h t = ground (arith, count-at p xs i x h t)

get_or-get {ℓ} :
    {A : Type ℓ} (xs : List A) (i : ℕ) (x d : A) → get_elem? xs i ≡ some x → get_or xs i d ≡ x
get_or-get [] i x d h = cc
get_or-get (y ∷ xs) zero x d h = ground arith
get_or-get (y ∷ xs) (suc i) x d h = get_or-get xs i x d h

-- The pair that is nominated, if there is one.
abbrev pub IsChosen : IceSession → IceCandidatePair → Type 0
IsChosen t p =
    (t.state ≡ connected)
    × (p.nominated ≡ true)
    × (p.succeeded ≡ true)
    × (p.failed ≡ false)
    × (count is_nominated (in_use t) ≡ 1)

chosen :
    (t : IceSession) (p : IceCandidatePair) → IsSession t → get_nominated t ≡ some p → IsChosen t p
unfolding get_nominated
chosen t p ok h = from t.nominated_pair refl
  where
    from : (z : ℤ) → t.nominated_pair ≡ z → IsChosen t p
    from (negsuc n) e = absurd (ground arith)
    from (pos i) e =
        let (state, r, there, nom, succ) = ok.nominee i e in
        let read =
          get_or-get t.pairs i r empty_pair (get_elem?-take t.pair_count t.pairs i r there).0 in
        let same_pair : r ≡ p = ground (arith, read) in
        let flags = All-get IsWellFlagged (in_use t) i r ok.flagged there in
        (
          state,
          ap (λ x. x.nominated) (sym same_pair) ∙ nom,
          ap (λ x. x.succeeded) (sym same_pair) ∙ succ,
          ground arith,
          omega (arith, ok.single, count-at is_nominated (in_use t) i r there nom),
        )

module _ (same : List ℕ → List ℕ → Bool) where
  -- What IceGetNominated returns after any order of checks, answers and failures on a well-formed
  -- session is the only nominated pair, which succeeded and did not fail, in a connected session.
  pub Run-get_nominated :
      {n : ℕ} {s t : IceSession} (p : IceCandidatePair)
      → Run same n s t
      → IsSession s
      → get_nominated t ≡ some p
      → IsChosen t p
  Run-get_nominated {t = t} p r start h = chosen t p (Run-IsSession same r start) h
