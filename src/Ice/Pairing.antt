-- ===== src/Ice/Pairing.antt =====
-- The pairs that IceFormPairs makes, src/ice.cc, against all pairs of a local and a remote candidate.
use hyper_derp.Prelude.{
  ℕ, zero, suc, ◌*◌, ◌≤◌, ◌≡◌, refl, ap, sym, ◌∙◌, inl, inr, min, Bool, true, not, ◌||◌, leb, subst,
  List, [], ◌∷◌, ◌++◌, All, append_assoc, append-nil, map, length, take, drop, length-append,
  length-take, take-append, take_all, arith, Bool-cases,
}
use hyper_derp.Prelude.Slots.{count, count-le-length}
use hyper_derp.Ice.{
  IceCandidate, IceCandidatePair, IceSession, checking, pair_of, form_row, form_rows, form_pairs,
  max_pairs,
}

-- Every pair of a local and a remote candidate, row by row.
unfoldable pub row : IceCandidate → List IceCandidate → List IceCandidatePair
row l remotes = map (pair_of l) remotes

unfoldable pub all_pairs : List IceCandidate → List IceCandidate → List IceCandidatePair
all_pairs [] remotes = []
all_pairs (l ∷ locals) remotes = row l remotes ++ all_pairs locals remotes

take-append_take {ℓ} :
    {A : Type ℓ} (n : ℕ) (xs ys : List A) → take n (take n xs ++ ys) ≡ take n (xs ++ ys)
take-append_take zero xs ys = refl
take-append_take (suc n) [] ys = refl
take-append_take (suc n) (x ∷ xs) ys = ap (◌∷◌ x) (take-append_take n xs ys)

-- One row, from at most 64 pairs on.
form_row-take :
    (l : IceCandidate) (remotes : List IceCandidate) (acc : List IceCandidatePair)
    → length acc ≤ 64
    → form_row l remotes acc ≡ take 64 (acc ++ row l remotes)
unfolding form_row row
form_row-take l [] acc h = rw append-nil (sym (take_all 64 acc h))
form_row-take l (r ∷ remotes) acc h = elim (Bool-cases (leb max_pairs (length acc))) [
  | inl full ↦ rw full (sym (take-append 64 acc _ (ground arith)))
  | inr room ↦ rw room (
      form_row-take l remotes (acc ++ (pair_of l r ∷ []))
        (ground (arith, length-append acc (pair_of l r ∷ [])))
      ∙ ap (take 64) (append_assoc acc (pair_of l r ∷ []) (row l remotes)))
]

form_rows-take :
    (locals remotes : List IceCandidate) (acc : List IceCandidatePair)
    → length acc ≤ 64
    → form_rows locals remotes acc ≡ take 64 (acc ++ all_pairs locals remotes)
unfolding form_rows all_pairs
form_rows-take [] remotes acc h = rw append-nil (sym (take_all 64 acc h))
form_rows-take (l ∷ locals) remotes acc h =
    let made = form_row-take l remotes acc h in
    let so_far : List IceCandidatePair = form_row l remotes acc in
    let size : length so_far ≤ 64 =
      omega (arith, ap length made, length-take 64 (acc ++ row l remotes)) in
    let joined : take 64 (so_far ++ all_pairs locals remotes)
        ≡ take 64 (acc ++ all_pairs (l ∷ locals) remotes) =
      ap (λ xs. take 64 (xs ++ all_pairs locals remotes)) made
      ∙ take-append_take 64 (acc ++ row l remotes) (all_pairs locals remotes)
      ∙ ap (take 64) (append_assoc acc (row l remotes) (all_pairs locals remotes)) in
    elim (Bool-cases (leb max_pairs (length so_far))) [
      | inl full ↦
          rw full (sym (take-append 64 so_far (all_pairs locals remotes) (ground arith)) ∙ joined)
      | inr room ↦ rw room (form_rows-take locals remotes so_far size ∙ joined)
    ]

length-row :
    (l : IceCandidate) (remotes : List IceCandidate) → length (row l remotes) ≡ length remotes
unfolding row
length-row l [] = refl
length-row l (r ∷ remotes) = ap suc (length-row l remotes)

length-all_pairs :
    (locals remotes : List IceCandidate)
    → length (all_pairs locals remotes) ≡ length locals * length remotes
unfolding all_pairs
length-all_pairs [] remotes = omega arith
length-all_pairs (l ∷ locals) remotes = grind (
  arith,
  length-append (row l remotes) (all_pairs locals remotes),
  length-row l remotes,
  length-all_pairs locals remotes,
)

-- Priorities that do not increase.
abbrev pub Descending : List IceCandidatePair → Type 0
Descending [] = Unit
Descending (p ∷ ps) = All (λ q. q.priority ≤ p.priority) ps × Descending ps

-- What std::sort promises for the comparison of IceFormPairs: the same elements in that order.
pub record Sorts (sort : List IceCandidatePair → List IceCandidatePair) : Type 0 where
  pub keeps :
      (p : IceCandidatePair → Bool) (ps : List IceCandidatePair) → count p (sort ps) ≡ count p ps
  pub size : (ps : List IceCandidatePair) → length (sort ps) ≡ length ps
  pub ordered : (ps : List IceCandidatePair) → Descending (sort ps)

-- The slots of the array that are in use.
abbrev pub in_use : IceSession → List IceCandidatePair
in_use s = take s.pair_count s.pairs

module _ (sort : List IceCandidatePair → List IceCandidatePair) (sorts : Sorts sort)
    (s : IceSession) where
  abbrev pub formed : List IceCandidatePair
  formed = take 64 (all_pairs s.local_candidates s.remote_candidates)

  -- IceFormPairs leaves in use the first 64 of all pairs of a local and a remote candidate, sorted
  -- by falling priority, and the session checking, for a sort that keeps the elements and orders
  -- them as std::sort does.
  pub form_pairs-in_use :
      (in_use (form_pairs sort s) ≡ sort formed)
      × ((form_pairs sort s).pair_count
          ≡ min 64 (length s.local_candidates * length s.remote_candidates))
      × ((form_pairs sort s).state ≡ checking)
      × Descending (in_use (form_pairs sort s))
  unfolding form_pairs
  form_pairs-in_use =
      let w : List IceCandidatePair = form_rows s.local_candidates s.remote_candidates [] in
      let made = form_rows-take s.local_candidates s.remote_candidates [] (omega arith) in
      let used : in_use (form_pairs sort s) ≡ sort formed =
        take-append (length w) (sort w) (drop (length w) s.pairs) (sorts.size w) ∙ ap sort made in
      (
        used,
        omega (
          arith,
          ap length made,
          length-take 64 (all_pairs s.local_candidates s.remote_candidates),
          length-all_pairs s.local_candidates s.remote_candidates,
        ),
        refl,
        subst Descending (sym used) (sorts.ordered formed),
      )

-- A pair that was just made has no flag set.
abbrev pub is_new : IceCandidatePair → Bool
is_new p = not (p.nominated || (p.in_progress || (p.succeeded || p.failed)))

row-new :
    (l : IceCandidate) (remotes : List IceCandidate) → All (λ p. is_new p ≡ true) (row l remotes)
unfolding row pair_of
row-new l [] = tt
row-new l (r ∷ remotes) = (refl, row-new l remotes)

All-append {ℓ κ} :
    {A : Type ℓ} (P : A → Type κ) (xs ys : List A) → All P xs → All P ys → All P (xs ++ ys)
All-append P [] ys a b = b
All-append P (x ∷ xs) ys a b = (a.0, All-append P xs ys a.1 b)

All-take {ℓ κ} : {A : Type ℓ} (P : A → Type κ) (n : ℕ) (xs : List A) → All P xs → All P (take n xs)
All-take P zero xs a = tt
All-take P (suc n) [] a = tt
All-take P (suc n) (x ∷ xs) a = (a.0, All-take P n xs a.1)

all_pairs-new :
    (locals remotes : List IceCandidate) → All (λ p. is_new p ≡ true) (all_pairs locals remotes)
unfolding all_pairs
all_pairs-new [] remotes = tt
all_pairs-new (l ∷ locals) remotes =
    All-append (λ p. is_new p ≡ true) (row l remotes) (all_pairs locals remotes) (row-new l remotes)
      (all_pairs-new locals remotes)

count-all {ℓ} :
    {A : Type ℓ} (p : A → Bool) (xs : List A) → All (λ x. p x ≡ true) xs → count p xs ≡ length xs
unfolding count
count-all p [] a = refl
count-all p (x ∷ xs) a = ground (arith, count-all p xs a.1)

all-count {ℓ} :
    {A : Type ℓ} (p : A → Bool) (xs : List A) → count p xs ≡ length xs → All (λ x. p x ≡ true) xs
unfolding count
all-count p [] h = tt
all-count p (x ∷ xs) h =
    (ground (arith, count-le-length p xs), all-count p xs (ground (arith, count-le-length p xs)))

-- The pairs of IceFormPairs are all new.
pub form_pairs-new :
    (sort : List IceCandidatePair → List IceCandidatePair) (s : IceSession)
    → Sorts sort
    → All (λ p. is_new p ≡ true) (in_use (form_pairs sort s))
form_pairs-new sort s sorts =
    let made = formed sort sorts s in
    let new =
      All-take (λ p. is_new p ≡ true) 64 (all_pairs s.local_candidates s.remote_candidates)
        (all_pairs-new s.local_candidates s.remote_candidates) in
    subst (All (λ p. is_new p ≡ true)) (sym (form_pairs-in_use sort sorts s).0) (
      all-count is_new (sort made)
        (sorts.keeps is_new made ∙ count-all is_new made new ∙ sym (sorts.size made)))
