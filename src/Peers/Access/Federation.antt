-- ===== src/Peers/Access/Federation.antt =====
-- HdFederationAllows of src/hd_peers.cc against the rules read as patterns.
use hyper_derp.Prelude.{
  ℕ, ◌≡◌, refl, sym, ◌⊎◌, ◌↔◌, inl, inr, true, false, List, [], ◌∷◌, All, drop, arith, Bool-cases,
  subst,
}
use hyper_derp.Peers.Access.{
  glob_match, allows, HdFederationAccept, HdFederationPolicy, any_match, rejects, destination,
  accepts, accept_from_any, federation_allows,
}
use hyper_derp.Peers.Access.Glob.{Matches, glob_match-Matches}

-- One of the patterns matches one of the two forms of a key.
abbrev pub SomeMatch : List (List ℕ) → List ℕ → List ℕ → Type 0
SomeMatch [] key hex = ⊥
SomeMatch (p ∷ ps) key hex = (Matches p key ⊎ Matches p hex) ⊎ SomeMatch ps key hex

-- The first rule whose fleet_id matches the origin.
abbrev pub FirstFor : List ℕ → List HdFederationAccept → HdFederationAccept → Type 0
FirstFor origin [] rule = ⊥
FirstFor origin (r ∷ rs) rule =
    (Matches r.fleet_id origin × (r ≡ rule))
    ⊎ (¬ Matches r.fleet_id origin × FirstFor origin rs rule)

-- No reject pattern matches the origin, and the first accept rule for it lists no destinations or
-- one that matches the key, with its prefix or without.
abbrev pub IsAccepted : HdFederationPolicy → List ℕ → List ℕ → Type 0
IsAccepted policy origin key =
    All (λ p. ¬ Matches p origin) policy.reject_from
    × ((rule : HdFederationAccept) × FirstFor origin policy.accept_from rule
        × ((rule.allowed_destinations ≡ []) ⊎ SomeMatch rule.allowed_destinations key (drop 3 key)))

unmatched : (p t : List ℕ) → glob_match p t ≡ false → ¬ Matches p t
unmatched p t h m = let hit : glob_match p t ≡ true = (glob_match-Matches p t).1 m in cc

unmatching : (p t : List ℕ) → ¬ Matches p t → glob_match p t ≡ false
unmatching p t differ = elim (Bool-cases (glob_match p t)) [
  | inl hit ↦ absurd (differ ((glob_match-Matches p t).0 hit))
  | inr miss ↦ miss
]

module _ (key hex : List ℕ) where
  pub any_matched : (ps : List (List ℕ)) → any_match ps key hex ≡ true → SomeMatch ps key hex
  unfolding any_match
  any_matched [] h = absurd (ground arith)
  any_matched (p ∷ ps) h = elim (Bool-cases (glob_match p key)) [
    | inl hit ↦ inl (inl ((glob_match-Matches p key).0 hit))
    | inr miss ↦ elim (Bool-cases (glob_match p hex)) [
      | inl hit ↦ inl (inr ((glob_match-Matches p hex).0 hit))
      | inr miss' ↦ inr (any_matched ps (ground arith))
    ]
  ]

  pub any_matching : (ps : List (List ℕ)) → SomeMatch ps key hex → any_match ps key hex ≡ true
  unfolding any_match
  any_matching [] m = absurd m
  any_matching (p ∷ ps) (inl (inl m)) =
      let hit : glob_match p key ≡ true = (glob_match-Matches p key).1 m in ground arith
  any_matching (p ∷ ps) (inl (inr m)) =
      let hit : glob_match p hex ≡ true = (glob_match-Matches p hex).1 m in ground arith
  any_matching (p ∷ ps) (inr m) = ground (arith, any_matching ps m)

  -- The destinations of a rule.
  destined :
      (ds : List (List ℕ)) → (destination ds key hex ≡ allows) ↔ ((ds ≡ []) ⊎ SomeMatch ds key hex)
  unfolding destination
  destined [] = ((λ h. inl refl), λ m. refl)
  destined (d ∷ ds) = (λ h. inr (any_matched (d ∷ ds) (ground arith)), λ m. listed m)
    where
      listed : ((d ∷ ds ≡ []) ⊎ SomeMatch (d ∷ ds) key hex) → destination (d ∷ ds) key hex ≡ allows
      listed (inl e) = absurd (ground arith)
      listed (inr m) = let hit = any_matching (d ∷ ds) m in rw hit refl

  -- The loop over the accept rules.
  accepted :
      (rules : List HdFederationAccept) (origin : List ℕ)
      → accepts rules origin key hex ≡ allows
      → (rule : HdFederationAccept) × FirstFor origin rules rule
        × ((rule.allowed_destinations ≡ []) ⊎ SomeMatch rule.allowed_destinations key hex)
  unfolding accepts
  accepted [] origin h = absurd (ground arith)
  accepted (r ∷ rs) origin h = elim (Bool-cases (glob_match r.fleet_id origin)) [
    | inl hit ↦ (
      r,
      inl ((glob_match-Matches r.fleet_id origin).0 hit, refl),
      (destined r.allowed_destinations).0 (ground arith),
    )
    | inr miss ↦
        let (rule, first, ok) = accepted rs origin (ground arith) in
        (rule, inr (unmatched r.fleet_id origin miss, first), ok)
  ]

  accepting :
      (rules : List HdFederationAccept) (origin : List ℕ) (rule : HdFederationAccept)
      → FirstFor origin rules rule
      → ((rule.allowed_destinations ≡ []) ⊎ SomeMatch rule.allowed_destinations key hex)
      → accepts rules origin key hex ≡ allows
  unfolding accepts
  accepting [] origin rule first ok = absurd first
  accepting (r ∷ rs) origin rule (inl (m, e)) ok =
      let hit = (glob_match-Matches r.fleet_id origin).1 m in
      let same : destination r.allowed_destinations key hex ≡ allows =
        subst (λ (x : HdFederationAccept). destination x.allowed_destinations key hex ≡ allows)
          (sym e) ((destined rule.allowed_destinations).1 ok) in
      rw hit same
  accepting (r ∷ rs) origin rule (inr (differ, first)) ok =
      rw (unmatching r.fleet_id origin differ) (accepting rs origin rule first ok)

-- The loop over the reject patterns.
unrejected :
    (ps : List (List ℕ)) (origin : List ℕ)
    → rejects ps origin ≡ false
    → All (λ p. ¬ Matches p origin) ps
unfolding rejects
unrejected [] origin h = tt
unrejected (p ∷ ps) origin h =
    (unmatched p origin (ground arith), unrejected ps origin (ground arith))

unrejecting :
    (ps : List (List ℕ)) (origin : List ℕ)
    → All (λ p. ¬ Matches p origin) ps
    → rejects ps origin ≡ false
unfolding rejects
unrejecting [] origin a = refl
unrejecting (p ∷ ps) origin a = rw (unmatching p origin a.0) (unrejecting ps origin a.1)

-- An empty list of accept rules refuses with its own reason.
from_any :
    (rules : List HdFederationAccept) (origin key hex : List ℕ)
    → (accept_from_any rules origin key hex ≡ allows) ↔ (accepts rules origin key hex ≡ allows)
unfolding accept_from_any accepts
from_any [] origin key hex = ((λ h. absurd (ground arith)), λ h. absurd (ground arith))
from_any (r ∷ rs) origin key hex = ((λ h. h), λ h. h)

-- HdFederationAllows lets a request in exactly when no reject pattern matches the origin and the
-- first accept rule whose fleet_id matches it lists no destinations or one that matches the key's
-- string, with its prefix or without; the empty pattern matches every text, one without a star
-- itself, and any other every text that begins with what stands before its first star, also where
-- it is a fleet_id.
pub federation_allows-IsAccepted :
    (policy : HdFederationPolicy) (origin key : List ℕ)
    → (federation_allows policy origin key ≡ allows) ↔ IsAccepted policy origin key
unfolding federation_allows
federation_allows-IsAccepted policy origin key = (
  λ h. elim (Bool-cases (rejects policy.reject_from origin)) [
    | inl t ↦ absurd (ground arith)
    | inr f ↦ (
      unrejected policy.reject_from origin f,
      accepted key (drop 3 key) policy.accept_from origin
          ((from_any policy.accept_from origin key (drop 3 key)).0 (ground arith)),
    )
  ],
  λ w.
      let (rule, first, ok) = w.1 in
      rw (unrejecting policy.reject_from origin w.0) (
        (from_any policy.accept_from origin key (drop 3 key)).1
          (accepting key (drop 3 key) policy.accept_from origin rule first ok)),
)
