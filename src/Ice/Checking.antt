-- ===== src/Ice/Checking.antt =====
-- The connectivity checks of a session, src/ice.cc: IceNextCheck, IceProcessResponse and IceCheckFailed
-- in any order.
use hyper_derp.Prelude.{
  ℕ, zero, suc, ◌+◌, ◌≤◌, ◌<◌, ◌≡◌, ◌≢◌, refl, ap, sym, subst, ◌∙◌, inl, inr, Bool, true, Option,
  none, some, List, [], ◌∷◌, All, All-set, All-get, take, set, get_elem?, get_elem?-lt,
  get_elem?-set_self, get_elem?-set_ne, arith, ℕ_discrete, Bool-cases, to_nat, Option-cases,
}
use hyper_derp.Prelude.Int.{pos}
use hyper_derp.Prelude.Slots.{find_slot, find?, find_slot-cases, count, count-set}
use hyper_derp.Ice.{
  IceCandidatePair, IceSession, connected, is_pending, is_negative, is_unsettled, next_check,
  respond_at, process_response, fail_at, settle, check_failed, awaits,
}
use hyper_derp.Ice.Pairing.{Descending, in_use, is_new}

pub take-set {ℓ} :
    {A : Type ℓ} (n : ℕ) (xs : List A) (i : ℕ) (v : A) → take n (set xs i v) ≡ set (take n xs) i v
take-set zero xs i v = refl
take-set (suc n) [] i v = refl
take-set (suc n) (x ∷ xs) zero v = refl
take-set (suc n) (x ∷ xs) (suc i) v = ap (◌∷◌ x) (take-set n xs i v)

pub get_elem?-take {ℓ} :
    {A : Type ℓ} (n : ℕ) (xs : List A) (i : ℕ) (x : A)
    → get_elem? (take n xs) i ≡ some x
    → (get_elem? xs i ≡ some x) × (i < n)
get_elem?-take zero xs i x h = cc
get_elem?-take (suc n) [] i x h = cc
get_elem?-take (suc n) (y ∷ xs) zero x h = (h, omega arith)
get_elem?-take (suc n) (y ∷ xs) (suc i) x h =
    let (at, lt) = get_elem?-take n xs i x h in (at, omega arith)

-- A pair written over one with the same priority.
All-priority :
    (bound : ℕ) (ps : List IceCandidatePair) (i : ℕ) (p q : IceCandidatePair)
    → All (λ r. r.priority ≤ bound) ps
    → get_elem? ps i ≡ some p
    → q.priority ≡ p.priority
    → All (λ r. r.priority ≤ bound) (set ps i q)
All-priority bound ps i p q all at same =
    All-set (λ r. r.priority ≤ bound) ps i q all
      (omega (arith, same, All-get (λ r. r.priority ≤ bound) ps i p all at))

Descending-set :
    (ps : List IceCandidatePair) (i : ℕ) (p q : IceCandidatePair)
    → Descending ps
    → get_elem? ps i ≡ some p
    → q.priority ≡ p.priority
    → Descending (set ps i q)
Descending-set [] i p q d at same = cc
Descending-set (r ∷ ps) zero p q d at same =
    let e : q.priority ≡ r.priority = ground arith in
    (subst (λ (b : ℕ). All (λ x. x.priority ≤ b) ps) (sym e) d.0, d.1)
Descending-set (r ∷ ps) (suc i) p q d at same =
    (All-priority r.priority ps i p q d.0 at same, Descending-set ps i p q d.1 at same)

-- The first match in that order has the highest priority of all matches.
pub first-highest :
    (test : IceCandidatePair → Bool) (ps : List IceCandidatePair) (i : ℕ) (p : IceCandidatePair)
    → Descending ps
    → find_slot test ps ≡ some (i, p)
    → All (λ q. test q ≡ true → q.priority ≤ p.priority) ps
unfolding find_slot
first-highest test [] i p d h = tt
first-highest test (r ∷ ps) i p d h = elim (Bool-cases (test r)) [
  | inl hit ↦
      let same : r ≡ p = ground arith in
      (λ _. ground arith, weaken ps (subst (λ x. All (λ q. q.priority ≤ x.priority) ps) same d.0))
  | inr miss ↦ elim (Option-cases (find_slot test ps)) [
    | inl e ↦ absurd (ground arith)
    | inr ((j, x), e) ↦
        let same : x ≡ p = ground arith in
        (λ t. absurd (ground arith), first-highest test ps j p d.1 (e ∙ ap (λ y. some (j, y)) same))
  ]
]
  where
    weaken :
        (qs : List IceCandidatePair)
        → All (λ q. q.priority ≤ p.priority) qs
        → All (λ q. test q ≡ true → q.priority ≤ p.priority) qs
    weaken [] a = tt
    weaken (q ∷ qs) a = (λ _. a.0, weaken qs a.1)

-- At most one of the flags of a pair's progress is set, and a nominated pair has succeeded.
abbrev pub IsWellFlagged : IceCandidatePair → Type 0
IsWellFlagged p =
    (to_nat p.in_progress + to_nat p.succeeded + to_nat p.failed ≤ 1)
    × (p.nominated ≡ true → p.succeeded ≡ true)

abbrev pub is_nominated : IceCandidatePair → Bool
is_nominated p = p.nominated

pub record IsSession (s : IceSession) : Type 0 where
  pub ordered : Descending (in_use s)
  pub flagged : All IsWellFlagged (in_use s)
  pub unnominated : is_negative s.nominated_pair ≡ true → count is_nominated (in_use s) ≡ 0
  pub single : count is_nominated (in_use s) ≤ 1
  pub nominee :
      (i : ℕ)
      → s.nominated_pair ≡ pos i
      → (s.state ≡ connected)
        × (p : IceCandidatePair) × (get_elem? (in_use s) i ≡ some p)
        × (p.nominated ≡ true)
        × (p.succeeded ≡ true)

none_of : (ps : List IceCandidatePair) → All (λ p. is_new p ≡ true) ps → count is_nominated ps ≡ 0
unfolding count
none_of [] a = refl
none_of (p ∷ ps) a = ground (arith, none_of ps a.1)

-- A session after IceFormPairs, before any check.
pub new-IsSession :
    (s : IceSession)
    → Descending (in_use s)
    → All (λ p. is_new p ≡ true) (in_use s)
    → is_negative s.nominated_pair ≡ true
    → IsSession s
new-IsSession s ordered new none_yet =
    let zero_nominated = none_of (in_use s) new in
    record {
      ordered = ordered;
      flagged = all_flagged (in_use s) new;
      unnominated = λ _. zero_nominated;
      single = omega (arith, zero_nominated);
      nominee = λ i e. absurd (ground arith);
    }
  where
    all_flagged :
        (ps : List IceCandidatePair) → All (λ p. is_new p ≡ true) ps → All IsWellFlagged ps
    all_flagged [] a = tt
    all_flagged (p ∷ ps) a = (ground arith, all_flagged ps a.1)

abbrev HasNominee : IceSession → ℕ → Type 0
HasNominee t j =
    (t.state ≡ connected)
    × (r : IceCandidatePair) × (get_elem? (in_use t) j ≡ some r)
    × (r.nominated ≡ true)
    × (r.succeeded ≡ true)

module _ (s : IceSession) (ok : IsSession s) (i : ℕ) (p q : IceCandidatePair)
    (at : get_elem? (in_use s) i ≡ some p) (same : q.priority ≡ p.priority)
    (flags : IsWellFlagged q) where
  moved : in_use (record s { pairs = set s.pairs i q }) ≡ set (in_use s) i q
  moved = take-set s.pair_count s.pairs i q

  now_ordered : Descending (in_use (record s { pairs = set s.pairs i q }))
  now_ordered = subst Descending (sym moved) (Descending-set (in_use s) i p q ok.ordered at same)

  now_flagged : All IsWellFlagged (in_use (record s { pairs = set s.pairs i q }))
  now_flagged =
      subst (All IsWellFlagged) (sym moved) (All-set IsWellFlagged (in_use s) i q ok.flagged flags)

  nominations :
      count is_nominated (in_use (record s { pairs = set s.pairs i q })) + to_nat p.nominated
      ≡ count is_nominated (in_use s) + to_nat q.nominated
  nominations =
      ap (λ ps. count is_nominated ps + to_nat p.nominated) moved
      ∙ count-set is_nominated (in_use s) i p q at

  still_there :
      (j : ℕ) (r : IceCandidatePair)
      → get_elem? (in_use s) j ≡ some r
      → i ≢ j
      → get_elem? (in_use (record s { pairs = set s.pairs i q })) j ≡ some r
  still_there j r there ne =
      ap (λ ps. get_elem? ps j) moved ∙ get_elem?-set_ne (in_use s) i j q ne ∙ there

  written : get_elem? (in_use (record s { pairs = set s.pairs i q })) i ≡ some q
  written =
      ap (λ ps. get_elem? ps i) moved
      ∙ get_elem?-set_self (in_use s) i q (get_elem?-lt (in_use s) i p at)

  still_nominated :
      (j : ℕ)
      → q.nominated ≡ p.nominated
      → (p.succeeded ≡ true → q.succeeded ≡ true)
      → HasNominee s j
      → HasNominee (record s { pairs = set s.pairs i q }) j
  still_nominated j as_before succeeds (state, r, there, nom, succ) = elim (ℕ_discrete i j) [
    | no ne ↦ (state, r, still_there j r there ne, nom, succ)
    | yes here ↦
        let same_pair : r ≡ p = ground arith in
        (
          state,
          q,
          subst (λ k. get_elem? (in_use (record s { pairs = set s.pairs i q })) k ≡ some q) here
              written,
          as_before ∙ ap (λ x. x.nominated) (sym same_pair) ∙ nom,
          succeeds (ap (λ x. x.succeeded) (sym same_pair) ∙ succ),
        )
  ]

  -- A write that nominates nobody.
  overwritten :
      q.nominated ≡ p.nominated
      → (p.succeeded ≡ true → q.succeeded ≡ true)
      → IsSession (record s { pairs = set s.pairs i q })
  overwritten as_before succeeds = record {
    ordered = now_ordered;
    flagged = now_flagged;
    unnominated = λ e. ground (arith, nominations, ok.unnominated e);
    single = ground (arith, nominations, ok.single);
    nominee = λ j e. still_nominated j as_before succeeds (ok.nominee j e);
  }

  -- The write that nominates the first pair.
  nominating :
      q.nominated ≡ true
      → q.succeeded ≡ true
      → is_negative s.nominated_pair ≡ true
      → IsSession (record s { pairs = set s.pairs i q; nominated_pair = pos i; state = connected })
  nominating nominated succeeded first = record {
    ordered = now_ordered;
    flagged = now_flagged;
    unnominated = λ e. absurd (ground arith);
    single = ground (arith, nominations, ok.unnominated first);
    nominee = λ j e.
        let here : i ≡ j = ground arith in
        (
          refl,
          q,
          subst (λ k. get_elem? (in_use (record s { pairs = set s.pairs i q })) k ≡ some q) here
              written,
          nominated,
          succeeded,
        );
  }

next_check-IsSession :
    (s : IceSession) (random : List ℕ) → IsSession s → IsSession (next_check s random).1
unfolding next_check
next_check-IsSession s random ok = elim (find_slot-cases is_pending (in_use s)) [
  | inl (e, _, _) ↦ rw e ok
  | inr (i, p, e, at, hit, _) ↦
      let flags = All-get IsWellFlagged (in_use s) i p ok.flagged at in
      rw e (overwritten s ok i p _ at refl (ground arith) refl (λ h. h))
]

respond-IsSession :
    (s : IceSession) (i : ℕ) (p : IceCandidatePair)
    → IsSession s
    → get_elem? (in_use s) i ≡ some p
    → p.in_progress ≡ true
    → IsSession (respond_at s (some (i, p))).1
unfolding respond_at
respond-IsSession s i p ok at asked =
    let flags = All-get IsWellFlagged (in_use s) i p ok.flagged at in
    elim (Bool-cases (is_negative s.nominated_pair)) [
      | inl first ↦ rw first (nominating s ok i p _ at refl (ground arith) refl refl first)
      | inr later ↦ rw later (overwritten s ok i p _ at refl (ground arith) refl (λ h. refl))
    ]

fail-IsSession :
    (s : IceSession) (i : ℕ) (p : IceCandidatePair)
    → IsSession s
    → get_elem? (in_use s) i ≡ some p
    → p.in_progress ≡ true
    → IsSession (fail_at s (some (i, p)))
unfolding fail_at
fail-IsSession s i p ok at asked =
    let flags = All-get IsWellFlagged (in_use s) i p ok.flagged at in
    overwritten s ok i p _ at refl (ground arith) refl (λ h. h)

settle-IsSession :
    (s : IceSession) (o : Option IceCandidatePair) → IsSession s → IsSession (settle s o)
unfolding settle
settle-IsSession s (some p) ok = ok
settle-IsSession s none ok = elim (Bool-cases (is_negative s.nominated_pair)) [
  | inr later ↦ rw later ok
  | inl first ↦ rw first (record {
    ordered = ok.ordered;
    flagged = ok.flagged;
    unnominated = ok.unnominated;
    single = ok.single;
    nominee = λ i e. absurd (ground arith);
  })
]

module _ (same : List ℕ → List ℕ → Bool) where
  process_response-IsSession :
      (s : IceSession) (id : List ℕ) (ip port : ℕ)
      → IsSession s
      → IsSession (process_response same s id ip port).1
  unfolding process_response
  process_response-IsSession s id ip port ok = elim (find_slot-cases (awaits same id) (in_use s)) [
    | inl (e, _, _) ↦ rw e ok
    | inr (i, p, e, at, hit, _) ↦ rw e (respond-IsSession s i p ok at (ground arith))
  ]

  check_failed-IsSession :
      (s : IceSession) (id : List ℕ) → IsSession s → IsSession (check_failed same s id)
  unfolding check_failed
  check_failed-IsSession s id ok = elim (find_slot-cases (awaits same id) (in_use s)) [
    | inl (e, _, _) ↦ rw e (settle-IsSession s (find? is_unsettled (in_use s)) ok)
    | inr (i, p, e, at, hit, _) ↦
        rw e
          (settle-IsSession (fail_at s (some (i, p))) _ (fail-IsSession s i p ok at (ground arith)))
  ]

  -- A run of the checks, in which `n` requests go out: any order of checks, answers and failures.
  pub data Run : ℕ → IceSession → IceSession → Type 0 where
    done : {s : IceSession} → Run 0 s s
    asks :
        {n : ℕ} {s t : IceSession} (i : ℕ) (random : List ℕ)
        → (next_check s random).0 ≡ some i
        → Run n (next_check s random).1 t
        → Run (suc n) s t
    answers :
        {n : ℕ} {s t : IceSession} (id : List ℕ) (ip port : ℕ)
        → Run n (process_response same s id ip port).1 t
        → Run n s t
    fails : {n : ℕ} {s t : IceSession} (id : List ℕ) → Run n (check_failed same s id) t → Run n s t

  -- Any order of IceNextCheck, IceProcessResponse and IceCheckFailed keeps a session well formed:
  -- pairs by falling priority, at most one of in_progress, succeeded and failed set in a pair, at
  -- most one pair nominated and none before nominated_pair is set, which then names a nominated
  -- pair that succeeded, in a connected session.
  pub Run-IsSession : {n : ℕ} {s t : IceSession} → Run n s t → IsSession s → IsSession t
  Run-IsSession done ok = ok
  Run-IsSession {s = s} (asks i random e r) ok = Run-IsSession r (next_check-IsSession s random ok)
  Run-IsSession {s = s} (answers id ip port r) ok =
      Run-IsSession r (process_response-IsSession s id ip port ok)
  Run-IsSession {s = s} (fails id r) ok = Run-IsSession r (check_failed-IsSession s id ok)
