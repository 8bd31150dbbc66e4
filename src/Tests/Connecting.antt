-- ===== src/Tests/Connecting.antt =====
-- A concrete ICE session for src/ice.cc.
use hyper_derp.Prelude.{
  ℕ, suc, ◌+◌, ◌*◌, ◌-◌, ◌≤◌, ◌<◌, ◌^◌, ◌≡◌, refl, ap, ◌∙◌, min, max, inl, inr, Bool, true,
  if◌then◌else◌, leb, ltb, to_nat, Bool-cases, some, List, [], ◌∷◌, ◌++◌, map, length, take,
  replicate, arith, All, ◌%◌, ◌/◌,
}
use hyper_derp.Prelude.Bytes.{same_bytes}
use hyper_derp.Prelude.Slots.{count, find_slot}
use hyper_derp.Ice.{
  IceCandidatePair, IceSession, checking, empty_pair, fresh_session, candidate, calc_pair_priority,
  form_pairs, next_check, process_response, get_nominated, HostLayout, serialize_candidates,
  parse_candidates,
}
use hyper_derp.Ice.Priority.{calc_pair_priority-sum}
use hyper_derp.Ice.Pairing.{Descending, Sorts, in_use, formed, form_pairs-in_use}
use hyper_derp.Ice.Checking.{IsSession, new-IsSession, Run, done, asks, answers, Run-IsSession}
use hyper_derp.Ice.Progress.{IsChosen, Run-get_nominated}
use hyper_derp.Ice.Exchange.{received, parse-serialize_candidates}

calc_pair_priority-sum_example :
    (calc_pair_priority 2130706431 1694498815
      ≡ 2 ^ 32 * min 2130706431 1694498815
        + 2 * max 2130706431 1694498815
        + (if ltb 1694498815 2130706431 then 1 else 0))
    × (calc_pair_priority 2130706431 1694498815 < 2 ^ 64)
calc_pair_priority-sum_example =
    calc_pair_priority-sum 2130706431 1694498815 (omega arith) (omega arith)

-- An insertion sort in the place of std::sort.
insert : IceCandidatePair → List IceCandidatePair → List IceCandidatePair
insert p [] = p ∷ []
insert p (q ∷ qs) =
    let rest = insert p qs in if leb q.priority p.priority then p ∷ q ∷ qs else q ∷ rest

sort : List IceCandidatePair → List IceCandidatePair
sort [] = []
sort (p ∷ ps) = insert p (sort ps)

count-insert :
    (t : IceCandidatePair → Bool) (p : IceCandidatePair) (ps : List IceCandidatePair)
    → count t (insert p ps) ≡ to_nat (t p) + count t ps
unfolding insert count
count-insert t p [] = refl
count-insert t p (q ∷ qs) = ground (arith, count-insert t p qs)

length-insert :
    (p : IceCandidatePair) (ps : List IceCandidatePair) → length (insert p ps) ≡ suc (length ps)
unfolding insert
length-insert p [] = refl
length-insert p (q ∷ qs) = ground (arith, length-insert p qs)

All-insert :
    (bound : ℕ) (p : IceCandidatePair) (ps : List IceCandidatePair)
    → p.priority ≤ bound
    → All (λ q. q.priority ≤ bound) ps
    → All (λ q. q.priority ≤ bound) (insert p ps)
unfolding insert
All-insert bound p [] h a = (h, tt)
All-insert bound p (q ∷ qs) h a = elim (Bool-cases (leb q.priority p.priority)) [
  | inl first ↦ rw first (h, (a.0, a.1))
  | inr later ↦ rw later (a.0, All-insert bound p qs h a.1)
]

All-le :
    (b c : ℕ) (ps : List IceCandidatePair)
    → b ≤ c
    → All (λ q. q.priority ≤ b) ps
    → All (λ q. q.priority ≤ c) ps
All-le b c [] h a = tt
All-le b c (p ∷ ps) h a = (omega arith, All-le b c ps h a.1)

Descending-insert :
    (p : IceCandidatePair) (ps : List IceCandidatePair) → Descending ps → Descending (insert p ps)
unfolding insert
Descending-insert p [] d = (tt, tt)
Descending-insert p (q ∷ qs) d = elim (Bool-cases (leb q.priority p.priority)) [
  | inl first ↦
      let le : q.priority ≤ p.priority = ground arith in
      rw first ((le, All-le q.priority p.priority qs le d.0), (d.0, d.1))
  | inr later ↦ rw later (All-insert q.priority p qs (ground arith) d.0, Descending-insert p qs d.1)
]

count-sort :
    (t : IceCandidatePair → Bool) (ps : List IceCandidatePair) → count t (sort ps) ≡ count t ps
unfolding sort count
count-sort t [] = refl
count-sort t (p ∷ ps) = omega (arith, count-insert t p (sort ps), count-sort t ps)

length-sort : (ps : List IceCandidatePair) → length (sort ps) ≡ length ps
unfolding sort
length-sort [] = refl
length-sort (p ∷ ps) = length-insert p (sort ps) ∙ ap suc (length-sort ps)

Descending-sort : (ps : List IceCandidatePair) → Descending (sort ps)
unfolding sort
Descending-sort [] = tt
Descending-sort (p ∷ ps) = Descending-insert p (sort ps) (Descending-sort ps)

sort-Sorts : Sorts sort
sort-Sorts = record { keeps = count-sort; size = length-sort; ordered = Descending-sort }

-- A session with two local candidates and one remote one.
abbrev gathered : IceSession
gathered = record (fresh_session (replicate 32 5)) {
  local_candidates = candidate 1 9 90 ∷ candidate 0 7 70 ∷ [];
  remote_candidates = candidate 0 8 80 ∷ [];
}

form_pairs-in_use_example :
    (in_use (form_pairs sort gathered) ≡ sort (formed sort sort-Sorts gathered))
    × ((form_pairs sort gathered).pair_count ≡ min 64 (2 * 1))
    × ((form_pairs sort gathered).state ≡ checking)
    × Descending (in_use (form_pairs sort gathered))
form_pairs-in_use_example = form_pairs-in_use sort sort-Sorts gathered

-- A session with two pairs to check.
abbrev session : IceSession
session = record (fresh_session (replicate 32 5)) {
  state = checking;
  pairs =
      record empty_pair { priority = 9 }
      ∷ record empty_pair { priority = 4 }
      ∷ replicate 62 empty_pair;
  pair_count = 2;
}

session-IsSession : IsSession session
session-IsSession = new-IsSession session ((omega arith, tt), (tt, tt)) (refl, (refl, tt)) refl

abbrev first_id : List ℕ
first_id = 1 ∷ 2 ∷ 3 ∷ 4 ∷ 5 ∷ 6 ∷ 7 ∷ 8 ∷ 9 ∷ 10 ∷ 11 ∷ 12 ∷ []

abbrev answered : IceSession
answered = (process_response same_bytes (next_check session first_id).1 first_id 7 70).1

-- The first pair is asked and answers.
one_answer : Run same_bytes 1 session answered
unfolding next_check find_slot
one_answer = asks 0 first_id refl (answers first_id 7 70 done)

Run-IsSession_example : IsSession answered
Run-IsSession_example = Run-IsSession same_bytes one_answer session-IsSession

abbrev winner : IceCandidatePair
winner = record empty_pair {
  priority = 9;
  nominated = true;
  succeeded = true;
  transaction_id = first_id;
}

Run-get_nominated_example : IsChosen answered winner
unfolding process_response next_check find_slot same_bytes get_nominated
Run-get_nominated_example = Run-get_nominated same_bytes winner one_answer session-IsSession refl

-- A host that stores the high byte of a word first.
abbrev layout : HostLayout
layout = record {
  bytes32 = λ v. (v / 16777216) ∷ (v / 65536 % 256) ∷ (v / 256 % 256) ∷ (v % 256) ∷ [];
  word32 = word32;
  bytes16 = λ v. (v / 256) ∷ (v % 256) ∷ [];
  word16 = word16;
  size32 = λ v. refl;
  size16 = λ v. refl;
  back32 = λ v h. omega arith;
  back16 = λ v h. omega arith;
}
  where
    word32 : List ℕ → ℕ
    word32 (a ∷ b ∷ c ∷ d ∷ r) = a * 16777216 + b * 65536 + c * 256 + d
    word32 r = 0

    word16 : List ℕ → ℕ
    word16 (a ∷ b ∷ r) = a * 256 + b
    word16 r = 0

abbrev payload : List ℕ
payload = 2 ∷ 1 ∷ 0 ∷ 0 ∷ 0 ∷ 9 ∷ 0 ∷ 90 ∷ 0 ∷ 0 ∷ 0 ∷ 0 ∷ 7 ∷ 0 ∷ 70 ∷ []

parse-serialize_candidates_example :
    let all = gathered.remote_candidates ++ map received gathered.local_candidates in
    let r = parse_candidates layout gathered (payload ++ []) in
    (length payload ≡ 1 + 7 * length gathered.local_candidates)
    × (length payload ≤ 64)
    × (r.1 ≡ record gathered { remote_candidates = take 16 all })
    × (r.0 ≡ some (length (take 16 all) - length gathered.remote_candidates))
unfolding serialize_candidates candidate
parse-serialize_candidates_example =
    parse-serialize_candidates layout gathered gathered 64 payload [] (omega arith) (omega arith)
      (omega arith) refl
