-- ===== src/Audit/Snapshot.antt =====
-- HdAuditSnapshot of src/hd_audit.cc against the whole history of appended records.
use hyper_derp.Prelude.{
  ℕ, zero, suc, ◌+◌, ◌-◌, ◌%◌, ◌≤◌, ◌<◌, ◌≡◌, refl, ap, sym, ◌∙◌, ◌⊎◌, inl, inr, if◌then◌else◌, ltb,
  min, List, [], ◌∷◌, length, set, get_or, take, drop, take_all, map, arith, length-set,
  length-replicate, ℕ_discrete,
}
use hyper_derp.Prelude.Slots.{get_or-set_self, get_or-set_ne}
use hyper_derp.Audit.{
  HdAuditRecord, HdAuditRing, ring_size, empty_record, init, decision_record, record_decision,
  newest, snapshot,
}
use hyper_derp.Resolver.{HdClientView, HdDecision}

-- The ring after the records of `history`, newest first: each append of record_decision writes
-- slot write_idx % 4096 and moves write_idx.
unfoldable pub appended : HdAuditRing → HdAuditRecord → HdAuditRing
appended ring v = record {
  slots = set ring.slots (ring.write_idx % ring_size) v;
  write_idx = ring.write_idx + 1;
}

unfoldable pub ring_of : List HdAuditRecord → HdAuditRing
unfolding appended
ring_of [] = init
ring_of (v ∷ history) = appended (ring_of history) v

take-drop_cons :
    {A : Type 0}
    → (xs : List A) (m n : ℕ) (d : A) → m < length xs
    → take (suc n) (drop m xs) ≡ get_or xs m d ∷ take n (drop (suc m) xs)
take-drop_cons [] m n d h = absurd (omega arith)
take-drop_cons (x ∷ xs) zero n d h = refl
take-drop_cons (x ∷ xs) (suc m) n d h = take-drop_cons xs m n d (omega arith)

ring_of-sizes :
    (history : List HdAuditRecord)
    → (length (ring_of history).slots ≡ 4096) × ((ring_of history).write_idx ≡ length history)
unfolding ring_of init appended
ring_of-sizes [] = (length-replicate 4096 empty_record, refl)
ring_of-sizes (v ∷ history) =
    let ih = ring_of-sizes history in
    (
      length-set (ring_of history).slots ((ring_of history).write_idx % 4096) v ∙ ih.0,
      omega (arith, ih.1),
    )

-- The slot of sequence number `k` holds that record as long as fewer than 4096 came after it.
slot_of :
    (history : List HdAuditRecord) (k : ℕ)
    → k < length history
    → length history ≤ k + 4096
    → get_or (ring_of history).slots (k % 4096) empty_record
      ≡ get_or history (length history - 1 - k) empty_record
unfolding ring_of appended
slot_of [] k h room = absurd (omega arith)
slot_of (v ∷ history) k h room = elim (ℕ_discrete k (length history)) [
  | yes e ↦
      let sizes = ring_of-sizes history in
      let same : (ring_of history).write_idx % 4096 ≡ k % 4096 =
        ap (λ m. m % 4096) (sizes.1 ∙ sym e) in
      let index : length (v ∷ history) - 1 - k ≡ 0 = omega arith in
      rw (same, index)
        (get_or-set_self (ring_of history).slots (k % 4096) v empty_record (omega (arith, sizes.0)))
  | no ne ↦
      let sizes = ring_of-sizes history in
      let index : length (v ∷ history) - 1 - k ≡ suc (length history - 1 - k) = omega arith in
      rw index (
        get_or-set_ne (ring_of history).slots ((ring_of history).write_idx % 4096) (k % 4096) v
          empty_record (λ e. omega (arith, sizes.1))
        ∙ slot_of history k (omega arith) (omega arith))
]

newest-take :
    (history : List HdAuditRecord) (seq n : ℕ)
    → seq ≤ length history
    → n ≤ seq
    → length history + n ≤ seq + 4096
    → newest (ring_of history) seq n ≡ take n (drop (length history - seq) history)
unfolding newest
newest-take history seq zero a b c = refl
newest-take history seq (suc n) a b c =
    let first = slot_of history (seq - 1) (omega arith) (omega arith) in
    let index : length history - 1 - (seq - 1) ≡ length history - seq = omega arith in
    let next : length history - (seq - 1) ≡ suc (length history - seq) = omega arith in
    let rest = newest-take history (seq - 1) n (omega arith) (omega arith) (omega arith) in
    rw (first, index, rest, next)
      (sym (take-drop_cons history (length history - seq) n empty_record (omega arith)))

take-min : {A : Type 0} → (xs : List A) (m : ℕ) → take (min m (length xs)) xs ≡ take m xs
take-min xs m = elim (leq m (length xs)) [
  | inl h ↦ rw (shorter h) refl
  | inr h ↦
      rw (longer h) (take_all (length xs) xs (omega arith) ∙ sym (take_all m xs (omega arith)))
]
  where
    leq : (a b : ℕ) → (a ≤ b) ⊎ (b < a)
    leq a b = omega arith

    shorter : m ≤ length xs → min m (length xs) ≡ m
    shorter h = omega arith

    longer : length xs < m → min m (length xs) ≡ length xs
    longer h = omega arith

snapshot-records :
    (history : List HdAuditRecord) (max_out : ℕ)
    → snapshot (ring_of history) max_out ≡ take (min max_out 4096) history
unfolding snapshot
snapshot-records history max_out =
    let sizes = ring_of-sizes history in
    rw (sizes.1, asked)
      (newest-take history (length history) (min (min max_out 4096) (length history)) (omega arith)
          (omega arith) (omega arith)
        ∙ rw none_after (take-min history (min max_out 4096)))
  where
    none_after : length history - length history ≡ 0
    none_after = omega arith

    asked :
        (if ltb (if ltb (length history) 4096 then length history else 4096) max_out
          then (if ltb (length history) 4096 then length history else 4096)
          else max_out)
        ≡ min (min max_out 4096) (length history)
    asked = ground arith

-- One call of HdAuditRecordDecision, with the time that its clock read.
pub record Call : Type 0 where
  pub now : ℕ
  pub from_key : List ℕ
  pub to_key : List ℕ
  pub from_client : HdClientView
  pub decided : HdDecision

abbrev pub call_record : Call → HdAuditRecord
call_record c = decision_record c.now c.from_key c.to_key c.from_client c.decided

-- The ring after HdAuditInit and a series of calls, the latest first.
unfoldable pub replay : List Call → HdAuditRing
unfolding record_decision
replay [] = init
replay (c ∷ cs) = record_decision (replay cs) c.now c.from_key c.to_key c.from_client c.decided

replay-ring_of : (calls : List Call) → replay calls ≡ ring_of (map call_record calls)
unfolding replay ring_of appended record_decision
replay-ring_of [] = refl
replay-ring_of (c ∷ cs) = ap (λ r. appended r (call_record c)) (replay-ring_of cs)

-- After HdAuditInit and any series of HdAuditRecordDecision, HdAuditSnapshot gives the records of
-- the latest calls, newest first, as many as are asked for and at most 4096.
pub snapshot-calls :
    (calls : List Call) (max_out : ℕ)
    → snapshot (replay calls) max_out ≡ take (min max_out 4096) (map call_record calls)
snapshot-calls calls max_out =
    ap (λ r. snapshot r max_out) (replay-ring_of calls)
    ∙ snapshot-records (map call_record calls) max_out
