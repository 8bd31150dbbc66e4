-- ===== src/ControlPlane/Counting.antt =====
-- The peer count of the registry, src/control_plane.cc.
use hyper_derp.Prelude.{
  ℕ, zero, suc, ◌<◌, ◌≡◌, refl, ap, sym, subst, ◌∙◌, inl, inr, false, Option, none, some, List,
  length, set, get_or, arith, Bool-cases, length-set,
}
use hyper_derp.Prelude.Int.{ℤ, pos, negsuc}
use hyper_derp.Prelude.Slots.{count, count-set, get_or-get_elem?}
use hyper_derp.ControlPlane.{
  CpPeer, ControlPlane, Place, known, vacant, full, empty_peer, is_live, has_key, slot_at, home,
  probe, place, insert_at, remove_at, registry_insert, registry_remove,
}
use hyper_derp.ControlPlane.Probing.{probe-live}

pub record IsCounted (cp : ControlPlane) : Type 0 where
  pub slots : length cp.peers ≡ 4096
  pub counted : cp.peer_count ≡ pos (count is_live cp.peers)

place-vacant :
    (peers : List CpPeer) (key : List ℕ) (idx i n s : ℕ)
    → place peers key idx i n ≡ vacant s
    → (is_live (get_or peers s empty_peer) ≡ false) × (s < 4096)
unfolding place
place-vacant peers key idx i zero s h = absurd (ground arith)
place-vacant peers key idx i (suc n) s h =
    elim (Bool-cases (has_key key (get_or peers (slot_at idx i) empty_peer))) [
      | inl hit ↦ absurd (ground arith)
      | inr miss ↦ elim (Bool-cases (is_live (get_or peers (slot_at idx i) empty_peer))) [
        | inl live ↦ place-vacant peers key idx (suc i) n s (ground arith)
        | inr dead ↦
            let here : slot_at idx i ≡ s = ground arith in
            (subst (λ j. is_live (get_or peers j empty_peer) ≡ false) here dead, omega arith)
      ]
    ]

place-known_bound :
    (peers : List CpPeer) (key : List ℕ) (idx i n s : ℕ)
    → place peers key idx i n ≡ known s
    → s < 4096
unfolding place
place-known_bound peers key idx i zero s h = absurd (ground arith)
place-known_bound peers key idx i (suc n) s h =
    elim (Bool-cases (has_key key (get_or peers (slot_at idx i) empty_peer))) [
      | inl hit ↦ let here : slot_at idx i ≡ s = ground arith in omega arith
      | inr miss ↦ elim (Bool-cases (is_live (get_or peers (slot_at idx i) empty_peer))) [
        | inl live ↦ place-known_bound peers key idx (suc i) n s (ground arith)
        | inr dead ↦ absurd (ground arith)
      ]
    ]

insert_at-IsCounted :
    (cp : ControlPlane) (key : List ℕ) (fd : ℤ) (idx i n : ℕ) (w : Place)
    → IsCounted cp
    → place cp.peers key idx i n ≡ w
    → IsCounted (insert_at cp key fd w).1
unfolding insert_at
insert_at-IsCounted cp key fd idx i n full ok e = ok
insert_at-IsCounted cp key fd idx i n (known s) ok e =
    let p = get_or cp.peers s empty_peer in
    let v : CpPeer = record p { fd = fd } in
    let at =
      get_or-get_elem? cp.peers s empty_peer
        (omega (arith, ok.slots, place-known_bound cp.peers key idx i n s e)) in
    record {
      slots = length-set cp.peers s v ∙ ok.slots;
      counted = rw ok.counted (ap pos (ground (arith, count-set is_live cp.peers s p v at)));
    }
insert_at-IsCounted cp key fd idx i n (vacant s) ok e =
    let p = get_or cp.peers s empty_peer in
    let v : CpPeer = record { key = key; fd = fd; occupied = 1; preferred = 0 } in
    let there = place-vacant cp.peers key idx i n s e in
    let at = get_or-get_elem? cp.peers s empty_peer (omega (arith, ok.slots, there.1)) in
    record {
      slots = length-set cp.peers s v ∙ ok.slots;
      counted =
          rw ok.counted (ap pos (ground (arith, count-set is_live cp.peers s p v at, there.0)));
    }

remove_at-IsCounted :
    (cp : ControlPlane) (key : List ℕ) (idx i n : ℕ) (o : Option ℕ)
    → IsCounted cp
    → probe cp.peers key idx i n ≡ o
    → IsCounted (remove_at cp o)
unfolding remove_at
remove_at-IsCounted cp key idx i n none ok e = ok
remove_at-IsCounted cp key idx i n (some s) ok e =
    let p = get_or cp.peers s empty_peer in
    let v : CpPeer = record p { occupied = 2; fd = negsuc 0 } in
    let there = probe-live cp.peers key idx i n s e in
    let at = get_or-get_elem? cp.peers s empty_peer (omega (arith, ok.slots, there.1)) in
    let moved : suc (count is_live (set cp.peers s v)) ≡ count is_live cp.peers =
      ground (arith, count-set is_live cp.peers s p v at, there.0) in
    record { slots = length-set cp.peers s v ∙ ok.slots; counted = rw (ok.counted, sym moved) refl }

-- CpRegistryInsert and CpRegistryRemove keep peer_count at the number of live slots.
pub registry-IsCounted :
    (cp : ControlPlane) (key : List ℕ) (fd : ℤ)
    → IsCounted cp
    → IsCounted (registry_insert cp key fd).1 × IsCounted (registry_remove cp key)
unfolding registry_insert registry_remove
registry-IsCounted cp key fd ok = (
  insert_at-IsCounted cp key fd (home key) 0 4096 (place cp.peers key (home key) 0 4096) ok refl,
  remove_at-IsCounted cp key (home key) 0 4096 (probe cp.peers key (home key) 0 4096) ok refl,
)
