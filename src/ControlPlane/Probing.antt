-- ===== src/ControlPlane/Probing.antt =====
-- The probing of the peer registry, src/control_plane.cc: what CpRegistryLookup finds.
use hyper_derp.Prelude.{
  ℕ, zero, suc, ◌<◌, ◌≡◌, refl, ap, sym, subst, ◌∙◌, inl, inr, true, false, ◌==◌, some, List,
  length, set, get_or, arith, Bool-cases, ℕ_discrete,
}
use hyper_derp.Prelude.Bytes.{same_bytes_refl}
use hyper_derp.Prelude.Int.{ℤ}
use hyper_derp.Prelude.Slots.{get_or-set_self, get_or-set_ne}
use hyper_derp.ControlPlane.{
  CpPeer, ControlPlane, Place, known, vacant, full, empty_peer, is_live, has_key, slot_at, home,
  probe, place, insert_at, registry_lookup, registry_insert,
}

pub probe-live :
    (peers : List CpPeer) (key : List ℕ) (idx i n s : ℕ)
    → probe peers key idx i n ≡ some s
    → (has_key key (get_or peers s empty_peer) ≡ true) × (s < 4096)
unfolding probe
probe-live peers key idx i zero s h = cc
probe-live peers key idx i (suc n) s h =
    elim (Bool-cases (has_key key (get_or peers (slot_at idx i) empty_peer))) [
      | inl hit ↦
          let here : slot_at idx i ≡ s = ground arith in
          (subst (λ j. has_key key (get_or peers j empty_peer) ≡ true) here hit, omega arith)
      | inr miss ↦ elim (Bool-cases ((get_or peers (slot_at idx i) empty_peer).occupied == 0)) [
        | inl t ↦ absurd (ground arith)
        | inr f ↦ probe-live peers key idx (suc i) n s (ground arith)
      ]
    ]

-- CpRegistryLookup returns only a slot whose peer is live and has the key.
pub registry_lookup-live :
    (cp : ControlPlane) (key : List ℕ) (s : ℕ)
    → registry_lookup cp key ≡ some s
    → (has_key key (get_or cp.peers s empty_peer) ≡ true) × (s < 4096)
unfolding registry_lookup
registry_lookup-live cp key s h = probe-live cp.peers key (home key) 0 4096 s h

-- The slot that the insertion picks.
abbrev Picks : Place → ℕ → Type 0
Picks (known s) t = s ≡ t
Picks (vacant s) t = s ≡ t
Picks full t = ⊥

probe-place :
    (peers : List CpPeer) (key : List ℕ) (idx i n s : ℕ) (v : CpPeer)
    → length peers ≡ 4096
    → has_key key v ≡ true
    → Picks (place peers key idx i n) s
    → probe (set peers s v) key idx i n ≡ some s
unfolding probe place
probe-place peers key idx i zero s v size hit h = absurd h
probe-place peers key idx i (suc n) s v size hit h =
    elim (Bool-cases (has_key key (get_or peers (slot_at idx i) empty_peer))) [
      | inl t ↦ stops (moved (known (slot_at idx i)) (rw t refl) h)
      | inr miss ↦ elim (Bool-cases (is_live (get_or peers (slot_at idx i) empty_peer))) [
        | inr dead ↦ stops (moved (vacant (slot_at idx i)) (rw (miss, dead) refl) h)
        | inl live ↦ elim (ℕ_discrete (slot_at idx i) s) [
          | yes e ↦ stops e
          | no ne ↦
              let used : ((get_or peers (slot_at idx i) empty_peer).occupied == 0) ≡ false =
                ground arith in
              let rest =
                probe-place peers key idx (suc i) n s v size hit
                  (moved (place peers key idx (suc i) n) (rw (miss, live) refl) h) in
              rw (get_or-set_ne peers s (slot_at idx i) v empty_peer (λ e. ne (sym e)), miss, used)
                rest
        ]
      ]
    ]
  where
    moved :
        (w : Place)
        → place peers key idx i (suc n) ≡ w
        → Picks (place peers key idx i (suc n)) s
        → Picks w s
    moved w e k = subst (λ x. Picks x s) e k

    stops : slot_at idx i ≡ s → probe (set peers s v) key idx i (suc n) ≡ some s
    stops e =
        let there : get_or (set peers s v) (slot_at idx i) empty_peer ≡ v =
          rw (sym e) (get_or-set_self peers (slot_at idx i) v empty_peer (omega (arith, size))) in
        rw (there, hit) (ap some e)

pub place-known :
    (peers : List CpPeer) (key : List ℕ) (idx i n s : ℕ)
    → place peers key idx i n ≡ known s
    → has_key key (get_or peers s empty_peer) ≡ true
unfolding place
place-known peers key idx i zero s h = absurd (ground arith)
place-known peers key idx i (suc n) s h =
    elim (Bool-cases (has_key key (get_or peers (slot_at idx i) empty_peer))) [
      | inl hit ↦
          let here : slot_at idx i ≡ s = ground arith in
          subst (λ j. has_key key (get_or peers j empty_peer) ≡ true) here hit
      | inr miss ↦ elim (Bool-cases (is_live (get_or peers (slot_at idx i) empty_peer))) [
        | inl live ↦ place-known peers key idx (suc i) n s (ground arith)
        | inr dead ↦ absurd (ground arith)
      ]
    ]

insert_at-probe :
    (cp : ControlPlane) (key : List ℕ) (fd : ℤ) (idx i n s : ℕ) (w : Place)
    → length cp.peers ≡ 4096
    → place cp.peers key idx i n ≡ w
    → (insert_at cp key fd w).0 ≡ some s
    → probe (insert_at cp key fd w).1.peers key idx i n ≡ some s
unfolding insert_at
insert_at-probe cp key fd idx i n s full size e h = absurd (ground arith)
insert_at-probe cp key fd idx i n s (known t) size e h =
    let v : CpPeer = record (get_or cp.peers t empty_peer) { fd = fd } in
    let eq : t ≡ s = ground arith in
    probe-place cp.peers key idx i n t v size (place-known cp.peers key idx i n t e) (rw e refl)
    ∙ ap some eq
insert_at-probe cp key fd idx i n s (vacant t) size e h =
    let v : CpPeer = record { key = key; fd = fd; occupied = 1; preferred = 0 } in
    let eq : t ≡ s = ground arith in
    probe-place cp.peers key idx i n t v size (same_bytes_refl key) (rw e refl) ∙ ap some eq

-- In a registry of 4096 slots, after CpRegistryInsert has returned a slot, CpRegistryLookup of the
-- same key returns that slot.
pub registry_insert-lookup :
    (cp : ControlPlane) (key : List ℕ) (fd : ℤ) (s : ℕ)
    → length cp.peers ≡ 4096
    → (registry_insert cp key fd).0 ≡ some s
    → registry_lookup (registry_insert cp key fd).1 key ≡ some s
unfolding registry_lookup registry_insert
registry_insert-lookup cp key fd s size h =
    insert_at-probe cp key fd (home key) 0 4096 s (place cp.peers key (home key) 0 4096) size refl h
