-- ===== src/Turn/Allocating.antt =====
-- The life of an allocation, src/turn.cc: TurnAllocate, TurnRefresh and TurnDeallocate.
use hyper_derp.Prelude.{
  ℕ, zero, suc, ◌+◌, ◌-◌, ◌*◌, ◌^◌, ◌≤◌, ◌<◌, ◌≡◌, refl, ap, inl, inr, Bool, true, false, ◌==◌,
  none, some, List, [], ◌∷◌, get_elem?, get_elem?-set_self, get_elem?-lt, length, set, replicate,
  arith, All, All-get,
}
use hyper_derp.Prelude.Int.{ℤ, pos, negsuc}
use hyper_derp.Prelude.Slots.{find_slot, find?, find_slot-cases, find_slot-set_new, count}
use hyper_derp.Turn.{
  TurnAllocation, TurnManager, empty_permission, empty_channel, max_lifetime, is_live, is_free,
  has_id, has_client, at_limit, deadline, allocate_lifetime, refresh_lifetime, allocate, refresh,
  find_alloc, check_permission, find_channel, permits_at, bound_at, is_some, allocated, first_port,
}
use hyper_derp.Turn.Invariant.{IsSlot, IsManager}

-- Slots none of which is free are all in use.
none_free :
    (xs : List TurnAllocation)
    → All IsSlot xs
    → find? is_free xs ≡ none
    → count is_live xs ≡ length xs
unfolding find? count
none_free [] h e = refl
none_free (a ∷ xs) h e = ground (arith, h.0.flag, none_free xs h.1)

allocate_lifetime_bounds :
    (lifetime : ℤ) → (0 < allocate_lifetime lifetime) × (allocate_lifetime lifetime ≤ max_lifetime)
unfolding allocate_lifetime
allocate_lifetime_bounds (pos n) = ground arith
allocate_lifetime_bounds (negsuc n) = omega arith

find?-replicate {ℓ} :
    {A : Type ℓ} (p : A → Bool) (n : ℕ) (x : A) → p x ≡ false → find? p (replicate n x) ≡ none
unfolding find?
find?-replicate p zero x h = refl
find?-replicate p (suc n) x h = rw h (find?-replicate p n x h)

-- What a client that has just been given the allocation `a` in slot `i` can rely on.
pub record Granted (m m' : TurnManager) (now ip port i : ℕ) (a : TurnAllocation) : Type 0 where
  pub there : get_elem? m'.allocs i ≡ some a
  pub client : (a.client_ip ≡ ip) × (a.client_port ≡ port)
  pub relayed : (a.relay_ip ≡ m.relay_ip) × (a.relay_port ≡ m.next_port)
  pub ephemeral : (first_port ≤ a.relay_port) × (a.relay_port < 65536)
  pub lasts : (now < a.expires_at) × (a.expires_at ≤ now + 3600000000000)
  pub permits_none : (t peer_ip : ℕ) → check_permission a t peer_ip ≡ false
  pub binds_none : (t channel : ℕ) → find_channel a t channel ≡ none
  pub found : find_alloc m ip port ≡ none → find_alloc m' ip port ≡ some (i, a)

module _ (m : TurnManager) (ok : IsManager m) (now ip port : ℕ) (lifetime : ℤ) where
  -- With 10000 live allocations TurnAllocate changes nothing.
  pub allocate-full : count is_live m.allocs ≡ 10000 → allocate m now ip port lifetime ≡ (none, m)
  unfolding allocate
  allocate-full full = ground (arith, ok.counted)

  allocated-Granted :
      (i : ℕ) (a : TurnAllocation) (m' : TurnManager)
      → now + 3600000000000 < 2 ^ 64
      → get_elem? m.allocs i ≡ some a
      → is_free a ≡ true
      → m'.allocs
        ≡ set m.allocs i (allocated m a ip port (deadline now (allocate_lifetime lifetime)))
      → Granted m m' now ip port i
          (allocated m a ip port (deadline now (allocate_lifetime lifetime)))
  unfolding check_permission find_channel find_alloc
  allocated-Granted i a m' fits at free wrote =
      let v : TurnAllocation = allocated m a ip port (deadline now (allocate_lifetime lifetime)) in
      let old = All-get IsSlot m.allocs i a ok.slots at in
      record {
        there = rw wrote (get_elem?-set_self m.allocs i v (get_elem?-lt m.allocs i a at));
        client = (refl, refl);
        relayed = (refl, refl);
        ephemeral = (ok.port_low, ok.port_high);
        lasts = omega (arith, allocate_lifetime_bounds lifetime);
        permits_none = λ t peer_ip.
            rw (old.no_permissions (ground arith))
              (ap is_some (find?-replicate (permits_at t peer_ip) 64 empty_permission refl));
        binds_none = λ t channel.
            rw (old.no_channels (ground arith))
              (find?-replicate (bound_at t channel) 64 empty_channel refl);
        found = λ e.
            rw wrote (find_slot-set_new (has_client ip port) m.allocs i a v at e (ground arith));
      }

  -- While fewer than 10000 allocations are live, TurnAllocate of a well-formed manager gives the
  -- client an allocation on an ephemeral port that lasts at most 3600 seconds from now, permits no
  -- peer, has no channel, and is the one TurnFindAlloc finds when the client had none, for a clock
  -- below 2^64 by as much.
  pub allocate-grants :
      now + 3600000000000 < 2 ^ 64
      → count is_live m.allocs < 10000
      → (i : ℕ) × (a : TurnAllocation) × ((allocate m now ip port lifetime).0 ≡ some i)
        × Granted m (allocate m now ip port lifetime).1 now ip port i a
  unfolding allocate
  allocate-grants fits room = elim (find_slot-cases is_free m.allocs) [
    | inl (e, none_left, _) ↦ absurd (omega (arith, none_free m.allocs ok.slots none_left, ok.size))
    | inr (i, a, e, at, free, _) ↦
        let open_yet : at_limit m.alloc_count ≡ false = rw ok.counted (ground arith) in
        (
          i,
          allocated m a ip port (deadline now (allocate_lifetime lifetime)),
          rw (open_yet, e) refl,
          rw (open_yet, e) (allocated-Granted i a _ fits at free refl),
        )
  ]

-- A refresh with a positive lifetime moves the end of its allocation alone, to at most 3600 seconds from
-- now.
pub refresh-expiry :
    (m : TurnManager) (now alloc_id n : ℕ)
    → 0 < n
    → now + 3600000000000 < 2 ^ 64
    → (refresh m now alloc_id (pos n)).0 ≡ true
    → (i : ℕ) × (a b : TurnAllocation) × (find_slot (has_id alloc_id) m.allocs ≡ some (i, a))
      × (get_elem? (refresh m now alloc_id (pos n)).1.allocs i ≡ some b)
      × (b ≡ record a { expires_at = b.expires_at })
      × (now < b.expires_at)
      × (b.expires_at ≤ now + 3600000000000)
unfolding refresh refresh_lifetime
refresh-expiry m now alloc_id n some_time fits done =
    elim (find_slot-cases (has_id alloc_id) m.allocs) [
      | inl (e, _, _) ↦ absurd (ground arith)
      | inr (i, a, e, at, hit, _) ↦
          let more : (n == 0) ≡ false = ground arith in
          (
            i,
            a,
            record a { expires_at = deadline now (refresh_lifetime (pos n)) },
            e,
            rw (e, more) (get_elem?-set_self m.allocs i _ (get_elem?-lt m.allocs i a at)),
            refl,
            ground arith,
            ground arith,
          )
    ]

-- A refresh with a negative lifetime succeeds and sets an end in the past, when the clock is not lower than
-- the amount.
pub refresh-negative :
    (m : TurnManager) (now alloc_id n i : ℕ) (a : TurnAllocation)
    → find_slot (has_id alloc_id) m.allocs ≡ some (i, a)
    → now < 2 ^ 64
    → suc n * 1000000000 ≤ now
    → refresh m now alloc_id (negsuc n) ≡ (
      true,
      record m { allocs = set m.allocs i (record a { expires_at = now - suc n * 1000000000 }) },
    )
unfolding refresh refresh_lifetime
refresh-negative m now alloc_id n i a found clock past =
    let until : deadline now (2 ^ 64 - suc n) ≡ now - suc n * 1000000000 = omega arith in
    rw found (
      ap (λ (t : ℕ). (true, record m { allocs = set m.allocs i (record a { expires_at = t }) }))
        until)
