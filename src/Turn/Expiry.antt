-- ===== src/Turn/Expiry.antt =====
-- What TurnExpire leaves, src/turn.cc.
use hyper_derp.Prelude.{
  ℕ, zero, suc, ◌+◌, ◌≤◌, ◌<◌, ◌≡◌, refl, ap, ◌∙◌, inl, inr, true, false, leb, some, List, [], ◌∷◌,
  get_elem?, length, arith, Bool-cases, All, if◌then◌else◌,
}
use hyper_derp.Prelude.Int.{ℤ, pos, pred_int}
use hyper_derp.Prelude.Slots.{find?, count}
use hyper_derp.Turn.{
  TurnPermission, TurnChannel, TurnAllocation, TurnManager, cleared, empty_permission,
  empty_channel, is_live, permits_at, bound_at, permission_is_stale, channel_is_stale,
  expire_permissions, expire_channels, expire_alloc, expire_allocs, expire, check_permission,
  find_channel, is_some,
}
use hyper_derp.Turn.Invariant.{IsSlot, IsManager, cleared-IsSlot}

-- Nothing in an allocation that is in use has run out.
pub record IsFresh (now : ℕ) (a : TurnAllocation) : Type 0 where
  pub runs : a.occupied ≡ 1 → now < a.expires_at
  pub permissions_run :
      a.occupied ≡ 1 → All (λ p. p.occupied ≡ 1 → now < p.expires_at) a.permissions
  pub channels_run : a.occupied ≡ 1 → All (λ c. c.occupied ≡ 1 → now < c.expires_at) a.channels

module _ (now : ℕ) where
  length-expire_permissions :
      (ps : List TurnPermission) (n : ℕ) → length (expire_permissions now n ps).1 ≡ length ps
  unfolding expire_permissions
  length-expire_permissions [] n = refl
  length-expire_permissions (p ∷ ps) n = ap suc (length-expire_permissions ps _)

  length-expire_channels :
      (cs : List TurnChannel) (n : ℕ) → length (expire_channels now n cs).1 ≡ length cs
  unfolding expire_channels
  length-expire_channels [] n = refl
  length-expire_channels (c ∷ cs) n = ap suc (length-expire_channels cs _)

  permission_runs :
      (p : TurnPermission)
      → let q = if permission_is_stale now p then empty_permission else p in
        q.occupied ≡ 1 → now < q.expires_at
  permission_runs p = ground arith

  channel_runs :
      (c : TurnChannel)
      → let d = if channel_is_stale now c then empty_channel else c in
        d.occupied ≡ 1 → now < d.expires_at
  channel_runs c = ground arith

  expire_permissions_run :
      (ps : List TurnPermission) (n : ℕ)
      → All (λ p. p.occupied ≡ 1 → now < p.expires_at) (expire_permissions now n ps).1
  unfolding expire_permissions
  expire_permissions_run [] n = tt
  expire_permissions_run (p ∷ ps) n = (permission_runs p, expire_permissions_run ps _)

  expire_channels_run :
      (cs : List TurnChannel) (n : ℕ)
      → All (λ c. c.occupied ≡ 1 → now < c.expires_at) (expire_channels now n cs).1
  unfolding expire_channels
  expire_channels_run [] n = tt
  expire_channels_run (c ∷ cs) n = (channel_runs c, expire_channels_run cs _)

  -- From `now` on, a search does not see what the loops drop.
  find?-expire_permissions :
      (t peer_ip n : ℕ) (ps : List TurnPermission)
      → now ≤ t
      → find? (permits_at t peer_ip) (expire_permissions now n ps).1
        ≡ find? (permits_at t peer_ip) ps
  unfolding find? expire_permissions
  find?-expire_permissions t peer_ip n [] h = refl
  find?-expire_permissions t peer_ip n (p ∷ ps) h = ground (
    arith,
    find?-expire_permissions t peer_ip (if permission_is_stale now p then suc n else n) ps h,
  )

  find?-expire_channels :
      (t number n : ℕ) (cs : List TurnChannel)
      → now ≤ t
      → find? (bound_at t number) (expire_channels now n cs).1 ≡ find? (bound_at t number) cs
  unfolding find? expire_channels
  find?-expire_channels t number n [] h = refl
  find?-expire_channels t number n (c ∷ cs) h =
      ground
        (arith, find?-expire_channels t number (if channel_is_stale now c then suc n else n) cs h)

  -- What becomes of one slot.
  abbrev trimmed : ℕ → TurnAllocation → TurnAllocation
  trimmed n a = record a {
    permissions = (expire_permissions now n a.permissions).1;
    channels = (expire_channels now (expire_permissions now n a.permissions).0 a.channels).1;
  }

  data Outcome (a : TurnAllocation) (c : ℤ) : TurnAllocation × ℤ × ℕ → Type 0 where
    unused : (n : ℕ) → is_live a ≡ false → Outcome a c (a, c, n)
    dropped :
        (n : ℕ) → is_live a ≡ true → a.expires_at ≤ now → Outcome a c (cleared, pred_int c, suc n)
    trims :
        (n total : ℕ) → is_live a ≡ true → now < a.expires_at → Outcome a c (trimmed n a, c, total)

  expire_alloc-Outcome : (c : ℤ) (n : ℕ) (a : TurnAllocation) → Outcome a c (expire_alloc now c n a)
  unfolding expire_alloc
  expire_alloc-Outcome c n a = elim (Bool-cases (is_live a)) [
    | inr dead ↦ rw dead (unused n dead)
    | inl live ↦ rw live (elim (Bool-cases (leb a.expires_at now)) [
      | inl old ↦ rw old (dropped n live (ground arith))
      | inr young ↦ rw young (trims n _ live (ground arith))
    ])
  ]

  Outcome-IsSlot :
      {a : TurnAllocation} {c : ℤ} {r : TurnAllocation × ℤ × ℕ}
      → Outcome a c r
      → IsSlot a
      → IsSlot r.0
  Outcome-IsSlot (unused n dead) slot = slot
  Outcome-IsSlot (dropped n live old) slot = cleared-IsSlot
  Outcome-IsSlot {a} (trims n total live young) slot = record {
    flag = slot.flag;
    permission_size = length-expire_permissions a.permissions n ∙ slot.permission_size;
    channel_size = length-expire_channels a.channels _ ∙ slot.channel_size;
    no_permissions = λ e. absurd (ground arith);
    no_channels = λ e. absurd (ground arith);
    port_low = slot.port_low;
    port_high = slot.port_high;
  }

  Outcome-IsFresh :
      {a : TurnAllocation} {c : ℤ} {r : TurnAllocation × ℤ × ℕ} → Outcome a c r → IsFresh now r.0
  Outcome-IsFresh (unused n dead) = record {
    runs = λ e. absurd (ground arith);
    permissions_run = λ e. absurd (ground arith);
    channels_run = λ e. absurd (ground arith);
  }
  Outcome-IsFresh (dropped n live old) = record {
    runs = λ e. absurd (omega arith);
    permissions_run = λ e. absurd (omega arith);
    channels_run = λ e. absurd (omega arith);
  }
  Outcome-IsFresh {a} (trims n total live young) = record {
    runs = λ e. young;
    permissions_run = λ e. expire_permissions_run a.permissions n;
    channels_run = λ e. expire_channels_run a.channels _;
  }

  -- The count, where `k` other allocations are in use.
  Outcome-counted :
      {a : TurnAllocation} {c : ℤ} {r : TurnAllocation × ℤ × ℕ} (k : ℕ)
      → Outcome a c r
      → c ≡ pos (count is_live (a ∷ []) + k)
      → r.1 ≡ pos (count is_live (r.0 ∷ []) + k)
  unfolding count
  Outcome-counted k (unused n dead) h = h
  Outcome-counted k (dropped n live old) h = ground arith
  Outcome-counted k (trims n total live young) h = h

  expire_allocs-IsSlot :
      (xs : List TurnAllocation) (c : ℤ) (n : ℕ)
      → All IsSlot xs
      → All IsSlot (expire_allocs now c n xs).0
  unfolding expire_allocs
  expire_allocs-IsSlot [] c n h = tt
  expire_allocs-IsSlot (a ∷ xs) c n h =
      (Outcome-IsSlot (expire_alloc-Outcome c n a) h.0, expire_allocs-IsSlot xs _ _ h.1)

  expire_allocs-IsFresh :
      (xs : List TurnAllocation) (c : ℤ) (n : ℕ) → All (IsFresh now) (expire_allocs now c n xs).0
  unfolding expire_allocs
  expire_allocs-IsFresh [] c n = tt
  expire_allocs-IsFresh (a ∷ xs) c n =
      (Outcome-IsFresh (expire_alloc-Outcome c n a), expire_allocs-IsFresh xs _ _)

  length-expire_allocs :
      (xs : List TurnAllocation) (c : ℤ) (n : ℕ) → length (expire_allocs now c n xs).0 ≡ length xs
  unfolding expire_allocs
  length-expire_allocs [] c n = refl
  length-expire_allocs (a ∷ xs) c n = ap suc (length-expire_allocs xs _ _)

  expire_allocs-counted :
      (c : ℤ) (n k : ℕ) (xs : List TurnAllocation)
      → c ≡ pos (count is_live xs + k)
      → (expire_allocs now c n xs).1 ≡ pos (count is_live (expire_allocs now c n xs).0 + k)
  unfolding expire_allocs count
  expire_allocs-counted c n k [] h = h
  expire_allocs-counted c n k (a ∷ xs) h =
      let o = expire_alloc-Outcome c n a in
      let moved = Outcome-counted (count is_live xs + k) o (ground arith) in
      let b = (expire_alloc now c n a).0 in
      let rest =
        expire_allocs-counted (expire_alloc now c n a).1 (expire_alloc now c n a).2
          (count is_live (b ∷ []) + k) xs (ground arith) in
      ground arith

  expire_alloc-young :
      (c : ℤ) (n : ℕ) (a : TurnAllocation)
      → is_live a ≡ true
      → now < a.expires_at
      → (expire_alloc now c n a).0 ≡ trimmed n a
  unfolding expire_alloc
  expire_alloc-young c n a live young = ground arith

  -- An allocation that has not run out stays in its slot, and answers as before.
  expire_allocs-get :
      (xs : List TurnAllocation) (c : ℤ) (n i : ℕ) (a : TurnAllocation)
      → get_elem? xs i ≡ some a
      → is_live a ≡ true
      → now < a.expires_at
      → (k : ℕ) × (get_elem? (expire_allocs now c n xs).0 i ≡ some (trimmed k a))
  unfolding expire_allocs
  expire_allocs-get [] c n i a at live young = cc
  expire_allocs-get (x ∷ xs) c n zero a at live young =
      let same : x ≡ a = ground arith in
      (n, ap some (ap (λ y. (expire_alloc now c n y).0) same ∙ expire_alloc-young c n a live young))
  expire_allocs-get (x ∷ xs) c n (suc i) a at live young =
      expire_allocs-get xs _ _ i a at live young

-- After TurnExpire of a well-formed manager, which stays well formed, no live allocation has run
-- out, nor has any permission or channel in use in one.
pub expire-IsManager :
    (m : TurnManager) (now : ℕ)
    → IsManager m
    → IsManager (expire m now).1 × All (IsFresh now) (expire m now).1.allocs
unfolding expire
expire-IsManager m now ok = (
  record {
    size = length-expire_allocs now m.allocs m.alloc_count 0 ∙ ok.size;
    counted =
        expire_allocs-counted now m.alloc_count 0 0 m.allocs (ok.counted ∙ ap pos (omega arith))
        ∙ ap pos (omega arith);
    slots = expire_allocs-IsSlot now m.allocs m.alloc_count 0 ok.slots;
    port_low = ok.port_low;
    port_high = ok.port_high;
  },
  expire_allocs-IsFresh now m.allocs m.alloc_count 0,
)

-- TurnExpire leaves a live allocation that has not run out in its slot with everything but its
-- permissions and channels, and TurnCheckPermission and TurnFindChannel answer for it from then on
-- as they would have without it.
pub expire-unseen :
    (m : TurnManager) (now i : ℕ) (a : TurnAllocation)
    → get_elem? m.allocs i ≡ some a
    → is_live a ≡ true
    → now < a.expires_at
    → (b : TurnAllocation) × (get_elem? (expire m now).1.allocs i ≡ some b)
      × (b ≡ record a { permissions = b.permissions; channels = b.channels })
      × ((t peer_ip : ℕ) → now ≤ t → check_permission b t peer_ip ≡ check_permission a t peer_ip)
      × ((t channel : ℕ) → now ≤ t → find_channel b t channel ≡ find_channel a t channel)
unfolding expire check_permission find_channel
expire-unseen m now i a at live young =
    let (k, there) = expire_allocs-get now m.allocs m.alloc_count 0 i a at live young in
    (
      trimmed now k a,
      there,
      refl,
      λ t peer_ip h. ap is_some (find?-expire_permissions now t peer_ip k a.permissions h),
      λ t channel h. find?-expire_channels now t channel _ a.channels h,
    )
