-- ===== src/Turn/Granting.antt =====
-- Permissions and channels, src/turn.cc: what an allocation permits and binds after it was asked to.
use hyper_derp.Prelude.{
  ℕ, zero, suc, ◌+◌, ◌^◌, ◌≤◌, ◌<◌, ◌≡◌, ◌≢◌, refl, ap, ◌⊎◌, inl, inr, true, false, ◌&&◌, ◌||◌,
  ◌==◌, ltb, none, some, List, [], ◌∷◌, get_elem?, get_elem?-set_self, get_elem?-lt, set, arith,
  Bool-cases,
}
use hyper_derp.Prelude.Slots.{find_slot, find?, find_slot-cases, find?-set_new, find?-set_other}
use hyper_derp.Prelude.FirstMatch.{find?-set_first, find?-less}
use hyper_derp.Turn.{
  TurnPermission, TurnChannel, TurnAllocation, TurnManager, has_id, permits, is_vacant, permits_at,
  permit, permit_at, create_permission, check_permission, is_some, has_number, is_unbound, bound_at,
  bind, bind_at, binding, channel_bind, find_channel, deadline, channel_min, channel_max,
}

-- The two loops over the permissions: the peer is permitted until the deadline.
permit-permits_at :
    (ps : List TurnPermission) (peer_ip expires t : ℕ)
    → (permit ps peer_ip expires).0 ≡ true
    → t < expires
    → is_some (find? (permits_at t peer_ip) (permit ps peer_ip expires).1) ≡ true
unfolding permit
permit-permits_at ps peer_ip expires t done young = elim (find_slot-cases (permits peer_ip) ps) [
  | inr (i, p, e, at, hit, _) ↦
      rw (e, permit_at)
        (ap is_some (
          find?-set_first (permits peer_ip) (permits_at t peer_ip) ps i p _ e (λ y h. ground arith)
            (ground arith)))
  | inl (e, gone, _) ↦ elim (find_slot-cases is_vacant ps) [
    | inl (d, _, _) ↦ absurd (failed e d done)
    | inr (i, p, d, at, free, _) ↦
        rw (e, d)
          (ap is_some (
            find?-set_new (permits_at t peer_ip) ps i p _ at
              (find?-less (permits peer_ip) (permits_at t peer_ip) ps gone (λ y h. ground arith))
              (ground arith)))
  ]
]
  where
    failed :
        find_slot (permits peer_ip) ps ≡ none
        → find_slot is_vacant ps ≡ none
        → (permit ps peer_ip expires).0 ≡ true
        → ⊥
    failed e d h = ground arith

-- Another peer is permitted as before.
permit-others :
    (ps : List TurnPermission) (peer_ip other expires t : ℕ)
    → other ≢ peer_ip
    → find? (permits_at t other) (permit ps peer_ip expires).1 ≡ find? (permits_at t other) ps
unfolding permit
permit-others ps peer_ip other expires t ne = elim (find_slot-cases (permits peer_ip) ps) [
  | inr (i, p, e, at, hit, _) ↦
      rw e (find?-set_other (permits_at t other) ps i p _ at (ground arith) (ground arith))
  | inl (e, _, _) ↦ rw e (elim (find_slot-cases is_vacant ps) [
    | inl (d, _, _) ↦ rw d refl
    | inr (i, p, d, at, free, _) ↦
        rw d (find?-set_other (permits_at t other) ps i p _ at (ground arith) (ground arith))
  ])
]

-- After TurnCreatePermission has succeeded, TurnCheckPermission of its allocation lets the peer
-- pass for 300 seconds and answers as before for every other peer, for a clock below 2^64 by as
-- much.
pub create_permission-check :
    (m : TurnManager) (now alloc_id peer_ip : ℕ)
    → now + 300000000000 < 2 ^ 64
    → (create_permission m now alloc_id peer_ip).0 ≡ true
    → (i : ℕ) × (a b : TurnAllocation) × (find_slot (has_id alloc_id) m.allocs ≡ some (i, a))
      × (get_elem? (create_permission m now alloc_id peer_ip).1.allocs i ≡ some b)
      × ((t : ℕ) → t < now + 300000000000 → check_permission b t peer_ip ≡ true)
      × ((t other : ℕ) → other ≢ peer_ip → check_permission b t other ≡ check_permission a t other)
unfolding create_permission check_permission
create_permission-check m now alloc_id peer_ip fits done =
    elim (find_slot-cases (has_id alloc_id) m.allocs) [
      | inl (e, _, _) ↦ absurd (ground arith)
      | inr (i, a, e, at, hit, _) ↦
          let until : deadline now 300 ≡ now + 300000000000 = omega arith in
          (
            i,
            a,
            record a { permissions = (permit a.permissions peer_ip (deadline now 300)).1 },
            e,
            rw e (get_elem?-set_self m.allocs i _ (get_elem?-lt m.allocs i a at)),
            λ t h.
                permit-permits_at a.permissions peer_ip (deadline now 300) t (ground arith)
                  (omega (arith, until)),
            λ t other ne.
                ap is_some (permit-others a.permissions peer_ip other (deadline now 300) t ne),
          )
    ]

-- What is bound after the two loops over the channels.
bind-bound_at :
    (cs : List TurnChannel) (number ip port expires t : ℕ)
    → (bind cs (binding number ip port expires)).0 ≡ true
    → t < expires
    → (c : TurnChannel) × (find? (bound_at t number) (bind cs (binding number ip port expires)).1
        ≡ some c)
      × (c.peer_ip ≡ ip)
      × (c.peer_port ≡ port)
unfolding bind
bind-bound_at cs number ip port expires t done young =
    elim (find_slot-cases (has_number number) cs) [
      | inr (i, c, e, at, hit, _) ↦ elim (Bool-cases ((c.peer_ip == ip) && (c.peer_port == port))) [
        | inl same ↦ (
          record c { expires_at = expires },
          rw (e, bind_at)
              (rw same (
                find?-set_first (has_number number) (bound_at t number) cs i c _ e
                  (λ y h. ground arith) (ground arith))),
          ground arith,
          ground arith,
        )
        | inr differ ↦ absurd (ground arith)
      ]
      | inl (e, gone, _) ↦ elim (find_slot-cases is_unbound cs) [
        | inl (d, _, _) ↦ absurd (failed e d done)
        | inr (i, c, d, at, free, _) ↦ (
          binding number ip port expires,
          rw (e, d)
              (find?-set_new (bound_at t number) cs i c _ at
                (find?-less (has_number number) (bound_at t number) cs gone (λ y h. ground arith))
                (ground arith)),
          refl,
          refl,
        )
      ]
    ]
  where
    failed :
        find_slot (has_number number) cs ≡ none
        → find_slot is_unbound cs ≡ none
        → (bind cs (binding number ip port expires)).0 ≡ true
        → ⊥
    failed e d h = ground arith

bind-others :
    (cs : List TurnChannel) (v : TurnChannel) (other t : ℕ)
    → other ≢ v.number
    → find? (bound_at t other) (bind cs v).1 ≡ find? (bound_at t other) cs
unfolding bind
bind-others cs v other t ne = elim (find_slot-cases (has_number v.number) cs) [
  | inr (i, c, e, at, hit, _) ↦
      rw (e, bind_at)
        (elim (Bool-cases ((c.peer_ip == v.peer_ip) && (c.peer_port == v.peer_port))) [
          | inl same ↦
              rw same (find?-set_other (bound_at t other) cs i c _ at (ground arith) (ground arith))
          | inr differ ↦ rw differ refl
        ])
  | inl (e, _, _) ↦ rw e (elim (find_slot-cases is_unbound cs) [
    | inl (d, _, _) ↦ rw d refl
    | inr (i, c, d, at, free, _) ↦
        rw d (find?-set_other (bound_at t other) cs i c v at (ground arith) (ground arith))
  ])
]

-- When TurnChannelBind has succeeded, the channel number lies in the range of channels,
-- TurnFindChannel of its allocation gives the peer's address and port for 600 seconds, and every
-- other channel is found as before, for a clock below 2^64 by as much.
pub channel_bind-find_channel :
    (m : TurnManager) (now alloc_id channel ip port : ℕ)
    → now + 600000000000 < 2 ^ 64
    → (channel_bind m now alloc_id channel ip port).0 ≡ true
    → (channel_min ≤ channel)
      × (channel ≤ channel_max)
      × (i : ℕ) × (a b : TurnAllocation) × (find_slot (has_id alloc_id) m.allocs ≡ some (i, a))
      × (get_elem? (channel_bind m now alloc_id channel ip port).1.allocs i ≡ some b)
      × ((t : ℕ)
          → t < now + 600000000000
          → (c : TurnChannel) × (find_channel b t channel ≡ some c)
            × (c.peer_ip ≡ ip)
            × (c.peer_port ≡ port))
      × ((t other : ℕ) → other ≢ channel → find_channel b t other ≡ find_channel a t other)
unfolding channel_bind find_channel
channel_bind-find_channel m now alloc_id channel ip port fits done =
    elim (Bool-cases (ltb channel channel_min || ltb channel_max channel)) [
      | inl out ↦ absurd (ground arith)
      | inr inside ↦ elim (find_slot-cases (has_id alloc_id) m.allocs) [
        | inl (e, _, _) ↦ absurd (ground arith)
        | inr (i, a, e, at, hit, _) ↦
            let until : deadline now 600 ≡ now + 600000000000 = omega arith in
            let v = binding channel ip port (deadline now 600) in
            (
              ground arith,
              ground arith,
              i,
              a,
              record a { channels = (bind a.channels v).1 },
              e,
              rw (inside, e) (get_elem?-set_self m.allocs i _ (get_elem?-lt m.allocs i a at)),
              λ t h.
                  bind-bound_at a.channels channel ip port (deadline now 600) t (ground arith)
                    (omega (arith, until)),
              λ t other ne. bind-others a.channels v other t ne,
            )
      ]
    ]

-- What is already there written back.
set-get {ℓ} : {A : Type ℓ} (xs : List A) (i : ℕ) (x : A) → get_elem? xs i ≡ some x → set xs i x ≡ xs
set-get [] i x h = refl
set-get (y ∷ xs) zero x h = ground arith
set-get (y ∷ xs) (suc i) x h = ap (◌∷◌ y) (set-get xs i x h)

-- A channel number that is bound to another peer, also where the binding has run out, is refused and
-- nothing changes.
pub channel_bind_refused :
    (m : TurnManager) (now alloc_id channel ip port i j : ℕ) (a : TurnAllocation) (c : TurnChannel)
    → find_slot (has_id alloc_id) m.allocs ≡ some (i, a)
    → find_slot (has_number channel) a.channels ≡ some (j, c)
    → (c.peer_ip ≢ ip) ⊎ (c.peer_port ≢ port)
    → channel_bind m now alloc_id channel ip port ≡ (false, m)
unfolding channel_bind bind
channel_bind_refused m now alloc_id channel ip port i j a c found bound differ =
    elim (find_slot-cases (has_id alloc_id) m.allocs) [
      | inl (e, _, _) ↦ cc
      | inr (k, b, e, at, _, _) ↦
          let here : get_elem? m.allocs i ≡ some a = ground arith in
          ground (arith, set-get m.allocs i a here)
    ]
