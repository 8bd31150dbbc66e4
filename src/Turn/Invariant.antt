-- ===== src/Turn/Invariant.antt =====
-- Well-formed TURN managers, src/turn.cc: what every operation keeps.
use hyper_derp.Prelude.{
  ℕ, suc, ◌≤◌, ◌<◌, ◌≡◌, refl, ap, sym, ◌∙◌, inl, inr, true, false, ltb, ◌||◌, some, List,
  get_elem?, length, set, length-set, length-replicate, arith, Bool-cases, All, All-set, All-get,
  All-replicate,
}
use hyper_derp.Prelude.Int.{ℤ, pos, suc_int, pred_int}
use hyper_derp.Prelude.Slots.{find_slot-cases, count, count-set, count-replicate}
use hyper_derp.Turn.{
  TurnPermission, TurnChannel, TurnAllocation, TurnManager, cleared, empty_permission,
  empty_channel, max_allocations, max_permissions, max_channels, first_port, init, port_after,
  is_free, is_live, has_id, is_zero, at_limit, allocated, allocate_at, allocate, release, refresh,
  deallocate, permits, is_vacant, permit, create_permission, has_number, is_unbound, bind,
  channel_bind, binding, deadline, channel_min, channel_max,
}

-- A slot: its arrays have their size, a free one grants nothing, and a relay port is ephemeral.
pub record IsSlot (a : TurnAllocation) : Type 0 where
  pub flag : a.occupied ≤ 1
  pub permission_size : length a.permissions ≡ max_permissions
  pub channel_size : length a.channels ≡ max_channels
  pub no_permissions : a.occupied ≡ 0 → a.permissions ≡ cleared.permissions
  pub no_channels : a.occupied ≡ 0 → a.channels ≡ cleared.channels
  pub port_low : a.occupied ≡ 1 → first_port ≤ a.relay_port
  pub port_high : a.occupied ≡ 1 → a.relay_port < 65536

pub record IsManager (m : TurnManager) : Type 0 where
  pub size : length m.allocs ≡ max_allocations
  pub counted : m.alloc_count ≡ pos (count is_live m.allocs)
  pub slots : All IsSlot m.allocs
  pub port_low : first_port ≤ m.next_port
  pub port_high : m.next_port < 65536

pub cleared-IsSlot : IsSlot cleared
cleared-IsSlot = record {
  flag = omega arith;
  permission_size = length-replicate 64 empty_permission;
  channel_size = length-replicate 64 empty_channel;
  no_permissions = λ e. refl;
  no_channels = λ e. refl;
  port_low = λ e. absurd (omega arith);
  port_high = λ e. absurd (omega arith);
}

pub init-IsManager : (relay_ip : ℕ) → IsManager (init relay_ip)
unfolding init
init-IsManager relay_ip = record {
  size = length-replicate 10000 cleared;
  counted = ap pos (sym (count-replicate is_live 10000 cleared refl));
  slots = All-replicate IsSlot 10000 cleared cleared-IsSlot;
  port_low = omega arith;
  port_high = omega arith;
}

-- A write to slot `i`, which held `a`.
pub write :
    (m : TurnManager) (i next_id next_port : ℕ) (v : TurnAllocation) (c : ℤ)
    → IsManager m
    → IsSlot v
    → c ≡ pos (count is_live (set m.allocs i v))
    → first_port ≤ next_port
    → next_port < 65536
    → IsManager (record m {
      allocs = set m.allocs i v;
      alloc_count = c;
      next_id = next_id;
      next_port = next_port;
    })
write m i next_id next_port v c ok slot counts low high = record {
  size = length-set m.allocs i v ∙ ok.size;
  counted = counts;
  slots = All-set IsSlot m.allocs i v ok.slots slot;
  port_low = low;
  port_high = high;
}

port_after_bounds :
    (port : ℕ)
    → first_port ≤ port
    → port < 65536
    → (first_port ≤ port_after port) × (port_after port < 65536)
unfolding port_after
port_after_bounds port low high = ground arith

length-permit :
    (ps : List TurnPermission) (peer_ip expires : ℕ)
    → length (permit ps peer_ip expires).1 ≡ length ps
unfolding permit
length-permit ps peer_ip expires = elim (find_slot-cases (permits peer_ip) ps) [
  | inl (e, _, _) ↦ rw e (elim (find_slot-cases is_vacant ps) [
    | inl (d, _, _) ↦ rw d refl
    | inr (i, p, d, _, _, _) ↦ rw d (length-set ps i _)
  ])
  | inr (i, p, e, _, _, _) ↦ rw e (length-set ps i _)
]

length-bind : (cs : List TurnChannel) (v : TurnChannel) → length (bind cs v).1 ≡ length cs
unfolding bind
length-bind cs v = elim (find_slot-cases (has_number v.number) cs) [
  | inl (e, _, _) ↦ rw e (elim (find_slot-cases is_unbound cs) [
    | inl (d, _, _) ↦ rw d refl
    | inr (i, c, d, _, _, _) ↦ rw d (length-set cs i v)
  ])
  | inr (i, c, e, _, _, _) ↦
      rw e (ground (arith, length-set cs i (record c { expires_at = v.expires_at })))
]

module _ (m : TurnManager) (ok : IsManager m) where
  filled :
      (i : ℕ) (a v : TurnAllocation)
      → get_elem? m.allocs i ≡ some a
      → is_live a ≡ false
      → is_live v ≡ true
      → suc_int m.alloc_count ≡ pos (count is_live (set m.allocs i v))
  filled i a v at free taken =
      rw ok.counted (ap pos (ground (arith, count-set is_live m.allocs i a v at)))

  freed :
      (i : ℕ) (a v : TurnAllocation)
      → get_elem? m.allocs i ≡ some a
      → is_live a ≡ true
      → is_live v ≡ false
      → pred_int m.alloc_count ≡ pos (count is_live (set m.allocs i v))
  freed i a v at taken free =
      let moved : suc (count is_live (set m.allocs i v)) ≡ count is_live m.allocs =
        ground (arith, count-set is_live m.allocs i a v at) in
      rw (ok.counted, sym moved) refl

  kept :
      (i : ℕ) (a v : TurnAllocation)
      → get_elem? m.allocs i ≡ some a
      → is_live a ≡ true
      → is_live v ≡ true
      → m.alloc_count ≡ pos (count is_live (set m.allocs i v))
  kept i a v at taken still =
      rw ok.counted (ap pos (ground (arith, count-set is_live m.allocs i a v at)))

  slot_at : (i : ℕ) (a : TurnAllocation) → get_elem? m.allocs i ≡ some a → IsSlot a
  slot_at i a at = All-get IsSlot m.allocs i a ok.slots at

  -- A live slot overwritten by a live one.
  rewritten :
      (i : ℕ) (a v : TurnAllocation)
      → get_elem? m.allocs i ≡ some a
      → is_live a ≡ true
      → is_live v ≡ true
      → IsSlot v
      → IsManager (record m { allocs = set m.allocs i v })
  rewritten i a v at taken still slot =
      write m i m.next_id m.next_port v m.alloc_count ok slot (kept i a v at taken still)
        ok.port_low ok.port_high

  released :
      (i : ℕ) (a : TurnAllocation)
      → get_elem? m.allocs i ≡ some a
      → is_live a ≡ true
      → IsManager (release m i)
  released i a at taken =
      write m i m.next_id m.next_port cleared (pred_int m.alloc_count) ok cleared-IsSlot
        (freed i a cleared at taken refl) ok.port_low ok.port_high

  pub allocate-IsManager :
      (now ip port : ℕ) (lifetime : ℤ) → IsManager (allocate m now ip port lifetime).1
  unfolding allocate
  allocate-IsManager now ip port lifetime = elim (Bool-cases (at_limit m.alloc_count)) [
    | inl full ↦ rw full ok
    | inr room ↦ rw room (elim (find_slot-cases is_free m.allocs) [
      | inl (e, _, _) ↦ rw e ok
      | inr (i, a, e, at, hit, _) ↦ rw e (new i a _ at hit)
    ])
  ]
    where
      new :
          (i : ℕ) (a : TurnAllocation) (expires : ℕ)
          → get_elem? m.allocs i ≡ some a
          → is_free a ≡ true
          → IsManager (allocate_at m ip port expires (some (i, a))).1
      new i a expires at hit =
          let old = slot_at i a at in
          let (low, high) = port_after_bounds m.next_port ok.port_low ok.port_high in
          let v : TurnAllocation = allocated m a ip port expires in
          let slot : IsSlot v = record {
            flag = omega arith;
            permission_size = old.permission_size;
            channel_size = old.channel_size;
            no_permissions = λ e. absurd (omega arith);
            no_channels = λ e. absurd (omega arith);
            port_low = λ e. ok.port_low;
            port_high = λ e. ok.port_high;
          } in
          write m i _ _ v (suc_int m.alloc_count) ok slot (filled i a v at (ground arith) refl) low
            high

  pub refresh-IsManager :
      (now alloc_id : ℕ) (lifetime : ℤ) → IsManager (refresh m now alloc_id lifetime).1
  unfolding refresh
  refresh-IsManager now alloc_id lifetime = elim (find_slot-cases (has_id alloc_id) m.allocs) [
    | inl (e, _, _) ↦ rw e ok
    | inr (i, a, e, at, hit, _) ↦ rw e (elim (Bool-cases (is_zero lifetime)) [
      | inl t ↦ rw t (released i a at (ground arith))
      | inr f ↦
          let old = slot_at i a at in
          let live : is_live a ≡ true = ground arith in
          rw f (
            rewritten i a _ at live live (record {
              flag = old.flag;
              permission_size = old.permission_size;
              channel_size = old.channel_size;
              no_permissions = old.no_permissions;
              no_channels = old.no_channels;
              port_low = old.port_low;
              port_high = old.port_high;
            }))
    ])
  ]

  pub deallocate-IsManager : (alloc_id : ℕ) → IsManager (deallocate m alloc_id)
  unfolding deallocate
  deallocate-IsManager alloc_id = elim (find_slot-cases (has_id alloc_id) m.allocs) [
    | inl (e, _, _) ↦ rw e ok
    | inr (i, a, e, at, hit, _) ↦ rw e (released i a at (ground arith))
  ]

  -- The arrays of a live slot replaced by arrays of the same size.
  regranted :
      (i : ℕ) (a : TurnAllocation) (ps : List TurnPermission) (cs : List TurnChannel)
      → get_elem? m.allocs i ≡ some a
      → is_live a ≡ true
      → length ps ≡ max_permissions
      → length cs ≡ max_channels
      → IsManager
          (record m { allocs = set m.allocs i (record a { permissions = ps; channels = cs }) })
  regranted i a ps cs at live p_size c_size =
      let old = slot_at i a at in
      rewritten i a _ at live live (record {
        flag = old.flag;
        permission_size = p_size;
        channel_size = c_size;
        no_permissions = λ e. absurd (ground arith);
        no_channels = λ e. absurd (ground arith);
        port_low = old.port_low;
        port_high = old.port_high;
      })

  pub create_permission-IsManager :
      (now alloc_id peer_ip : ℕ) → IsManager (create_permission m now alloc_id peer_ip).1
  unfolding create_permission
  create_permission-IsManager now alloc_id peer_ip =
      elim (find_slot-cases (has_id alloc_id) m.allocs) [
        | inl (e, _, _) ↦ rw e ok
        | inr (i, a, e, at, hit, _) ↦
            let old = slot_at i a at in
            rw e (
              regranted i a (permit a.permissions peer_ip (deadline now 300)).1 a.channels at
                (ground arith)
                (length-permit a.permissions peer_ip (deadline now 300) ∙ old.permission_size)
                old.channel_size)
      ]

  pub channel_bind-IsManager :
      (now alloc_id channel peer_ip peer_port : ℕ)
      → IsManager (channel_bind m now alloc_id channel peer_ip peer_port).1
  unfolding channel_bind
  channel_bind-IsManager now alloc_id channel peer_ip peer_port =
      let v = binding channel peer_ip peer_port (deadline now 600) in
      elim (Bool-cases (ltb channel channel_min || ltb channel_max channel)) [
        | inl out ↦ rw out ok
        | inr inside ↦ rw inside (elim (find_slot-cases (has_id alloc_id) m.allocs) [
          | inl (e, _, _) ↦ rw e ok
          | inr (i, a, e, at, hit, _) ↦
              let old = slot_at i a at in
              rw e (
                regranted i a a.permissions (bind a.channels v).1 at (ground arith)
                  old.permission_size (length-bind a.channels v ∙ old.channel_size))
        ])
      ]
