-- ===== src/Tests/Relaying.antt =====
-- A concrete TURN manager for src/turn.cc.
use hyper_derp.Prelude.{
  ℕ, suc, ◌+◌, ◌≤◌, ◌<◌, ◌≡◌, ◌≢◌, refl, ap, sym, true, some, ◌∷◌, replicate, length-replicate,
  get_elem?, arith, All, All-replicate,
}
use hyper_derp.Prelude.Int.{pos, negsuc}
use hyper_derp.Prelude.Slots.{find_slot, count, count-replicate}
use hyper_derp.Turn.{
  TurnChannel, TurnAllocation, TurnManager, cleared, empty_permission, empty_channel, is_live,
  has_id, channel_min, channel_max, allocate, refresh, deallocate, create_permission, permit,
  check_permission, channel_bind, bind, find_channel, expire,
}
use hyper_derp.Turn.Invariant.{IsSlot, IsManager}
use hyper_derp.Turn.Expiry.{IsFresh, expire-IsManager, expire-unseen}
use hyper_derp.Turn.Granting.{create_permission-check, channel_bind-find_channel}
use hyper_derp.Turn.Allocating.{Granted, allocate-grants}
use hyper_derp.Turn.Operations.{operations-IsManager}

abbrev live : TurnAllocation
live = record cleared {
  id = 1;
  client_ip = 7;
  client_port = 80;
  relay_ip = 3;
  relay_port = 49152;
  expires_at = 100;
  occupied = 1;
}

-- A manager that has given out one allocation.
abbrev manager : TurnManager
manager = record {
  allocs = live ∷ replicate 9999 cleared;
  alloc_count = pos 1;
  next_id = 2;
  next_port = 49153;
  relay_ip = 3;
}

cleared_slot : IsSlot cleared
cleared_slot = record {
  flag = omega arith;
  permission_size = length-replicate 64 empty_permission;
  channel_size = length-replicate 64 empty_channel;
  no_permissions = λ e. refl;
  no_channels = λ e. refl;
  port_low = λ e. absurd (omega arith);
  port_high = λ e. absurd (omega arith);
}

manager-IsManager : IsManager manager
unfolding count
manager-IsManager = record {
  size = ap suc (length-replicate 9999 cleared);
  counted = ap pos (sym (ap suc (count-replicate is_live 9999 cleared refl)));
  slots = (
    record {
      flag = omega arith;
      permission_size = length-replicate 64 empty_permission;
      channel_size = length-replicate 64 empty_channel;
      no_permissions = λ e. absurd (omega arith);
      no_channels = λ e. absurd (omega arith);
      port_low = λ e. omega arith;
      port_high = λ e. omega arith;
    },
    All-replicate IsSlot 9999 cleared cleared_slot,
  );
  port_low = omega arith;
  port_high = omega arith;
}

operations-IsManager_example :
    IsManager (allocate manager 5 8 81 (pos 0)).1
    × IsManager (refresh manager 5 1 (pos 0)).1
    × IsManager (deallocate manager 1)
    × IsManager (create_permission manager 5 1 8).1
    × IsManager (channel_bind manager 5 1 0x4000 8 81).1
    × IsManager (expire manager 5).1
operations-IsManager_example =
    operations-IsManager manager 5 8 81 1 0x4000 (pos 0) manager-IsManager

expire-IsManager_example :
    IsManager (expire manager 200).1 × All (IsFresh 200) (expire manager 200).1.allocs
expire-IsManager_example = expire-IsManager manager 200 manager-IsManager

expire-unseen_example :
    (b : TurnAllocation) × (get_elem? (expire manager 5).1.allocs 0 ≡ some b)
    × (b ≡ record live { permissions = b.permissions; channels = b.channels })
    × ((t peer_ip : ℕ) → 5 ≤ t → check_permission b t peer_ip ≡ check_permission live t peer_ip)
    × ((t channel : ℕ) → 5 ≤ t → find_channel b t channel ≡ find_channel live t channel)
expire-unseen_example = expire-unseen manager 5 0 live refl refl (omega arith)

create_permission-check_example :
    (i : ℕ) × (a b : TurnAllocation) × (find_slot (has_id 1) manager.allocs ≡ some (i, a))
    × (get_elem? (create_permission manager 5 1 8).1.allocs i ≡ some b)
    × ((t : ℕ) → t < 5 + 300000000000 → check_permission b t 8 ≡ true)
    × ((t other : ℕ) → other ≢ 8 → check_permission b t other ≡ check_permission a t other)
unfolding create_permission permit find_slot
create_permission-check_example = create_permission-check manager 5 1 8 (omega arith) refl

channel_bind-find_channel_example :
    (channel_min ≤ 0x4001)
    × (0x4001 ≤ channel_max)
    × (i : ℕ) × (a b : TurnAllocation) × (find_slot (has_id 1) manager.allocs ≡ some (i, a))
    × (get_elem? (channel_bind manager 5 1 0x4001 8 81).1.allocs i ≡ some b)
    × ((t : ℕ)
        → t < 5 + 600000000000
        → (c : TurnChannel) × (find_channel b t 0x4001 ≡ some c)
          × (c.peer_ip ≡ 8)
          × (c.peer_port ≡ 81))
    × ((t other : ℕ) → other ≢ 0x4001 → find_channel b t other ≡ find_channel a t other)
unfolding channel_bind bind find_slot
channel_bind-find_channel_example =
    channel_bind-find_channel manager 5 1 0x4001 8 81 (omega arith) refl

allocate-grants_example :
    (i : ℕ) × (a : TurnAllocation) × ((allocate manager 5 8 81 (negsuc 0)).0 ≡ some i)
    × Granted manager (allocate manager 5 8 81 (negsuc 0)).1 5 8 81 i a
unfolding count
allocate-grants_example =
    allocate-grants manager manager-IsManager 5 8 81 (negsuc 0) (omega arith)
      (omega (arith, count-replicate is_live 9999 cleared refl))
