-- ===== src/Turn.antt =====
-- TURN allocations, src/turn.cc and include/hyper_derp/turn.h. Every operation holds the lock for its
-- whole body, so that it is one step of state passing; the clock, in nanoseconds, is the argument
-- `now`. A pointer to an allocation is the index of its slot. The realm, which nothing here reads,
-- is left out.
use hyper_derp.Prelude.{
  ℕ, zero, suc, ◌+◌, ◌-◌, ◌*◌, ◌%◌, ◌^◌, Bool, true, false, ◌&&◌, ◌||◌, if◌then◌else◌, ◌==◌, ltb,
  leb, Option, none, some, List, [], ◌∷◌, replicate, set,
}
use hyper_derp.Prelude.Int.{ℤ, pos, negsuc, suc_int, pred_int}
use hyper_derp.Prelude.Slots.{find_slot, find?}
pub mod Invariant
pub mod Allocating
pub mod Granting
pub mod Expiry
pub mod Operations

-- kTurnDefaultLifetime and kTurnMaxLifetime, in seconds.
abbrev pub default_lifetime : ℕ
default_lifetime = 600

abbrev pub max_lifetime : ℕ
max_lifetime = 3600

-- kTurnMaxAllocations, kTurnMaxPermissions and kTurnMaxChannels.
abbrev pub max_allocations : ℕ
max_allocations = 10000

abbrev pub max_permissions : ℕ
max_permissions = 64

abbrev pub max_channels : ℕ
max_channels = 64

-- kTurnChannelMin and kTurnChannelMax.
abbrev pub channel_min : ℕ
channel_min = 0x4000

abbrev pub channel_max : ℕ
channel_max = 0x7FFF

-- The first of the relay ports.
abbrev pub first_port : ℕ
first_port = 49152

pub record TurnPermission : Type 0 where
  pub peer_ip : ℕ
  pub expires_at : ℕ
  pub occupied : ℕ

pub record TurnChannel : Type 0 where
  pub number : ℕ
  pub peer_ip : ℕ
  pub peer_port : ℕ
  pub expires_at : ℕ
  pub occupied : ℕ

pub record TurnAllocation : Type 0 where
  pub id : ℕ
  pub client_ip : ℕ
  pub client_port : ℕ
  pub relay_ip : ℕ
  pub relay_port : ℕ
  pub expires_at : ℕ
  pub occupied : ℕ
  pub permissions : List TurnPermission
  pub channels : List TurnChannel

pub record TurnManager : Type 0 where
  pub allocs : List TurnAllocation
  pub alloc_count : ℤ
  pub next_id : ℕ
  pub next_port : ℕ
  pub relay_ip : ℕ

abbrev pub empty_permission : TurnPermission
empty_permission = record { peer_ip = 0; expires_at = 0; occupied = 0 }

abbrev pub empty_channel : TurnChannel
empty_channel = record { number = 0; peer_ip = 0; peer_port = 0; expires_at = 0; occupied = 0 }

-- ClearAllocation, which overwrites every field.
abbrev pub cleared : TurnAllocation
cleared = record {
  id = 0;
  client_ip = 0;
  client_port = 0;
  relay_ip = 0;
  relay_port = 0;
  expires_at = 0;
  occupied = 0;
  permissions = replicate max_permissions empty_permission;
  channels = replicate max_channels empty_channel;
}

-- TurnInit.
unfoldable pub init : ℕ → TurnManager
init relay_ip = record {
  allocs = replicate max_allocations cleared;
  alloc_count = pos 0;
  next_id = 1;
  next_port = first_port;
  relay_ip = relay_ip;
}

-- `NowNs() + seconds * 1000000000ULL` on 64 bits.
abbrev pub deadline : ℕ → ℕ → ℕ
deadline now seconds = (now + seconds * 1000000000) % 2 ^ 64

-- The two tests of TurnAllocate on the lifetime.
unfoldable pub allocate_lifetime : ℤ → ℕ
allocate_lifetime (negsuc n) = default_lifetime
allocate_lifetime (pos n) =
    let asked = if n == 0 then default_lifetime else n in
    if ltb max_lifetime asked then max_lifetime else asked

-- `static_cast<uint64_t>(lifetime)` of TurnRefresh, after its test of the upper bound.
unfoldable pub refresh_lifetime : ℤ → ℕ
refresh_lifetime (negsuc n) = 2 ^ 64 - suc n
refresh_lifetime (pos n) = if ltb max_lifetime n then max_lifetime else n

abbrev pub at_limit : ℤ → Bool
at_limit (pos n) = leb max_allocations n
at_limit (negsuc n) = false

abbrev pub is_zero : ℤ → Bool
is_zero (pos n) = n == 0
is_zero (negsuc n) = false

abbrev pub is_free : TurnAllocation → Bool
is_free a = a.occupied == 0

abbrev pub is_live : TurnAllocation → Bool
is_live a = a.occupied == 1

-- `a->occupied == 1 && a->id == alloc_id`.
abbrev pub has_id : ℕ → TurnAllocation → Bool
has_id alloc_id a = is_live a && (a.id == alloc_id)

-- The test of TurnFindAlloc.
abbrev pub has_client : ℕ → ℕ → TurnAllocation → Bool
has_client ip port a = is_live a && ((a.client_ip == ip) && (a.client_port == port))

-- `next_port++`, back to the first port after the last one.
unfoldable pub port_after : ℕ → ℕ
port_after port = let next = (port + 1) % 2 ^ 16 in if next == 0 then first_port else next

abbrev pub allocated : TurnManager → TurnAllocation → ℕ → ℕ → ℕ → TurnAllocation
allocated m a client_ip client_port expires_at = record a {
  id = m.next_id;
  client_ip = client_ip;
  client_port = client_port;
  relay_ip = m.relay_ip;
  relay_port = m.next_port;
  expires_at = expires_at;
  occupied = 1;
}

-- TurnAllocate: the loop for an empty slot.
unfoldable pub allocate_at :
    TurnManager → ℕ → ℕ → ℕ → Option (ℕ × TurnAllocation) → Option ℕ × TurnManager
allocate_at m client_ip client_port expires_at none = (none, m)
allocate_at m client_ip client_port expires_at (some (i, a)) = (
  some i,
  record m {
    allocs = set m.allocs i (allocated m a client_ip client_port expires_at);
    next_id = (m.next_id + 1) % 2 ^ 32;
    next_port = port_after m.next_port;
    alloc_count = suc_int m.alloc_count;
  },
)

-- TurnAllocate.
unfoldable pub allocate : TurnManager → ℕ → ℕ → ℕ → ℤ → Option ℕ × TurnManager
unfolding allocate_at allocate_lifetime
allocate m now client_ip client_port lifetime =
    if at_limit m.alloc_count
    then (none, m)
    else allocate_at m client_ip client_port (deadline now (allocate_lifetime lifetime))
        (find_slot is_free m.allocs)

abbrev pub release : TurnManager → ℕ → TurnManager
release m i = record m { allocs = set m.allocs i cleared; alloc_count = pred_int m.alloc_count }

-- TurnRefresh: the body of the loop at the allocation.
unfoldable pub refresh_at : TurnManager → ℕ → ℤ → Option (ℕ × TurnAllocation) → Bool × TurnManager
unfolding refresh_lifetime
refresh_at m now lifetime none = (false, m)
refresh_at m now lifetime (some (i, a)) = if is_zero lifetime then (true, release m i) else (
  true,
  record m {
    allocs = set m.allocs i (record a { expires_at = deadline now (refresh_lifetime lifetime) });
  },
)

-- TurnRefresh.
unfoldable pub refresh : TurnManager → ℕ → ℕ → ℤ → Bool × TurnManager
unfolding refresh_at
refresh m now alloc_id lifetime = refresh_at m now lifetime (find_slot (has_id alloc_id) m.allocs)

-- TurnDeallocate: the body of the loop at the allocation.
unfoldable pub deallocate_at : TurnManager → Option (ℕ × TurnAllocation) → TurnManager
deallocate_at m none = m
deallocate_at m (some (i, a)) = release m i

-- TurnDeallocate.
unfoldable pub deallocate : TurnManager → ℕ → TurnManager
unfolding deallocate_at
deallocate m alloc_id = deallocate_at m (find_slot (has_id alloc_id) m.allocs)

-- TurnFindAlloc.
unfoldable pub find_alloc : TurnManager → ℕ → ℕ → Option (ℕ × TurnAllocation)
find_alloc m client_ip client_port = find_slot (has_client client_ip client_port) m.allocs

abbrev pub permits : ℕ → TurnPermission → Bool
permits peer_ip p = (p.occupied == 1) && (p.peer_ip == peer_ip)

abbrev pub is_vacant : TurnPermission → Bool
is_vacant p = p.occupied == 0

-- TurnCreatePermission: the second loop, for an empty slot.
unfoldable pub permit_new :
    List TurnPermission → ℕ → ℕ → Option (ℕ × TurnPermission) → Bool × List TurnPermission
permit_new ps peer_ip expires none = (false, ps)
permit_new ps peer_ip expires (some (i, p)) =
    (true, set ps i (record { peer_ip = peer_ip; expires_at = expires; occupied = 1 }))

-- TurnCreatePermission: the first loop, for the same peer.
unfoldable pub permit_at :
    List TurnPermission → ℕ → ℕ → Option (ℕ × TurnPermission) → Bool × List TurnPermission
unfolding permit_new
permit_at ps peer_ip expires (some (i, p)) = (true, set ps i (record p { expires_at = expires }))
permit_at ps peer_ip expires none = permit_new ps peer_ip expires (find_slot is_vacant ps)

-- The two loops of TurnCreatePermission.
unfoldable pub permit : List TurnPermission → ℕ → ℕ → Bool × List TurnPermission
unfolding permit_at
permit ps peer_ip expires = permit_at ps peer_ip expires (find_slot (permits peer_ip) ps)

-- TurnCreatePermission, from the allocation on.
unfoldable pub create_permission_at :
    TurnManager → ℕ → ℕ → Option (ℕ × TurnAllocation) → Bool × TurnManager
create_permission_at m now peer_ip none = (false, m)
create_permission_at m now peer_ip (some (i, a)) =
    let (done, ps) = permit a.permissions peer_ip (deadline now 300) in
    (done, record m { allocs = set m.allocs i (record a { permissions = ps }) })

-- TurnCreatePermission.
unfoldable pub create_permission : TurnManager → ℕ → ℕ → ℕ → Bool × TurnManager
unfolding create_permission_at
create_permission m now alloc_id peer_ip =
    create_permission_at m now peer_ip (find_slot (has_id alloc_id) m.allocs)

-- The test of TurnCheckPermission.
abbrev pub permits_at : ℕ → ℕ → TurnPermission → Bool
permits_at now peer_ip p = permits peer_ip p && ltb now p.expires_at

abbrev pub is_some {ℓ} : {A : Type ℓ} → Option A → Bool
is_some none = false
is_some (some x) = true

-- TurnCheckPermission.
unfoldable pub check_permission : TurnAllocation → ℕ → ℕ → Bool
check_permission a now peer_ip = is_some (find? (permits_at now peer_ip) a.permissions)

abbrev pub has_number : ℕ → TurnChannel → Bool
has_number channel c = (c.occupied == 1) && (c.number == channel)

abbrev pub is_unbound : TurnChannel → Bool
is_unbound c = c.occupied == 0

-- TurnChannelBind: the second loop, for an empty slot.
unfoldable pub bind_new :
    List TurnChannel → TurnChannel → Option (ℕ × TurnChannel) → Bool × List TurnChannel
bind_new cs v none = (false, cs)
bind_new cs v (some (i, c)) = (true, set cs i v)

-- TurnChannelBind: the first loop, for the same channel number.
unfoldable pub bind_at :
    List TurnChannel → TurnChannel → Option (ℕ × TurnChannel) → Bool × List TurnChannel
unfolding bind_new
bind_at cs v (some (i, c)) =
    if (c.peer_ip == v.peer_ip) && (c.peer_port == v.peer_port)
    then (true, set cs i (record c { expires_at = v.expires_at }))
    else (false, cs)
bind_at cs v none = bind_new cs v (find_slot is_unbound cs)

-- The two loops of TurnChannelBind, for the binding `v`.
unfoldable pub bind : List TurnChannel → TurnChannel → Bool × List TurnChannel
unfolding bind_at
bind cs v = bind_at cs v (find_slot (has_number v.number) cs)

abbrev pub binding : ℕ → ℕ → ℕ → ℕ → TurnChannel
binding channel peer_ip peer_port expires = record {
  number = channel;
  peer_ip = peer_ip;
  peer_port = peer_port;
  expires_at = expires;
  occupied = 1;
}

-- TurnChannelBind, from the allocation on.
unfoldable pub channel_bind_at :
    TurnManager → TurnChannel → Option (ℕ × TurnAllocation) → Bool × TurnManager
channel_bind_at m v none = (false, m)
channel_bind_at m v (some (i, a)) =
    let (done, cs) = bind a.channels v in
    (done, record m { allocs = set m.allocs i (record a { channels = cs }) })

-- TurnChannelBind.
unfoldable pub channel_bind : TurnManager → ℕ → ℕ → ℕ → ℕ → ℕ → Bool × TurnManager
unfolding channel_bind_at
channel_bind m now alloc_id channel peer_ip peer_port =
    if ltb channel channel_min || ltb channel_max channel
    then (false, m)
    else channel_bind_at m (binding channel peer_ip peer_port (deadline now 600))
        (find_slot (has_id alloc_id) m.allocs)

-- The test of TurnFindChannel.
abbrev pub bound_at : ℕ → ℕ → TurnChannel → Bool
bound_at now channel c = has_number channel c && ltb now c.expires_at

-- TurnFindChannel.
unfoldable pub find_channel : TurnAllocation → ℕ → ℕ → Option TurnChannel
find_channel a now channel = find? (bound_at now channel) a.channels

abbrev pub permission_is_stale : ℕ → TurnPermission → Bool
permission_is_stale now p = (p.occupied == 1) && leb p.expires_at now

-- TurnExpire: the loop over the permissions of an allocation, with `expired` so far.
unfoldable pub expire_permissions : ℕ → ℕ → List TurnPermission → ℕ × List TurnPermission
expire_permissions now expired [] = (expired, [])
expire_permissions now expired (p ∷ ps) =
    let stale = permission_is_stale now p in
    let (total, rest) = expire_permissions now (if stale then suc expired else expired) ps in
    (total, (if stale then empty_permission else p) ∷ rest)

abbrev pub channel_is_stale : ℕ → TurnChannel → Bool
channel_is_stale now c = (c.occupied == 1) && leb c.expires_at now

-- TurnExpire: the loop over the channels of an allocation.
unfoldable pub expire_channels : ℕ → ℕ → List TurnChannel → ℕ × List TurnChannel
expire_channels now expired [] = (expired, [])
expire_channels now expired (c ∷ cs) =
    let stale = channel_is_stale now c in
    let (total, rest) = expire_channels now (if stale then suc expired else expired) cs in
    (total, (if stale then empty_channel else c) ∷ rest)

-- What TurnExpire does at one slot: the allocation, the change of alloc_count and `expired`.
unfoldable pub expire_alloc : ℕ → ℤ → ℕ → TurnAllocation → TurnAllocation × ℤ × ℕ
expire_alloc now alloc_count expired a =
    let (more, ps) = expire_permissions now expired a.permissions in
    let (total, cs) = expire_channels now more a.channels in
    if is_live a
    then if leb a.expires_at now
      then (cleared, pred_int alloc_count, suc expired)
      else (record a { permissions = ps; channels = cs }, alloc_count, total)
    else (a, alloc_count, expired)

-- The loop of TurnExpire over the slots.
unfoldable pub expire_allocs : ℕ → ℤ → ℕ → List TurnAllocation → List TurnAllocation × ℤ × ℕ
expire_allocs now alloc_count expired [] = ([], alloc_count, expired)
expire_allocs now alloc_count expired (a ∷ rest) =
    let (b, left, more) = expire_alloc now alloc_count expired a in
    let (bs, last, total) = expire_allocs now left more rest in (b ∷ bs, last, total)

-- TurnExpire.
unfoldable pub expire : TurnManager → ℕ → ℕ × TurnManager
unfolding expire_allocs
expire m now =
    let (allocs, alloc_count, expired) = expire_allocs now m.alloc_count 0 m.allocs in
    (expired, record m { allocs = allocs; alloc_count = alloc_count })
