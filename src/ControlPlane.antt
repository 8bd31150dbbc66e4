-- ===== src/ControlPlane.antt =====
-- The registry of connected DERP peers and the list of watchers, src/control_plane.cc and
-- include/hyper_derp/control_plane.h. All of it runs under the control plane's lock or on its one
-- thread, so that an operation is one step. A pointer to a peer is the index of its slot, and the
-- map from descriptors to peers is a function.
use hyper_derp.Prelude.{
  ℕ, zero, suc, ◌+◌, ◌-◌, ◌*◌, ◌%◌, ◌^◌, ◌<◌, Bool, true, false, ◌&&◌, not, if◌then◌else◌, ◌==◌,
  ltb, leb, Option, none, some, List, [], ◌∷◌, ◌++◌, length, take, replicate, set, get_or, bit_and,
  bit_xor,
}
use hyper_derp.Prelude.Int.{ℤ, pos, negsuc, suc_int, pred_int}
use hyper_derp.Prelude.Bytes.{same_bytes}
use hyper_derp.Prelude.Slots.{find_slot}
pub mod Probing
pub mod Counting
pub mod Watchers
pub mod Handlers

-- kCpMaxPeers, kCpMaxWatchers and kMaxFd.
abbrev pub max_peers : ℕ
max_peers = 4096

abbrev pub max_watchers : ℕ
max_watchers = 64

abbrev pub max_fd : ℕ
max_fd = 65536

pub record CpPeer : Type 0 where
  pub key : List ℕ
  pub fd : ℤ
  pub occupied : ℕ
  pub preferred : ℕ

abbrev pub empty_peer : CpPeer
empty_peer = record { key = replicate 32 0; fd = negsuc 0; occupied = 0; preferred = 0 }

-- The state that the registry and the watchers keep. `watcher_fds` is the part of the array below watcher_count.
pub record ControlPlane : Type 0 where
  pub peers : List CpPeer
  pub fd_map : ℕ → Option ℕ
  pub peer_count : ℤ
  pub watcher_fds : List ℤ

abbrev pub is_live : CpPeer → Bool
is_live p = p.occupied == 1

abbrev pub has_key : List ℕ → CpPeer → Bool
has_key key p = is_live p && same_bytes p.key key

-- CpFnv1a from the hash so far, on 32 bits.
unfoldable pub fnv1a_from : List ℕ → ℕ → ℕ
fnv1a_from [] h = h
fnv1a_from (b ∷ bs) h = fnv1a_from bs ((bit_xor h b * 16777619) % 2 ^ 32)

unfoldable pub fnv1a : List ℕ → ℕ
unfolding fnv1a_from
fnv1a bs = fnv1a_from bs 2166136261

-- `(idx + i) & (kCpMaxPeers - 1)`, and the first index of a key.
abbrev pub slot_at : ℕ → ℕ → ℕ
slot_at idx i = (idx + i) % max_peers

unfoldable pub home : List ℕ → ℕ
unfolding fnv1a
home key = fnv1a key % max_peers

-- `cp->fd_map[fd] = v`, when fd is in range.
unfoldable pub map_fd : (ℕ → Option ℕ) → ℤ → Option ℕ → ℕ → Option ℕ
map_fd m (pos fd) v n = if ltb fd max_fd && (n == fd) then v else m n
map_fd m (negsuc fd) v n = m n

-- The loop of CpRegistryLookup and CpRegistryRemove with `n` rounds left: it stops at the live peer of the key and gives
-- up at a slot that was never used.
unfoldable pub probe : List CpPeer → List ℕ → ℕ → ℕ → ℕ → Option ℕ
probe peers key idx i zero = none
probe peers key idx i (suc n) =
    let p = get_or peers (slot_at idx i) empty_peer in
    let rest = probe peers key idx (suc i) n in
    if has_key key p then some (slot_at idx i) else if p.occupied == 0 then none else rest

-- CpRegistryLookup.
unfoldable pub registry_lookup : ControlPlane → List ℕ → Option ℕ
unfolding probe home
registry_lookup cp key = probe cp.peers key (home key) 0 max_peers

-- Where the loop of CpRegistryInsert stops: at the live peer of the key, or at a slot that is not live.
pub data Place : Type 0 where
  known : ℕ → Place
  vacant : ℕ → Place
  full : Place

unfoldable pub place : List CpPeer → List ℕ → ℕ → ℕ → ℕ → Place
place peers key idx i zero = full
place peers key idx i (suc n) =
    let p = get_or peers (slot_at idx i) empty_peer in
    let rest = place peers key idx (suc i) n in
    if has_key key p
    then known (slot_at idx i)
    else if not (is_live p)
    then vacant (slot_at idx i)
    else rest

unfoldable pub insert_at : ControlPlane → List ℕ → ℤ → Place → Option ℕ × ControlPlane
unfolding map_fd
insert_at cp key fd full = (none, cp)
insert_at cp key fd (known s) =
    let p = get_or cp.peers s empty_peer in
    (
      some s,
      record cp {
        peers = set cp.peers s (record p { fd = fd });
        fd_map = map_fd (map_fd cp.fd_map p.fd none) fd (some s);
      },
    )
insert_at cp key fd (vacant s) = (
  some s,
  record cp {
    peers = set cp.peers s (record { key = key; fd = fd; occupied = 1; preferred = 0 });
    fd_map = map_fd cp.fd_map fd (some s);
    peer_count = suc_int cp.peer_count;
  },
)

-- CpRegistryInsert.
unfoldable pub registry_insert : ControlPlane → List ℕ → ℤ → Option ℕ × ControlPlane
unfolding insert_at place home
registry_insert cp key fd = insert_at cp key fd (place cp.peers key (home key) 0 max_peers)

unfoldable pub remove_at : ControlPlane → Option ℕ → ControlPlane
unfolding map_fd
remove_at cp none = cp
remove_at cp (some s) =
    let p = get_or cp.peers s empty_peer in
    record cp {
      fd_map = map_fd cp.fd_map p.fd none;
      peers = set cp.peers s (record p { occupied = 2; fd = negsuc 0 });
      peer_count = pred_int cp.peer_count;
    }

-- CpRegistryRemove.
unfoldable pub registry_remove : ControlPlane → List ℕ → ControlPlane
unfolding remove_at probe home
registry_remove cp key = remove_at cp (probe cp.peers key (home key) 0 max_peers)

abbrev pub same_int : ℤ → ℤ → Bool
same_int (pos m) (pos n) = m == n
same_int (negsuc m) (negsuc n) = m == n
same_int _ _ = false

abbrev pub is_fd : ℤ → ℤ → Bool
is_fd fd w = same_int w fd

unfoldable pub add_watcher_at : ControlPlane → ℤ → Option (ℕ × ℤ) → ControlPlane
add_watcher_at cp fd (some (i, w)) = cp
add_watcher_at cp fd none =
    if leb max_watchers (length cp.watcher_fds)
    then cp
    else record cp { watcher_fds = cp.watcher_fds ++ (fd ∷ []) }

-- CpAddWatcher.
unfoldable pub add_watcher : ControlPlane → ℤ → ControlPlane
unfolding add_watcher_at
add_watcher cp fd = add_watcher_at cp fd (find_slot (is_fd fd) cp.watcher_fds)

-- The last watcher takes the place of the one that goes.
unfoldable pub remove_watcher_at : ControlPlane → Option (ℕ × ℤ) → ControlPlane
remove_watcher_at cp none = cp
remove_watcher_at cp (some (i, w)) =
    let last = length cp.watcher_fds - 1 in
    record cp {
      watcher_fds = take last (set cp.watcher_fds i (get_or cp.watcher_fds last (negsuc 0)));
    }

-- CpRemoveWatcher.
unfoldable pub remove_watcher : ControlPlane → ℤ → ControlPlane
unfolding remove_watcher_at
remove_watcher cp fd = remove_watcher_at cp (find_slot (is_fd fd) cp.watcher_fds)
