-- ===== src/RelayTable.antt =====
-- The routing table between relays, src/hd_relay_table.cc and include/hyper_derp/hd_relay_table.h.
-- The lock is held by every operation for its whole body, so that an operation is one step of
-- state passing. A pointer to an entry is the index of its slot, and a C string the bytes before its NUL.
use hyper_derp.Prelude.{
  ℕ, zero, suc, ◌-◌, ◌<◌, Bool, true, false, ◌&&◌, ◌||◌, not, if◌then◌else◌, ◌==◌, ltb, Option,
  none, some, List, [], ◌∷◌, ◌++◌, length, take, replicate, set,
}
use hyper_derp.Prelude.Int.{ℤ, pos, negsuc, suc_int, pred_int}
use hyper_derp.Prelude.Slots.{find_slot, find?}
pub mod Invariant
pub mod Routes
pub mod Listing

-- kMaxRelays.
abbrev pub max_relays : ℕ
max_relays = 4096

pub record RelayEntry : Type 0 where
  pub relay_id : ℕ
  pub fd : ℤ
  pub key : List ℕ
  pub name : List ℕ
  pub hops : ℕ
  pub next_hop : ℕ
  pub occupied : ℕ

-- `RelayEntry{}`.
abbrev pub empty_entry : RelayEntry
empty_entry = record {
  relay_id = 0;
  fd = negsuc 0;
  key = replicate 32 0;
  name = replicate 64 0;
  hops = 0;
  next_hop = 0;
  occupied = 0;
}

pub record RelayTable : Type 0 where
  pub entries : List RelayEntry
  pub self_id : ℕ
  pub relay_count : ℤ

abbrev pub is_occupied : RelayEntry → Bool
is_occupied e = not (e.occupied == 0)

abbrev pub is_free : RelayEntry → Bool
is_free e = e.occupied == 0

-- The test of every search for a relay.
abbrev pub has_id : ℕ → RelayEntry → Bool
has_id relay_id e = is_occupied e && (e.relay_id == relay_id)

-- RelayTableInit.
unfoldable pub init : ℕ → RelayTable
init self_id = record {
  entries = replicate max_relays empty_entry;
  self_id = self_id;
  relay_count = pos 0;
}

-- `strncpy(e.name, name, 63); e.name[63] = '\0';`
abbrev pub copy_name : List ℕ → List ℕ
copy_name name = take 63 name ++ replicate (64 - length (take 63 name)) 0

-- The assignments that RelayTableAdd makes to an entry it has found, with the name when there is one.
abbrev pub renamed : Option (List ℕ) → List ℕ → List ℕ
renamed none old = old
renamed (some name) old = copy_name name

-- The name of a new entry: a missing one leaves the empty string in the slot.
abbrev pub named : Option (List ℕ) → List ℕ → List ℕ
named none old = set old 0 0
named (some name) old = copy_name name

abbrev pub refreshed : RelayEntry → ℕ → ℤ → List ℕ → Option (List ℕ) → RelayEntry
refreshed e relay_id fd key name = record e {
  fd = fd;
  key = key;
  hops = 1;
  next_hop = relay_id;
  name = renamed name e.name;
}

abbrev pub neighbor : RelayEntry → ℕ → ℤ → List ℕ → Option (List ℕ) → RelayEntry
neighbor e relay_id fd key name = record {
  relay_id = relay_id;
  fd = fd;
  key = key;
  hops = 1;
  next_hop = relay_id;
  occupied = 1;
  name = named name e.name;
}

-- RelayTableAdd: the second loop, for an empty slot.
unfoldable pub add_new :
    RelayTable → ℕ → ℤ → List ℕ → Option (List ℕ) → Option (ℕ × RelayEntry) → Option ℕ × RelayTable
add_new t relay_id fd key name none = (none, t)
add_new t relay_id fd key name (some (i, e)) = (
  some i,
  record t {
    entries = set t.entries i (neighbor e relay_id fd key name);
    relay_count = suc_int t.relay_count;
  },
)

-- RelayTableAdd: the first loop, for the same relay.
unfoldable pub add_at :
    RelayTable → ℕ → ℤ → List ℕ → Option (List ℕ) → Option (ℕ × RelayEntry) → Option ℕ × RelayTable
unfolding add_new
add_at t relay_id fd key name (some (i, e)) =
    (some i, record t { entries = set t.entries i (refreshed e relay_id fd key name) })
add_at t relay_id fd key name none = add_new t relay_id fd key name (find_slot is_free t.entries)

-- RelayTableAdd.
unfoldable pub add : RelayTable → ℕ → ℤ → List ℕ → Option (List ℕ) → Option ℕ × RelayTable
unfolding add_at
add t relay_id fd key name =
    if relay_id == 0
    then (none, t)
    else add_at t relay_id fd key name (find_slot (has_id relay_id) t.entries)

unfoldable pub remove_at : RelayTable → Option (ℕ × RelayEntry) → RelayTable
remove_at t none = t
remove_at t (some (i, e)) = record t {
  entries = set t.entries i empty_entry;
  relay_count = pred_int t.relay_count;
}

-- RelayTableRemove.
unfoldable pub remove : RelayTable → ℕ → RelayTable
unfolding remove_at
remove t relay_id = remove_at t (find_slot (has_id relay_id) t.entries)

-- RelayTableLookup, with the entry that the pointer reaches.
unfoldable pub lookup : RelayTable → ℕ → Option (ℕ × RelayEntry)
lookup t relay_id = find_slot (has_id relay_id) t.entries

-- RelayTableUpdateRoute: the assignments to a known entry.
abbrev pub rerouted : RelayEntry → ℕ → ℕ → ℤ → RelayEntry
rerouted e hops next_hop next_hop_fd =
    if ltb hops e.hops then record e { hops = hops; next_hop = next_hop; fd = next_hop_fd } else e

-- A new entry keeps the key of the slot, and all but the first byte of its name.
abbrev pub discovered : RelayEntry → ℕ → ℕ → ℕ → ℤ → RelayEntry
discovered e relay_id hops next_hop next_hop_fd = record e {
  relay_id = relay_id;
  fd = next_hop_fd;
  hops = hops;
  next_hop = next_hop;
  occupied = 1;
  name = set e.name 0 0;
}

unfoldable pub update_new : RelayTable → ℕ → ℕ → ℕ → ℤ → Option (ℕ × RelayEntry) → RelayTable
update_new t relay_id hops next_hop next_hop_fd none = t
update_new t relay_id hops next_hop next_hop_fd (some (i, e)) = record t {
  entries = set t.entries i (discovered e relay_id hops next_hop next_hop_fd);
  relay_count = suc_int t.relay_count;
}

unfoldable pub update_at : RelayTable → ℕ → ℕ → ℕ → ℤ → Option (ℕ × RelayEntry) → RelayTable
unfolding update_new
update_at t relay_id hops next_hop next_hop_fd (some (i, e)) = record t {
  entries = set t.entries i (rerouted e hops next_hop next_hop_fd);
}
update_at t relay_id hops next_hop next_hop_fd none =
    update_new t relay_id hops next_hop next_hop_fd (find_slot is_free t.entries)

-- RelayTableUpdateRoute.
unfoldable pub update_route : RelayTable → ℕ → ℕ → ℕ → ℤ → RelayTable
unfolding update_at
update_route t relay_id hops next_hop next_hop_fd =
    if (relay_id == 0) || (relay_id == t.self_id)
    then t
    else update_at t relay_id hops next_hop next_hop_fd (find_slot (has_id relay_id) t.entries)

-- The loop of RelayTableList, with the room that is left in the arrays.
unfoldable pub list_entries : List RelayEntry → ℕ → List (ℕ × ℕ)
list_entries [] room = []
list_entries (e ∷ es) zero = []
list_entries (e ∷ es) (suc room) =
    let rest = list_entries es room in
    let skip = list_entries es (suc room) in
    if is_occupied e then (e.relay_id, e.hops) ∷ rest else skip

-- RelayTableList: what it writes to the two arrays; the number it returns is the length.
unfoldable pub list : RelayTable → ℕ → List (ℕ × ℕ)
unfolding list_entries
list t max_out = list_entries t.entries max_out
