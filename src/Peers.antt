-- ===== src/Peers.antt =====
-- The registry of enrolled peers, src/hd_peers.cc and include/hyper_derp/hd_peers.h. Each
-- operation that writes holds the registry's lock for its whole body, so that it is one step of
-- state passing; a pointer to a peer is the index of its slot. Keys are compared by sodium_memcmp, the parameter
-- `same_key`; saving the policies and the denylist to files is left out.
use hyper_derp.Prelude.{
  ℕ, zero, suc, ◌+◌, ◌%◌, ◌^◌, ◌<◌, ◌≡◌, ◌↔◌, Bool, true, false, ◌&&◌, ◌||◌, not, if◌then◌else◌,
  ◌==◌, ltb, Option, none, some, List, [], ◌∷◌, ◌++◌, length, replicate, set, get_elem?,
}
use hyper_derp.Prelude.Int.{ℤ, pos, negsuc, suc_int, pred_int}
use hyper_derp.Prelude.Slots.{find_slot, find?}
use hyper_derp.HdProtocol.{HdIntent, prefer_direct}
use hyper_derp.Resolver.{HdPeerPolicy}
pub mod Invariant
pub mod Lookup
pub mod Policies
pub mod Rules
pub mod Access

-- kHdMaxPeers and kHdMaxForwardRules.
abbrev pub max_peers : ℕ
max_peers = 4096

abbrev pub max_forward_rules : ℕ
max_forward_rules = 16

pub data HdPeerState : Type 0 where
  pending : HdPeerState
  approved : HdPeerState
  refused : HdPeerState

pub data HdEnrollMode : Type 0 where
  manual : HdEnrollMode
  auto_approve : HdEnrollMode

pub record HdForwardRule : Type 0 where
  pub dst_key : List ℕ
  pub rule_occupied : ℕ

abbrev pub empty_rule : HdForwardRule
empty_rule = record { dst_key = replicate 32 0; rule_occupied = 0 }

-- `occupied` is 0 for an empty slot, 1 for a live peer, 2 for a tombstone.
pub record HdPeer : Type 0 where
  pub key : List ℕ
  pub fd : ℤ
  pub peer_id : ℕ
  pub state : HdPeerState
  pub occupied : ℕ
  pub rules : List HdForwardRule
  pub rule_count : ℤ
  pub enrolled_at : ℕ

abbrev pub empty_peer : HdPeer
empty_peer = record {
  key = replicate 32 0;
  fd = negsuc 0;
  peer_id = 0;
  state = pending;
  occupied = 0;
  rules = replicate max_forward_rules empty_rule;
  rule_count = pos 0;
  enrolled_at = 0;
}

abbrev pub empty_policy : HdPeerPolicy
empty_policy = record {
  override_client = false;
  has_pin = false;
  pinned_intent = prefer_direct;
  audit_tag = [];
  reason = [];
}

pub record HdPeerRegistry : Type 0 where
  pub peers : List HdPeer
  pub peer_count : ℤ
  pub enroll_mode : HdEnrollMode
  pub relay_key : List ℕ
  pub next_peer_id : ℕ
  pub denylist : List (List ℕ)
  pub policies : List HdPeerPolicy

abbrev pub is_live : HdPeer → Bool
is_live p = p.occupied == 1

abbrev pub is_vacant : HdPeer → Bool
is_vacant p = not (p.occupied == 1)

-- The test of HdPeersLookupById.
abbrev pub has_peer_id : ℕ → HdPeer → Bool
has_peer_id id p = is_live p && (p.peer_id == id)

abbrev pub is_rule : HdForwardRule → Bool
is_rule r = r.rule_occupied == 1

abbrev pub is_free_rule : HdForwardRule → Bool
is_free_rule r = r.rule_occupied == 0

-- HdPeersInit: the ids, the denylist and the policies stay.
unfoldable pub init : HdPeerRegistry → List ℕ → HdEnrollMode → HdPeerRegistry
init r relay_key mode = record r {
  relay_key = relay_key;
  enroll_mode = mode;
  peer_count = pos 0;
  peers = replicate max_peers empty_peer;
}

-- `reg->next_peer_id++; if (reg->next_peer_id == 0) reg->next_peer_id = 1;` on 16 bits.
unfoldable pub next_id : ℕ → ℕ
next_id id = if ((id + 1) % 2 ^ 16) == 0 then 1 else (id + 1) % 2 ^ 16

unfoldable pub initial_state : HdEnrollMode → HdPeerState
initial_state auto_approve = approved
initial_state manual = pending

-- HdPeersInsert: the peer in the slot that it takes.
unfoldable pub enrolled : HdPeerRegistry → List ℕ → ℤ → HdPeer → HdPeer
unfolding initial_state
enrolled r key fd p = record p {
  key = key;
  fd = fd;
  peer_id = r.next_peer_id;
  state = initial_state r.enroll_mode;
  occupied = 1;
  rule_count = pos 0;
  enrolled_at = 0;
  rules = replicate max_forward_rules empty_rule;
}

-- HdPeersInsert: the loop for a slot that is empty or a tombstone.
unfoldable pub insert_new :
    HdPeerRegistry → List ℕ → ℤ → Option (ℕ × HdPeer) → Option ℕ × HdPeerRegistry
unfolding enrolled next_id
insert_new r key fd none = (none, r)
insert_new r key fd (some (i, p)) = (
  some i,
  record r {
    peers = set r.peers i (enrolled r key fd p);
    next_peer_id = next_id r.next_peer_id;
    peer_count = suc_int r.peer_count;
  },
)

unfoldable pub insert_at :
    HdPeerRegistry → List ℕ → ℤ → Option (ℕ × HdPeer) → Option ℕ × HdPeerRegistry
unfolding insert_new
insert_at r key fd (some (i, p)) = (some i, r)
insert_at r key fd none = insert_new r key fd (find_slot is_vacant r.peers)

-- HdPeersApprove and HdPeersDeny, on the peer that the lookup found.
unfoldable pub set_state :
    HdPeerState → HdPeerRegistry → Option (ℕ × HdPeer) → Bool × HdPeerRegistry
set_state s r none = (false, r)
set_state s r (some (i, p)) = (true, record r { peers = set r.peers i (record p { state = s }) })

-- The tombstone of HdPeersRemove and HdPeersRevoke.
unfoldable pub bury : HdPeerRegistry → Option (ℕ × HdPeer) → HdPeerRegistry
bury r none = r
bury r (some (i, p)) = record r {
  peers = set r.peers i (record p { occupied = 2 });
  peer_count = pred_int r.peer_count;
}

-- HdPeersSetPolicy and HdPeersClearPolicy, at the slot of the peer.
unfoldable pub put_policy :
    HdPeerRegistry → HdPeerPolicy → Option (ℕ × HdPeer) → Bool × HdPeerRegistry
put_policy r policy none = (false, r)
put_policy r policy (some (i, p)) = (true, record r { policies = set r.policies i policy })

unfoldable pub policy_at : HdPeerRegistry → Option (ℕ × HdPeer) → Option HdPeerPolicy
policy_at r none = none
policy_at r (some (i, p)) = get_elem? r.policies i

-- HdPeersAddRule: `rule_count >= kHdMaxForwardRules`, on an int.
unfoldable pub rules_full : ℤ → Bool
rules_full (pos n) = not (ltb n max_forward_rules)
rules_full (negsuc n) = false

unfoldable pub with_rule : HdPeer → List ℕ → Option (ℕ × HdForwardRule) → Option HdPeer
with_rule p dst none = none
with_rule p dst (some (j, rule)) = some (record p {
  rules = set p.rules j (record { dst_key = dst; rule_occupied = 1 });
  rule_count = suc_int p.rule_count;
})

unfoldable pub without_rule : HdPeer → Option (ℕ × HdForwardRule) → Option HdPeer
without_rule p none = none
without_rule p (some (j, rule)) =
    some (record p { rules = set p.rules j empty_rule; rule_count = pred_int p.rule_count })

-- The peer written back to its slot, where the rule was added or removed.
unfoldable pub write_peer : HdPeerRegistry → ℕ → Option HdPeer → Bool × HdPeerRegistry
write_peer r i none = (false, r)
write_peer r i (some p) = (true, record r { peers = set r.peers i p })

unfoldable pub add_rule_at : HdPeerRegistry → List ℕ → Option (ℕ × HdPeer) → Bool × HdPeerRegistry
unfolding rules_full with_rule write_peer
add_rule_at r dst none = (false, r)
add_rule_at r dst (some (i, p)) =
    if rules_full p.rule_count
    then (false, r)
    else write_peer r i (with_rule p dst (find_slot is_free_rule p.rules))

-- The loop of HdPeersList.
unfoldable pub list_peers : List HdPeer → ℕ → List (List ℕ × HdPeerState)
list_peers [] room = []
list_peers (p ∷ ps) zero = []
list_peers (p ∷ ps) (suc room) =
    let rest = list_peers ps room in
    let skip = list_peers ps (suc room) in if is_live p then (p.key, p.state) ∷ rest else skip

-- HdPeersList: the keys and states that it writes; the number it returns is the length.
unfoldable pub list : HdPeerRegistry → ℕ → List (List ℕ × HdPeerState)
unfolding list_peers
list r max_out = list_peers r.peers max_out

unfoldable pub lookup_by_id : HdPeerRegistry → ℕ → Option (ℕ × HdPeer)
lookup_by_id r id = find_slot (has_peer_id id) r.peers

module _ (same_key : List ℕ → List ℕ → Bool) where
  -- What sodium_memcmp promises: its result is 0 exactly on equal keys.
  abbrev pub IsMemcmp : Type 0
  IsMemcmp = (a b : List ℕ) → (same_key a b ≡ true) ↔ (a ≡ b)

  -- The test of the searches for a key.
  abbrev pub has_key : List ℕ → HdPeer → Bool
  has_key key p = is_live p && same_key p.key key

  -- HdPeersLookup, with the peer that the pointer reaches.
  unfoldable pub lookup : HdPeerRegistry → List ℕ → Option (ℕ × HdPeer)
  lookup r key = find_slot (has_key key) r.peers

  unfoldable pub lookup_policy : HdPeerRegistry → List ℕ → Option HdPeerPolicy
  unfolding policy_at lookup
  lookup_policy r key = policy_at r (lookup r key)

  unfoldable pub set_policy : HdPeerRegistry → List ℕ → HdPeerPolicy → Bool × HdPeerRegistry
  unfolding put_policy lookup
  set_policy r key policy = put_policy r policy (lookup r key)

  unfoldable pub clear_policy : HdPeerRegistry → List ℕ → Bool × HdPeerRegistry
  unfolding put_policy lookup
  clear_policy r key = put_policy r empty_policy (lookup r key)

  unfoldable pub insert : HdPeerRegistry → List ℕ → ℤ → Option ℕ × HdPeerRegistry
  unfolding insert_at
  insert r key fd = insert_at r key fd (find_slot (has_key key) r.peers)

  unfoldable pub approve : HdPeerRegistry → List ℕ → Bool × HdPeerRegistry
  unfolding set_state lookup
  approve r key = set_state approved r (lookup r key)

  unfoldable pub deny : HdPeerRegistry → List ℕ → Bool × HdPeerRegistry
  unfolding set_state lookup
  deny r key = set_state refused r (lookup r key)

  unfoldable pub remove : HdPeerRegistry → List ℕ → HdPeerRegistry
  unfolding bury lookup
  remove r key = bury r (lookup r key)

  unfoldable pub in_denylist : List (List ℕ) → List ℕ → Bool
  in_denylist [] key = false
  in_denylist (k ∷ ks) key = if same_key k key then true else in_denylist ks key

  -- HdPeersIsDenied.
  unfoldable pub is_denied : HdPeerRegistry → List ℕ → Bool
  unfolding in_denylist
  is_denied r key = in_denylist r.denylist key

  -- HdPeersRevoke: the key goes to the end of the denylist, and its peer is removed.
  unfoldable pub revoke : HdPeerRegistry → List ℕ → HdPeerRegistry
  unfolding bury lookup is_denied
  revoke r key =
      let r' = if is_denied r key then r else record r { denylist = r.denylist ++ (key ∷ []) } in
      bury r' (lookup r' key)

  unfoldable pub add_rule : HdPeerRegistry → List ℕ → List ℕ → Bool × HdPeerRegistry
  unfolding add_rule_at lookup
  add_rule r peer_key dst = add_rule_at r dst (lookup r peer_key)

  abbrev pub has_dst : List ℕ → HdForwardRule → Bool
  has_dst dst rule = is_rule rule && same_key rule.dst_key dst

  unfoldable pub remove_rule_at :
      HdPeerRegistry → List ℕ → Option (ℕ × HdPeer) → Bool × HdPeerRegistry
  unfolding without_rule write_peer
  remove_rule_at r dst none = (false, r)
  remove_rule_at r dst (some (i, p)) =
      write_peer r i (without_rule p (find_slot (has_dst dst) p.rules))

  unfoldable pub remove_rule : HdPeerRegistry → List ℕ → List ℕ → Bool × HdPeerRegistry
  unfolding remove_rule_at lookup
  remove_rule r peer_key dst = remove_rule_at r dst (lookup r peer_key)
