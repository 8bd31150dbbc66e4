-- ===== src/Tests/Enrollment.antt =====
-- A concrete registry for the operations of src/hd_peers.cc.
use hyper_derp.Prelude.{
  ℕ, suc, ◌<◌, ◌≡◌, ◌≢◌, refl, ap, sym, true, none, some, List, [], ◌∷◌, replicate,
  length-replicate, All-replicate, arith,
}
use hyper_derp.Prelude.Int.{pos}
use hyper_derp.Prelude.Bytes.{same_bytes, same_bytes_iff}
use hyper_derp.Prelude.Slots.{count, count-replicate, find_slot}
use hyper_derp.HdProtocol.{require_relay}
use hyper_derp.Resolver.{HdPeerPolicy}
use hyper_derp.Peers.{
  HdPeer, HdPeerRegistry, HdPeerState, pending, manual, empty_peer, empty_policy, empty_rule,
  is_live, is_rule, has_key, lookup, insert, approve, deny, remove, revoke, is_denied, set_policy,
  clear_policy, lookup_policy, add_rule, remove_rule,
}
use hyper_derp.Peers.Invariant.{HasRules, empty-HasRules, IsRegistry, operations-IsRegistry}
use hyper_derp.Peers.Lookup.{peer, revoke-denied}
use hyper_derp.Peers.Policies.{remove-insert-policy}
use hyper_derp.Peers.Rules.{rule_copies, add_rule-copies}

abbrev alice : List ℕ
alice = replicate 32 1

abbrev bob : List ℕ
bob = replicate 32 2

abbrev alice_peer : HdPeer
alice_peer = record {
  key = alice;
  fd = pos 7;
  peer_id = 1;
  state = pending;
  occupied = 1;
  rules = replicate 16 empty_rule;
  rule_count = pos 0;
  enrolled_at = 0;
}

abbrev pinned_policy : HdPeerPolicy
pinned_policy = record {
  override_client = true;
  has_pin = true;
  pinned_intent = require_relay;
  audit_tag = [];
  reason = [];
}

-- Alice in slot 0, with a policy of hers.
abbrev registry : HdPeerRegistry
registry = record {
  peers = alice_peer ∷ replicate 4095 empty_peer;
  peer_count = pos 1;
  enroll_mode = manual;
  relay_key = replicate 32 9;
  next_peer_id = 2;
  denylist = [];
  policies = pinned_policy ∷ replicate 4095 empty_policy;
}

registry-IsRegistry : IsRegistry same_bytes registry
unfolding count
registry-IsRegistry = record {
  slots = ap suc (length-replicate 4095 empty_peer);
  policy_slots = ap suc (length-replicate 4095 empty_policy);
  counted = ap pos (sym (ap suc (count-replicate is_live 4095 empty_peer refl)));
  one_slot = λ key. ground (arith, count-replicate (has_key same_bytes key) 4095 empty_peer refl);
  rules_ok = (
    empty-HasRules alice_peer refl refl,
    All-replicate HasRules 4095 empty_peer (empty-HasRules empty_peer refl refl),
  );
  id_range = (omega arith, omega arith);
}

alice_there : lookup same_bytes registry alice ≡ some (0, alice_peer)
unfolding lookup find_slot same_bytes
alice_there = refl

alice_found : peer same_bytes registry alice ≡ some alice_peer
unfolding lookup find_slot same_bytes
alice_found = refl

bob-alice : bob ≢ alice
bob-alice e = absurd (ground (arith, e))

operations-IsRegistry_example :
    IsRegistry same_bytes (insert same_bytes registry bob (pos 8)).1
    × IsRegistry same_bytes (approve same_bytes registry bob).1
    × IsRegistry same_bytes (deny same_bytes registry bob).1
    × IsRegistry same_bytes (remove same_bytes registry bob)
    × IsRegistry same_bytes (revoke same_bytes registry bob)
    × IsRegistry same_bytes (set_policy same_bytes registry bob empty_policy).1
    × IsRegistry same_bytes (clear_policy same_bytes registry bob).1
    × IsRegistry same_bytes (add_rule same_bytes registry bob alice).1
    × IsRegistry same_bytes (remove_rule same_bytes registry bob alice).1
operations-IsRegistry_example =
    operations-IsRegistry same_bytes same_bytes_iff registry bob alice (pos 8) empty_policy
      registry-IsRegistry

revoke-denied_example :
    (is_denied same_bytes (revoke same_bytes registry alice) alice ≡ true)
    × (peer same_bytes (revoke same_bytes registry alice) alice ≡ none)
    × (bob ≢ alice
        → (is_denied same_bytes (revoke same_bytes registry alice) bob
            ≡ is_denied same_bytes registry bob)
          × (peer same_bytes (revoke same_bytes registry alice) bob ≡ peer same_bytes registry bob))
revoke-denied_example =
    revoke-denied same_bytes same_bytes_iff registry alice bob registry-IsRegistry

abbrev with_state : HdPeerState → HdPeer
with_state s = record alice_peer { state = s }

bob_absent : lookup same_bytes (remove same_bytes registry alice) bob ≡ none
unfolding lookup find_slot same_bytes remove
bob_absent = refl

bob_slot : (insert same_bytes (remove same_bytes registry alice) bob (pos 8)).0 ≡ some 0
unfolding lookup find_slot same_bytes remove insert
bob_slot = refl

remove-insert-policy_example :
    lookup_policy same_bytes
      (insert same_bytes (remove same_bytes registry alice) bob (pos 8)).1
      bob
    ≡ lookup_policy same_bytes registry alice
remove-insert-policy_example =
    remove-insert-policy same_bytes same_bytes_iff registry alice bob (pos 8) 0 alice_peer
      alice_there bob_absent bob_slot

no_rules : count is_rule alice_peer.rules < 16
unfolding count
no_rules = omega arith

add_rule-copies_example :
    ((add_rule same_bytes registry alice bob).0 ≡ true)
    × ((q : HdPeer) × (peer same_bytes (add_rule same_bytes registry alice bob).1 alice ≡ some q)
        × (rule_copies same_bytes q bob ≡ suc (rule_copies same_bytes alice_peer bob))
        × (rule_copies same_bytes q alice ≡ rule_copies same_bytes alice_peer alice))
add_rule-copies_example =
    add_rule-copies same_bytes same_bytes_iff registry alice bob alice alice_peer
      registry-IsRegistry alice_found no_rules (λ e. bob-alice (sym e))
