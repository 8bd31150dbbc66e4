-- ===== src/Peers/Invariant.antt =====
-- Well-formed peer registries, src/hd_peers.cc: every operation keeps a key in at most one live
-- slot, peer_count at the number of live peers, and each peer's rule_count at that of its rules.
use hyper_derp.Prelude.{
  ℕ, suc, ◌+◌, ◌^◌, ◌≤◌, ◌<◌, ◌≡◌, ◌≢◌, refl, ap, sym, subst, ◌∙◌, ◌⊎◌, inl, inr, Bool, true, none,
  some, List, [], ◌∷◌, ◌++◌, get_elem?, length, replicate, set, length-set, length-replicate, arith,
  Bool-cases, All, All-set, All-get, All-replicate,
}
use hyper_derp.Prelude.Int.{ℤ, pos, suc_int, pred_int}
use hyper_derp.Prelude.Slots.{
  find_slot, find_slot-cases, count, count-set, count-set_le, count-replicate, find_slot-replicate,
}
use hyper_derp.Resolver.{HdPeerPolicy}
use hyper_derp.Peers.{
  HdPeer, HdPeerRegistry, HdPeerState, HdEnrollMode, HdForwardRule, max_peers, max_forward_rules,
  empty_peer, empty_rule, is_live, is_vacant, is_rule, is_free_rule, init, next_id, enrolled,
  insert_new, insert_at, set_state, bury, put_policy, write_peer, add_rule_at, with_rule,
  without_rule, remove_rule_at, IsMemcmp, has_key, lookup, insert, approve, deny, remove, revoke,
  set_policy, clear_policy, add_rule, has_dst, remove_rule, approved, refused, empty_policy,
  rules_full, is_denied,
}

-- The 16 rule slots of a peer: each free or in use, and rule_count counts those in use.
pub record HasRules (p : HdPeer) : Type 0 where
  pub rule_slots : length p.rules ≡ max_forward_rules
  pub rules_counted : p.rule_count ≡ pos (count is_rule p.rules)
  pub rules_split : count is_rule p.rules + count is_free_rule p.rules ≡ max_forward_rules

pub record IsRegistry (same_key : List ℕ → List ℕ → Bool) (r : HdPeerRegistry) : Type 0 where
  pub slots : length r.peers ≡ max_peers
  pub policy_slots : length r.policies ≡ max_peers
  pub counted : r.peer_count ≡ pos (count is_live r.peers)
  pub one_slot : (key : List ℕ) → count (has_key same_key key) r.peers ≤ 1
  pub rules_ok : All HasRules r.peers
  pub id_range : (r.next_peer_id ≢ 0) × (r.next_peer_id < 2 ^ 16)

pub empty-HasRules :
    (p : HdPeer) → p.rules ≡ replicate 16 empty_rule → p.rule_count ≡ pos 0 → HasRules p
unfolding count
empty-HasRules p h k = record {
  rule_slots = rw h refl;
  rules_counted = rw (h, k) refl;
  rules_split = rw h refl;
}

same-HasRules :
    (p q : HdPeer) → HasRules p → q.rules ≡ p.rules → q.rule_count ≡ p.rule_count → HasRules q
same-HasRules p q ok h k = record {
  rule_slots = rw h ok.rule_slots;
  rules_counted = rw (h, k) ok.rules_counted;
  rules_split = rw h ok.rules_split;
}

-- A rule written to a free slot, and a rule cleared.
added-HasRules :
    (p : HdPeer) (j : ℕ) (x : HdForwardRule) (dst : List ℕ)
    → HasRules p
    → get_elem? p.rules j ≡ some x
    → is_free_rule x ≡ true
    → HasRules (record p {
      rules = set p.rules j (record { dst_key = dst; rule_occupied = 1 });
      rule_count = suc_int p.rule_count;
    })
added-HasRules p j x dst ok at free =
    let v : HdForwardRule = record { dst_key = dst; rule_occupied = 1 } in
    let used = count-set is_rule p.rules j x v at in
    let unused = count-set is_free_rule p.rules j x v at in
    record {
      rule_slots = length-set p.rules j v ∙ ok.rule_slots;
      rules_counted = rw ok.rules_counted (ap pos (ground (arith, used)));
      rules_split = ground (arith, used, unused, ok.rules_split);
    }

removed-HasRules :
    (p : HdPeer) (j : ℕ) (x : HdForwardRule)
    → HasRules p
    → get_elem? p.rules j ≡ some x
    → is_rule x ≡ true
    → HasRules (record p { rules = set p.rules j empty_rule; rule_count = pred_int p.rule_count })
removed-HasRules p j x ok at taken =
    let used = count-set is_rule p.rules j x empty_rule at in
    let unused = count-set is_free_rule p.rules j x empty_rule at in
    let moved : suc (count is_rule (set p.rules j empty_rule)) ≡ count is_rule p.rules =
      ground (arith, used) in
    record {
      rule_slots = length-set p.rules j empty_rule ∙ ok.rule_slots;
      rules_counted = rw (ok.rules_counted, sym moved) refl;
      rules_split = ground (arith, used, unused, ok.rules_split);
    }

next_id-range : (id : ℕ) → (next_id id ≢ 0) × (next_id id < 2 ^ 16)
unfolding next_id
next_id-range id = ground arith

module _ (same_key : List ℕ → List ℕ → Bool) where
  -- The registry of HdPeersInit is well formed, and holds no peer, whatever it held before.
  pub init-IsRegistry :
      (r : HdPeerRegistry) (relay_key : List ℕ) (mode : HdEnrollMode)
      → length r.policies ≡ max_peers
      → (r.next_peer_id ≢ 0) × (r.next_peer_id < 2 ^ 16)
      → IsRegistry same_key (init r relay_key mode)
        × ((key : List ℕ) → lookup same_key (init r relay_key mode) key ≡ none)
  unfolding init lookup
  init-IsRegistry r relay_key mode h range = (
    record {
      slots = length-replicate 4096 empty_peer;
      policy_slots = h;
      counted = ap pos (sym (count-replicate is_live 4096 empty_peer refl));
      one_slot = λ key. omega (arith, count-replicate (has_key same_key key) 4096 empty_peer refl);
      rules_ok = All-replicate HasRules 4096 empty_peer (empty-HasRules empty_peer refl refl);
      id_range = range;
    },
    λ key. find_slot-replicate (has_key same_key key) 4096 empty_peer refl,
  )

  -- A write to slot `i`, which held `e`: what it needs to keep a registry well formed.
  write :
      (r : HdPeerRegistry) (i : ℕ) (e v : HdPeer) (c : ℤ) (id : ℕ)
      → IsRegistry same_key r
      → get_elem? r.peers i ≡ some e
      → c ≡ pos (count is_live (set r.peers i v))
      → ((key : List ℕ)
          → has_key same_key key v ≡ true
          → (has_key same_key key e ≡ true) ⊎ (count (has_key same_key key) r.peers ≡ 0))
      → HasRules v
      → (id ≢ 0) × (id < 2 ^ 16)
      → IsRegistry same_key
          (record r { peers = set r.peers i v; peer_count = c; next_peer_id = id })
  write r i e v c id ok at counts fits rules range = record {
    slots = length-set r.peers i v ∙ ok.slots;
    policy_slots = ok.policy_slots;
    counted = counts;
    one_slot =
        λ key. count-set_le (has_key same_key key) r.peers i e v at (ok.one_slot key) (fits key);
    rules_ok = All-set HasRules r.peers i v ok.rules_ok rules;
    id_range = range;
  }

  -- A write that leaves the key, the life and the number of the peer.
  rewrite :
      (r : HdPeerRegistry) (i : ℕ) (e v : HdPeer)
      → IsRegistry same_key r
      → get_elem? r.peers i ≡ some e
      → v.key ≡ e.key
      → v.occupied ≡ e.occupied
      → HasRules v
      → IsRegistry same_key (record r { peers = set r.peers i v })
  rewrite r i e v ok at k o rules =
      write r i e v r.peer_count r.next_peer_id ok at
        (rw ok.counted (ap pos (ground (arith, count-set is_live r.peers i e v at))))
        (λ key hit. inl (rw (sym k, sym o) hit)) rules ok.id_range

  insert_new-IsRegistry :
      IsMemcmp same_key
      → (r : HdPeerRegistry) (key : List ℕ) (fd : ℤ) → IsRegistry same_key r
      → count (has_key same_key key) r.peers ≡ 0
      → IsRegistry same_key (insert_new r key fd (find_slot is_vacant r.peers)).1
  unfolding insert_new enrolled
  insert_new-IsRegistry memcmp r key fd ok absent = elim (find_slot-cases is_vacant r.peers) [
    | inl (e, _, _) ↦ rw (e, insert_new) ok
    | inr (i, x, e, at, vacant, _) ↦
        let v = enrolled r key fd x in
        rw (e, insert_new)
          (write r i x v (suc_int r.peer_count) (next_id r.next_peer_id) ok at
            (rw ok.counted (ap pos (ground (arith, count-set is_live r.peers i x v at))))
            (λ other hit. inr (
              subst (λ k. count (has_key same_key k) r.peers ≡ 0)
                ((memcmp key other).0 (ground arith)) absent))
            (empty-HasRules v refl refl) (next_id-range r.next_peer_id))
  ]

  insert-IsRegistry :
      IsMemcmp same_key
      → (r : HdPeerRegistry) (key : List ℕ) (fd : ℤ) → IsRegistry same_key r
      → IsRegistry same_key (insert same_key r key fd).1
  unfolding insert
  insert-IsRegistry memcmp r key fd ok = elim (find_slot-cases (has_key same_key key) r.peers) [
    | inl (e, _, absent) ↦ rw (e, insert_at) (insert_new-IsRegistry memcmp r key fd ok absent)
    | inr (i, x, e, _, _, _) ↦ rw (e, insert_at) ok
  ]

  bury-IsRegistry :
      (r : HdPeerRegistry) (key : List ℕ)
      → IsRegistry same_key r
      → IsRegistry same_key (bury r (lookup same_key r key))
  unfolding bury lookup
  bury-IsRegistry r key ok = elim (find_slot-cases (has_key same_key key) r.peers) [
    | inl (e, _, _) ↦ rw (e, bury) ok
    | inr (i, x, e, at, hit, _) ↦
        let v : HdPeer = record x { occupied = 2 } in
        let moved : suc (count is_live (set r.peers i v)) ≡ count is_live r.peers =
          ground (arith, count-set is_live r.peers i x v at) in
        rw (e, bury)
          (write r i x v (pred_int r.peer_count) r.next_peer_id ok at
            (rw (ok.counted, sym moved) refl) (λ other h. absurd (ground arith))
            (same-HasRules x v (All-get HasRules r.peers i x ok.rules_ok at) refl refl) ok.id_range)
  ]

  -- The denylist and the policies may change freely.
  pub relist :
      (r : HdPeerRegistry) (d : List (List ℕ)) (ps : List HdPeerPolicy)
      → IsRegistry same_key r
      → length ps ≡ max_peers
      → IsRegistry same_key (record r { denylist = d; policies = ps })
  relist r d ps ok h = record {
    slots = ok.slots;
    policy_slots = h;
    counted = ok.counted;
    one_slot = ok.one_slot;
    rules_ok = ok.rules_ok;
    id_range = ok.id_range;
  }

  revoke-IsRegistry :
      (r : HdPeerRegistry) (key : List ℕ)
      → IsRegistry same_key r
      → IsRegistry same_key (revoke same_key r key)
  unfolding revoke
  revoke-IsRegistry r key ok = elim (Bool-cases (is_denied same_key r key)) [
    | inl t ↦ rw t (bury-IsRegistry r key ok)
    | inr f ↦ rw f (
        bury-IsRegistry (record r { denylist = r.denylist ++ (key ∷ []) }) key
          (relist r (r.denylist ++ (key ∷ [])) r.policies ok ok.policy_slots))
  ]

  set_state-IsRegistry :
      (s : HdPeerState) (r : HdPeerRegistry) (key : List ℕ)
      → IsRegistry same_key r
      → IsRegistry same_key (set_state s r (lookup same_key r key)).1
  unfolding set_state lookup
  set_state-IsRegistry s r key ok = elim (find_slot-cases (has_key same_key key) r.peers) [
    | inl (e, _, _) ↦ rw (e, set_state) ok
    | inr (i, x, e, at, hit, _) ↦
        rw (e, set_state)
          (rewrite r i x (record x { state = s }) ok at refl refl
            (same-HasRules x (record x { state = s }) (All-get HasRules r.peers i x ok.rules_ok at)
              refl refl))
  ]

  put_policy-IsRegistry :
      (policy : HdPeerPolicy) (r : HdPeerRegistry) (key : List ℕ)
      → IsRegistry same_key r
      → IsRegistry same_key (put_policy r policy (lookup same_key r key)).1
  unfolding put_policy lookup
  put_policy-IsRegistry policy r key ok = elim (find_slot-cases (has_key same_key key) r.peers) [
    | inl (e, _, _) ↦ rw (e, put_policy) ok
    | inr (i, x, e, at, hit, _) ↦
        rw (e, put_policy)
          (relist r r.denylist (set r.policies i policy) ok
            (length-set r.policies i policy ∙ ok.policy_slots))
  ]

  add_rule-IsRegistry :
      (r : HdPeerRegistry) (key dst : List ℕ)
      → IsRegistry same_key r
      → IsRegistry same_key (add_rule same_key r key dst).1
  unfolding add_rule lookup
  add_rule-IsRegistry r key dst ok = elim (find_slot-cases (has_key same_key key) r.peers) [
    | inl (e, _, _) ↦ rw (e, add_rule_at) ok
    | inr (i, x, e, at, hit, _) ↦
        rw (e, add_rule_at)
          (elim (Bool-cases (rules_full x.rule_count)) [
            | inl t ↦ rw t ok
            | inr f ↦ rw f (elim (find_slot-cases is_free_rule x.rules) [
              | inl (e', _, _) ↦ rw (e', with_rule, write_peer) ok
              | inr (j, y, e', at', free, _) ↦
                  rw (e', with_rule, write_peer)
                    (rewrite r i x
                      (record x {
                        rules = set x.rules j (record { dst_key = dst; rule_occupied = 1 });
                        rule_count = suc_int x.rule_count;
                      })
                      ok at refl refl
                      (added-HasRules x j y dst (All-get HasRules r.peers i x ok.rules_ok at) at'
                        free))
            ])
          ])
  ]

  remove_rule-IsRegistry :
      (r : HdPeerRegistry) (key dst : List ℕ)
      → IsRegistry same_key r
      → IsRegistry same_key (remove_rule same_key r key dst).1
  unfolding remove_rule lookup
  remove_rule-IsRegistry r key dst ok = elim (find_slot-cases (has_key same_key key) r.peers) [
    | inl (e, _, _) ↦ rw (e, remove_rule_at) ok
    | inr (i, x, e, at, hit, _) ↦
        rw (e, remove_rule_at)
          (elim (find_slot-cases (has_dst same_key dst) x.rules) [
            | inl (e', _, _) ↦ rw (e', without_rule, write_peer) ok
            | inr (j, y, e', at', taken, _) ↦
                rw (e', without_rule, write_peer)
                  (rewrite r i x
                    (record x {
                      rules = set x.rules j empty_rule;
                      rule_count = pred_int x.rule_count;
                    })
                    ok at refl refl
                    (removed-HasRules x j y (All-get HasRules r.peers i x ok.rules_ok at) at'
                      (ground arith)))
          ])
  ]

  -- HdPeersInsert, Approve, Deny, Remove, Revoke, SetPolicy, ClearPolicy, AddRule and RemoveRule
  -- keep the peer registry well formed: no key in two live slots, peer_count the number of live
  -- peers, each rule_count the number of rules in use, for keys compared as sodium_memcmp compares
  -- them.
  pub operations-IsRegistry :
      IsMemcmp same_key
      → (r : HdPeerRegistry) (key dst : List ℕ) (fd : ℤ) (policy : HdPeerPolicy)
      → IsRegistry same_key r
      → IsRegistry same_key (insert same_key r key fd).1
        × IsRegistry same_key (approve same_key r key).1
        × IsRegistry same_key (deny same_key r key).1
        × IsRegistry same_key (remove same_key r key)
        × IsRegistry same_key (revoke same_key r key)
        × IsRegistry same_key (set_policy same_key r key policy).1
        × IsRegistry same_key (clear_policy same_key r key).1
        × IsRegistry same_key (add_rule same_key r key dst).1
        × IsRegistry same_key (remove_rule same_key r key dst).1
  unfolding approve deny remove set_policy clear_policy
  operations-IsRegistry memcmp r key dst fd policy ok = (
    insert-IsRegistry memcmp r key fd ok,
    set_state-IsRegistry approved r key ok,
    set_state-IsRegistry refused r key ok,
    bury-IsRegistry r key ok,
    revoke-IsRegistry r key ok,
    put_policy-IsRegistry policy r key ok,
    put_policy-IsRegistry empty_policy r key ok,
    add_rule-IsRegistry r key dst ok,
    remove_rule-IsRegistry r key dst ok,
  )
