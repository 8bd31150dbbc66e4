-- ===== src/Peers/Rules.antt =====
-- Forwarding rules, HdPeersAddRule and HdPeersRemoveRule of src/hd_peers.cc, and the listing of
-- HdPeersList.
use hyper_derp.Prelude.{
  ℕ, suc, ◌<◌, ◌≡◌, ◌≢◌, refl, ap, sym, ◌∙◌, ◌⊎◌, inl, inr, Bool, true, false, none, some, List,
  get_elem?, set, arith, Bool-cases, All-get,
}
use hyper_derp.Prelude.Int.{suc_int, pred_int}
use hyper_derp.Prelude.Slots.{find_slot-cases, count, count-set, find?-set_only}
use hyper_derp.Peers.{
  HdPeer, HdPeerRegistry, HdForwardRule, empty_rule, is_rule, is_free_rule, rules_full, with_rule,
  without_rule, write_peer, add_rule_at, remove_rule_at, IsMemcmp, has_key, lookup, add_rule,
  remove_rule, has_dst,
}
use hyper_derp.Peers.Invariant.{HasRules, IsRegistry}
use hyper_derp.Peers.Lookup.{peer, peer_find}

module _ (same_key : List ℕ → List ℕ → Bool) where
  -- How often a destination stands in the rules of a peer.
  abbrev pub rule_copies : HdPeer → List ℕ → ℕ
  rule_copies p dst = count (has_dst same_key dst) p.rules

  -- The peer of a key after a write to its slot.
  written :
      (r : HdPeerRegistry) (key : List ℕ) (i : ℕ) (x v : HdPeer)
      → IsRegistry same_key r
      → get_elem? r.peers i ≡ some x
      → has_key same_key key x ≡ true
      → has_key same_key key v ≡ true
      → peer same_key (record r { peers = set r.peers i v }) key ≡ some v
  written r key i x v ok at hit hit' =
      peer_find same_key (record r { peers = set r.peers i v }) key
      ∙ find?-set_only (has_key same_key key) r.peers i x v at (ok.one_slot key) hit hit'

  -- On a well-formed registry, HdPeersAddRule of an enrolled peer with fewer than 16 rules
  -- succeeds and adds one copy of the destination, also where it stands there already; another
  -- destination keeps its copies, for keys compared as sodium_memcmp compares them.
  pub add_rule-copies :
      IsMemcmp same_key
      → (r : HdPeerRegistry) (key dst other : List ℕ) (p : HdPeer) → IsRegistry same_key r
      → peer same_key r key ≡ some p
      → count is_rule p.rules < 16
      → other ≢ dst
      → ((add_rule same_key r key dst).0 ≡ true)
        × ((q : HdPeer) × (peer same_key (add_rule same_key r key dst).1 key ≡ some q)
            × (rule_copies q dst ≡ suc (rule_copies p dst))
            × (rule_copies q other ≡ rule_copies p other))
  unfolding add_rule lookup add_rule_at rules_full with_rule write_peer
  add_rule-copies memcmp r key dst other p ok h room ne =
      elim (find_slot-cases (has_key same_key key) r.peers) [
        | inl (e, absent, _) ↦ absurd (some_none (sym h ∙ peer_find same_key r key ∙ absent))
        | inr (i, x, e, at, hit, there) ↦
            let eq : x ≡ p = some_inj (sym there ∙ sym (peer_find same_key r key) ∙ h) in
            rw e (go i x at hit eq)
      ]
    where
      some_none : ¬ (some p ≡ none)
      some_none e = cc

      some_inj : {x y : HdPeer} → some x ≡ some y → x ≡ y
      some_inj e = cc

      unlike : same_key dst other ≡ false
      unlike = elim (Bool-cases (same_key dst other)) [
        | inl t ↦ absurd (ne (sym ((memcmp dst other).0 t)))
        | inr f ↦ f
      ]

      go :
          (i : ℕ) (x : HdPeer)
          → get_elem? r.peers i ≡ some x
          → has_key same_key key x ≡ true
          → x ≡ p
          → ((add_rule_at r dst (some (i, x))).0 ≡ true)
            × ((q : HdPeer) × (peer same_key (add_rule_at r dst (some (i, x))).1 key ≡ some q)
                × (rule_copies q dst ≡ suc (rule_copies p dst))
                × (rule_copies q other ≡ rule_copies p other))
      go i x at hit eq =
          let rules_ok = All-get HasRules r.peers i x ok.rules_ok at in
          let vacant : rules_full x.rule_count ≡ false =
            rw rules_ok.rules_counted (ground (arith, ap (λ q. count is_rule q.rules) eq)) in
          rw vacant (elim (find_slot-cases is_free_rule x.rules) [
            | inl (_, _, none_free) ↦
                absurd (
                  omega
                    (arith, rules_ok.rules_split, none_free, ap (λ q. count is_rule q.rules) eq))
            | inr (j, y, e, at', free, _) ↦
                let rule : HdForwardRule = record { dst_key = dst; rule_occupied = 1 } in
                let v : HdPeer = record x {
                  rules = set x.rules j rule;
                  rule_count = suc_int x.rule_count;
                } in
                rw (e, with_rule, write_peer)
                  (
                    refl,
                    (
                      v,
                      written r key i x v ok at hit hit,
                      ground (
                        arith,
                        count-set (has_dst same_key dst) x.rules j y rule at',
                        (memcmp dst dst).1 refl,
                        ap (λ q. count (has_dst same_key dst) q.rules) eq,
                      ),
                      ground (
                        arith,
                        count-set (has_dst same_key other) x.rules j y rule at',
                        unlike,
                        ap (λ q. count (has_dst same_key other) q.rules) eq,
                      ),
                    ),
                  )
          ])

  -- On a well-formed registry, HdPeersRemoveRule of an enrolled peer clears one copy of the
  -- destination where there is one, and else reports false and changes nothing.
  pub remove_rule-copies :
      (r : HdPeerRegistry) (key dst : List ℕ) (p : HdPeer)
      → IsRegistry same_key r
      → peer same_key r key ≡ some p
      → ((rule_copies p dst ≡ 0) × (remove_rule same_key r key dst ≡ (false, r)))
        ⊎ ((q : HdPeer) × ((remove_rule same_key r key dst).0 ≡ true)
            × (peer same_key (remove_rule same_key r key dst).1 key ≡ some q)
            × (suc (rule_copies q dst) ≡ rule_copies p dst))
  unfolding remove_rule lookup remove_rule_at without_rule write_peer
  remove_rule-copies r key dst p ok h = elim (find_slot-cases (has_key same_key key) r.peers) [
    | inl (e, absent, _) ↦ absurd (some_none (sym h ∙ peer_find same_key r key ∙ absent))
    | inr (i, x, e, at, hit, there) ↦
        let eq : x ≡ p = some_inj (sym there ∙ sym (peer_find same_key r key) ∙ h) in
        rw e (go i x at hit eq)
  ]
    where
      some_none : ¬ (some p ≡ none)
      some_none e = cc

      some_inj : {x y : HdPeer} → some x ≡ some y → x ≡ y
      some_inj e = cc

      go :
          (i : ℕ) (x : HdPeer)
          → get_elem? r.peers i ≡ some x
          → has_key same_key key x ≡ true
          → x ≡ p
          → ((rule_copies p dst ≡ 0) × (remove_rule_at same_key r dst (some (i, x)) ≡ (false, r)))
            ⊎ ((q : HdPeer) × ((remove_rule_at same_key r dst (some (i, x))).0 ≡ true)
                × (peer same_key (remove_rule_at same_key r dst (some (i, x))).1 key ≡ some q)
                × (suc (rule_copies q dst) ≡ rule_copies p dst))
      go i x at hit eq = elim (find_slot-cases (has_dst same_key dst) x.rules) [
        | inl (e, _, none_there) ↦ inl (
          sym (ap (λ q. rule_copies q dst) eq) ∙ none_there,
          rw (e, without_rule, write_peer) refl,
        )
        | inr (j, y, e, at', match, _) ↦
            let v : HdPeer = record x {
              rules = set x.rules j empty_rule;
              rule_count = pred_int x.rule_count;
            } in
            rw (e, without_rule, write_peer)
              (inr (
                v,
                refl,
                written r key i x v ok at hit hit,
                ground (
                  arith,
                  count-set (has_dst same_key dst) x.rules j y empty_rule at',
                  ap (λ q. count (has_dst same_key dst) q.rules) eq,
                ),
              ))
      ]
