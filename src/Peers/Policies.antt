-- ===== src/Peers/Policies.antt =====
-- The routing policies of peers, which src/hd_peers.cc keeps in an array parallel to the peers:
-- HdPeersLookupPolicy, HdPeersSetPolicy, HdPeersClearPolicy, and what becomes of a policy when its
-- peer is removed and the slot is taken again.
use hyper_derp.Prelude.{
  ℕ, ◌≡◌, ◌≢◌, refl, ap, sym, ◌∙◌, inl, inr, Bool, true, none, some, List, get_elem?, arith,
  get_elem?-set_self, get_elem?-set_ne, get_elem?-lt,
}
use hyper_derp.Prelude.Int.{ℤ}
use hyper_derp.Prelude.Slots.{find_slot-cases, find_slot-found, find_slot-set_new}
use hyper_derp.Resolver.{HdPeerPolicy}
use hyper_derp.Peers.{
  HdPeer, HdPeerRegistry, is_vacant, enrolled, insert_new, empty_policy, insert_at, bury,
  put_policy, policy_at, IsMemcmp, has_key, lookup, lookup_policy, set_policy, clear_policy, insert,
  remove,
}
use hyper_derp.Peers.Invariant.{IsRegistry}

module _ (same_key : List ℕ → List ℕ → Bool) where
  put_policy-lookup :
      (policy : HdPeerPolicy) (r : HdPeerRegistry) (key : List ℕ) (i : ℕ) (p : HdPeer)
      → IsRegistry same_key r
      → lookup same_key r key ≡ some (i, p)
      → ((put_policy r policy (lookup same_key r key)).0 ≡ true)
        × (lookup_policy same_key (put_policy r policy (lookup same_key r key)).1 key ≡ some policy)
  unfolding lookup_policy put_policy policy_at lookup
  put_policy-lookup policy r key i p ok h =
      let found = find_slot-found (has_key same_key key) r.peers i p h in
      rw h (
        refl,
        rw h (
            get_elem?-set_self r.policies i policy
              (omega (arith, get_elem?-lt r.peers i p found.0, ok.slots, ok.policy_slots))),
      )

  put_policy-others :
      IsMemcmp same_key
      → (policy : HdPeerPolicy) (r : HdPeerRegistry) (key other : List ℕ) → other ≢ key
      → lookup_policy same_key (put_policy r policy (lookup same_key r key)).1 other
        ≡ lookup_policy same_key r other
  unfolding lookup_policy put_policy policy_at lookup
  put_policy-others memcmp policy r key other ne =
      elim (find_slot-cases (has_key same_key key) r.peers) [
        | inl (e, _, _) ↦ rw (e, put_policy) refl
        | inr (i, x, e, at, hit, _) ↦
            rw (e, put_policy)
              (elim (find_slot-cases (has_key same_key other) r.peers) [
                | inl (e', _, _) ↦ rw e' refl
                | inr (j, y, e', at', hit', _) ↦ rw e' (
                    get_elem?-set_ne r.policies i j policy
                      λ eq. ne (same_slot i j x y at at' hit hit' eq))
              ])
      ]
    where
      same_slot :
          (i j : ℕ) (x y : HdPeer)
          → get_elem? r.peers i ≡ some x
          → get_elem? r.peers j ≡ some y
          → has_key same_key key x ≡ true
          → has_key same_key other y ≡ true
          → i ≡ j
          → other ≡ key
      same_slot i j x y at at' hit hit' eq =
          let both : some x ≡ some y = sym at ∙ ap (get_elem? r.peers) eq ∙ at' in
          let one : x ≡ y = cc in
          sym ((memcmp y.key other).0 (ground arith))
          ∙ sym (ap (λ p. p.key) one)
          ∙ (memcmp x.key key).0 (ground arith)

  -- HdPeersInsert leaves the policies alone: a new peer that takes slot `i` has whatever policy
  -- that slot of the array held.
  pub insert-policy :
      IsMemcmp same_key
      → (r : HdPeerRegistry) (key : List ℕ) (fd : ℤ) (i : ℕ) → lookup same_key r key ≡ none
      → (insert same_key r key fd).0 ≡ some i
      → lookup_policy same_key (insert same_key r key fd).1 key ≡ get_elem? r.policies i
  unfolding lookup_policy policy_at lookup insert insert_new insert_at enrolled
  insert-policy memcmp r key fd i absent h = elim (find_slot-cases is_vacant r.peers) [
    | inl (e, _, _) ↦ absurd (no_slot (sym (rw (absent, e) refl) ∙ h))
    | inr (j, x, e, at, _, _) ↦
        let eq : j ≡ i = slot_inj (sym (rw (absent, e) refl) ∙ h) in
        rw
          (
            absent,
            e,
            find_slot-set_new (has_key same_key key) r.peers j x (enrolled r key fd x) at absent
                ((memcmp key key).1 refl),
          )
          (ap (get_elem? r.policies) eq)
  ]
    where
      no_slot : ¬ (none ≡ some i)
      no_slot e = cc

      slot_inj : {j : ℕ} → some j ≡ some i → j ≡ i
      slot_inj e = cc

  -- On a well-formed registry, HdPeersSetPolicy and HdPeersClearPolicy of an enrolled peer give it
  -- the new or the empty policy, and leave the policy of every other key, for keys compared as
  -- sodium_memcmp compares them.
  pub set_policy-policy :
      IsMemcmp same_key
      → (policy : HdPeerPolicy) (r : HdPeerRegistry) (key other : List ℕ) (i : ℕ) (p : HdPeer)
      → IsRegistry same_key r
      → lookup same_key r key ≡ some (i, p)
      → other ≢ key
      → ((set_policy same_key r key policy).0 ≡ true)
        × (lookup_policy same_key (set_policy same_key r key policy).1 key ≡ some policy)
        × (lookup_policy same_key (clear_policy same_key r key).1 key ≡ some empty_policy)
        × (lookup_policy same_key (set_policy same_key r key policy).1 other
            ≡ lookup_policy same_key r other)
        × (lookup_policy same_key (clear_policy same_key r key).1 other
            ≡ lookup_policy same_key r other)
  unfolding set_policy clear_policy
  set_policy-policy memcmp policy r key other i p ok h ne =
      let put = put_policy-lookup policy r key i p ok h in
      let cleared = put_policy-lookup empty_policy r key i p ok h in
      (
        put.0,
        put.1,
        cleared.1,
        put_policy-others memcmp policy r key other ne,
        put_policy-others memcmp empty_policy r key other ne,
      )

  -- When HdPeersInsert of a key that is not enrolled takes the slot of a peer just removed, the
  -- new peer has the removed peer's routing policy, for keys compared as sodium_memcmp compares
  -- them.
  pub remove-insert-policy :
      IsMemcmp same_key
      → (r : HdPeerRegistry) (old new : List ℕ) (fd : ℤ) (i : ℕ) (p : HdPeer)
      → lookup same_key r old ≡ some (i, p)
      → lookup same_key (remove same_key r old) new ≡ none
      → (insert same_key (remove same_key r old) new fd).0 ≡ some i
      → lookup_policy same_key (insert same_key (remove same_key r old) new fd).1 new
        ≡ lookup_policy same_key r old
  unfolding remove lookup_policy policy_at bury
  remove-insert-policy memcmp r old new fd i p there absent taken =
      insert-policy memcmp (remove same_key r old) new fd i absent taken ∙ rw there refl
