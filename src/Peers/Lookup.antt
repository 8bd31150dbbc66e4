-- ===== src/Peers/Lookup.antt =====
-- The registry as a map from keys to peers: what HdPeersInsert, HdPeersRemove, HdPeersRevoke,
-- HdPeersApprove and HdPeersDeny of src/hd_peers.cc do to it.
use hyper_derp.Prelude.{
  ℕ, ◌≡◌, ◌≢◌, refl, ap, sym, ◌∙◌, ◌⊎◌, inl, inr, Bool, true, false, ◌||◌, Option, none, some, List,
  [], ◌∷◌, ◌++◌, get_elem?, set, arith, Bool-cases,
}
use mathlib.Core.Option
use hyper_derp.Prelude.Int.{ℤ, pos}
use hyper_derp.Prelude.Slots.{
  find_slot-cases, find_slot-find?, find?, find?-set_other, find?-set_only, find?-set_gone,
}
use hyper_derp.Peers.{
  HdPeer, HdPeerRegistry, HdPeerState, max_peers, is_vacant, enrolled, initial_state, insert_new,
  insert_at, set_state, bury, IsMemcmp, has_key, lookup, insert, approve, deny, remove, revoke,
  approved, refused, in_denylist, is_denied,
}
use hyper_derp.Peers.Invariant.{IsRegistry, relist}

module _ (same_key : List ℕ → List ℕ → Bool) where
  -- The peer that HdPeersLookup finds.
  abbrev pub peer : HdPeerRegistry → List ℕ → Option HdPeer
  peer r key = Option.map (λ h. h.1) (lookup same_key r key)

  pub peer_find :
      (r : HdPeerRegistry) (key : List ℕ) → peer r key ≡ find? (has_key same_key key) r.peers
  unfolding lookup
  peer_find r key = find_slot-find? (has_key same_key key) r.peers

  -- What HdPeersInsert leaves: a live peer of that key as it was; or a new one with the next id, no
  -- rules, and the state of the enrollment mode; or, with all slots live, the registry as it was.
  pub Inserted : HdPeerRegistry → List ℕ → ℤ → Option ℕ × HdPeerRegistry → Type 0
  Inserted r key fd (slot, r') =
      ((p : HdPeer) × (peer r key ≡ some p) × (slot ≢ none) × (r' ≡ r))
      ⊎ ((p : HdPeer) × (peer r key ≡ none)
          × (peer r' key ≡ some p)
          × (slot ≢ none)
          × ((p.key ≡ key)
              × (p.fd ≡ fd)
              × (p.peer_id ≡ r.next_peer_id)
              × (p.state ≡ initial_state r.enroll_mode)
              × (p.rule_count ≡ pos 0)))
      ⊎ ((peer r key ≡ none) × (slot ≡ none) × (r' ≡ r) × (r.peer_count ≡ pos max_peers))

  -- A write to one key's slot leaves the peers of all other keys.
  write-others :
      (r : HdPeerRegistry) (i : ℕ) (e v : HdPeer) (c : ℤ) (id : ℕ) (other : List ℕ)
      → get_elem? r.peers i ≡ some e
      → has_key same_key other e ≡ false
      → has_key same_key other v ≡ false
      → peer (record r { peers = set r.peers i v; peer_count = c; next_peer_id = id }) other
        ≡ peer r other
  write-others r i e v c id other at a b =
      peer_find (record r { peers = set r.peers i v; peer_count = c; next_peer_id = id }) other
      ∙ find?-set_other (has_key same_key other) r.peers i e v at a b
      ∙ sym (peer_find r other)

  -- A peer that holds one key does not hold another.
  other_key :
      IsMemcmp same_key
      → (p : HdPeer) (key other : List ℕ) → has_key same_key key p ≡ true
      → other ≢ key
      → has_key same_key other p ≡ false
  other_key memcmp p key other hit ne = elim (Bool-cases (has_key same_key other p)) [
    | inl t ↦
        absurd
          (ne (sym ((memcmp p.key other).0 (ground arith)) ∙ (memcmp p.key key).0 (ground arith)))
    | inr f ↦ f
  ]

  insert-others :
      IsMemcmp same_key
      → (r : HdPeerRegistry) (key : List ℕ) (fd : ℤ) (other : List ℕ) → other ≢ key
      → peer (insert same_key r key fd).1 other ≡ peer r other
  unfolding insert insert_new enrolled lookup
  insert-others memcmp r key fd other ne = elim (find_slot-cases (has_key same_key key) r.peers) [
    | inr (i, x, e, _, _, _) ↦ rw (e, insert_at) refl
    | inl (e, _, _) ↦
        rw (e, insert_at)
          (elim (find_slot-cases is_vacant r.peers) [
            | inl (e', _, _) ↦ rw (e', insert_new) refl
            | inr (i, x, e', at, vacant, _) ↦
                rw (e', insert_new)
                  (write-others r i x (enrolled r key fd x)
                    (insert_new r key fd (some (i, x))).1.peer_count
                    (insert_new r key fd (some (i, x))).1.next_peer_id other at (ground arith)
                    (other_key memcmp (enrolled r key fd x) key other ((memcmp key key).1 refl) ne))
          ])
  ]

  bury-peer :
      IsMemcmp same_key
      → (r : HdPeerRegistry) (key other : List ℕ) → IsRegistry same_key r
      → (peer (bury r (lookup same_key r key)) key ≡ none)
        × (other ≢ key → peer (bury r (lookup same_key r key)) other ≡ peer r other)
  unfolding bury lookup
  bury-peer memcmp r key other ok = elim (find_slot-cases (has_key same_key key) r.peers) [
    | inl (e, absent, _) ↦ rw (e, bury) (peer_find r key ∙ absent, λ ne. refl)
    | inr (i, x, e, at, hit, _) ↦
        let v : HdPeer = record x { occupied = 2 } in
        rw (e, bury)
          (
            peer_find (bury r (some (i, x))) key
                ∙ find?-set_gone (has_key same_key key) r.peers i x v at (ok.one_slot key) hit refl,
            λ ne.
                write-others r i x v (bury r (some (i, x))).peer_count r.next_peer_id other at
                  (other_key memcmp x key other hit ne) refl,
          )
  ]

  -- On a well-formed registry, HdPeersRemove takes the peer of its key out and no other, for keys
  -- compared as sodium_memcmp compares them.
  pub remove-peer :
      IsMemcmp same_key
      → (r : HdPeerRegistry) (key other : List ℕ) → IsRegistry same_key r
      → (peer (remove same_key r key) key ≡ none)
        × (other ≢ key → peer (remove same_key r key) other ≡ peer r other)
  unfolding remove
  remove-peer memcmp r key other ok = bury-peer memcmp r key other ok

  set_state-peer :
      (s : HdPeerState) (r : HdPeerRegistry) (key : List ℕ) (p : HdPeer)
      → IsRegistry same_key r
      → peer r key ≡ some p
      → ((set_state s r (lookup same_key r key)).0 ≡ true)
        × (peer (set_state s r (lookup same_key r key)).1 key ≡ some (record p { state = s }))
  unfolding set_state lookup
  set_state-peer s r key p ok h = elim (find_slot-cases (has_key same_key key) r.peers) [
    | inl (e, absent, _) ↦ absurd (some_none (sym h ∙ peer_find r key ∙ absent))
    | inr (i, x, e, at, hit, there) ↦
        let eq : x ≡ p = some_inj (sym there ∙ sym (peer_find r key) ∙ h) in
        rw (e, set_state)
          (
            refl,
            peer_find (set_state s r (some (i, x))).1 key
                ∙ find?-set_only (has_key same_key key) r.peers i x (record x { state = s }) at
                    (ok.one_slot key) hit hit
                ∙ ap with_state eq,
          )
  ]
    where
      with_state : HdPeer → Option HdPeer
      with_state q = some (record q { state = s })

      some_none : ¬ (some p ≡ none)
      some_none e = cc

      some_inj : {x y : HdPeer} → some x ≡ some y → x ≡ y
      some_inj e = cc

  -- On a well-formed registry, HdPeersApprove and HdPeersDeny of an enrolled peer succeed and move
  -- it to the approved and the denied state, its other fields kept.
  pub approve-peer :
      (r : HdPeerRegistry) (key : List ℕ) (p : HdPeer)
      → IsRegistry same_key r
      → peer r key ≡ some p
      → (((approve same_key r key).0 ≡ true)
          × (peer (approve same_key r key).1 key ≡ some (record p { state = approved })))
        × (((deny same_key r key).0 ≡ true)
            × (peer (deny same_key r key).1 key ≡ some (record p { state = refused })))
  unfolding approve deny
  approve-peer r key p ok h =
      (set_state-peer approved r key p ok h, set_state-peer refused r key p ok h)

  set_state-others :
      IsMemcmp same_key
      → (s : HdPeerState) (r : HdPeerRegistry) (key other : List ℕ) → other ≢ key
      → peer (set_state s r (lookup same_key r key)).1 other ≡ peer r other
  unfolding set_state lookup
  set_state-others memcmp s r key other ne = elim (find_slot-cases (has_key same_key key) r.peers) [
    | inl (e, _, _) ↦ rw (e, set_state) refl
    | inr (i, x, e, at, hit, _) ↦
        let off = other_key memcmp x key other hit ne in
        rw (e, set_state)
          (write-others r i x (record x { state = s }) r.peer_count r.next_peer_id other at off off)
  ]

  -- HdPeersInsert, HdPeersApprove and HdPeersDeny leave the peers of all other keys alone, for
  -- keys compared as sodium_memcmp compares them.
  pub others-peer :
      IsMemcmp same_key
      → (r : HdPeerRegistry) (key : List ℕ) (fd : ℤ) (other : List ℕ) → other ≢ key
      → (peer (insert same_key r key fd).1 other ≡ peer r other)
        × (peer (approve same_key r key).1 other ≡ peer r other)
        × (peer (deny same_key r key).1 other ≡ peer r other)
  unfolding approve deny
  others-peer memcmp r key fd other ne = (
    insert-others memcmp r key fd other ne,
    set_state-others memcmp approved r key other ne,
    set_state-others memcmp refused r key other ne,
  )

  in_denylist-append :
      (d : List (List ℕ)) (k key : List ℕ)
      → in_denylist same_key (d ++ (k ∷ [])) key ≡ (in_denylist same_key d key || same_key k key)
  unfolding in_denylist
  in_denylist-append [] k key = ground arith
  in_denylist-append (x ∷ d) k key = ground (arith, in_denylist-append d k key)

  bury-denylist :
      (r : HdPeerRegistry) (key : List ℕ) → (bury r (lookup same_key r key)).denylist ≡ r.denylist
  unfolding bury lookup
  bury-denylist r key = elim (find_slot-cases (has_key same_key key) r.peers) [
    | inl (e, _, _) ↦ rw (e, bury) refl
    | inr (i, x, e, _, _, _) ↦ rw (e, bury) refl
  ]

  -- On a well-formed registry, HdPeersRevoke makes the key denied and takes its peer out; another
  -- key is denied as before and its peer stays, for keys compared as sodium_memcmp compares them.
  pub revoke-denied :
      IsMemcmp same_key
      → (r : HdPeerRegistry) (key other : List ℕ) → IsRegistry same_key r
      → (is_denied same_key (revoke same_key r key) key ≡ true)
        × (peer (revoke same_key r key) key ≡ none)
        × (other ≢ key
            → (is_denied same_key (revoke same_key r key) other ≡ is_denied same_key r other)
              × (peer (revoke same_key r key) other ≡ peer r other))
  unfolding revoke is_denied lookup
  revoke-denied memcmp r key other ok = elim (Bool-cases (in_denylist same_key r.denylist key)) [
    | inl t ↦ rw t (go r.denylist t (λ ne. refl))
    | inr f ↦ rw f (
        go (r.denylist ++ (key ∷ []))
          (in_denylist-append r.denylist key key ∙ ground (arith, (memcmp key key).1 refl))
          λ ne. in_denylist-append r.denylist key other ∙ elim (Bool-cases (same_key key other)) [
            | inl hit ↦ absurd (ne (sym ((memcmp key other).0 hit)))
            | inr miss ↦ ground arith
          ])
  ]
    where
      go :
          (d : List (List ℕ))
          → in_denylist same_key d key ≡ true
          → (other ≢ key → in_denylist same_key d other ≡ in_denylist same_key r.denylist other)
          → (in_denylist same_key
                (bury (record r { denylist = d }) (lookup same_key r key)).denylist
                key
              ≡ true)
            × (peer (bury (record r { denylist = d }) (lookup same_key r key)) key ≡ none)
            × (other ≢ key
                → (in_denylist same_key
                      (bury (record r { denylist = d }) (lookup same_key r key)).denylist
                      other
                    ≡ in_denylist same_key r.denylist other)
                  × (peer (bury (record r { denylist = d }) (lookup same_key r key)) other
                      ≡ peer r other))
      go d listed kept =
          let r' : HdPeerRegistry = record r { denylist = d } in
          let ok' = relist same_key r d r.policies ok ok.policy_slots in
          let gone = bury-peer memcmp r' key other ok' in
          let same = bury-denylist r' key in
          (rw same listed, gone.0, λ ne. (rw same (kept ne), gone.1 ne))
