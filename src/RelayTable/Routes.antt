-- ===== src/RelayTable/Routes.antt =====
-- The relay table as a map from relay ids to routes: what RelayTableAdd, RelayTableRemove and
-- RelayTableUpdateRoute of src/hd_relay_table.cc do to it.
use hyper_derp.Prelude.{
  ℕ, ◌≡◌, ◌≢◌, refl, ap, sym, ◌∙◌, ◌⊎◌, inl, inr, false, ◌||◌, if◌then◌else◌, ◌==◌, ltb, Option,
  none, some, List, [], ◌∷◌, get_elem?, length, set, arith, Bool-cases, ==_iff,
}
use mathlib.Core.Option
use hyper_derp.Prelude.Int.{ℤ, pos}
use hyper_derp.Prelude.Slots.{
  find_slot, find_slot-cases, find_slot-find?, find?, count, find?-set_other, find?-set_new,
  find?-set_only, find?-set_gone,
}
use hyper_derp.RelayTable.{
  RelayEntry, RelayTable, max_relays, empty_entry, is_occupied, is_free, has_id, add_new, add_at,
  add, remove_at, remove, lookup, update_new, update_at, update_route, refreshed, neighbor,
  rerouted, discovered,
}
use hyper_derp.RelayTable.Invariant.{IsTable}

-- The entry that RelayTableLookup finds.
abbrev pub route : RelayTable → ℕ → Option RelayEntry
route t relay_id = Option.map (λ h. h.1) (lookup t relay_id)

route_find : (t : RelayTable) (relay_id : ℕ) → route t relay_id ≡ find? (has_id relay_id) t.entries
unfolding lookup
route_find t relay_id = find_slot-find? (has_id relay_id) t.entries

-- No slot is free exactly when all are counted.
full : (es : List RelayEntry) → count is_free es ≡ 0 → count is_occupied es ≡ length es
unfolding count
full [] h = refl
full (e ∷ es) h = ground (arith, full es)

-- A write of relay_id's entry to a slot of that relay, or to a free slot when it has none, leaves
-- the routes to all other relays.
write-others :
    (t : RelayTable) (relay_id : ℕ) (i : ℕ) (e v : RelayEntry) (c : ℤ) (other : ℕ)
    → get_elem? t.entries i ≡ some e
    → (has_id other e ≡ false)
    → (has_id other v ≡ false)
    → route (record t { entries = set t.entries i v; relay_count = c }) other ≡ route t other
write-others t relay_id i e v c other at a b =
    route_find (record t { entries = set t.entries i v; relay_count = c }) other
    ∙ find?-set_other (has_id other) t.entries i e v at a b
    ∙ sym (route_find t other)

-- On a well-formed table, RelayTableRemove takes the route to its relay away and no other.
pub remove-route :
    (t : RelayTable) (relay_id other : ℕ)
    → IsTable t
    → (route (remove t relay_id) relay_id ≡ none)
      × (other ≢ relay_id → route (remove t relay_id) other ≡ route t other)
unfolding remove
remove-route t relay_id other ok = elim (find_slot-cases (has_id relay_id) t.entries) [
  | inl (e, f, _) ↦ rw (e, remove_at) (route_find t relay_id ∙ f, λ ne. refl)
  | inr (i, x, e, at, hit, _) ↦
      rw (e, remove_at)
        (
          route_find (remove_at t (some (i, x))) relay_id
              ∙ find?-set_gone (has_id relay_id) t.entries i x empty_entry at (ok.one_slot relay_id)
                  hit refl,
          λ ne.
              write-others t relay_id i x empty_entry (remove_at t (some (i, x))).relay_count other
                at (ground arith) refl,
        )
]

-- What RelayTableAdd leaves for its own relay: a one-hop route over the connection it is given, or,
-- with no slot for it and none free, the table as it was.
pub Added : RelayTable → ℕ → ℤ → List ℕ → Option ℕ × RelayTable → Type 0
Added t relay_id fd key (slot, t') =
    ((e : RelayEntry) × (route t' relay_id ≡ some e)
      × (slot ≢ none)
      × ((e.fd ≡ fd) × (e.key ≡ key) × (e.hops ≡ 1) × (e.next_hop ≡ relay_id)))
    ⊎ ((t' ≡ t) × (slot ≡ none) × (route t relay_id ≡ none) × (t.relay_count ≡ pos max_relays))

some_slot : (i : ℕ) → some i ≢ none
some_slot i h = cc

add_new-Added :
    (t : RelayTable) (relay_id : ℕ) (fd : ℤ) (key : List ℕ) (name : Option (List ℕ))
    → IsTable t
    → find? (has_id relay_id) t.entries ≡ none
    → Added t relay_id fd key (add_new t relay_id fd key name (find_slot is_free t.entries))
unfolding add_new Added
add_new-Added t relay_id fd key name ok absent = elim (find_slot-cases is_free t.entries) [
  | inl (e, _, none_free) ↦
      rw (e, add_new)
        (inr (
          refl,
          refl,
          route_find t relay_id ∙ absent,
          ok.counted ∙ ap pos (full t.entries none_free ∙ ok.size),
        ))
  | inr (i, x, e, at, free, _) ↦
      let v = neighbor x relay_id fd key name in
      rw (e, add_new)
        (inl (
          v,
          route_find (add_new t relay_id fd key name (some (i, x))).1 relay_id
              ∙ find?-set_new (has_id relay_id) t.entries i x v at absent
                  (ground (arith, ==_iff relay_id relay_id)),
          some_slot i,
          (refl, refl, refl, refl),
        ))
]

-- On a well-formed table, RelayTableAdd of a relay other than 0 leaves a one-hop route over the
-- given connection, or, with no slot for the relay and none free, the table as it was.
pub add-route :
    (t : RelayTable) (relay_id : ℕ) (fd : ℤ) (key : List ℕ) (name : Option (List ℕ))
    → IsTable t
    → relay_id ≢ 0
    → Added t relay_id fd key (add t relay_id fd key name)
unfolding add Added
add-route t relay_id fd key name ok ne = elim (find_slot-cases (has_id relay_id) t.entries) [
  | inl (e, absent, _) ↦ rw (nonzero, e, add_at) (add_new-Added t relay_id fd key name ok absent)
  | inr (i, x, e, at, hit, _) ↦
      let v = refreshed x relay_id fd key name in
      rw (nonzero, e, add_at)
        (inl (
          v,
          route_find (add_at t relay_id fd key name (some (i, x))).1 relay_id
              ∙ find?-set_only (has_id relay_id) t.entries i x v at (ok.one_slot relay_id) hit hit,
          some_slot i,
          (refl, refl, refl, refl),
        ))
]
  where
    nonzero : (relay_id == 0) ≡ false
    nonzero = ground arith

-- The route that an announcement leaves: a known relay is rerouted when the announced way is
-- strictly shorter and else keeps its entry; an unknown one gets the announced route, unless every
-- slot is occupied.
pub Learned : RelayTable → ℕ → ℕ → ℕ → ℤ → Option RelayEntry → RelayTable → Type 0
Learned t relay_id hops next_hop fd (some e) t' =
    route t' relay_id
    ≡ some (if ltb hops e.hops then record e { hops = hops; next_hop = next_hop; fd = fd } else e)
Learned t relay_id hops next_hop fd none t' =
    ((e : RelayEntry) × (route t' relay_id ≡ some e)
      × ((e.hops ≡ hops) × (e.next_hop ≡ next_hop) × (e.fd ≡ fd)))
    ⊎ ((t' ≡ t) × (t.relay_count ≡ pos max_relays))

add_at-others :
    (t : RelayTable) (relay_id other : ℕ) (fd : ℤ) (key : List ℕ) (name : Option (List ℕ))
    → other ≢ relay_id
    → route (add_at t relay_id fd key name (find_slot (has_id relay_id) t.entries)).1 other
      ≡ route t other
unfolding add_new add_at lookup
add_at-others t relay_id other fd key name ne = elim (find_slot-cases (has_id relay_id) t.entries) [
  | inl (e, _, _) ↦
      rw (e, add_at)
        (elim (find_slot-cases is_free t.entries) [
          | inl (e', _, _) ↦ rw (e', add_new) refl
          | inr (i, x, e', at, free, _) ↦
              rw (e', add_new)
                (write-others t relay_id i x (neighbor x relay_id fd key name)
                  (add_new t relay_id fd key name (some (i, x))).1.relay_count other at
                  (ground arith) (ground arith))
        ])
  | inr (i, x, e, at, hit, _) ↦
      rw (e, add_at)
        (write-others t relay_id i x (refreshed x relay_id fd key name) t.relay_count other at
          (ground arith) (ground arith))
]

update_at-others :
    (t : RelayTable) (relay_id other hops next_hop : ℕ) (fd : ℤ)
    → other ≢ relay_id
    → route (update_at t relay_id hops next_hop fd (find_slot (has_id relay_id) t.entries)) other
      ≡ route t other
unfolding update_new update_at lookup
update_at-others t relay_id other hops next_hop fd ne =
    elim (find_slot-cases (has_id relay_id) t.entries) [
      | inl (e, _, _) ↦
          rw (e, update_at)
            (elim (find_slot-cases is_free t.entries) [
              | inl (e', _, _) ↦ rw (e', update_new) refl
              | inr (i, x, e', at, free, _) ↦
                  rw (e', update_new)
                    (write-others t relay_id i x (discovered x relay_id hops next_hop fd)
                      (update_new t relay_id hops next_hop fd (some (i, x))).relay_count other at
                      (ground arith) (ground arith))
            ])
      | inr (i, x, e, at, hit, _) ↦
          rw (e, update_at)
            (write-others t relay_id i x (rerouted x hops next_hop fd) t.relay_count other at
              (ground arith) (ground arith))
    ]

-- RelayTableAdd and RelayTableUpdateRoute leave the routes to all other relays alone.
pub others-route :
    (t : RelayTable) (relay_id other : ℕ) (fd : ℤ) (key : List ℕ) (name : Option (List ℕ))
    (hops next_hop : ℕ)
    → other ≢ relay_id
    → (route (add t relay_id fd key name).1 other ≡ route t other)
      × (route (update_route t relay_id hops next_hop fd) other ≡ route t other)
unfolding add update_route
others-route t relay_id other fd key name hops next_hop ne = (
  elim (Bool-cases (relay_id == 0)) [
    | inl z ↦ rw z refl
    | inr n ↦ rw n (add_at-others t relay_id other fd key name ne)
  ],
  elim (Bool-cases ((relay_id == 0) || (relay_id == t.self_id))) [
    | inl z ↦ rw z refl
    | inr n ↦ rw n (update_at-others t relay_id other hops next_hop fd ne)
  ],
)
