-- ===== src/RelayTable/Invariant.antt =====
-- Well-formed relay tables, src/hd_relay_table.cc: every operation keeps a relay in at most one
-- slot, and relay_count at the number of occupied slots.
use hyper_derp.Prelude.{
  ℕ, suc, ◌≤◌, ◌≡◌, refl, ap, sym, ◌∙◌, ◌⊎◌, inl, inr, true, false, ◌||◌, ◌==◌, Option, none, some,
  List, get_elem?, length, set, length-set, length-replicate, arith, Bool-cases,
}
use hyper_derp.Prelude.Int.{ℤ, pos, suc_int, pred_int}
use hyper_derp.Prelude.Slots.{
  find_slot, find_slot-cases, count, count-set, count-set_le, count-replicate, find_slot-replicate,
}
use hyper_derp.RelayTable.{
  RelayEntry, RelayTable, max_relays, empty_entry, is_occupied, is_free, has_id, init, add_new,
  add_at, add, remove_at, remove, lookup, update_new, update_at, update_route, refreshed, neighbor,
  rerouted, discovered,
}

pub record IsTable (t : RelayTable) : Type 0 where
  pub size : length t.entries ≡ max_relays
  pub counted : t.relay_count ≡ pos (count is_occupied t.entries)
  pub one_slot : (relay_id : ℕ) → count (has_id relay_id) t.entries ≤ 1

-- The table of RelayTableInit is well formed and has no relay.
pub init-IsTable :
    (self_id : ℕ)
    → IsTable (init self_id) × ((relay_id : ℕ) → lookup (init self_id) relay_id ≡ none)
unfolding init lookup
init-IsTable self_id = (
  record {
    size = length-replicate 4096 empty_entry;
    counted = ap pos (sym (count-replicate is_occupied 4096 empty_entry refl));
    one_slot = λ relay_id. omega (arith, count-replicate (has_id relay_id) 4096 empty_entry refl);
  },
  λ relay_id. find_slot-replicate (has_id relay_id) 4096 empty_entry refl,
)

-- A write to slot `i`, which held `e`: what it needs to keep a table well formed.
write :
    (t : RelayTable) (i : ℕ) (e v : RelayEntry) (c : ℤ)
    → IsTable t
    → get_elem? t.entries i ≡ some e
    → c ≡ pos (count is_occupied (set t.entries i v))
    → ((relay_id : ℕ)
        → has_id relay_id v ≡ true
        → (has_id relay_id e ≡ true) ⊎ (count (has_id relay_id) t.entries ≡ 0))
    → IsTable (record t { entries = set t.entries i v; relay_count = c })
write t i e v c ok at counts fits = record {
  size = length-set t.entries i v ∙ ok.size;
  counted = counts;
  one_slot = λ relay_id.
      count-set_le (has_id relay_id) t.entries i e v at (ok.one_slot relay_id) (fits relay_id);
}

-- A write that fills a free slot, or frees an occupied one, moves relay_count with it.
filled :
    (t : RelayTable) (i : ℕ) (e v : RelayEntry)
    → IsTable t
    → get_elem? t.entries i ≡ some e
    → is_occupied e ≡ false
    → is_occupied v ≡ true
    → suc_int t.relay_count ≡ pos (count is_occupied (set t.entries i v))
filled t i e v ok at free taken =
    rw ok.counted (ap pos (ground (arith, count-set is_occupied t.entries i e v at)))

freed :
    (t : RelayTable) (i : ℕ) (e v : RelayEntry)
    → IsTable t
    → get_elem? t.entries i ≡ some e
    → is_occupied e ≡ true
    → is_occupied v ≡ false
    → pred_int t.relay_count ≡ pos (count is_occupied (set t.entries i v))
freed t i e v ok at taken free =
    let moved : suc (count is_occupied (set t.entries i v)) ≡ count is_occupied t.entries =
      ground (arith, count-set is_occupied t.entries i e v at) in
    rw (ok.counted, sym moved) refl

kept :
    (t : RelayTable) (i : ℕ) (e v : RelayEntry)
    → IsTable t
    → get_elem? t.entries i ≡ some e
    → is_occupied e ≡ is_occupied v
    → t.relay_count ≡ pos (count is_occupied (set t.entries i v))
kept t i e v ok at same =
    rw ok.counted (ap pos (ground (arith, count-set is_occupied t.entries i e v at)))

-- A new entry for a relay that has no slot keeps every relay in one slot.
fresh_fits :
    (t : RelayTable) (relay_id : ℕ) (e v : RelayEntry)
    → count (has_id relay_id) t.entries ≡ 0
    → v.relay_id ≡ relay_id
    → (id : ℕ) → has_id id v ≡ true
    → (has_id id e ≡ true) ⊎ (count (has_id id) t.entries ≡ 0)
fresh_fits t relay_id e v fresh mine id hit =
    let eq : id ≡ relay_id = ground arith in inr (rw eq fresh)

add_new-IsTable :
    (t : RelayTable) (relay_id : ℕ) (fd : ℤ) (key : List ℕ) (name : Option (List ℕ))
    → IsTable t
    → count (has_id relay_id) t.entries ≡ 0
    → IsTable (add_new t relay_id fd key name (find_slot is_free t.entries)).1
unfolding add_new
add_new-IsTable t relay_id fd key name ok fresh = elim (find_slot-cases is_free t.entries) [
  | inl (e, _, _) ↦ rw (e, add_new) ok
  | inr (i, x, e, at, free, _) ↦
      let v = neighbor x relay_id fd key name in
      rw (e, add_new)
        (write t i x v (suc_int t.relay_count) ok at (filled t i x v ok at (ground arith) refl)
          (fresh_fits t relay_id x v fresh refl))
]

add-IsTable :
    (t : RelayTable) (relay_id : ℕ) (fd : ℤ) (key : List ℕ) (name : Option (List ℕ))
    → IsTable t
    → IsTable (add t relay_id fd key name).1
unfolding add
add-IsTable t relay_id fd key name ok = elim (Bool-cases (relay_id == 0)) [
  | inl z ↦ rw z ok
  | inr n ↦ rw n (elim (find_slot-cases (has_id relay_id) t.entries) [
    | inl (e, _, none_there) ↦ rw (e, add_at) (add_new-IsTable t relay_id fd key name ok none_there)
    | inr (i, x, e, at, hit, _) ↦
        rw (e, add_at)
          (write t i x (refreshed x relay_id fd key name) t.relay_count ok at
            (kept t i x (refreshed x relay_id fd key name) ok at refl) λ id h. inl h)
  ])
]

remove-IsTable : (t : RelayTable) (relay_id : ℕ) → IsTable t → IsTable (remove t relay_id)
unfolding remove
remove-IsTable t relay_id ok = elim (find_slot-cases (has_id relay_id) t.entries) [
  | inl (e, _, _) ↦ rw (e, remove_at) ok
  | inr (i, x, e, at, hit, _) ↦
      rw (e, remove_at)
        (write t i x empty_entry (pred_int t.relay_count) ok at
          (freed t i x empty_entry ok at (ground arith) refl) λ id h. absurd (ground arith))
]

update_new-IsTable :
    (t : RelayTable) (relay_id hops next_hop : ℕ) (next_hop_fd : ℤ)
    → IsTable t
    → count (has_id relay_id) t.entries ≡ 0
    → IsTable (update_new t relay_id hops next_hop next_hop_fd (find_slot is_free t.entries))
unfolding update_new
update_new-IsTable t relay_id hops next_hop next_hop_fd ok fresh =
    elim (find_slot-cases is_free t.entries) [
      | inl (e, _, _) ↦ rw (e, update_new) ok
      | inr (i, x, e, at, free, _) ↦
          let v = discovered x relay_id hops next_hop next_hop_fd in
          rw (e, update_new)
            (write t i x v (suc_int t.relay_count) ok at (filled t i x v ok at (ground arith) refl)
              (fresh_fits t relay_id x v fresh refl))
    ]

update_route-IsTable :
    (t : RelayTable) (relay_id hops next_hop : ℕ) (next_hop_fd : ℤ)
    → IsTable t
    → IsTable (update_route t relay_id hops next_hop next_hop_fd)
unfolding update_route
update_route-IsTable t relay_id hops next_hop next_hop_fd ok =
    elim (Bool-cases ((relay_id == 0) || (relay_id == t.self_id))) [
      | inl z ↦ rw z ok
      | inr n ↦ rw n (elim (find_slot-cases (has_id relay_id) t.entries) [
        | inl (e, _, none_there) ↦
            rw (e, update_at)
              (update_new-IsTable t relay_id hops next_hop next_hop_fd ok none_there)
        | inr (i, x, e, at, hit, _) ↦
            rw (e, update_at)
              (write t i x (rerouted x hops next_hop next_hop_fd) t.relay_count ok at
                (kept t i x (rerouted x hops next_hop next_hop_fd) ok at (ground arith))
                λ id h. inl (ground arith))
      ])
    ]

-- RelayTableAdd, RelayTableRemove and RelayTableUpdateRoute keep a relay table well formed: each
-- relay in at most one of the 4096 slots, relay_count the number of occupied ones.
pub operations-IsTable :
    (t : RelayTable) (relay_id : ℕ) (fd : ℤ) (key : List ℕ) (name : Option (List ℕ))
    (hops next_hop : ℕ)
    → IsTable t
    → IsTable (add t relay_id fd key name).1
      × IsTable (remove t relay_id)
      × IsTable (update_route t relay_id hops next_hop fd)
operations-IsTable t relay_id fd key name hops next_hop ok = (
  add-IsTable t relay_id fd key name ok,
  remove-IsTable t relay_id ok,
  update_route-IsTable t relay_id hops next_hop fd ok,
)
