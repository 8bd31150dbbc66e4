-- ===== src/RelayTable/Listing.antt =====
-- RelayTableList of src/hd_relay_table.cc: the routes that a relay announces.
use hyper_derp.Prelude.{
  ℕ, zero, suc, ◌≡◌, refl, ap, ◌∙◌, min, List, [], ◌∷◌, if◌then◌else◌, length, take, arith,
  Bool-cases, inl, inr, length-take,
}
use hyper_derp.Prelude.Int.{pos}
use hyper_derp.Prelude.Slots.{count}
use hyper_derp.RelayTable.{RelayEntry, RelayTable, is_occupied, list_entries, list}
use hyper_derp.RelayTable.Invariant.{IsTable}

-- The id and the hops of every occupied slot, in slot order.
unfoldable pub routes : List RelayEntry → List (ℕ × ℕ)
routes [] = []
routes (e ∷ es) = if is_occupied e then (e.relay_id, e.hops) ∷ routes es else routes es

list_entries-routes :
    (es : List RelayEntry) (room : ℕ) → list_entries es room ≡ take room (routes es)
unfolding list_entries routes
list_entries-routes [] zero = refl
list_entries-routes [] (suc room) = refl
list_entries-routes (e ∷ es) zero = refl
list_entries-routes (e ∷ es) (suc room) = elim (Bool-cases (is_occupied e)) [
  | inl t ↦ rw t (ap (λ r. (e.relay_id, e.hops) ∷ r) (list_entries-routes es room))
  | inr f ↦ rw f (list_entries-routes es (suc room))
]

length-routes : (es : List RelayEntry) → length (routes es) ≡ count is_occupied es
unfolding routes count
length-routes [] = refl
length-routes (e ∷ es) = ground (arith, length-routes es)

-- On a well-formed table with n relays, RelayTableList writes the first of the occupied slots in
-- slot order, min(max_out, n) of them.
pub list-routes :
    (t : RelayTable) (max_out n : ℕ)
    → IsTable t
    → t.relay_count ≡ pos n
    → (list t max_out ≡ take max_out (routes t.entries)) × (length (list t max_out) ≡ min max_out n)
unfolding list
list-routes t max_out n ok h = (
  list_entries-routes t.entries max_out,
  ap length (list_entries-routes t.entries max_out)
      ∙ length-take max_out (routes t.entries)
      ∙ ap (min max_out) (length-routes t.entries ∙ counted),
)
  where
    counted : count is_occupied t.entries ≡ n
    counted = ground (arith, ok.counted)
