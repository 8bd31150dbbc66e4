-- ===== src/Tests/Relays.antt =====
-- A concrete routing table for src/hd_relay_table.cc.
use hyper_derp.Prelude.{ℕ, suc, refl, ap, sym, none, List, ◌∷◌, replicate, length-replicate, arith}
use hyper_derp.Prelude.Int.{pos}
use hyper_derp.Prelude.Slots.{count, count-replicate}
use hyper_derp.RelayTable.{
  RelayEntry, RelayTable, empty_entry, is_occupied, has_id, add, remove, update_route,
}
use hyper_derp.RelayTable.Invariant.{IsTable, operations-IsTable}

abbrev neighbor_key : List ℕ
neighbor_key = replicate 32 5

abbrev first_entry : RelayEntry
first_entry = record {
  relay_id = 10;
  fd = pos 4;
  key = neighbor_key;
  name = replicate 64 0;
  hops = 3;
  next_hop = 12;
  occupied = 1;
}

-- Relay 1, which knows a way to relay 10.
abbrev table : RelayTable
table = record {
  entries = first_entry ∷ replicate 4095 empty_entry;
  self_id = 1;
  relay_count = pos 1;
}

table-IsTable : IsTable table
unfolding count
table-IsTable = record {
  size = ap suc (length-replicate 4095 empty_entry);
  counted = ap pos (sym (ap suc (count-replicate is_occupied 4095 empty_entry refl)));
  one_slot = λ relay_id. ground (arith, count-replicate (has_id relay_id) 4095 empty_entry refl);
}

operations-IsTable_example :
    IsTable (add table 20 (pos 9) neighbor_key none).1
    × IsTable (remove table 20)
    × IsTable (update_route table 20 2 10 (pos 9))
operations-IsTable_example =
    operations-IsTable table 20 (pos 9) neighbor_key none 2 10 table-IsTable
