-- ===== src/Tests/Registry.antt =====
-- A concrete control plane for src/control_plane.cc, and a concrete audit ring for src/hd_audit.cc.
use hyper_derp.Prelude.{
  ℕ, ◌≤◌, ◌≡◌, refl, ap, sym, true, none, some, List, [], ◌∷◌, replicate, take, map,
  length-replicate, arith,
}
use hyper_derp.Prelude.Int.{ℤ, pos, negsuc}
use hyper_derp.Prelude.Slots.{count, count-replicate}
use hyper_derp.HdProtocol.{prefer_direct}
use hyper_derp.Resolver.{HdClientView, default_decision}
use hyper_derp.ControlPlane.{ControlPlane, empty_peer, is_live, registry_lookup, registry_insert}
use hyper_derp.ControlPlane.Probing.{registry_insert-lookup}
use hyper_derp.ControlPlane.Counting.{IsCounted}
use hyper_derp.ControlPlane.Watchers.{watches, IsWatched}
use hyper_derp.Audit.{snapshot}
use hyper_derp.Audit.Snapshot.{Call, call_record, replay, snapshot-calls}

abbrev plane : ControlPlane
plane = record {
  peers = replicate 4096 empty_peer;
  fd_map = λ n. none;
  peer_count = pos 0;
  watcher_fds = pos 5 ∷ pos 6 ∷ [];
}

abbrev client : List ℕ
client = replicate 32 1

inserted : (registry_insert plane client (pos 9)).0 ≡ some 3685
unfolding registry_insert
inserted = refl

registry_insert-lookup_example :
    registry_lookup (registry_insert plane client (pos 9)).1 client ≡ some 3685
registry_insert-lookup_example =
    registry_insert-lookup plane client (pos 9) 3685 (length-replicate 4096 empty_peer) inserted

plane-IsCounted : IsCounted plane
plane-IsCounted = record {
  slots = length-replicate 4096 empty_peer;
  counted = ap pos (sym (count-replicate is_live 4096 empty_peer refl));
}

plane-IsWatched : IsWatched plane
unfolding count
plane-IsWatched = record { bounded = omega arith; once = at_most }
  where
    at_most : (fd : ℤ) → watches plane fd ≤ 1
    at_most (pos n) = ground arith
    at_most (negsuc n) = omega arith

abbrev asks : HdClientView
asks = record { intent = prefer_direct; allow_upgrade = true; allow_downgrade = true }

abbrev refusals : List Call
refusals =
    record {
      now = 20;
      from_key = client;
      to_key = client;
      from_client = asks;
      decided = default_decision;
    }
    ∷ record {
      now = 10;
      from_key = client;
      to_key = client;
      from_client = asks;
      decided = default_decision;
    }
    ∷ []

snapshot-calls_example : snapshot (replay refusals) 100 ≡ take 100 (map call_record refusals)
snapshot-calls_example = snapshot-calls refusals 100
