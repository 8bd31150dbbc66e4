-- ===== src/Tests/Resolving.antt =====
-- Concrete layers for HdResolve of src/hd_resolver.cc.
use hyper_derp.Prelude.{◌≡◌, true, false, none, some}
use hyper_derp.HdProtocol.{prefer_direct, require_direct, prefer_relay, HdConnMode, direct, relayed}
use hyper_derp.Resolver.{
  HdLayerView, HdClientView, HdCapability, HdRelayPolicy, HdFleetPolicy, default_view, resolve,
  build_fleet_view, build_relay_view,
}
use hyper_derp.Resolver.Decide.{
  ruling, direct_open, relayed_open, choose, resolve_mode, resolve-permitted,
}
use hyper_derp.Resolver.Views.{resolve-policies}

abbrev relay_only : HdLayerView
relay_only = record { allowed = 2; pinned_intent = none }

abbrev pinned_direct : HdLayerView
pinned_direct = record { allowed = 3; pinned_intent = some require_direct }

abbrev asks_relay : HdClientView
asks_relay = record { intent = prefer_relay; allow_upgrade = true; allow_downgrade = false }

abbrev asks_direct : HdClientView
asks_direct = record { intent = require_direct; allow_upgrade = true; allow_downgrade = true }

abbrev capable : HdCapability
capable = record { can_direct = true }

abbrev incapable : HdCapability
incapable = record { can_direct = false }

resolve_mode_example :
    (resolve default_view default_view relay_only default_view asks_direct capable 0).mode
    ≡ choose
        (ruling default_view default_view relay_only default_view asks_direct capable)
        (direct_open default_view default_view relay_only default_view asks_direct capable)
        (relayed_open default_view default_view relay_only default_view asks_direct capable)
resolve_mode_example =
    resolve_mode default_view default_view relay_only default_view asks_direct capable

resolve-permitted_example :
    (((resolve default_view default_view default_view default_view asks_relay incapable 0).mode
        ≡ direct)
      → direct_open default_view default_view default_view default_view asks_relay incapable ≡ true)
    × (((resolve default_view default_view default_view default_view asks_relay incapable 0).mode
          ≡ relayed)
        → relayed_open default_view default_view default_view default_view asks_relay incapable
          ≡ true)
    × (((resolve default_view default_view default_view default_view asks_relay incapable 0).mode
          ≡ HdConnMode.denied)
        → (direct_open default_view default_view default_view default_view asks_relay incapable
            ≡ false)
          × (relayed_open default_view default_view default_view default_view asks_relay incapable
              ≡ false))
resolve-permitted_example =
    resolve-permitted default_view default_view default_view default_view asks_relay incapable

abbrev no_direct : HdRelayPolicy
no_direct = record {
  default_mode = prefer_direct;
  forbid_direct = true;
  forbid_relayed = false;
  max_direct_peers = 0;
  audit_relayed_traffic = true;
}

abbrev open_fleet : HdFleetPolicy
open_fleet = record {
  allow_direct = true;
  allow_relayed = true;
  require_relay_for_cross_region = false;
}

resolve-policies_example :
    ((resolve
          (build_fleet_view open_fleet)
          default_view
          (build_relay_view no_direct)
          default_view
          asks_relay
          capable
          0).mode
        ≡ direct
      → (open_fleet.allow_direct ≡ true)
        × (no_direct.forbid_direct ≡ false)
        × (capable.can_direct ≡ true))
    × ((resolve
            (build_fleet_view open_fleet)
            default_view
            (build_relay_view no_direct)
            default_view
            asks_relay
            capable
            0).mode
          ≡ relayed
        → (open_fleet.allow_relayed ≡ true) × (no_direct.forbid_relayed ≡ false))
resolve-policies_example =
    resolve-policies open_fleet default_view no_direct default_view asks_relay capable
