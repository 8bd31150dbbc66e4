-- ===== src/Tests/Linking.antt =====
-- A concrete roster for src/wg_relay.cc.
use hyper_derp.Prelude.{
  ◌≤◌, ◌≡◌, ◌≢◌, refl, sym, inl, inr, true, some, [], ◌∷◌, arith, All, Bool-cases, ◌∙◌,
}
use hyper_derp.Prelude.Bytes.{same_bytes, same_bytes_sound}
use hyper_derp.Prelude.Slots.{count}
use hyper_derp.WgRelay.{
  Text, inet, WgRelayPeer, WgRelay, any, erase_first, endpoint_to_v4, has_name, peer_known,
  wg_relay_peer_add, wg_relay_peer_key, wg_relay_peer_nic, wg_relay_peer_remove, wg_relay_link_add,
  wg_relay_link_remove, link_partner, link_ok, link_added, link_add_locked,
}
use hyper_derp.WgRelay.Links.{IsRoster}
use hyper_derp.WgRelay.Roster.{Kept, operations-IsRoster}
use hyper_derp.WgRelay.Partners.{wg_relay_link_add-link_partner}
use hyper_derp.WgRelay.FastPath.{forwards, Elsewhere, wg_relay_peer_remove-forwards}

abbrev alpha : WgRelayPeer
alpha = record {
  name = b'a' ∷ [];
  endpoint = inet 10 100;
  endpoint_str = [];
  pubkey_b64 = [];
  label = [];
  nic = [];
}

abbrev beta : WgRelayPeer
beta = record {
  name = b'b' ∷ [];
  endpoint = inet 20 200;
  endpoint_str = [];
  pubkey_b64 = [];
  label = [];
  nic = [];
}

-- Two peers with a link, and the entries of both directions.
abbrev two_peers : WgRelay
two_peers = record {
  peers = alpha ∷ beta ∷ [];
  links = record { a = b'a' ∷ []; b = b'b' ∷ [] } ∷ [];
  attached = true;
  attachments = (b'e' ∷ [], 3) ∷ [];
  peers_map =
      (record { ip = 10; port = 100 }, record { ip = 20; port = 200; ifindex = 3 })
      ∷ (record { ip = 20; port = 200 }, record { ip = 10; port = 100; ifindex = 3 })
      ∷ [];
}

distinct : ◌≢◌ {A = Text} (b'a' ∷ []) (b'b' ∷ [])
distinct e = absurd (ground arith)

alone : (name : Text) → count (has_name name) two_peers.peers ≤ 1
unfolding count
alone name = elim (Bool-cases (has_name name alpha)) [
  | inl a ↦ elim (Bool-cases (has_name name beta)) [
    | inl b ↦
        absurd (
          distinct
            (same_bytes_sound (b'a' ∷ []) name a ∙ sym (same_bytes_sound (b'b' ∷ []) name b)))
    | inr b ↦ rw (a, b) (omega arith)
  ]
  | inr a ↦ ground arith
]

two_peers-IsRoster : IsRoster two_peers.peers two_peers.links
unfolding count peer_known any same_bytes
two_peers-IsRoster = record {
  unique = alone;
  one_link = λ name. ground arith;
  joined = (record { known_a = refl; known_b = refl; apart = distinct }, tt);
}

operations-IsRoster_example :
    Kept
      (wg_relay_peer_add (λ host port. some (inet 30 300)) two_peers (b'c' ∷ []) (b':' ∷ []) []).1
    × Kept (wg_relay_peer_key two_peers (b'c' ∷ []) []).1
    × Kept (wg_relay_peer_nic two_peers (b'c' ∷ []) (b'e' ∷ [])).1
    × Kept (wg_relay_peer_remove two_peers (b'c' ∷ [])).1
    × Kept (wg_relay_link_add two_peers (b'c' ∷ []) (b'b' ∷ [])).1
    × Kept (wg_relay_link_remove two_peers (b'c' ∷ []) (b'b' ∷ [])).1
operations-IsRoster_example =
    operations-IsRoster two_peers (λ host port. some (inet 30 300)) (b'c' ∷ []) (b':' ∷ []) []
      (b'e' ∷ []) (b'b' ∷ []) two_peers-IsRoster

beta-Elsewhere :
    All
      (Elsewhere (record { ip = 10; port = 100 }))
      (erase_first (has_name (b'a' ∷ [])) two_peers.peers)
unfolding erase_first same_bytes endpoint_to_v4
beta-Elsewhere = (λ k e. inl (ground arith), tt)

wg_relay_peer_remove-forwards_example :
    forwards (wg_relay_peer_remove two_peers (b'a' ∷ [])).1 (record { ip = 10; port = 100 })
    ≡ forwards two_peers (record { ip = 10; port = 100 })
wg_relay_peer_remove-forwards_example =
    wg_relay_peer_remove-forwards two_peers (b'a' ∷ []) (record { ip = 10; port = 100 })
      beta-Elsewhere

-- The same peers before they are linked.
abbrev unlinked : WgRelay
unlinked = record two_peers { links = []; peers_map = [] }

added : (wg_relay_link_add unlinked (b'a' ∷ []) (b'b' ∷ [])).0 ≡ link_ok
unfolding wg_relay_link_add link_added link_add_locked same_bytes
added = refl

wg_relay_link_add-link_partner_example :
    (link_partner (wg_relay_link_add unlinked (b'a' ∷ []) (b'b' ∷ [])).1.links (b'a' ∷ [])
      ≡ b'b' ∷ [])
    × (link_partner (wg_relay_link_add unlinked (b'a' ∷ []) (b'b' ∷ [])).1.links (b'b' ∷ [])
        ≡ b'a' ∷ [])
wg_relay_link_add-link_partner_example =
    wg_relay_link_add-link_partner unlinked (b'a' ∷ []) (b'b' ∷ []) added
