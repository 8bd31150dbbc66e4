-- ===== src/WgRelay/FastPath.antt =====
-- The map that the XDP program forwards by, src/wg_relay.cc, after a link was added and a peer removed.
use hyper_derp.Prelude.{
  ◌≡◌, ◌≢◌, refl, ap, sym, subst, ◌∙◌, ◌⊎◌, inl, inr, if◌then◌else◌, Option, none, some, List, [],
  ◌∷◌, All, arith, Bool-cases, Option-cases,
}
use hyper_derp.Prelude.Slots.{find?}
use hyper_derp.WgRelay.{
  Text, WgRelayPeer, WgRelayLink, WgRelay, XdpEpKey, XdpEpVal, has_name, touches, any, erase_first,
  erase_all, same_key, endpoint_to_v4, last_named, remove_found, xdp_remove_link_dir,
  delete_converted, map_delete, xdp_remove_link_by_name, remove_touching, peer_remove_locked,
  wg_relay_peer_remove,
}

-- Where the XDP program sends what comes from an endpoint.
abbrev pub forwards : WgRelay → XdpEpKey → Option (XdpEpKey × XdpEpVal)
forwards r key = find? (same_key key) r.peers_map

erase-keeps :
    (m : List (XdpEpKey × XdpEpVal)) (key gone : XdpEpKey)
    → (key.ip ≢ gone.ip) ⊎ (key.port ≢ gone.port)
    → find? (same_key key) (erase_all (same_key gone) m) ≡ find? (same_key key) m
unfolding find? erase_all
erase-keeps [] key gone ne = refl
erase-keeps (e ∷ m) key gone ne = ground (arith, erase-keeps m key gone ne)

-- A peer whose endpoint is not the one of the key.
abbrev pub Elsewhere : XdpEpKey → WgRelayPeer → Type 0
Elsewhere key p =
    (k : XdpEpKey) → endpoint_to_v4 p.endpoint ≡ some k → (key.ip ≢ k.ip) ⊎ (key.port ≢ k.port)

remove_found-forwards :
    (r : WgRelay) (key : XdpEpKey) (o : Option WgRelayPeer)
    → ((p : WgRelayPeer) → o ≡ some p → Elsewhere key p)
    → (forwards (remove_found r o) key ≡ forwards r key) × ((remove_found r o).peers ≡ r.peers)
unfolding remove_found xdp_remove_link_dir delete_converted map_delete
remove_found-forwards r key none away = (refl, refl)
remove_found-forwards r key (some p) away = elim (Bool-cases r.attached) [
  | inr off ↦ rw off (refl, refl)
  | inl on ↦ elim (Option-cases (endpoint_to_v4 p.endpoint)) [
    | inl e ↦ rw (on, e) (refl, refl)
    | inr (k, e) ↦ rw (on, e) (erase-keeps r.peers_map key k (away p refl k e), refl)
  ]
]

last_named-All :
    (key : XdpEpKey) (name : Text) (ps : List WgRelayPeer) (found : Option WgRelayPeer)
    → All (Elsewhere key) ps
    → ((p : WgRelayPeer) → found ≡ some p → Elsewhere key p)
    → (p : WgRelayPeer) → last_named name found ps ≡ some p
    → Elsewhere key p
unfolding last_named
last_named-All key name [] found all so_far p h = so_far p h
last_named-All key name (q ∷ ps) found all so_far p h =
    last_named-All key name ps (if has_name name q then some q else found) all.1
      (λ x e. elim (Bool-cases (has_name name q)) [
        | inl hit ↦ let same : q ≡ x = ground arith in subst (Elsewhere key) same all.0
        | inr miss ↦ let same : found ≡ some x = ground arith in so_far x same
      ])
      p h

remove_link-forwards :
    (r : WgRelay) (key : XdpEpKey) (l : WgRelayLink)
    → All (Elsewhere key) r.peers
    → (forwards (xdp_remove_link_by_name r l) key ≡ forwards r key)
      × ((xdp_remove_link_by_name r l).peers ≡ r.peers)
unfolding xdp_remove_link_by_name
remove_link-forwards r key l all =
    let away =
      λ (name : Text). last_named-All key name r.peers none all (λ p e. absurd (ground arith)) in
    let r1 = remove_found r (last_named l.a none r.peers) in
    let (one, peers) = remove_found-forwards r key (last_named l.a none r.peers) (away l.a) in
    let (two, peers') = remove_found-forwards r1 key (last_named l.b none r.peers) (away l.b) in
    (two ∙ one, peers' ∙ peers)

remove_touching-forwards :
    (key : XdpEpKey) (name : Text) (ls : List WgRelayLink) (r : WgRelay)
    → All (Elsewhere key) r.peers
    → forwards (remove_touching r name ls) key ≡ forwards r key
unfolding remove_touching
remove_touching-forwards key name [] r all = refl
remove_touching-forwards key name (l ∷ ls) r all = elim (Bool-cases (touches name l)) [
  | inr apart ↦
      ap
        (λ b. forwards (remove_touching (if b then xdp_remove_link_by_name r l else r) name ls) key)
        apart
      ∙ remove_touching-forwards key name ls r all
  | inl meets ↦
      let (same, peers) = remove_link-forwards r key l all in
      ap
        (λ b. forwards (remove_touching (if b then xdp_remove_link_by_name r l else r) name ls) key)
        meets
      ∙ remove_touching-forwards key name ls (xdp_remove_link_by_name r l)
          (subst (All (Elsewhere key)) (sym peers) all)
      ∙ same
]

-- After WgRelayPeerRemove the XDP map forwards what comes from an IPv4 endpoint as before,
-- whenever none of the peers that stay has that endpoint: the removed peer's entry is kept.
pub wg_relay_peer_remove-forwards :
    (r : WgRelay) (name : Text) (key : XdpEpKey)
    → All (Elsewhere key) (erase_first (has_name name) r.peers)
    → forwards (wg_relay_peer_remove r name).1 key ≡ forwards r key
unfolding wg_relay_peer_remove peer_remove_locked
wg_relay_peer_remove-forwards r name key others = elim (Bool-cases (any (has_name name) r.peers)) [
  | inr unknown ↦ rw unknown refl
  | inl known ↦
      rw known (remove_touching-forwards key name r.links (peer_remove_locked r name).1 others)
]
