-- ===== src/WgRelay/Roster.antt =====
-- The operations of the operator on the roster, src/wg_relay.cc.
use hyper_derp.Prelude.{
  ℕ, ◌≡◌, refl, sym, subst, ◌∙◌, inl, inr, Bool, true, false, if◌then◌else◌, Option, none, some,
  List, [], ◌∷◌, Bool-cases,
}
use hyper_derp.WgRelay.{
  Text, Endpoint, WgRelayPeer, WgRelayLink, WgRelay, WgRelayLinkAddResult, link_ok,
  link_unknown_peer, link_self, link_limit_exceeded, link_duplicate, touches, xdp_insert_link_dir,
  xdp_remove_link_dir, insert_found, remove_found, xdp_insert_link_by_name, xdp_remove_link_by_name,
  insert_touching, remove_touching, peer_nic_locked, peer_remove_locked, link_add_locked,
  link_remove_locked, nic_refused, wg_relay_peer_add, wg_relay_peer_key, wg_relay_peer_nic,
  wg_relay_peer_remove, link_added, wg_relay_link_add, wg_relay_link_remove, last_named,
}
use hyper_derp.WgRelay.Links.{
  IsRoster, peer_add_locked-IsRoster, peer_key_locked-IsRoster, peer_nic_locked-IsRoster,
  peer_remove_locked-IsRoster, link_add_locked-IsRoster, link_remove_locked-IsRoster,
}

-- The peers and links of a relay that only the map of endpoints tells from another.
abbrev SameTables : WgRelay → WgRelay → Type 0
SameTables r r' = (r'.peers ≡ r.peers) × (r'.links ≡ r.links)

carried : (r r' : WgRelay) → SameTables r r' → IsRoster r.peers r.links → IsRoster r'.peers r'.links
carried r r' (peers, links) ok =
    subst (λ ps. IsRoster ps r'.links) (sym peers) (subst (IsRoster r.peers) (sym links) ok)

insert_dir-SameTables :
    (r : WgRelay) (src dst : Endpoint) (ifindex : ℕ)
    → SameTables r (xdp_insert_link_dir r src dst ifindex)
unfolding xdp_insert_link_dir
insert_dir-SameTables r src dst ifindex = elim (Bool-cases r.attached) [
  | inl on ↦ rw on (refl, refl)
  | inr off ↦ rw off (refl, refl)
]

insert_found-SameTables :
    (r : WgRelay) (pa pb : Option WgRelayPeer) → SameTables r (insert_found r pa pb)
unfolding insert_found
insert_found-SameTables r none pb = (refl, refl)
insert_found-SameTables r (some pa) none = (refl, refl)
insert_found-SameTables r (some pa) (some pb) =
    let (p, l) = insert_dir-SameTables r pa.endpoint pb.endpoint _ in
    let (p', l') =
      insert_dir-SameTables (xdp_insert_link_dir r pa.endpoint pb.endpoint _) pb.endpoint
        pa.endpoint _ in
    (p' ∙ p, l' ∙ l)

remove_found-SameTables : (r : WgRelay) (o : Option WgRelayPeer) → SameTables r (remove_found r o)
unfolding remove_found xdp_remove_link_dir
remove_found-SameTables r none = (refl, refl)
remove_found-SameTables r (some p) = elim (Bool-cases r.attached) [
  | inl on ↦ rw on (refl, refl)
  | inr off ↦ rw off (refl, refl)
]

pub insert_link-SameTables :
    (r : WgRelay) (l : WgRelayLink) → SameTables r (xdp_insert_link_by_name r l)
unfolding xdp_insert_link_by_name
insert_link-SameTables r l =
    insert_found-SameTables r (last_named l.a none r.peers) (last_named l.b none r.peers)

remove_link-SameTables :
    (r : WgRelay) (l : WgRelayLink) → SameTables r (xdp_remove_link_by_name r l)
unfolding xdp_remove_link_by_name
remove_link-SameTables r l =
    let (p, k) = remove_found-SameTables r (last_named l.a none r.peers) in
    let (p', k') =
      remove_found-SameTables (remove_found r (last_named l.a none r.peers))
        (last_named l.b none r.peers) in
    (p' ∙ p, k' ∙ k)

choose-SameTables :
    (r r' : WgRelay) (b : Bool) → SameTables r r' → SameTables r (if b then r' else r)
choose-SameTables r r' true same = same
choose-SameTables r r' false same = (refl, refl)

insert_touching-SameTables :
    (name : Text) (ls : List WgRelayLink) (r : WgRelay) → SameTables r (insert_touching r name ls)
unfolding insert_touching
insert_touching-SameTables name [] r = (refl, refl)
insert_touching-SameTables name (l ∷ ls) r =
    let (p, k) =
      choose-SameTables r (xdp_insert_link_by_name r l) (touches name l)
        (insert_link-SameTables r l) in
    let (p', k') =
      insert_touching-SameTables name ls
        (if touches name l then xdp_insert_link_by_name r l else r) in
    (p' ∙ p, k' ∙ k)

remove_touching-SameTables :
    (name : Text) (ls : List WgRelayLink) (r : WgRelay) → SameTables r (remove_touching r name ls)
unfolding remove_touching
remove_touching-SameTables name [] r = (refl, refl)
remove_touching-SameTables name (l ∷ ls) r =
    let (p, k) =
      choose-SameTables r (xdp_remove_link_by_name r l) (touches name l)
        (remove_link-SameTables r l) in
    let (p', k') =
      remove_touching-SameTables name ls
        (if touches name l then xdp_remove_link_by_name r l else r) in
    (p' ∙ p, k' ∙ k)

abbrev pub Kept : WgRelay → Type 0
Kept r = IsRoster r.peers r.links

module _ (r : WgRelay) (ok : Kept r) where
  nic-Kept : (name nic : Text) → Kept (wg_relay_peer_nic r name nic).1
  unfolding wg_relay_peer_nic
  nic-Kept name nic =
      let r' = (peer_nic_locked r name nic).1 in
      let ok' : Kept r' = peer_nic_locked-IsRoster r ok name nic in
      elim (Bool-cases (nic_refused r nic)) [
        | inl refused ↦ rw refused ok
        | inr free ↦ elim (Bool-cases (peer_nic_locked r name nic).0) [
          | inr unknown ↦ rw (free, unknown) ok'
          | inl known ↦
              rw (free, known)
                (carried r' (insert_touching r' name r'.links)
                  (insert_touching-SameTables name r'.links r') ok')
        ]
      ]

  remove-Kept : (name : Text) → Kept (wg_relay_peer_remove r name).1
  unfolding wg_relay_peer_remove
  remove-Kept name =
      let r' = (peer_remove_locked r name).1 in
      let ok' : Kept r' = peer_remove_locked-IsRoster r ok name in
      elim (Bool-cases (peer_remove_locked r name).0) [
        | inr unknown ↦ rw unknown ok'
        | inl known ↦ rw known (
            carried r' (remove_touching r' name r.links)
              (remove_touching-SameTables name r.links r') ok')
      ]

  link_remove-Kept : (a b : Text) → Kept (wg_relay_link_remove r a b).1
  unfolding wg_relay_link_remove
  link_remove-Kept a b =
      let r' = (link_remove_locked r a b).1 in
      let ok' : Kept r' = link_remove_locked-IsRoster r ok a b in
      let l : WgRelayLink = record { a = a; b = b } in
      elim (Bool-cases (link_remove_locked r a b).0) [
        | inr unknown ↦ rw unknown ok'
        | inl known ↦
            rw known (carried r' (xdp_remove_link_by_name r' l) (remove_link-SameTables r' l) ok')
      ]

added-Kept :
    (a b : Text) (x : WgRelayLinkAddResult × WgRelay) → Kept x.1 → Kept (link_added a b x).1
unfolding link_added
added-Kept a b (link_ok, r') k =
    let l : WgRelayLink = record { a = a; b = b } in
    carried r' (xdp_insert_link_by_name r' l) (insert_link-SameTables r' l) k
added-Kept a b (link_unknown_peer, r') k = k
added-Kept a b (link_self, r') k = k
added-Kept a b (link_limit_exceeded, r') k = k
added-Kept a b (link_duplicate, r') k = k

-- WgRelayPeerAdd, PeerKey, PeerNic, PeerRemove, LinkAddDetail and LinkRemove keep a roster well
-- formed: no name in two peers, no peer in two links, and each link between two different known
-- peers.
pub operations-IsRoster :
    (r : WgRelay) (getaddrinfo : Text → Text → Option Endpoint) (name endpoint label nic b : Text)
    → IsRoster r.peers r.links
    → Kept (wg_relay_peer_add getaddrinfo r name endpoint label).1
      × Kept (wg_relay_peer_key r name label).1
      × Kept (wg_relay_peer_nic r name nic).1
      × Kept (wg_relay_peer_remove r name).1
      × Kept (wg_relay_link_add r name b).1
      × Kept (wg_relay_link_remove r name b).1
unfolding wg_relay_peer_add wg_relay_peer_key wg_relay_link_add
operations-IsRoster r getaddrinfo name endpoint label nic b ok = (
  peer_add_locked-IsRoster r ok getaddrinfo name endpoint label,
  peer_key_locked-IsRoster r ok name label,
  nic-Kept r ok name nic,
  remove-Kept r ok name,
  added-Kept name b (link_add_locked r name b) (link_add_locked-IsRoster r ok name b),
  link_remove-Kept r ok name b,
)
