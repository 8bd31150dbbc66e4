-- ===== src/WgRelay/Partners.antt =====
-- The partner that a link gives to each of its peers, src/wg_relay.cc.
use hyper_derp.Prelude.{◌≡◌, refl, ap, ◌∙◌, true, false, List, [], ◌∷◌, ◌++◌, arith}
use hyper_derp.Prelude.Bytes.{same_bytes, same_bytes_refl}
use hyper_derp.WgRelay.{
  Text, WgRelayLink, WgRelay, WgRelayLinkAddResult, link_ok, link_unknown_peer, link_self,
  link_limit_exceeded, link_duplicate, any, peer_has_link, link_add_locked, link_added,
  wg_relay_link_add, link_partner,
}
use hyper_derp.WgRelay.Roster.{insert_link-SameTables}

-- The partner in a table whose links before the last do not name the peer.
partner-append :
    (ls : List WgRelayLink) (l : WgRelayLink) (name : Text)
    → peer_has_link ls name ≡ false
    → link_partner (ls ++ (l ∷ [])) name ≡ link_partner (l ∷ []) name
unfolding peer_has_link any link_partner
partner-append [] l name free = refl
partner-append (x ∷ ls) l name free = ground (arith, partner-append ls l name)

-- What a link that was added tells of the roster before it.
link_add_locked-links :
    (r : WgRelay) (a b : Text)
    → (link_add_locked r a b).0 ≡ link_ok
    → (same_bytes a b ≡ false)
      × (peer_has_link r.links a ≡ false)
      × (peer_has_link r.links b ≡ false)
      × ((link_add_locked r a b).1.links ≡ r.links ++ (record { a = a; b = b } ∷ []))
unfolding link_add_locked
link_add_locked-links r a b done = ground arith

link_added-links :
    (a b : Text) (x : WgRelayLinkAddResult × WgRelay)
    → (link_added a b x).0 ≡ link_ok
    → (x.0 ≡ link_ok) × ((link_added a b x).1.links ≡ x.1.links)
unfolding link_added
link_added-links a b (link_ok, r) done =
    (refl, (insert_link-SameTables r (record { a = a; b = b })).1)
link_added-links a b (link_unknown_peer, r) done = (done, refl)
link_added-links a b (link_self, r) done = (done, refl)
link_added-links a b (link_limit_exceeded, r) done = (done, refl)
link_added-links a b (link_duplicate, r) done = (done, refl)

-- When WgRelayLinkAddDetail has added a link, LinkPartner gives each of the two peers the other
-- one as its partner.
pub wg_relay_link_add-link_partner :
    (r : WgRelay) (a b : Text)
    → (wg_relay_link_add r a b).0 ≡ link_ok
    → (link_partner (wg_relay_link_add r a b).1.links a ≡ b)
      × (link_partner (wg_relay_link_add r a b).1.links b ≡ a)
unfolding wg_relay_link_add link_partner
wg_relay_link_add-link_partner r a b done =
    let l : WgRelayLink = record { a = a; b = b } in
    let (locked, kept) = link_added-links a b (link_add_locked r a b) done in
    let (apart, free_a, free_b, links) = link_add_locked-links r a b locked in
    let table = kept ∙ links in
    let self : same_bytes a a ≡ true = same_bytes_refl a in
    let self_b : same_bytes b b ≡ true = same_bytes_refl b in
    (
      ap (λ ls. link_partner ls a) table ∙ partner-append r.links l a free_a ∙ rw self refl,
      ap (λ ls. link_partner ls b) table
          ∙ partner-append r.links l b free_b
          ∙ rw (apart, self_b) refl,
    )
