-- ===== src/WgRelay/Links.antt =====
-- Well-formed rosters, src/wg_relay.cc, and the operations that hold the lock.
use hyper_derp.Prelude.{
  ℕ, ◌≤◌, ◌≡◌, ◌≢◌, refl, ap, sym, subst, ◌∙◌, inl, inr, Bool, true, false, ltb, Option, none, some,
  List, [], ◌∷◌, ◌++◌, All, set, get_elem?, arith, Bool-cases, to_nat,
}
use hyper_derp.Prelude.Bytes.{same_bytes, same_bytes_sound, same_bytes_refl}
use hyper_derp.Prelude.Slots.{count, count-append, count-set, find_slot-cases}
use hyper_derp.WgRelay.{
  Text, Endpoint, WgRelayPeer, WgRelayLink, WgRelay, has_name, touches, joins, any, erase_first,
  erase_all, peer_known, peer_has_link, peer_push, peer_add_locked, parse_host_port,
  peer_key_locked, peer_nic_locked, peer_remove_locked, link_add_locked, link_remove_locked,
}
use hyper_derp.WgRelay.Texts.{
  any-positive, count-erase_first, count-erase_all, any-erase_first, All-erase_all, All-erase_first,
  All-append, any-count, erase_all-kept, All-zip,
}

-- Both ends of a link are peers, and differ.
pub record Joins (peers : List WgRelayPeer) (l : WgRelayLink) : Type 0 where
  pub known_a : peer_known peers l.a ≡ true
  pub known_b : peer_known peers l.b ≡ true
  pub apart : l.a ≢ l.b

pub record IsRoster (peers : List WgRelayPeer) (links : List WgRelayLink) : Type 0 where
  pub unique : (name : Text) → count (has_name name) peers ≤ 1
  pub one_link : (name : Text) → count (touches name) links ≤ 1
  pub joined : All (Joins peers) links

-- Peers that know at least as many names.
widen :
    (peers peers' : List WgRelayPeer) (links : List WgRelayLink)
    → ((name : Text) → peer_known peers name ≡ true → peer_known peers' name ≡ true)
    → All (Joins peers) links
    → All (Joins peers') links
widen peers peers' [] more a = tt
widen peers peers' (l ∷ ls) more a = (
  record { known_a = more l.a a.0.known_a; known_b = more l.b a.0.known_b; apart = a.0.apart },
  widen peers peers' ls more a.1,
)

known-count :
    (peers : List WgRelayPeer) (name : Text)
    → peer_known peers name ≡ ltb 0 (count (has_name name) peers)
unfolding peer_known
known-count peers name = any-count (has_name name) peers

-- A peer rewritten under its name.
renamed-IsRoster :
    (peers : List WgRelayPeer) (links : List WgRelayLink) (i : ℕ) (p q : WgRelayPeer)
    → IsRoster peers links
    → get_elem? peers i ≡ some p
    → q.name ≡ p.name
    → IsRoster (set peers i q) links
renamed-IsRoster peers links i p q ok at same = record {
  unique = λ name. omega (arith, counts name, ok.unique name);
  one_link = ok.one_link;
  joined =
      widen peers (set peers i q) links
        (λ name k.
          known-count (set peers i q) name
          ∙ ap (ltb 0) (counts name)
          ∙ sym (known-count peers name)
          ∙ k)
        ok.joined;
}
  where
    counts : (name : Text) → count (has_name name) (set peers i q) ≡ count (has_name name) peers
    counts name =
        let test : has_name name q ≡ has_name name p = ap (λ n. same_bytes n name) same in
        omega (arith, count-set (has_name name) peers i p q at, ap to_nat test)

-- An element added where none passed.
one_more {ℓ} :
    {A : Type ℓ} (p : A → Bool) (xs : List A) (x : A)
    → count p xs ≤ 1
    → (p x ≡ true → count p xs ≡ 0)
    → count p (xs ++ (x ∷ [])) ≤ 1
unfolding count
one_more p xs x few new = ground (arith, count-append p xs (x ∷ []))

known-append :
    (peers : List WgRelayPeer) (p : WgRelayPeer) (name : Text)
    → peer_known peers name ≡ true
    → peer_known (peers ++ (p ∷ [])) name ≡ true
unfolding count
known-append peers p name k = ground (
  arith,
  known-count peers name,
  known-count (peers ++ (p ∷ [])) name,
  count-append (has_name name) peers (p ∷ []),
)

module _ (r : WgRelay) (ok : IsRoster r.peers r.links) where
  peer_push-IsRoster :
      (name endpoint label : Text) (o : Option Endpoint)
      → any (has_name name) r.peers ≡ false
      → IsRoster
          (peer_push r name endpoint label o).1.peers
          (peer_push r name endpoint label o).1.links
  unfolding peer_push
  peer_push-IsRoster name endpoint label none new = ok
  peer_push-IsRoster name endpoint label (some e) new =
      let p : WgRelayPeer = record {
        name = name;
        endpoint = e;
        endpoint_str = endpoint;
        pubkey_b64 = [];
        label = label;
        nic = [];
      } in
      record {
        unique = λ n. one_more (has_name n) r.peers p (ok.unique n) (λ hit.
            subst (λ m. count (has_name m) r.peers ≡ 0) (same_bytes_sound name n hit)
              (any-positive (has_name name) r.peers new));
        one_link = ok.one_link;
        joined =
            widen r.peers (r.peers ++ (p ∷ [])) r.links (λ n k. known-append r.peers p n k)
              ok.joined;
      }

  pub peer_add_locked-IsRoster :
      (getaddrinfo : Text → Text → Option Endpoint) (name endpoint label : Text)
      → let r' = (peer_add_locked getaddrinfo r name endpoint label).1 in IsRoster r'.peers r'.links
  unfolding peer_add_locked
  peer_add_locked-IsRoster getaddrinfo name endpoint label =
      elim (Bool-cases (any (has_name name) r.peers)) [
        | inl taken ↦ rw taken ok
        | inr new ↦
            rw new
              (peer_push-IsRoster name endpoint label (parse_host_port getaddrinfo endpoint) new)
      ]

  pub peer_key_locked-IsRoster :
      (name key : Text)
      → IsRoster (peer_key_locked r name key).1.peers (peer_key_locked r name key).1.links
  unfolding peer_key_locked
  peer_key_locked-IsRoster name key = elim (find_slot-cases (has_name name) r.peers) [
    | inl (e, _, _) ↦ rw e ok
    | inr (i, p, e, at, _, _) ↦ rw e (renamed-IsRoster r.peers r.links i p _ ok at refl)
  ]

  pub peer_nic_locked-IsRoster :
      (name nic : Text)
      → IsRoster (peer_nic_locked r name nic).1.peers (peer_nic_locked r name nic).1.links
  unfolding peer_nic_locked
  peer_nic_locked-IsRoster name nic = elim (find_slot-cases (has_name name) r.peers) [
    | inl (e, _, _) ↦ rw e ok
    | inr (i, p, e, at, _, _) ↦ rw e (renamed-IsRoster r.peers r.links i p _ ok at refl)
  ]

  pub peer_remove_locked-IsRoster :
      (name : Text)
      → IsRoster (peer_remove_locked r name).1.peers (peer_remove_locked r name).1.links
  unfolding peer_remove_locked peer_known
  peer_remove_locked-IsRoster name = record {
    unique =
        λ n. omega (arith, ok.unique n, count-erase_first (has_name name) (has_name n) r.peers);
    one_link =
        λ n. omega (arith, ok.one_link n, count-erase_all (touches name) (touches n) r.links);
    joined =
        All-zip (Joins r.peers) (λ l. touches name l ≡ false)
          (Joins (erase_first (has_name name) r.peers)) (erase_all (touches name) r.links)
          (λ l j t. record {
            known_a = still_known name l.a (ground arith) ∙ j.known_a;
            known_b = still_known name l.b (ground arith) ∙ j.known_b;
            apart = j.apart;
          })
          (All-erase_all (Joins r.peers) (touches name) r.links ok.joined)
          (erase_all-kept (touches name) r.links);
  }
    where
      still_known :
          (gone n : Text)
          → same_bytes n gone ≡ false
          → peer_known (erase_first (has_name gone) r.peers) n ≡ peer_known r.peers n
      still_known gone n ne =
          any-erase_first (has_name gone) (has_name n) r.peers
            (λ x hit. ap (λ m. same_bytes m gone) (same_bytes_sound x.name n hit) ∙ ne)

  pub link_remove_locked-IsRoster :
      (a b : Text) → IsRoster (link_remove_locked r a b).1.peers (link_remove_locked r a b).1.links
  unfolding link_remove_locked
  link_remove_locked-IsRoster a b = record {
    unique = ok.unique;
    one_link = λ n. omega (arith, ok.one_link n, count-erase_first (joins a b) (touches n) r.links);
    joined = All-erase_first (Joins r.peers) (joins a b) r.links ok.joined;
  }

  linked-IsRoster :
      (a b : Text)
      → same_bytes a b ≡ false
      → peer_known r.peers a ≡ true
      → peer_known r.peers b ≡ true
      → peer_has_link r.links a ≡ false
      → peer_has_link r.links b ≡ false
      → IsRoster r.peers (r.links ++ (record { a = a; b = b } ∷ []))
  unfolding peer_has_link
  linked-IsRoster a b differ known_a known_b free_a free_b = record {
    unique = ok.unique;
    one_link = λ n.
        one_more (touches n) r.links (record { a = a; b = b }) (ok.one_link n)
          (λ hit. elim (Bool-cases (same_bytes a n)) [
            | inl is_a ↦
                subst (λ m. count (touches m) r.links ≡ 0) (same_bytes_sound a n is_a)
                  (any-positive (touches a) r.links free_a)
            | inr not_a ↦
                subst (λ m. count (touches m) r.links ≡ 0) (same_bytes_sound b n (ground arith))
                  (any-positive (touches b) r.links free_b)
          ]);
    joined =
        All-append (Joins r.peers) r.links (record { a = a; b = b } ∷ []) ok.joined
          (record { known_a = known_a; known_b = known_b; apart = λ e. absurd (distinct e) }, tt);
  }
    where
      distinct : a ≡ b → ⊥
      distinct e =
          let same : same_bytes a b ≡ true = ap (same_bytes a) (sym e) ∙ same_bytes_refl a in cc

  pub link_add_locked-IsRoster :
      (a b : Text) → IsRoster (link_add_locked r a b).1.peers (link_add_locked r a b).1.links
  unfolding link_add_locked
  link_add_locked-IsRoster a b = elim (Bool-cases (same_bytes a b)) [
    | inl self ↦ rw self ok
    | inr differ ↦ elim (Bool-cases (peer_known r.peers a)) [
      | inr unknown ↦ rw (differ, unknown) ok
      | inl known_a ↦ elim (Bool-cases (peer_known r.peers b)) [
        | inr unknown ↦ rw (differ, known_a, unknown) ok
        | inl known_b ↦ elim (Bool-cases (any (joins a b) r.links)) [
          | inl twice ↦ rw (differ, known_a, known_b, twice) ok
          | inr once ↦ elim (Bool-cases (peer_has_link r.links a)) [
            | inl taken ↦ rw (differ, known_a, known_b, once, taken) ok
            | inr free_a ↦ elim (Bool-cases (peer_has_link r.links b)) [
              | inl taken ↦ rw (differ, known_a, known_b, once, free_a, taken) ok
              | inr free_b ↦
                  rw (differ, known_a, known_b, once, free_a, free_b)
                    (linked-IsRoster a b differ known_a known_b free_a free_b)
            ]
          ]
        ]
      ]
    ]
  ]
