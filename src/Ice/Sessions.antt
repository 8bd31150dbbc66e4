-- ===== src/Ice/Sessions.antt =====
-- The table of sessions, src/ice.cc: IceStartSession, IceFindSession and IceCloseSession.
use hyper_derp.Prelude.{
  ℕ, suc, ◌≤◌, ◌<◌, ◌≡◌, refl, ap, sym, subst, ◌∙◌, [], ◌∷◌, ◌+◌, inl, inr, Bool, true, false, none,
  some, List, get_elem?, length, set, length-set, length-replicate, arith,
}
use hyper_derp.Prelude.Int.{pos}
use hyper_derp.Prelude.Slots.{
  find_slot, find?, find_slot-cases, count, count-set, count-set_le, count-replicate,
  find_slot-set_new, find?-set_gone,
}
use hyper_derp.Ice.{
  IceSession, IceAgent, closed, empty_session, fresh_session, init, is_free, is_occupied, at_limit,
  start_at, start_session, has_key, close_at, close_session, find_session, IsMemcmp,
}

free_or_occupied : (xs : List IceSession) → count is_free xs + count is_occupied xs ≡ length xs
unfolding count
free_or_occupied [] = refl
free_or_occupied (s ∷ xs) = ground (arith, free_or_occupied xs)

-- A search that stops nowhere, and one for the slot alone.
absent-count {ℓ} :
    {A : Type ℓ} (p : A → Bool) (xs : List A) → find_slot p xs ≡ none → count p xs ≡ 0
absent-count p xs h = elim (find_slot-cases p xs) [
  | inl (_, _, none_there) ↦ none_there
  | inr (i, x, e, _, _, _) ↦ absurd (ground arith)
]

find?-find_slot {ℓ} :
    {A : Type ℓ} (p : A → Bool) (xs : List A) → find? p xs ≡ none → find_slot p xs ≡ none
find?-find_slot p xs h = elim (find_slot-cases p xs) [
  | inl (e, _, _) ↦ e
  | inr (i, x, _, _, _, found) ↦ absurd (ground arith)
]

module _ (same : List ℕ → List ℕ → Bool) where
  -- 256 slots, counted, with each key in at most one session in use.
  pub record IsAgent (a : IceAgent) : Type 0 where
    pub size : length a.sessions ≡ 256
    pub counted : a.session_count ≡ pos (count is_occupied a.sessions)
    pub one_session : (key : List ℕ) → count (has_key same key) a.sessions ≤ 1

  pub init-IsAgent : (relay_ip stun_port : ℕ) → IsAgent (init relay_ip stun_port)
  unfolding init
  init-IsAgent relay_ip stun_port = record {
    size = length-replicate 256 empty_session;
    counted = ap pos (sym (count-replicate is_occupied 256 empty_session refl));
    one_session = λ key. omega (arith, count-replicate (has_key same key) 256 empty_session refl);
  }

  module _ (memcmp : IsMemcmp same) (a : IceAgent) (ok : IsAgent a) (key : List ℕ) where
    own_key : has_key same key (fresh_session key) ≡ true
    own_key = (memcmp key key).1 refl

    started :
        (i : ℕ) (s : IceSession)
        → get_elem? a.sessions i ≡ some s
        → is_free s ≡ true
        → count (has_key same key) a.sessions ≡ 0
        → IsAgent (start_at a key (some (i, s))).1
    unfolding start_at
    started i s at free none_there = record {
      size = length-set a.sessions i (fresh_session key) ∙ ok.size;
      counted =
          rw ok.counted
            (ap pos (ground (arith, count-set is_occupied a.sessions i s (fresh_session key) at)));
      one_session = λ k.
          count-set_le (has_key same k) a.sessions i s (fresh_session key) at (ok.one_session k)
            (λ hit.
              let own : key ≡ k = (memcmp key k).0 hit in
              inr (subst (λ k'. count (has_key same k') a.sessions ≡ 0) own none_there));
    }

    closed_lem :
        (i : ℕ) (s : IceSession)
        → get_elem? a.sessions i ≡ some s
        → is_occupied s ≡ true
        → IsAgent (close_at same a (some (i, s)))
    unfolding close_at
    closed_lem i s at used =
        let v : IceSession = record s { state = closed; occupied = 0 } in
        let down : suc (count is_occupied (set a.sessions i v)) ≡ count is_occupied a.sessions =
          ground (arith, count-set is_occupied a.sessions i s v at) in
        record {
          size = length-set a.sessions i v ∙ ok.size;
          counted = rw (ok.counted, sym down) refl;
          one_session = λ k.
              count-set_le (has_key same k) a.sessions i s v at (ok.one_session k)
                (λ hit. absurd (ground arith));
        }

    -- A session that is started for a peer without one is the one IceFindSession finds, in a table with a free
    -- slot, which stays well formed.
    pub start_session-found :
        find_session same a key ≡ none
        → count is_occupied a.sessions < 256
        → (i : ℕ) × ((start_session a key).0 ≡ some i)
          × (find_session same (start_session a key).1 key ≡ some (i, fresh_session key))
          × IsAgent (start_session a key).1
    unfolding start_session find_session
    start_session-found absent room = elim (find_slot-cases is_free a.sessions) [
      | inl (e, _, all_used) ↦
          absurd (omega (arith, all_used, free_or_occupied a.sessions, ok.size))
      | inr (i, s, e, at, free, _) ↦
          let below : at_limit a.session_count ≡ false = rw ok.counted (ground arith) in
          (
            i,
            rw (below, e) refl,
            rw (below, e)
                (find_slot-set_new (has_key same key) a.sessions i s (fresh_session key) at absent
                  own_key),
            rw (below, e) (started i s at free (absent-count (has_key same key) a.sessions absent)),
          )
    ]

    -- IceCloseSession leaves no session of its peer, and the table well formed.
    pub close_session-gone :
        (find_session same (close_session same a key) key ≡ none)
        × IsAgent (close_session same a key)
    unfolding close_session find_session
    close_session-gone = elim (find_slot-cases (has_key same key) a.sessions) [
      | inl (e, _, _) ↦ rw e (e, ok)
      | inr (i, s, e, at, hit, _) ↦ rw e (
        find?-find_slot (has_key same key) _
            (find?-set_gone (has_key same key) a.sessions i s _ at (ok.one_session key) hit refl),
        closed_lem i s at (ground arith),
      )
    ]
