-- ===== src/WgRelay/Blocking.antt =====
-- When a source is blocked for its strikes, src/wg_relay.cc.
use hyper_derp.Prelude.{
  ℕ, ◌+◌, ◌%◌, ◌^◌, ◌≤◌, ◌<◌, ◌≡◌, ◌≢◌, refl, ap, sym, subst, ◌∙◌, inl, inr, Bool, false, ◌&&◌, not,
  ◌==◌, ltb, leb, Option, none, some, List, [], ◌∷◌, arith, Bool-cases,
}
use hyper_derp.Prelude.Slots.{find?, find?-eq-none, count}
use hyper_derp.WgRelay.Texts.{count-erase_all}
use hyper_derp.WgRelay.{Endpoint, erase_all}
use hyper_derp.WgRelay.Strikes.{
  WgRelayStrike, StrikePolicy, Strikes, strike_policy, since, at, put, strike_of, strike_or_new,
  count_strike, is_met, escalate, record_strike_at, record_strike, extract_v4_src, sweep,
  blocked_until, is_blocked,
}

module _ {ℓ} {A : Type ℓ} where
  put_self : (m : List (ℕ × A)) (key : ℕ) (x : A) → find? (at key) (put m key x) ≡ some (key, x)
  unfolding find? put
  put_self m key x = ground arith

-- A strike that opens a window, and the next one.
opens :
    (s : WgRelayStrike) (now : ℕ)
    → s.first_strike_ns ≡ 0
    → ((count_strike s now).count ≡ 1) × ((count_strike s now).first_strike_ns ≡ now)
unfolding count_strike
opens s now fresh = rw fresh (refl, refl)

follows :
    (s : WgRelayStrike) (now : ℕ)
    → s.count ≡ 1
    → 0 < s.first_strike_ns
    → since now s.first_strike_ns ≤ 60000000000
    → ((count_strike s now).count ≡ 2) × ((count_strike s now).first_strike_ns ≡ s.first_strike_ns)
unfolding count_strike
follows s now one running soon = ground (arith, one)

met_never : (s : WgRelayStrike) (now : ℕ) → s.count ≡ 1 → find? (is_met s now) strike_policy ≡ none
unfolding find?
met_never s now one = rw one refl

met_first :
    (s : WgRelayStrike) (now : ℕ)
    → s.count ≡ 2
    → since now s.first_strike_ns ≤ 60000000000
    → find? (is_met s now) strike_policy
      ≡ some (record { strikes = 2; window_ns = 60000000000; block_ns = 60000000000 })
unfolding find?
met_first s now two soon = ground (arith, two)

-- The step of a source whose strike and policy are known.
record_strike_at-escalate :
    (t : Strikes) (ip now : ℕ) (o : Option StrikePolicy)
    → ip ≢ 0
    → find? (is_met (count_strike (strike_of t.strikes ip) now) now) strike_policy ≡ o
    → record_strike_at t ip now ≡ escalate t ip now (count_strike (strike_of t.strikes ip) now) o
unfolding record_strike_at
record_strike_at-escalate t ip now o some_ip found =
    let nonzero : (ip == 0) ≡ false = ground (arith, some_ip) in rw (nonzero, found) refl

strike_of-put :
    (m : List (ℕ × WgRelayStrike)) (ip : ℕ) (s : WgRelayStrike) → strike_of (put m ip s) ip ≡ s
unfolding strike_of strike_or_new
strike_of-put m ip s = ap strike_or_new (put_self m ip s)

escalate-is_blocked :
    (t : Strikes) (ip t2 now : ℕ) (s : WgRelayStrike) (pol : StrikePolicy)
    → ip ≢ 0
    → t2 + pol.block_ns < 2 ^ 64
    → is_blocked (escalate t ip t2 s (some pol)) ip now ≡ ltb now (t2 + pol.block_ns)
unfolding escalate is_blocked blocked_until
escalate-is_blocked t ip t2 now s pol some_ip small =
    let nonzero : (ip == 0) ≡ false = ground (arith, some_ip) in
    let whole : (t2 + pol.block_ns) % 2 ^ 64 ≡ t2 + pol.block_ns = omega arith in
    ap (λ b. not b && is_later (find? (at ip) (escalate t ip t2 s (some pol)).blocklist)) nonzero
    ∙ ap is_later (put_self t.blocklist ip ((t2 + pol.block_ns) % 2 ^ 64))
    ∙ ap (ltb now) whole
  where
    is_later : Option (ℕ × ℕ) → Bool
    is_later = blocked_until now

-- Two strikes of a source within the first policy's window.
twice :
    (t : Strikes) (ip t1 t2 now : ℕ)
    → ip ≢ 0
    → (strike_of t.strikes ip).first_strike_ns ≡ 0
    → 0 < t1
    → t1 ≤ t2
    → t2 ≤ t1 + 60000000000
    → t2 + 60000000000 < 2 ^ 64
    → is_blocked (record_strike_at (record_strike_at t ip t1) ip t2) ip now
      ≡ ltb now (t2 + 60000000000)
unfolding escalate
twice t ip t1 t2 now some_ip fresh later order soon small =
    let s = count_strike (strike_of t.strikes ip) t1 in
    let (one, start) = opens (strike_of t.strikes ip) t1 fresh in
    let step = record_strike_at-escalate t ip t1 none some_ip (met_never s t1 one) in
    let r : Strikes = record_strike_at t ip t1 in
    let kept : strike_of r.strikes ip ≡ s =
      ap (λ (x : Strikes). strike_of x.strikes ip) step ∙ strike_of-put t.strikes ip s in
    let first : (strike_of r.strikes ip).first_strike_ns ≡ t1 =
      ap (λ (x : WgRelayStrike). x.first_strike_ns) kept ∙ start in
    let count_1 : (strike_of r.strikes ip).count ≡ 1 =
      ap (λ (x : WgRelayStrike). x.count) kept ∙ one in
    let near : since t2 t1 ≤ 60000000000 = omega arith in
    let near' : since t2 (strike_of r.strikes ip).first_strike_ns ≤ 60000000000 =
      subst (λ x. since t2 x ≤ 60000000000) (sym first) near in
    let (two, start') =
      follows (strike_of r.strikes ip) t2 count_1 (omega (arith, first, later)) near' in
    let met =
      met_first (count_strike (strike_of r.strikes ip) t2) t2 two
        (subst (λ x. since t2 x ≤ 60000000000) (sym (start' ∙ first)) near) in
    ap (λ (x : Strikes). is_blocked x ip now)
      (record_strike_at-escalate r ip t2 (some pol) some_ip met)
    ∙ escalate-is_blocked r ip t2 now (count_strike (strike_of r.strikes ip) t2) pol some_ip small
  where
    pol : StrikePolicy
    pol = record { strikes = 2; window_ns = 60000000000; block_ns = 60000000000 }

-- When RecordStrikeLocked counts two strikes of an IPv4 source within 60 seconds, the first of
-- which opens the source's window, the packets of the source are dropped from the blocklist's test
-- until 60 seconds after the second, for a clock above 0 and below 2^64 by as much.
pub record_strike-is_blocked :
    (ntohl : ℕ → ℕ) (t : Strikes) (src : Endpoint) (t1 t2 now : ℕ)
    → extract_v4_src ntohl src ≢ 0
    → (strike_of t.strikes (extract_v4_src ntohl src)).first_strike_ns ≡ 0
    → 0 < t1
    → t1 ≤ t2
    → t2 ≤ t1 + 60000000000
    → t2 + 60000000000 < 2 ^ 64
    → is_blocked
        (record_strike ntohl (record_strike ntohl t src t1) src t2)
        (extract_v4_src ntohl src)
        now
      ≡ ltb now (t2 + 60000000000)
unfolding record_strike
record_strike-is_blocked ntohl t src t1 t2 now some_ip fresh later order soon small =
    twice t (extract_v4_src ntohl src) t1 t2 now some_ip fresh later order soon small

-- The sweep at a time that is past.
blocked-erase_all :
    (m : List (ℕ × ℕ)) (ip now later : ℕ)
    → count (at ip) m ≤ 1
    → now ≤ later
    → blocked_until later (find? (at ip) (erase_all (λ e. leb e.1 now) m))
      ≡ blocked_until later (find? (at ip) m)
unfolding erase_all find? count blocked_until
blocked-erase_all [] ip now later one order = refl
blocked-erase_all (e ∷ m) ip now later one order = elim (Bool-cases (at ip e)) [
  | inr other ↦ ground (arith, other, blocked-erase_all m ip now later)
  | inl hit ↦
      let zero_m : count (at ip) m ≡ 0 = ground (arith, hit, one) in
      let none_left : find? (at ip) m ≡ none = find?-eq-none (at ip) m zero_m in
      let none_kept : find? (at ip) (erase_all (λ x. leb x.1 now) m) ≡ none =
        find?-eq-none (at ip) (erase_all (λ x. leb x.1 now) m)
          (omega (arith, zero_m, count-erase_all (λ x. leb x.1 now) (at ip) m)) in
      ground (arith, hit, none_kept)
]

-- The sweep of the blocklist changes the answer of the blocklist's test for no source, now or
-- later, for a blocklist with at most one entry of the source.
pub sweep-is_blocked :
    (t : Strikes) (ip now later : ℕ)
    → count (at ip) t.blocklist ≤ 1
    → now ≤ later
    → is_blocked (sweep t now) ip later ≡ is_blocked t ip later
unfolding sweep is_blocked
sweep-is_blocked t ip now later one order =
    ap (λ b. not (ip == 0) && b) (blocked-erase_all t.blocklist ip now later one order)
