-- ===== src/WgRelay/Strikes.antt =====
-- The strikes and the blocklist of the WireGuard relay, RecordStrikeLocked and the sweeps of
-- ExpireCandidatesLocked in src/wg_relay.cc. A std::map is the list of its entries, the clock in
-- nanoseconds and ntohl are arguments. The copy of the blocklist in the BPF map is left out.
use hyper_derp.Prelude.{
  ℕ, ◌+◌, ◌-◌, ◌%◌, ◌^◌, Bool, false, ◌&&◌, ◌||◌, not, if◌then◌else◌, ◌==◌, ltb, leb, Option, none,
  some, List, [], ◌∷◌,
}
use hyper_derp.Prelude.Slots.{find?}
use hyper_derp.WgRelay.{Endpoint, inet, mapped, inet6, other_family, erase_all}

pub record WgRelayStrike : Type 0 where
  pub count : ℕ
  pub first_strike_ns : ℕ
  pub total_strikes : ℕ

pub record StrikePolicy : Type 0 where
  pub strikes : ℕ
  pub window_ns : ℕ
  pub block_ns : ℕ

pub record Strikes : Type 0 where
  pub strikes : List (ℕ × WgRelayStrike)
  pub blocklist : List (ℕ × ℕ)

abbrev pub widest_window : ℕ
widest_window = 86400000000000

-- kStrikePolicy.
abbrev pub strike_policy : List StrikePolicy
strike_policy =
    record { strikes = 2; window_ns = 60000000000; block_ns = 60000000000 }
    ∷ record { strikes = 5; window_ns = 3600000000000; block_ns = 3600000000000 }
    ∷ record { strikes = 10; window_ns = widest_window; block_ns = 86400000000000 }
    ∷ []

-- ExtractV4SrcHostOrder.
unfoldable pub extract_v4_src : (ℕ → ℕ) → Endpoint → ℕ
extract_v4_src ntohl (inet ip port) = ntohl ip
extract_v4_src ntohl (mapped ip port) = ntohl ip
extract_v4_src ntohl (inet6 addr port) = 0
extract_v4_src ntohl other_family = 0

-- The difference of two uint64_t.
abbrev pub since : ℕ → ℕ → ℕ
since now start = (now + 2 ^ 64 - start) % 2 ^ 64

module _ {ℓ} {A : Type ℓ} where
  abbrev pub at : ℕ → ℕ × A → Bool
  at key e = e.0 == key

  -- `insert_or_assign`.
  unfoldable pub put : List (ℕ × A) → ℕ → A → List (ℕ × A)
  unfolding erase_all
  put m key x = (key, x) ∷ erase_all (at key) m

unfoldable pub strike_or_new : Option (ℕ × WgRelayStrike) → WgRelayStrike
strike_or_new none = record { count = 0; first_strike_ns = 0; total_strikes = 0 }
strike_or_new (some e) = e.1

-- `r->strikes[ip_h]`.
unfoldable pub strike_of : List (ℕ × WgRelayStrike) → ℕ → WgRelayStrike
unfolding strike_or_new
strike_of m ip = strike_or_new (find? (at ip) m)

-- The strike with the window that it falls in.
unfoldable pub count_strike : WgRelayStrike → ℕ → WgRelayStrike
count_strike s now =
    if (s.first_strike_ns == 0) || ltb widest_window (since now s.first_strike_ns)
    then record { count = 1; first_strike_ns = now; total_strikes = (s.total_strikes + 1) % 2 ^ 64 }
    else record s { count = (s.count + 1) % 2 ^ 32; total_strikes = (s.total_strikes + 1) % 2 ^ 64 }

abbrev pub is_met : WgRelayStrike → ℕ → StrikePolicy → Bool
is_met s now pol = leb pol.strikes s.count && leb (since now s.first_strike_ns) pol.window_ns

-- The first policy that is met puts the source on the blocklist.
unfoldable pub escalate : Strikes → ℕ → ℕ → WgRelayStrike → Option StrikePolicy → Strikes
unfolding put
escalate t ip now s none = record t { strikes = put t.strikes ip s }
escalate t ip now s (some pol) = record {
  strikes = put t.strikes ip (record s { count = 0; first_strike_ns = 0 });
  blocklist = put t.blocklist ip ((now + pol.block_ns) % 2 ^ 64);
}

-- RecordStrikeLocked, for a source in host byte order.
unfoldable pub record_strike_at : Strikes → ℕ → ℕ → Strikes
unfolding strike_of count_strike escalate
record_strike_at t ip now =
    let s = count_strike (strike_of t.strikes ip) now in
    if ip == 0 then t else escalate t ip now s (find? (is_met s now) strike_policy)

-- RecordStrikeLocked.
unfoldable pub record_strike : (ℕ → ℕ) → Strikes → Endpoint → ℕ → Strikes
unfolding record_strike_at extract_v4_src
record_strike ntohl t src now = record_strike_at t (extract_v4_src ntohl src) now

-- The sweeps of ExpireCandidatesLocked.
unfoldable pub sweep : Strikes → ℕ → Strikes
unfolding erase_all
sweep t now = record {
  strikes =
      erase_all
        (λ e. not (e.1.first_strike_ns == 0) && ltb widest_window (since now e.1.first_strike_ns))
        t.strikes;
  blocklist = erase_all (λ e. leb e.1 now) t.blocklist;
}

-- The test of the blocklist on a packet.
unfoldable pub blocked_until : ℕ → Option (ℕ × ℕ) → Bool
blocked_until now none = false
blocked_until now (some e) = ltb now e.1

unfoldable pub is_blocked : Strikes → ℕ → ℕ → Bool
unfolding blocked_until
is_blocked t ip now = not (ip == 0) && blocked_until now (find? (at ip) t.blocklist)
