-- ===== src/Tests/Striking.antt =====
-- Concrete strikes and a blocklist for src/wg_relay.cc.
use hyper_derp.Prelude.{◌+◌, ◌≡◌, ◌≢◌, refl, ltb, [], ◌∷◌, arith}
use hyper_derp.Prelude.Slots.{find?, count}
use hyper_derp.WgRelay.{inet}
use hyper_derp.WgRelay.Strikes.{
  Strikes, extract_v4_src, strike_of, strike_or_new, record_strike, sweep, is_blocked,
}
use hyper_derp.WgRelay.Blocking.{record_strike-is_blocked, sweep-is_blocked}

-- One source is blocked until 100, and none has a strike.
abbrev some_blocked : Strikes
some_blocked = record { strikes = []; blocklist = (9, 100) ∷ [] }

record_strike-is_blocked_example :
    is_blocked
      (record_strike
        (λ x. x)
        (record_strike (λ x. x) some_blocked (inet 7 51820) 5)
        (inet 7 51820)
        8)
      7
      1000
    ≡ ltb 1000 (8 + 60000000000)
unfolding extract_v4_src strike_of strike_or_new find?
record_strike-is_blocked_example =
    record_strike-is_blocked (λ x. x) some_blocked (inet 7 51820) 5 8 1000 from_source unstruck
      (omega arith) (omega arith) (omega arith) (omega arith)
  where
    from_source : extract_v4_src (λ x. x) (inet 7 51820) ≢ 0
    from_source = λ e. absurd (omega (arith, e))

    unstruck :
        (strike_of some_blocked.strikes (extract_v4_src (λ x. x) (inet 7 51820))).first_strike_ns
        ≡ 0
    unstruck = refl

sweep-is_blocked_example : is_blocked (sweep some_blocked 50) 9 60 ≡ is_blocked some_blocked 9 60
unfolding count
sweep-is_blocked_example = sweep-is_blocked some_blocked 9 50 60 (omega arith) (omega arith)
