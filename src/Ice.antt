-- ===== src/Ice.antt =====
-- The ICE agent, src/ice.cc and include/hyper_derp/ice.h. A pointer to a session or a pair is the index
-- of its slot. The candidates of a session are the list of those in use, whose length is
-- local_count or remote_count; a candidate type is the byte of the enum, which IceParseCandidates
-- casts from any byte. The flags of a pair, which only hold 0 or 1, are Booleans. sodium_memcmp,
-- std::sort, the random transaction ids and the layout of words in the host's memory are arguments.
use hyper_derp.Prelude.{
  ℕ, zero, suc, ◌+◌, ◌-◌, ◌*◌, ◌%◌, ◌^◌, ◌<◌, ◌≡◌, ◌↔◌, min, max, bit_or, Bool, true, false, ◌&&◌,
  ◌||◌, not, if◌then◌else◌, ◌==◌, ltb, leb, Option, none, some, List, [], ◌∷◌, ◌++◌, length, take,
  drop, set, replicate, get_or, get_elem?,
}
use hyper_derp.Prelude.Int.{ℤ, pos, negsuc, suc_int, pred_int}
use hyper_derp.Prelude.Slots.{find_slot, find?}
pub mod Priority
pub mod Pairing
pub mod Checking
pub mod Progress
pub mod Exchange
pub mod Sessions

-- kIceMaxCandidates, kIceMaxPairs, kIceMaxSessions.
abbrev pub max_candidates : ℕ
max_candidates = 16

abbrev pub max_pairs : ℕ
max_pairs = 64

abbrev pub max_sessions : ℕ
max_sessions = 256

-- IceCandidateType.
abbrev pub type_host : ℕ
type_host = 0

abbrev pub type_server_reflexive : ℕ
type_server_reflexive = 1

abbrev pub type_relay : ℕ
type_relay = 2

pub record IceCandidate : Type 0 where
  pub ctype : ℕ
  pub ip : ℕ
  pub port : ℕ
  pub priority : ℕ
  pub occupied : ℕ

pub data IceState : Type 0 where
  new_state gathering checking connected failed_state closed : IceState

pub record IceCandidatePair : Type 0 where
  pub local : IceCandidate
  pub remote : IceCandidate
  pub priority : ℕ
  pub nominated : Bool
  pub succeeded : Bool
  pub in_progress : Bool
  pub failed : Bool
  pub transaction_id : List ℕ

pub record IceSession : Type 0 where
  pub peer_key : List ℕ
  pub state : IceState
  pub local_candidates : List IceCandidate
  pub remote_candidates : List IceCandidate
  pub pairs : List IceCandidatePair
  pub pair_count : ℕ
  pub nominated_pair : ℤ
  pub check_interval_ms : ℕ
  pub occupied : ℕ

pub record IceAgent : Type 0 where
  pub sessions : List IceSession
  pub session_count : ℤ
  pub relay_ip : ℕ
  pub stun_port : ℕ

abbrev pub empty_candidate : IceCandidate
empty_candidate = record { ctype = 0; ip = 0; port = 0; priority = 0; occupied = 0 }

-- A pair whose bytes are all 0.
abbrev pub empty_pair : IceCandidatePair
empty_pair = record {
  local = empty_candidate;
  remote = empty_candidate;
  priority = 0;
  nominated = false;
  succeeded = false;
  in_progress = false;
  failed = false;
  transaction_id = replicate 12 0;
}

-- A session whose bytes are all 0.
abbrev pub empty_session : IceSession
empty_session = record {
  peer_key = replicate 32 0;
  state = new_state;
  local_candidates = [];
  remote_candidates = [];
  pairs = replicate max_pairs empty_pair;
  pair_count = 0;
  nominated_pair = pos 0;
  check_interval_ms = 0;
  occupied = 0;
}

-- TypePref.
unfoldable pub type_pref : ℕ → ℕ
type_pref ctype =
    if ctype == type_host then 126 else if ctype == type_server_reflexive then 100 else 0

-- IceCalcPriority, for a component from 0 to 256, on uint32_t.
unfoldable pub calc_priority : ℕ → ℕ → ℕ → ℕ
unfolding type_pref
calc_priority ctype local_pref component =
    bit_or (bit_or (type_pref ctype * 2 ^ 24 % 2 ^ 32) (local_pref * 2 ^ 8 % 2 ^ 32))
      (256 - component)

-- IceCalcPairPriority, on uint64_t.
unfoldable pub calc_pair_priority : ℕ → ℕ → ℕ
calc_pair_priority g d =
    bit_or (bit_or (min g d * 2 ^ 32 % 2 ^ 64) (max g d * 2 % 2 ^ 64)) (if ltb d g then 1 else 0)

-- IceInit.
unfoldable pub init : ℕ → ℕ → IceAgent
init relay_ip stun_port = record {
  sessions = replicate max_sessions empty_session;
  session_count = pos 0;
  relay_ip = relay_ip;
  stun_port = stun_port;
}

abbrev pub is_free : IceSession → Bool
is_free s = s.occupied == 0

abbrev pub is_occupied : IceSession → Bool
is_occupied s = not (s.occupied == 0)

abbrev pub at_limit : ℤ → Bool
at_limit (pos n) = leb max_sessions n
at_limit (negsuc n) = false

-- The session that IceStartSession writes.
abbrev pub fresh_session : List ℕ → IceSession
fresh_session peer_key = record empty_session {
  peer_key = peer_key;
  state = gathering;
  nominated_pair = negsuc 0;
  check_interval_ms = 50;
  occupied = 1;
}

-- IceStartSession: the loop for an unoccupied slot.
unfoldable pub start_at : IceAgent → List ℕ → Option (ℕ × IceSession) → Option ℕ × IceAgent
start_at agent peer_key none = (none, agent)
start_at agent peer_key (some (i, s)) = (
  some i,
  record agent {
    sessions = set agent.sessions i (fresh_session peer_key);
    session_count = suc_int agent.session_count;
  },
)

-- IceStartSession.
unfoldable pub start_session : IceAgent → List ℕ → Option ℕ × IceAgent
unfolding start_at
start_session agent peer_key =
    if at_limit agent.session_count
    then (none, agent)
    else start_at agent peer_key (find_slot is_free agent.sessions)

-- What IceAddLocalCandidate and IceAddRemoteCandidate write.
unfoldable pub candidate : ℕ → ℕ → ℕ → IceCandidate
unfolding calc_priority
candidate ctype ip port = record {
  ctype = ctype;
  ip = ip;
  port = port;
  priority = calc_priority ctype 65535 1;
  occupied = 1;
}

-- IceAddLocalCandidate.
unfoldable pub add_local_candidate : IceSession → ℕ → ℕ → ℕ → Bool × IceSession
add_local_candidate s ctype ip port =
    if leb max_candidates (length s.local_candidates) then (false, s) else (
      true,
      record s { local_candidates = s.local_candidates ++ (candidate ctype ip port ∷ []) },
    )

-- IceAddRemoteCandidate.
unfoldable pub add_remote_candidate : IceSession → ℕ → ℕ → ℕ → Bool × IceSession
add_remote_candidate s ctype ip port =
    if leb max_candidates (length s.remote_candidates) then (false, s) else (
      true,
      record s { remote_candidates = s.remote_candidates ++ (candidate ctype ip port ∷ []) },
    )

-- The pair that IceFormPairs writes for two candidates.
unfoldable pub pair_of : IceCandidate → IceCandidate → IceCandidatePair
pair_of l r = record empty_pair {
  local = l;
  remote = r;
  priority = calc_pair_priority l.priority r.priority;
}

-- IceFormPairs: the inner loop, with the pairs written so far.
unfoldable pub form_row :
    IceCandidate → List IceCandidate → List IceCandidatePair → List IceCandidatePair
form_row l [] acc = acc
form_row l (r ∷ remotes) acc =
    let rest = form_row l remotes (acc ++ (pair_of l r ∷ [])) in
    if leb max_pairs (length acc) then acc else rest

-- IceFormPairs: the outer loop.
unfoldable pub form_rows :
    List IceCandidate → List IceCandidate → List IceCandidatePair → List IceCandidatePair
unfolding form_row
form_rows [] remotes acc = acc
form_rows (l ∷ locals) remotes acc =
    let row = form_row l remotes acc in
    let rest = form_rows locals remotes row in if leb max_pairs (length row) then row else rest

module _ (sort : List IceCandidatePair → List IceCandidatePair) where
  -- IceFormPairs; std::sort works on the first pair_count slots of the array.
  unfoldable pub form_pairs : IceSession → IceSession
  unfolding form_rows
  form_pairs s =
      let formed = form_rows s.local_candidates s.remote_candidates [] in
      record s {
        pairs = sort formed ++ drop (length formed) s.pairs;
        pair_count = length formed;
        state = checking;
      }

abbrev pub is_pending : IceCandidatePair → Bool
is_pending p = not (p.in_progress || (p.succeeded || p.failed))

-- IceNextCheck: the body of the loop at the pair that it returns.
unfoldable pub check_at :
    IceSession → List ℕ → Option (ℕ × IceCandidatePair) → Option ℕ × IceSession
check_at s random none = (none, s)
check_at s random (some (i, p)) = (
  some i,
  record s { pairs = set s.pairs i (record p { in_progress = true; transaction_id = random }) },
)

-- IceNextCheck, with the bytes that randombytes_buf gives.
unfoldable pub next_check : IceSession → List ℕ → Option ℕ × IceSession
unfolding check_at
next_check s random = check_at s random (find_slot is_pending (take s.pair_count s.pairs))

abbrev pub is_negative : ℤ → Bool
is_negative (pos n) = false
is_negative (negsuc n) = true

-- IceProcessResponse: the body of the loop at the pair that answers.
unfoldable pub respond_at : IceSession → Option (ℕ × IceCandidatePair) → Bool × IceSession
respond_at s none = (false, s)
respond_at s (some (i, p)) =
    let q : IceCandidatePair = record p { succeeded = true; in_progress = false } in
    if is_negative s.nominated_pair
    then (
      true,
      record s {
        pairs = set s.pairs i (record q { nominated = true });
        nominated_pair = pos i;
        state = connected;
      },
    )
    else (false, record s { pairs = set s.pairs i q })

-- IceCheckFailed: the body of its first loop at the pair.
unfoldable pub fail_at : IceSession → Option (ℕ × IceCandidatePair) → IceSession
fail_at s none = s
fail_at s (some (i, p)) = record s {
  pairs = set s.pairs i (record p { failed = true; in_progress = false });
}

-- The test of the second loop of IceCheckFailed.
abbrev pub is_unsettled : IceCandidatePair → Bool
is_unsettled p = not p.succeeded && not p.failed

-- IceCheckFailed: from its second loop on.
unfoldable pub settle : IceSession → Option IceCandidatePair → IceSession
settle s (some p) = s
settle s none = if is_negative s.nominated_pair then record s { state = failed_state } else s

-- IceGetNominated.
unfoldable pub get_nominated : IceSession → Option IceCandidatePair
get_nominated s = elim s.nominated_pair [
  | pos i ↦ some (get_or s.pairs i empty_pair)
  | negsuc n ↦ none
]

module _ (same : List ℕ → List ℕ → Bool) where
  -- What sodium_memcmp promises.
  abbrev pub IsMemcmp : Type 0
  IsMemcmp = (a b : List ℕ) → (same a b ≡ true) ↔ (a ≡ b)

  abbrev pub awaits : List ℕ → IceCandidatePair → Bool
  awaits transaction_id p = same p.transaction_id transaction_id && p.in_progress

  -- IceProcessResponse; the mapped address goes unused there.
  unfoldable pub process_response : IceSession → List ℕ → ℕ → ℕ → Bool × IceSession
  unfolding respond_at
  process_response s transaction_id mapped_ip mapped_port =
      respond_at s (find_slot (awaits transaction_id) (take s.pair_count s.pairs))

  -- IceCheckFailed.
  unfoldable pub check_failed : IceSession → List ℕ → IceSession
  unfolding fail_at settle
  check_failed s transaction_id =
      let s' = fail_at s (find_slot (awaits transaction_id) (take s.pair_count s.pairs)) in
      settle s' (find? is_unsettled (take s'.pair_count s'.pairs))

  abbrev pub has_key : List ℕ → IceSession → Bool
  has_key peer_key s = is_occupied s && same s.peer_key peer_key

  -- IceCloseSession: the body of the loop at the session.
  unfoldable pub close_at : IceAgent → Option (ℕ × IceSession) → IceAgent
  close_at agent none = agent
  close_at agent (some (i, s)) = record agent {
    sessions = set agent.sessions i (record s { state = closed; occupied = 0 });
    session_count = pred_int agent.session_count;
  }

  -- IceCloseSession.
  unfoldable pub close_session : IceAgent → List ℕ → IceAgent
  unfolding close_at
  close_session agent peer_key = close_at agent (find_slot (has_key peer_key) agent.sessions)

  -- IceFindSession.
  unfoldable pub find_session : IceAgent → List ℕ → Option (ℕ × IceSession)
  find_session agent peer_key = find_slot (has_key peer_key) agent.sessions

-- The bytes that memcpy takes from a uint32_t and a uint16_t of the host, and the words that it makes
-- of such bytes.
pub record HostLayout : Type 0 where
  pub bytes32 : ℕ → List ℕ
  pub word32 : List ℕ → ℕ
  pub bytes16 : ℕ → List ℕ
  pub word16 : List ℕ → ℕ
  pub size32 : (v : ℕ) → length (bytes32 v) ≡ 4
  pub size16 : (v : ℕ) → length (bytes16 v) ≡ 2
  pub back32 : (v : ℕ) → v < 2 ^ 32 → word32 (bytes32 v) ≡ v
  pub back16 : (v : ℕ) → v < 2 ^ 16 → word16 (bytes16 v) ≡ v

module _ (layout : HostLayout) where
  -- The loop of IceSerializeCandidates.
  unfoldable pub write_candidates : List IceCandidate → List ℕ
  write_candidates [] = []
  write_candidates (c ∷ rest) =
      c.ctype ∷ layout.bytes32 c.ip ++ (layout.bytes16 c.port ++ write_candidates rest)

  -- IceSerializeCandidates, `none` where it returns 0.
  unfoldable pub serialize_candidates : IceSession → ℕ → Option (List ℕ)
  unfolding write_candidates
  serialize_candidates s buf_size =
      let n = length s.local_candidates in
      if ltb buf_size (1 + n * 7)
      then none
      else some ((n % 256) ∷ write_candidates s.local_candidates)

  -- The loop of IceParseCandidates, with the number parsed so far.
  unfoldable pub read_candidates : ℕ → List ℕ → ℕ → IceSession → ℕ × IceSession
  unfolding add_remote_candidate
  read_candidates zero buf parsed s = (parsed, s)
  read_candidates (suc count) buf parsed s =
      let (added, s') =
        add_remote_candidate s (get_or buf 0 0) (layout.word32 (take 4 (drop 1 buf)))
          (layout.word16 (take 2 (drop 5 buf))) in
      read_candidates count (drop 7 buf) (if added then suc parsed else parsed) s'

  -- IceParseCandidates: `none` where it returns -1.
  unfoldable pub parse_candidates : IceSession → List ℕ → Option ℕ × IceSession
  unfolding read_candidates
  parse_candidates s buf =
      let count = get_or buf 0 0 in
      let (parsed, s') = read_candidates count (drop 1 buf) 0 s in
      if ltb (length buf) 1
      then (none, s)
      else if ltb (length buf) (1 + count * 7)
      then (none, s)
      else (some parsed, s')
