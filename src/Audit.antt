-- ===== src/Audit.antt =====
-- The ring of routing decisions, src/hd_audit.cc and include/hyper_derp/hd_audit.h. The clock is the
-- argument `now`; the counter of 64 bits never wraps in practice and is unbounded here. The
-- ring has one writer, so that an append is one step. JSON and the file sink are left out.
use hyper_derp.Prelude.{
  ℕ, zero, suc, ◌+◌, ◌-◌, ◌%◌, ◌<◌, Bool, true, false, if◌then◌else◌, ltb, List, [], ◌∷◌, length,
  replicate, set, get_or,
}
use hyper_derp.HdProtocol.{HdIntent, prefer_direct, HdConnMode, HdDenyReason, no_reason}
use hyper_derp.Resolver.{HdClientView, HdDecision, LayerAllowed}
pub mod Snapshot

abbrev pub ring_size : ℕ
ring_size = 4096

pub record HdAuditRecord : Type 0 where
  pub ts_ns : ℕ
  pub client_key : List ℕ
  pub target_key : List ℕ
  pub client_intent : HdIntent
  pub mode : HdConnMode
  pub deny_reason : HdDenyReason
  pub sub_reason : ℕ
  pub allow_upgrade : Bool
  pub allow_downgrade : Bool
  pub layer_allowed : LayerAllowed

abbrev pub empty_record : HdAuditRecord
empty_record = record {
  ts_ns = 0;
  client_key = replicate 32 0;
  target_key = replicate 32 0;
  client_intent = prefer_direct;
  mode = HdConnMode.denied;
  deny_reason = no_reason;
  sub_reason = 0;
  allow_upgrade = true;
  allow_downgrade = true;
  layer_allowed = record { fleet = 0; federation = 0; relay = 0; peer = 0; client = 0 };
}

pub record HdAuditRing : Type 0 where
  pub slots : List HdAuditRecord
  pub write_idx : ℕ

-- HdAuditInit.
unfoldable pub init : HdAuditRing
init = record { slots = replicate ring_size empty_record; write_idx = 0 }

-- What HdAuditRecordDecision writes to its slot.
unfoldable pub decision_record : ℕ → List ℕ → List ℕ → HdClientView → HdDecision → HdAuditRecord
decision_record now client_key target_key client decision = record {
  ts_ns = now;
  client_key = client_key;
  target_key = target_key;
  client_intent = client.intent;
  mode = decision.mode;
  deny_reason = decision.deny_reason;
  sub_reason = decision.sub_reason;
  allow_upgrade = client.allow_upgrade;
  allow_downgrade = client.allow_downgrade;
  layer_allowed = decision.layer_allowed;
}

-- HdAuditRecordDecision.
unfoldable pub record_decision :
    HdAuditRing → ℕ → List ℕ → List ℕ → HdClientView → HdDecision → HdAuditRing
unfolding decision_record
record_decision ring now client_key target_key client decision = record {
  slots =
      set ring.slots (ring.write_idx % ring_size)
        (decision_record now client_key target_key client decision);
  write_idx = ring.write_idx + 1;
}

-- The loop of HdAuditSnapshot: `n` records down from the one before `seq`.
unfoldable pub newest : HdAuditRing → ℕ → ℕ → List HdAuditRecord
newest ring seq zero = []
newest ring seq (suc n) =
    get_or ring.slots ((seq - 1) % ring_size) empty_record ∷ newest ring (seq - 1) n

-- HdAuditSnapshot, for a max_out that is not negative.
unfoldable pub snapshot : HdAuditRing → ℕ → List HdAuditRecord
unfolding newest
snapshot ring max_out =
    let total = if ltb ring.write_idx ring_size then ring.write_idx else ring_size in
    let n = if ltb total max_out then total else max_out in newest ring ring.write_idx n
