-- ===== src/Turn/Operations.antt =====
-- All operations of src/turn.cc on a well-formed manager.
use hyper_derp.Prelude.{ℕ}
use hyper_derp.Prelude.Int.{ℤ}
use hyper_derp.Turn.{
  TurnManager, allocate, refresh, deallocate, create_permission, channel_bind, expire,
}
use hyper_derp.Turn.Invariant.{
  IsManager, allocate-IsManager, refresh-IsManager, deallocate-IsManager,
  create_permission-IsManager, channel_bind-IsManager,
}
use hyper_derp.Turn.Expiry.{expire-IsManager}

-- TurnAllocate, TurnRefresh, TurnDeallocate, TurnCreatePermission, TurnChannelBind and TurnExpire
-- keep a manager well formed: alloc_count the number of live allocations, a free slot without
-- permissions and channels, every relay port and the next one from 49152 to 65535.
pub operations-IsManager :
    (m : TurnManager) (now ip port alloc_id channel : ℕ) (lifetime : ℤ)
    → IsManager m
    → IsManager (allocate m now ip port lifetime).1
      × IsManager (refresh m now alloc_id lifetime).1
      × IsManager (deallocate m alloc_id)
      × IsManager (create_permission m now alloc_id ip).1
      × IsManager (channel_bind m now alloc_id channel ip port).1
      × IsManager (expire m now).1
operations-IsManager m now ip port alloc_id channel lifetime ok = (
  allocate-IsManager m ok now ip port lifetime,
  refresh-IsManager m ok now alloc_id lifetime,
  deallocate-IsManager m ok alloc_id,
  create_permission-IsManager m ok now alloc_id ip,
  channel_bind-IsManager m ok now alloc_id channel ip port,
  (expire-IsManager m now ok).0,
)
