-- ===== src/ControlPlane/Handlers.antt =====
-- The handlers of src/control_plane.cc that change the registry and the watchers, and the frames
-- that they hand to the data plane: each is a key and the bytes of a frame, in the order of the
-- calls of DpWrite. Logging is left out, and the allocation in CpSendFrame succeeds.
use hyper_derp.Prelude.{
  ℕ, ◌≡◌, refl, true, ◌&&◌, not, if◌then◌else◌, ltb, Option, none, some, List, [], ◌∷◌, ◌++◌,
  length, take, set, get_or, All, Bool-cases, inl, inr,
}
use hyper_derp.Prelude.Int.{ℤ, pos, negsuc}
use hyper_derp.Derp.{
  build_present, build_gone, build_pong_frame, PeerGoneReason, disconnected, key_size,
  ping_data_size,
}
use hyper_derp.ControlPlane.{
  CpPeer, ControlPlane, empty_peer, is_live, max_fd, same_int, registry_insert, registry_remove,
  registry_lookup, add_watcher, remove_watcher,
}

-- One frame for one peer.
abbrev pub Send : Type 0
Send = List ℕ × List ℕ

-- `fd >= 0 && fd < kMaxFd && cp->fd_map[fd]`.
unfoldable pub peer_of : ControlPlane → ℤ → Option ℕ
peer_of cp (pos fd) = if ltb fd max_fd then cp.fd_map fd else none
peer_of cp (negsuc fd) = none

unfoldable pub send_to : ControlPlane → Option ℕ → List ℕ → List Send
send_to cp none frame = []
send_to cp (some s) frame = ((get_or cp.peers s empty_peer).key, frame) ∷ []

-- The body of the loop of CpNotifyWatchers, for the peer of one watcher.
unfoldable pub notify_one : ControlPlane → Option ℕ → List ℕ → List Send
notify_one cp none frame = []
notify_one cp (some s) frame =
    let p = get_or cp.peers s empty_peer in if is_live p then (p.key, frame) ∷ [] else []

unfoldable pub notify_from : ControlPlane → List ℤ → List ℕ → List Send
unfolding notify_one peer_of
notify_from cp [] frame = []
notify_from cp (fd ∷ fds) frame = notify_one cp (peer_of cp fd) frame ++ notify_from cp fds frame

-- CpNotifyWatchers.
unfoldable pub notify_watchers : ControlPlane → List ℕ → List Send
unfolding notify_from
notify_watchers cp frame = notify_from cp cp.watcher_fds frame

-- DoConnect.
unfoldable pub do_connect : ControlPlane → List ℕ → ℤ → ControlPlane × List Send
unfolding notify_watchers registry_insert
do_connect cp key fd =
    let cp' = (registry_insert cp key fd).1 in (cp', notify_watchers cp' (build_present key).bytes)

-- DoDisconnect.
unfoldable pub do_disconnect : ControlPlane → List ℕ → ℤ → PeerGoneReason → ControlPlane × List Send
unfolding notify_watchers registry_remove remove_watcher
do_disconnect cp key fd why =
    let cp' = registry_remove (remove_watcher cp fd) key in
    (cp', notify_watchers cp' (build_gone key why).bytes)

-- The loop of HandleWatchConns, over the slots.
unfoldable pub present_all : ControlPlane → ℤ → List CpPeer → List Send
unfolding send_to peer_of
present_all cp fd [] = []
present_all cp fd (p ∷ ps) =
    let rest = present_all cp fd ps in
    if is_live p && not (same_int p.fd fd)
    then send_to cp (peer_of cp fd) (build_present p.key).bytes ++ rest
    else rest

-- HandleWatchConns.
unfoldable pub handle_watch_conns : ControlPlane → ℤ → ControlPlane × List Send
unfolding present_all add_watcher
handle_watch_conns cp fd = let cp' = add_watcher cp fd in (cp', present_all cp' fd cp'.peers)

-- HandlePing.
unfoldable pub handle_ping : ControlPlane → ℤ → List ℕ → List Send
unfolding send_to peer_of
handle_ping cp fd payload =
    if ltb (length payload) ping_data_size
    then []
    else send_to cp (peer_of cp fd) (build_pong_frame payload).bytes

unfoldable pub prefer_at : ControlPlane → Option ℕ → ℕ → ControlPlane
prefer_at cp none v = cp
prefer_at cp (some s) v = record cp {
  peers = set cp.peers s (record (get_or cp.peers s empty_peer) { preferred = v });
}

-- HandleNotePreferred.
unfoldable pub handle_note_preferred : ControlPlane → ℤ → List ℕ → ControlPlane
unfolding prefer_at peer_of
handle_note_preferred cp fd payload =
    if ltb (length payload) 1 then cp else prefer_at cp (peer_of cp fd) (get_or payload 0 0)

unfoldable pub close_at :
    ControlPlane → List ℕ → Option ℕ → ControlPlane × List Send × Option (List ℕ)
unfolding do_disconnect
close_at cp key none = (cp, [], none)
close_at cp key (some s) =
    let (cp', sends) = do_disconnect cp key (get_or cp.peers s empty_peer).fd disconnected in
    (cp', sends, some key)

-- HandleClosePeer, with the key for which it calls DpRemovePeer of the data plane.
unfoldable pub handle_close_peer :
    ControlPlane → List ℕ → ControlPlane × List Send × Option (List ℕ)
unfolding close_at registry_lookup
handle_close_peer cp payload =
    if ltb (length payload) key_size
    then (cp, [], none)
    else close_at cp (take key_size payload) (registry_lookup cp (take key_size payload))

-- What a notification may be: the frame it was called with, for a live peer of the registry.
pub record IsNotice (cp : ControlPlane) (frame : List ℕ) (s : Send) : Type 0 where
  pub slot : ℕ
  pub live : is_live (get_or cp.peers slot empty_peer) ≡ true
  pub to_key : s.0 ≡ (get_or cp.peers slot empty_peer).key
  pub same_frame : s.1 ≡ frame

All-append : (P : Send → Type 0) (xs ys : List Send) → All P xs → All P ys → All P (xs ++ ys)
All-append P [] ys a b = b
All-append P (x ∷ xs) ys a b = (a.0, All-append P xs ys a.1 b)

notify_one-IsNotice :
    (cp : ControlPlane) (o : Option ℕ) (frame : List ℕ)
    → All (IsNotice cp frame) (notify_one cp o frame)
unfolding notify_one
notify_one-IsNotice cp none frame = tt
notify_one-IsNotice cp (some s) frame = elim (Bool-cases (is_live (get_or cp.peers s empty_peer))) [
  | inl t ↦ rw t (record { slot = s; live = t; to_key = refl; same_frame = refl }, tt)
  | inr f ↦ rw f tt
]

notify_from-IsNotice :
    (cp : ControlPlane) (fds : List ℤ) (frame : List ℕ)
    → All (IsNotice cp frame) (notify_from cp fds frame)
unfolding notify_from
notify_from-IsNotice cp [] frame = tt
notify_from-IsNotice cp (fd ∷ fds) frame =
    All-append (IsNotice cp frame) (notify_one cp (peer_of cp fd) frame) (notify_from cp fds frame)
      (notify_one-IsNotice cp (peer_of cp fd) frame) (notify_from-IsNotice cp fds frame)

-- DoConnect and DoDisconnect send only their own notice, and only to peers that are live in the
-- registry once the change is made.
pub notices-IsNotice :
    (cp : ControlPlane) (key : List ℕ) (fd : ℤ) (why : PeerGoneReason)
    → All (IsNotice (do_connect cp key fd).0 (build_present key).bytes) (do_connect cp key fd).1
      × All
          (IsNotice (do_disconnect cp key fd why).0 (build_gone key why).bytes)
          (do_disconnect cp key fd why).1
unfolding do_connect do_disconnect notify_watchers
notices-IsNotice cp key fd why =
    let joined = (registry_insert cp key fd).1 in
    let left = registry_remove (remove_watcher cp fd) key in
    (
      notify_from-IsNotice joined joined.watcher_fds (build_present key).bytes,
      notify_from-IsNotice left left.watcher_fds (build_gone key why).bytes,
    )
