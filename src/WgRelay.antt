-- ===== src/WgRelay.antt =====
-- The roster of the WireGuard relay, src/wg_relay.cc and include/hyper_derp/wg_relay.h: peers, links and the
-- map of endpoints that the XDP program forwards by. Every operation holds the lock for its whole
-- body. A text is the list of its bytes; getaddrinfo is an argument; a BPF map is the list of its
-- entries, at most the number it is declared with. The counters and candidate slots of a peer, the learned MACs and
-- the roster file are left out.
use hyper_derp.Prelude.{
  ℕ, zero, suc, Bool, true, false, ◌&&◌, ◌||◌, not, if◌then◌else◌, ◌==◌, leb, length, Option, none,
  some, List, [], ◌∷◌, ◌++◌, set,
}
use hyper_derp.Prelude.Bytes.{same_bytes}
use hyper_derp.Prelude.Slots.{find_slot, find?}
pub mod Texts
pub mod Links
pub mod Roster
pub mod FastPath
pub mod Partners
pub mod Strikes
pub mod Blocking

abbrev pub Text : Type 0
Text = List ℕ

-- A sockaddr_storage: IPv4, IPv6 that maps an IPv4 address, other IPv6, another family.
pub data Endpoint : Type 0 where
  inet : ℕ → ℕ → Endpoint
  mapped : ℕ → ℕ → Endpoint
  inet6 : List ℕ → ℕ → Endpoint
  other_family : Endpoint

pub record WgRelayPeer : Type 0 where
  pub name : Text
  pub endpoint : Endpoint
  pub endpoint_str : Text
  pub pubkey_b64 : Text
  pub label : Text
  pub nic : Text

pub record WgRelayLink : Type 0 where
  pub a : Text
  pub b : Text

-- XdpEpKey and XdpEpVal.
pub record XdpEpKey : Type 0 where
  pub ip : ℕ
  pub port : ℕ

pub record XdpEpVal : Type 0 where
  pub ip : ℕ
  pub port : ℕ
  pub ifindex : ℕ

pub record WgRelay : Type 0 where
  pub peers : List WgRelayPeer
  pub links : List WgRelayLink
  pub attached : Bool
  pub attachments : List (Text × ℕ)
  pub peers_map : List (XdpEpKey × XdpEpVal)

-- `s.rfind(':')` with the text on both sides of the last colon.
unfoldable pub split_last_colon : Text → Option (Text × Text)
split_last_colon [] = none
split_last_colon (c ∷ s) = elim (split_last_colon s) [
  | some (host, port) ↦ some (c ∷ host, port)
  | none ↦ if c == b':' then some ([], s) else none
]

-- ParseHostPort.
unfoldable pub parse_host_port : (Text → Text → Option Endpoint) → Text → Option Endpoint
unfolding split_last_colon
parse_host_port getaddrinfo s = elim (split_last_colon s) [
  | some (host, port) ↦ getaddrinfo host port
  | none ↦ none
]

abbrev pub has_name : Text → WgRelayPeer → Bool
has_name name p = same_bytes p.name name

abbrev pub touches : Text → WgRelayLink → Bool
touches name l = same_bytes l.a name || same_bytes l.b name

abbrev pub joins : Text → Text → WgRelayLink → Bool
joins a b l = (same_bytes l.a a && same_bytes l.b b) || (same_bytes l.a b && same_bytes l.b a)

module _ {ℓ} {A : Type ℓ} (p : A → Bool) where
  -- `for (...) if (p(x)) return true; return false;`
  unfoldable pub any : List A → Bool
  any [] = false
  any (x ∷ xs) = p x || any xs

  -- `erase` of the first element that passes.
  unfoldable pub erase_first : List A → List A
  erase_first [] = []
  erase_first (x ∷ xs) = if p x then xs else x ∷ erase_first xs

  -- `erase` of every element that passes.
  unfoldable pub erase_all : List A → List A
  erase_all [] = []
  erase_all (x ∷ xs) = let rest = erase_all xs in if p x then rest else x ∷ rest

-- PeerHasLink.
unfoldable pub peer_has_link : List WgRelayLink → Text → Bool
unfolding any
peer_has_link links name = any (touches name) links

-- PeerKnown.
unfoldable pub peer_known : List WgRelayPeer → Text → Bool
unfolding any
peer_known peers name = any (has_name name) peers

-- PeerAddLocked, from the parsed endpoint on.
unfoldable pub peer_push : WgRelay → Text → Text → Text → Option Endpoint → Bool × WgRelay
peer_push r name endpoint label none = (false, r)
peer_push r name endpoint label (some e) = (
  true,
  record r {
    peers =
        r.peers
        ++ (record {
          name = name;
          endpoint = e;
          endpoint_str = endpoint;
          pubkey_b64 = [];
          label = label;
          nic = [];
        }
            ∷ []);
  },
)

-- PeerAddLocked.
unfoldable pub peer_add_locked :
    (Text → Text → Option Endpoint) → WgRelay → Text → Text → Text → Bool × WgRelay
unfolding peer_push any
peer_add_locked getaddrinfo r name endpoint label =
    if any (has_name name) r.peers
    then (false, r)
    else peer_push r name endpoint label (parse_host_port getaddrinfo endpoint)

-- PeerKeyLocked.
unfoldable pub peer_key_at : WgRelay → Text → Option (ℕ × WgRelayPeer) → Bool × WgRelay
peer_key_at r pubkey_b64 none = (false, r)
peer_key_at r pubkey_b64 (some (i, p)) =
    (true, record r { peers = set r.peers i (record p { pubkey_b64 = pubkey_b64 }) })

unfoldable pub peer_key_locked : WgRelay → Text → Text → Bool × WgRelay
unfolding peer_key_at
peer_key_locked r name pubkey_b64 = peer_key_at r pubkey_b64 (find_slot (has_name name) r.peers)

-- PeerNicLocked.
unfoldable pub peer_nic_at : WgRelay → Text → Option (ℕ × WgRelayPeer) → Bool × WgRelay
peer_nic_at r nic none = (false, r)
peer_nic_at r nic (some (i, p)) =
    (true, record r { peers = set r.peers i (record p { nic = nic }) })

unfoldable pub peer_nic_locked : WgRelay → Text → Text → Bool × WgRelay
unfolding peer_nic_at
peer_nic_locked r name nic = peer_nic_at r nic (find_slot (has_name name) r.peers)

-- PeerRemoveLocked.
unfoldable pub peer_remove_locked : WgRelay → Text → Bool × WgRelay
unfolding any erase_first erase_all
peer_remove_locked r name = (
  any (has_name name) r.peers,
  record r {
    links = erase_all (touches name) r.links;
    peers = erase_first (has_name name) r.peers;
  },
)

-- WgRelayLinkAddResult.
pub data WgRelayLinkAddResult : Type 0 where
  link_ok link_unknown_peer link_self link_limit_exceeded link_duplicate : WgRelayLinkAddResult

-- LinkAddLocked.
unfoldable pub link_add_locked : WgRelay → Text → Text → WgRelayLinkAddResult × WgRelay
unfolding peer_known peer_has_link any
link_add_locked r a b =
    if same_bytes a b
    then (link_self, r)
    else if not (peer_known r.peers a) || not (peer_known r.peers b)
    then (link_unknown_peer, r)
    else if any (joins a b) r.links
    then (link_duplicate, r)
    else if peer_has_link r.links a || peer_has_link r.links b
    then (link_limit_exceeded, r)
    else (link_ok, record r { links = r.links ++ (record { a = a; b = b } ∷ []) })

-- LinkRemoveLocked.
unfoldable pub link_remove_locked : WgRelay → Text → Text → Bool × WgRelay
unfolding any erase_first
link_remove_locked r a b =
    (any (joins a b) r.links, record r { links = erase_first (joins a b) r.links })

-- EndpointToV4.
unfoldable pub endpoint_to_v4 : Endpoint → Option XdpEpKey
endpoint_to_v4 (inet ip port) = some (record { ip = ip; port = port })
endpoint_to_v4 (mapped ip port) = some (record { ip = ip; port = port })
endpoint_to_v4 (inet6 addr port) = none
endpoint_to_v4 other_family = none

abbrev pub same_key : XdpEpKey → XdpEpKey × XdpEpVal → Bool
same_key key e = (e.0.ip == key.ip) && (e.0.port == key.port)

-- `max_entries` of wg_peers.
abbrev pub peers_max_entries : ℕ
peers_max_entries = 1024

-- bpf_map_update_elem with BPF_ANY; in a full map it fails for a new key, which is logged only.
unfoldable pub map_update :
    List (XdpEpKey × XdpEpVal) → XdpEpKey → XdpEpVal → List (XdpEpKey × XdpEpVal)
unfolding any erase_all
map_update m key val =
    if not (any (same_key key) m) && leb peers_max_entries (length m)
    then m
    else (key, val) ∷ erase_all (same_key key) m

-- bpf_map_delete_elem.
unfoldable pub map_delete : List (XdpEpKey × XdpEpVal) → XdpEpKey → List (XdpEpKey × XdpEpVal)
unfolding erase_all
map_delete m key = erase_all (same_key key) m

-- XdpInsertLinkDir, from the converted endpoints on.
unfoldable pub insert_converted :
    List (XdpEpKey × XdpEpVal) → ℕ → Option XdpEpKey → Option XdpEpKey → List (XdpEpKey × XdpEpVal)
unfolding map_update
insert_converted m ifindex none dst = m
insert_converted m ifindex (some src) none = m
insert_converted m ifindex (some src) (some dst) =
    map_update m src (record { ip = dst.ip; port = dst.port; ifindex = ifindex })

-- XdpInsertLinkDir.
unfoldable pub xdp_insert_link_dir : WgRelay → Endpoint → Endpoint → ℕ → WgRelay
unfolding insert_converted endpoint_to_v4
xdp_insert_link_dir r src dst ifindex = if not r.attached then r else record r {
  peers_map = insert_converted r.peers_map ifindex (endpoint_to_v4 src) (endpoint_to_v4 dst);
}

unfoldable pub delete_converted :
    List (XdpEpKey × XdpEpVal) → Option XdpEpKey → List (XdpEpKey × XdpEpVal)
unfolding map_delete
delete_converted m none = m
delete_converted m (some key) = map_delete m key

-- XdpRemoveLinkDir.
unfoldable pub xdp_remove_link_dir : WgRelay → Endpoint → WgRelay
unfolding delete_converted endpoint_to_v4
xdp_remove_link_dir r src =
    if not r.attached
    then r
    else record r { peers_map = delete_converted r.peers_map (endpoint_to_v4 src) }

-- The loop of XdpInsertLinkByNameLocked and XdpRemoveLinkByNameLocked: the last peer of the name.
unfoldable pub last_named : Text → Option WgRelayPeer → List WgRelayPeer → Option WgRelayPeer
last_named name found [] = found
last_named name found (p ∷ ps) = last_named name (if has_name name p then some p else found) ps

-- ResolveNicIfindex, from its test of the name on.
unfoldable pub named_ifindex : Option (Text × ℕ) → ℕ
named_ifindex none = 0
named_ifindex (some attachment) = attachment.1

unfoldable pub front_or : List (Text × ℕ) → Text → ℕ
unfolding named_ifindex
front_or [] nic = 0
front_or (x ∷ xs) [] = x.1
front_or (x ∷ xs) (c ∷ nic) = named_ifindex (find? (λ y. same_bytes y.0 (c ∷ nic)) (x ∷ xs))

-- ResolveNicIfindex.
unfoldable pub resolve_nic_ifindex : WgRelay → Text → ℕ
unfolding front_or
resolve_nic_ifindex r nic = if not r.attached then 0 else front_or r.attachments nic

-- XdpInsertLinkByNameLocked, for the peers found.
unfoldable pub insert_found : WgRelay → Option WgRelayPeer → Option WgRelayPeer → WgRelay
unfolding xdp_insert_link_dir
insert_found r none pb = r
insert_found r (some pa) none = r
insert_found r (some pa) (some pb) =
    let b_if = resolve_nic_ifindex r pb.nic in
    let a_if = resolve_nic_ifindex r pa.nic in
    let r' = xdp_insert_link_dir r pa.endpoint pb.endpoint b_if in
    xdp_insert_link_dir r' pb.endpoint pa.endpoint a_if

-- XdpInsertLinkByNameLocked.
unfoldable pub xdp_insert_link_by_name : WgRelay → WgRelayLink → WgRelay
unfolding insert_found last_named
xdp_insert_link_by_name r l =
    insert_found r (last_named l.a none r.peers) (last_named l.b none r.peers)

-- XdpRemoveLinkByNameLocked, for the peers found.
unfoldable pub remove_found : WgRelay → Option WgRelayPeer → WgRelay
unfolding xdp_remove_link_dir
remove_found r none = r
remove_found r (some p) = xdp_remove_link_dir r p.endpoint

-- XdpRemoveLinkByNameLocked.
unfoldable pub xdp_remove_link_by_name : WgRelay → WgRelayLink → WgRelay
unfolding remove_found last_named
xdp_remove_link_by_name r l =
    remove_found (remove_found r (last_named l.a none r.peers)) (last_named l.b none r.peers)

-- WgRelayPeerAdd.
unfoldable pub wg_relay_peer_add :
    (Text → Text → Option Endpoint) → WgRelay → Text → Text → Text → Bool × WgRelay
unfolding peer_add_locked
wg_relay_peer_add getaddrinfo r name endpoint label =
    peer_add_locked getaddrinfo r name endpoint label

-- WgRelayPeerKey.
unfoldable pub wg_relay_peer_key : WgRelay → Text → Text → Bool × WgRelay
unfolding peer_key_locked
wg_relay_peer_key r name pubkey_b64 = peer_key_locked r name pubkey_b64

-- The loops over links that insert, or remove, the entries of some of them.
unfoldable pub insert_touching : WgRelay → Text → List WgRelayLink → WgRelay
insert_touching r name [] = r
insert_touching r name (l ∷ ls) =
    insert_touching (if touches name l then xdp_insert_link_by_name r l else r) name ls

unfoldable pub remove_touching : WgRelay → Text → List WgRelayLink → WgRelay
remove_touching r name [] = r
remove_touching r name (l ∷ ls) =
    remove_touching (if touches name l then xdp_remove_link_by_name r l else r) name ls

-- WgRelayPeerNic: the guard on the attachments.
unfoldable pub nic_refused : WgRelay → Text → Bool
unfolding any
nic_refused r [] = false
nic_refused r (c ∷ nic) = r.attached && not (any (λ y. same_bytes y.0 (c ∷ nic)) r.attachments)

-- WgRelayPeerNic.
unfoldable pub wg_relay_peer_nic : WgRelay → Text → Text → Bool × WgRelay
unfolding nic_refused peer_nic_locked insert_touching
wg_relay_peer_nic r name nic =
    let (done, r') = peer_nic_locked r name nic in
    if nic_refused r nic
    then (false, r)
    else if not done
    then (false, r')
    else (true, insert_touching r' name r'.links)

-- WgRelayPeerRemove; the links of the peer are taken from the table as it was before.
unfoldable pub wg_relay_peer_remove : WgRelay → Text → Bool × WgRelay
unfolding peer_remove_locked remove_touching
wg_relay_peer_remove r name =
    let (done, r') = peer_remove_locked r name in
    if not done then (false, r') else (true, remove_touching r' name r.links)

-- WgRelayLinkAddDetail: what follows a link that was added.
unfoldable pub link_added :
    Text → Text → WgRelayLinkAddResult × WgRelay → WgRelayLinkAddResult × WgRelay
unfolding xdp_insert_link_by_name
link_added a b (link_ok, r) = (link_ok, xdp_insert_link_by_name r (record { a = a; b = b }))
link_added a b (link_unknown_peer, r) = (link_unknown_peer, r)
link_added a b (link_self, r) = (link_self, r)
link_added a b (link_limit_exceeded, r) = (link_limit_exceeded, r)
link_added a b (link_duplicate, r) = (link_duplicate, r)

-- WgRelayLinkAddDetail.
unfoldable pub wg_relay_link_add : WgRelay → Text → Text → WgRelayLinkAddResult × WgRelay
unfolding link_added link_add_locked
wg_relay_link_add r a b = link_added a b (link_add_locked r a b)

-- WgRelayLinkRemove.
unfoldable pub wg_relay_link_remove : WgRelay → Text → Text → Bool × WgRelay
unfolding link_remove_locked xdp_remove_link_by_name
wg_relay_link_remove r a b =
    let (done, r') = link_remove_locked r a b in
    if not done then (false, r') else (true, xdp_remove_link_by_name r' (record { a = a; b = b }))

-- LinkPartner.
unfoldable pub link_partner : List WgRelayLink → Text → Text
link_partner [] name = []
link_partner (l ∷ ls) name =
    if same_bytes l.a name then l.b else if same_bytes l.b name then l.a else link_partner ls name
