-- ===== src/Gossip/Node.antt =====
-- `GossipNode` of gossip-protocol/gossip_protocol.py. The entries are copied between nodes, so each
-- membership list is a value.
use ddia_implementations.Prelude.{
  ℕ, ◌+◌, ◌-◌, String, Bool, true, false, List, [], ◌∷◌, Option, none, some, if◌then◌else◌,
  string_key, ltb, ◌==◌, nat_key, ◌&&◌, not, ◌>>=◌,
}
use ddia_implementations.Dict
use ddia_implementations.Dict.{Dict}

pub data Status : Type 0 where
  alive suspected dead : Status

pub data Change : Type 0 where
  now_suspected now_dead removed : Change

pub record MemberEntry : Type 0 where
  pub heartbeat_counter : ℕ
  pub timestamp_last_updated : ℕ
  pub status : Status

abbrev pub Membership : Type 0
Membership = Dict String MemberEntry

pub record GossipNode : Type 0 where
  pub node_id : String
  pub t_suspect : ℕ
  pub t_dead : ℕ
  pub t_cleanup : ℕ
  pub membership : Membership
  pub is_alive : Bool
  pub is_leaving : Bool

abbrev pub is_dead : Status → Bool
is_dead dead = true
is_dead s = false

abbrev pub is_live : Status → Bool
is_live alive = true
is_live s = false

unfoldable pub init : String → ℕ → ℕ → ℕ → GossipNode
init node_id t_suspect t_dead t_cleanup = record {
  node_id = node_id;
  t_suspect = t_suspect;
  t_dead = t_dead;
  t_cleanup = t_cleanup;
  membership =
      (node_id, record { heartbeat_counter = 0; timestamp_last_updated = 0; status = alive }) ∷ [];
  is_alive = true;
  is_leaving = false;
}

-- the loop of `join`
unfoldable pub copy_members : Membership → String → Membership → Membership
copy_members m own [] = m
copy_members m own ((nid, info) ∷ seed) =
    copy_members (if nid == own then m else Dict.put m nid info) own seed

-- `none` is the `KeyError` of a node without an entry of its own; the second node is the seed
unfoldable pub join : GossipNode → GossipNode → Option (GossipNode × GossipNode)
join n seed = do
  seed_entry ← Dict.get seed.membership seed.node_id
  entry ← Dict.get (copy_members n.membership n.node_id seed.membership) n.node_id
  let mine : MemberEntry = record entry {
    timestamp_last_updated = seed_entry.timestamp_last_updated;
  }
  some (
    record n {
      membership = Dict.put (copy_members n.membership n.node_id seed.membership) n.node_id mine;
    },
    record seed { membership = Dict.put seed.membership n.node_id mine },
  )

unfoldable pub leave : GossipNode → Option GossipNode
leave n = do
  entry ← Dict.get n.membership n.node_id
  some (record n {
    membership = Dict.put n.membership n.node_id (record entry { status = dead });
    is_leaving = true;
  })

unfoldable pub heartbeat : GossipNode → ℕ → Option GossipNode
heartbeat n current_time = do
  entry ← Dict.get n.membership n.node_id
  some (
      if is_dead entry.status then n else record n {
        membership = Dict.put n.membership n.node_id (record entry {
          heartbeat_counter = entry.heartbeat_counter + 1;
          timestamp_last_updated = current_time;
        });
      })

-- the status that a remote entry with a higher counter gives
abbrev pub newer_status : Status → Status → Status
newer_status dead local = dead
newer_status suspected local = local
newer_status alive local = if is_dead local then local else alive

-- the branch of `receive_gossip` for a known node
unfoldable pub merge_entry : MemberEntry → MemberEntry → ℕ → MemberEntry
merge_entry local remote current_time =
    if ltb local.heartbeat_counter remote.heartbeat_counter
    then record {
      heartbeat_counter = remote.heartbeat_counter;
      timestamp_last_updated = current_time;
      status = newer_status remote.status local.status;
    }
    else if is_dead remote.status
        && remote.heartbeat_counter == local.heartbeat_counter
        && not (is_dead local.status)
    then record local { status = dead }
    else local

-- one round of the loop of `receive_gossip`
unfoldable pub receive_one : Membership → String → MemberEntry → ℕ → Membership
receive_one m nid remote current_time = elim (Dict.get m nid) [
  | none ↦
      if is_dead remote.status
      then m
      else Dict.put m nid (record remote { timestamp_last_updated = current_time })
  | some local ↦ Dict.put m nid (merge_entry local remote current_time)
]

unfoldable pub receive_all : Membership → Membership → ℕ → Membership
receive_all m [] current_time = m
receive_all m ((nid, remote) ∷ rest) current_time =
    receive_all (receive_one m nid remote current_time) rest current_time

unfoldable pub receive_gossip : GossipNode → Membership → ℕ → GossipNode
receive_gossip n membership_list current_time = record n {
  membership = receive_all n.membership membership_list current_time;
}

-- one round of the loop of `detect_failures`: the entry after it (`none`: it is removed), and the
-- change that is reported. `elapsed` is compared with times that are not negative, so a negative
-- one acts as 0.
unfoldable pub detect_one : GossipNode → MemberEntry → ℕ → Option MemberEntry × Option Change
detect_one n info current_time =
    let elapsed = current_time - info.timestamp_last_updated in
    if is_dead info.status && ltb n.t_cleanup elapsed
    then (none, some removed)
    else if ltb n.t_dead elapsed && not (is_dead info.status)
    then (some (record info { status = dead }), some now_dead)
    else if ltb n.t_suspect elapsed && is_live info.status
    then (some (record info { status = suspected }), some now_suspected)
    else (some info, none)

abbrev pub keep : String → Option MemberEntry → Membership → Membership
keep nid none m = m
keep nid (some info) m = (nid, info) ∷ m

abbrev pub report : String → Option Change → Dict String Change → Dict String Change
report nid none changes = changes
report nid (some c) changes = (nid, c) ∷ changes

unfoldable pub detect_all : GossipNode → Membership → ℕ → Membership × Dict String Change
detect_all n [] current_time = ([], [])
detect_all n ((nid, info) ∷ m) current_time =
    let rest = detect_all n m current_time in
    let seen = detect_one n info current_time in
    if nid == n.node_id
    then ((nid, info) ∷ rest.0, rest.1)
    else (keep nid seen.0 rest.0, report nid seen.1 rest.1)

unfoldable pub detect_failures : GossipNode → ℕ → GossipNode × Dict String Change
detect_failures n current_time =
    let found = detect_all n n.membership current_time in
    (record n { membership = found.0 }, found.1)

-- the ids of the members with one status, in the order of the list
unfoldable pub with_status : (Status → Bool) → Membership → List String
with_status test [] = []
with_status test ((nid, info) ∷ m) =
    let rest = with_status test m in if test info.status then nid ∷ rest else rest

unfoldable pub get_alive_members : GossipNode → List String
get_alive_members n = with_status is_live n.membership
