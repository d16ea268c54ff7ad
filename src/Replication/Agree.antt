-- ===== src/Replication/Agree.antt =====
-- All followers of leader-follower-replication/replication.py have first parts of one history.
use ddia_implementations.Prelude.{
  ◌+◌, ◌≤◌, String, List, string_key, [], ◌≡◌, refl, length, take, drop, true, some, Option-cases,
  arith, subst, inl, inr, ap, false, sym, ◌∙◌, take-all, ◌-◌, drop-drop, length-drop, take-drop,
}
use ddia_implementations.Dict
use ddia_implementations.Dict.{Dict, get-put, get-remove}
use ddia_implementations.Replication.Follower
use ddia_implementations.Replication.Leader
use ddia_implementations.Replication.Follower.{
  OpType, FollowerNode, apply_entries, ReplicationLogEntry, apply_from,
}
use ddia_implementations.Replication.Leader.{
  System, LeaderNode, Mode, add_follower, remove_follower, take_offline, bring_online, current_lsn,
  get_log_entries,
}
use ddia_implementations.Replication.Replay.{
  replay, entries, get_log_entries-entries, apply_from-entries, length-entries, replay-append,
}
use ddia_implementations.Replication.Refines.{
  Reached, IsPrefix, IsLog, IsReplicated, start-IsReplicated, write-IsReplicated, began, wrote,
  added, removed, went_offline, came_online,
}

module _ {V : Type 0} where
  add-IsReplicated :
      (s : System V) (h : List (String × OpType V)) (id : String) (mode : Mode)
      → ((n : FollowerNode V)
          → Dict.get s.nodes id ≡ some n
          → n.online ≡ true
          → n.applied_lsn + 1 ≡ s.leader.next_lsn)
      → IsReplicated s h
      → IsReplicated (record s { leader = add_follower s.leader id mode }) h
  unfolding add_follower
  add-IsReplicated s h id mode c v = record {
    leads = v.leads;
    numbered = v.numbered;
    logged = v.logged;
    follow = v.follow;
    caught_up = λ j n g r o. elim (string_key.dec id j) [
      | yes q ↦ ground (arith, c n, v.numbered)
      | no q ↦ v.caught_up j n g (λ t. r (ground (arith, get-put s.leader.followers id mode j))) o
    ];
  }

  remove-IsReplicated :
      (s : System V) (h : List (String × OpType V)) (id : String)
      → IsReplicated s h
      → IsReplicated (record s { leader = remove_follower s.leader id }) h
  unfolding remove_follower
  remove-IsReplicated s h id v = record {
    leads = v.leads;
    numbered = v.numbered;
    logged = v.logged;
    follow = v.follow;
    caught_up = λ j n g r o.
        v.caught_up j n g (λ t. r (ground (arith, get-remove s.leader.followers id j))) o;
  }

  -- one follower is exchanged for another one
  change-IsReplicated :
      (s : System V) (h : List (String × OpType V)) (id : String) (n' : FollowerNode V)
      → IsPrefix h n'
      → (n'.online ≡ true → n'.applied_lsn ≡ length h)
      → IsReplicated s h
      → IsReplicated (record s { nodes = Dict.put s.nodes id n' }) h
  change-IsReplicated s h id n' p c v = record {
    leads = v.leads;
    numbered = v.numbered;
    logged = v.logged;
    follow = λ j n g. elim (string_key.dec id j) [
      | yes q ↦ subst (IsPrefix h) (ground (arith, get-put s.nodes id n' j)) p
      | no q ↦ v.follow j n (ground (arith, get-put s.nodes id n' j))
    ];
    caught_up = λ j n g r o. elim (string_key.dec id j) [
      | yes q ↦
          (let same : n' ≡ n = ground (arith, get-put s.nodes id n' j) in
            subst (λ (m : FollowerNode V). m.online ≡ true → m.applied_lsn ≡ length h) same c o)
      | no q ↦ v.caught_up j n (ground (arith, get-put s.nodes id n' j)) r o
    ];
  }

  offline-IsReplicated :
      (s : System V) (h : List (String × OpType V)) (id : String)
      → IsReplicated s h
      → IsReplicated (take_offline s id) h
  unfolding take_offline Follower.go_offline
  offline-IsReplicated s h id v = elim (Option-cases (Dict.get s.nodes id)) [
    | inl q ↦ subst (λ t. IsReplicated t h) (ground arith) v
    | inr (n, q) ↦
        let p = v.follow id n q in
        subst (λ t. IsReplicated t h) (ground arith)
          (change-IsReplicated s h id (record n { online = false })
            (record { within = p.within; has = p.has }) (λ o. ground arith) v)
  ]

  -- what a follower that comes online has, when the log still holds what it has missed
  come_online-lem :
      (h : List (String × OpType V)) (log : List (ReplicationLogEntry V)) (n : FollowerNode V)
      → IsPrefix h n
      → IsLog h log
      → length h ≤ n.applied_lsn + length log
      → Follower.come_online n (get_log_entries log n.applied_lsn)
        ≡ record { contents = replay [] h; applied_lsn = length h; online = true }
  unfolding Follower.come_online apply_entries
  come_online-lem h log n p l e =
      let on : FollowerNode V = record n { online = true } in
      let len : length log ≡ length h - l.from = omega (
        arith,
        ap length l.holds,
        length-entries (l.from + 1) (drop l.from h),
        length-drop h l.from,
      ) in
      let near : l.from ≤ n.applied_lsn = omega (arith, l.within, len) in
      let rest = drop n.applied_lsn h in
      let missed : get_log_entries log n.applied_lsn ≡ entries (n.applied_lsn + 1) rest =
        ap (λ t. get_log_entries t n.applied_lsn) l.holds
        ∙ get_log_entries-entries (l.from + 1) n.applied_lsn (n.applied_lsn - l.from)
            (drop l.from h) (omega arith)
        ∙ ap (entries (n.applied_lsn + 1))
            (drop-drop h l.from (n.applied_lsn - l.from) n.applied_lsn (omega arith)) in
      let whole : replay n.contents rest ≡ replay [] h =
        ap (λ d. replay d rest) p.has
        ∙ sym (replay-append [] (take n.applied_lsn h) rest)
        ∙ ap (replay []) (take-drop h n.applied_lsn) in
      let count : n.applied_lsn + length rest ≡ length h =
        omega (arith, length-drop h n.applied_lsn, p.within) in
      ap (apply_from on) missed ∙ apply_from-entries on (n.applied_lsn + 1) rest refl ∙ ground arith

  online-IsReplicated :
      (s : System V) (h : List (String × OpType V)) (id : String)
      → ((n : FollowerNode V)
          → Dict.get s.nodes id ≡ some n
          → s.leader.next_lsn ≤ n.applied_lsn + 1 + length s.leader.log)
      → IsReplicated s h
      → IsReplicated (bring_online s id) h
  unfolding bring_online
  online-IsReplicated s h id e v = elim (Option-cases (Dict.get s.nodes id)) [
    | inl q ↦ subst (λ t. IsReplicated t h) (ground arith) v
    | inr (n, q) ↦
        let up =
          come_online-lem h s.leader.log n (v.follow id n q) v.logged
            (omega (arith, e n q, v.numbered)) in
        subst (λ t. IsReplicated t h) (ground arith)
          (change-IsReplicated s h id
            (record { contents = replay [] h; applied_lsn = length h; online = true })
            (record {
              within = omega arith;
              has = ap (replay []) (sym (take-all h (length h) (omega arith)));
            })
            (λ o. refl) v)
  ]

  Reached-IsReplicated :
      (s : System V) (h : List (String × OpType V)) → Reached s h → IsReplicated s h
  Reached-IsReplicated s h (began nodes f) = start-IsReplicated nodes f
  Reached-IsReplicated s h (wrote {s = t} {h = g} k op r) =
      write-IsReplicated t g k op (Reached-IsReplicated t g r)
  Reached-IsReplicated s h (added {s = t} id mode c r) =
      add-IsReplicated t h id mode c (Reached-IsReplicated t h r)
  Reached-IsReplicated s h (removed {s = t} id r) =
      remove-IsReplicated t h id (Reached-IsReplicated t h r)
  Reached-IsReplicated s h (went_offline {s = t} id r) =
      offline-IsReplicated t h id (Reached-IsReplicated t h r)
  Reached-IsReplicated s h (came_online {s = t} id c r) =
      online-IsReplicated t h id c (Reached-IsReplicated t h r)

  -- Replication refines one history of operations. In each state that is reached by writes and
  -- deletions at the leader and by followers that are registered, removed, go offline and come
  -- online (a follower is caught up when it is registered while online, and the log still has what
  -- it missed when it comes online): the leader's table is what the whole history makes, and each
  -- follower's table is what the first `applied_lsn` operations of it make.
  pub replicas_agree :
      (s : System V) (h : List (String × OpType V)) (id : String) (n : FollowerNode V)
      → Reached s h
      → Dict.get s.nodes id ≡ some n
      → (s.leader.contents ≡ replay [] h)
        × ((n.contents ≡ replay [] (take n.applied_lsn h)) × (n.applied_lsn ≤ current_lsn s.leader))
  unfolding current_lsn
  replicas_agree s h id n r g =
      let v = Reached-IsReplicated s h r in
      let p = v.follow id n g in (v.leads, (p.has, omega (arith, p.within, v.numbered)))

  -- In each such state a registered follower that is online answers as the leader does.
  pub online_follower_agrees :
      (s : System V) (h : List (String × OpType V)) (id : String) (n : FollowerNode V) (m : Mode)
      (key : String)
      → Reached s h
      → Dict.get s.nodes id ≡ some n
      → Dict.get s.leader.followers id ≡ some m
      → n.online ≡ true
      → Follower.get n key ≡ Leader.get s.leader key
  unfolding Follower.get Leader.get
  online_follower_agrees s h id n m key r g f o =
      let v = Reached-IsReplicated s h r in
      let p = v.follow id n g in
      ap (λ d. Dict.get d key)
        (p.has
          ∙ ap (replay [])
              (take-all h n.applied_lsn (omega (arith, v.caught_up id n g (λ t. ground arith) o)))
          ∙ sym v.leads)
