-- ===== src/Replication/Refines.antt =====
-- Leader and followers of leader-follower-replication/replication.py against one history.
use ddia_implementations.Prelude.{
  ℕ, ◌+◌, ◌-◌, ◌≤◌, String, List, string_key, [], ◌∷◌, ◌++◌, ◌&&◌, ◌≡◌, refl, length, drop, true,
  false, some, none, inl, inr, Option-cases, ◌≢◌, arith, length-append, Bool-cases, ◌∙◌, ltb, ap,
  subst, sym, take-append, take-all, ◌<◌, length-drop, drop-drop, drop-append,
}
use ddia_implementations.Dict
use ddia_implementations.Dict.{Dict, get-put, get-remove}
use ddia_implementations.Replication.Follower
use ddia_implementations.Replication.Leader
use ddia_implementations.Replication.Follower.{
  OpType, ReplicationLogEntry, FollowerNode, apply_op, apply_from, apply_entry,
}
use ddia_implementations.Replication.Leader.{
  System, LeaderNode, Mode, write, add_follower, remove_follower, take_offline, bring_online,
  trim_log, finish_write, next_entry, propagated,
}
use ddia_implementations.Replication.Replay.{
  replay, entries, at_lsn, replay-append, length-entries, drop-entries, entries-append,
}
use ddia_implementations.Replication.Feeding.{
  fed, get-propagate_all, get-propagate_all-none, promote-registered,
}

module _ {V : Type 0} where
  -- The states that calls reach, with the operations that the leader has run. A follower that is
  -- registered while it is online is caught up, and one that comes online finds what it has missed
  -- in the log, which keeps the last `log_retention` entries.
  pub data Reached : System V → List (String × OpType V) → Type 0 where
    began :
        (nodes : Dict String (FollowerNode V))
        → ((id : String) (n : FollowerNode V) → Dict.get nodes id ≡ some n → n ≡ Follower.init)
        → Reached (record { leader = Leader.init; nodes = nodes }) []
    wrote :
        {s : System V} {h : List (String × OpType V)} (key : String) (op : OpType V)
        → Reached s h
        → Reached (write s key op).0 (h ++ (key, op) ∷ [])
    added :
        {s : System V} {h : List (String × OpType V)} (id : String) (mode : Mode)
        → ((n : FollowerNode V)
            → Dict.get s.nodes id ≡ some n
            → n.online ≡ true
            → n.applied_lsn + 1 ≡ s.leader.next_lsn)
        → Reached s h
        → Reached (record s { leader = add_follower s.leader id mode }) h
    removed :
        {s : System V} {h : List (String × OpType V)} (id : String)
        → Reached s h
        → Reached (record s { leader = remove_follower s.leader id }) h
    went_offline :
        {s : System V} {h : List (String × OpType V)} (id : String)
        → Reached s h
        → Reached (take_offline s id) h
    came_online :
        {s : System V} {h : List (String × OpType V)} (id : String)
        → ((n : FollowerNode V)
            → Dict.get s.nodes id ≡ some n
            → s.leader.next_lsn ≤ n.applied_lsn + 1 + length s.leader.log)
        → Reached s h
        → Reached (bring_online s id) h

  -- a follower has the first part of the history
  pub record IsPrefix (h : List (String × OpType V)) (n : FollowerNode V) : Type 0 where
    pub within : n.applied_lsn ≤ length h
    pub has : n.contents ≡ at_lsn h n.applied_lsn

  -- the log is the end of the history
  pub record IsLog (h : List (String × OpType V)) (log : List (ReplicationLogEntry V))
      : Type 0 where
    pub from : ℕ
    pub within : from ≤ length h
    pub holds : log ≡ entries (from + 1) (drop from h)

  pub record IsReplicated (s : System V) (h : List (String × OpType V)) : Type 0 where
    pub leads : s.leader.contents ≡ replay [] h
    pub numbered : s.leader.next_lsn ≡ length h + 1
    pub logged : IsLog h s.leader.log
    pub follow : (id : String) (n : FollowerNode V) → Dict.get s.nodes id ≡ some n → IsPrefix h n
    pub caught_up :
        (id : String) (n : FollowerNode V)
        → Dict.get s.nodes id ≡ some n
        → Dict.get s.leader.followers id ≢ none
        → n.online ≡ true
        → n.applied_lsn ≡ length h

  IsPrefix-append :
      (h : List (String × OpType V)) (e : String × OpType V) (n : FollowerNode V)
      → IsPrefix h n
      → IsPrefix (h ++ e ∷ []) n
  IsPrefix-append h e n p = record {
    within = omega (arith, length-append h (e ∷ []), p.within);
    has = p.has ∙ ap (replay []) (sym (take-append h (e ∷ []) n.applied_lsn p.within));
  }

  at_lsn-next :
      (h : List (String × OpType V)) (k : String) (op : OpType V) (m : ℕ)
      → m ≡ length h + 1
      → at_lsn (h ++ (k, op) ∷ []) m ≡ apply_op (replay [] h) k op
  unfolding replay
  at_lsn-next h k op m e =
      ap (replay [])
        (take-all (h ++ (k, op) ∷ []) m (omega (arith, length-append h ((k, op) ∷ []))))
      ∙ replay-append [] h ((k, op) ∷ [])

  apply_entry-next :
      (n : FollowerNode V) (k : String) (op : OpType V) (m : ℕ)
      → n.applied_lsn < m
      → apply_entry n (record { lsn = m; op_type = op; key = k })
        ≡ record n { contents = apply_op n.contents k op; applied_lsn = m }
  unfolding apply_entry
  apply_entry-next n k op m l = ground arith

  -- a caught-up follower applies the next entry
  apply_entry-IsPrefix :
      (h : List (String × OpType V)) (k : String) (op : OpType V) (n : FollowerNode V) (m : ℕ)
      → IsPrefix h n
      → n.applied_lsn ≡ length h
      → m ≡ length h + 1
      → IsPrefix (h ++ (k, op) ∷ []) (apply_entry n (record { lsn = m; op_type = op; key = k }))
        × ((apply_entry n (record { lsn = m; op_type = op; key = k })).applied_lsn
            ≡ length (h ++ (k, op) ∷ []))
  apply_entry-IsPrefix h k op n m p c e =
      let same = p.has ∙ ap (replay []) (take-all h n.applied_lsn (omega arith)) in
      subst (λ n'. IsPrefix (h ++ (k, op) ∷ []) n' × (n'.applied_lsn ≡ length (h ++ (k, op) ∷ [])))
        (sym (apply_entry-next n k op m (omega arith)))
        (
          record {
            within = omega (arith, length-append h ((k, op) ∷ []));
            has = ap (λ d. apply_op d k op) same ∙ sym (at_lsn-next h k op m e);
          },
          omega (arith, length-append h ((k, op) ∷ [])),
        )

  trim_log-IsLog :
      (h : List (String × OpType V)) (log : List (ReplicationLogEntry V)) (r : ℕ)
      → IsLog h log
      → IsLog h (trim_log r log)
  unfolding trim_log
  trim_log-IsLog h log r l = elim (Bool-cases (ltb r (length log) && ltb 0 r)) [
    | inl q ↦ subst (IsLog h) (ground arith) (record {
      from = l.from + (length log - r);
      within = omega (
        arith,
        ap length l.holds,
        length-entries (l.from + 1) (drop l.from h),
        length-drop h l.from,
      );
      holds =
          ap (drop (length log - r)) l.holds
          ∙ drop-entries (l.from + 1) (length log - r) (drop l.from h)
          ∙ ap (entries (l.from + 1 + (length log - r)))
              (drop-drop h l.from (length log - r) (l.from + (length log - r)) refl)
          ∙ ap (λ i. entries i (drop (l.from + (length log - r)) h)) (omega arith);
    })
    | inr q ↦ subst (IsLog h) (ground arith) l
  ]

  append-IsLog :
      (h : List (String × OpType V)) (log : List (ReplicationLogEntry V)) (k : String)
      (op : OpType V) (m : ℕ)
      → m ≡ length h + 1
      → IsLog h log
      → IsLog (h ++ (k, op) ∷ []) (log ++ record { lsn = m; op_type = op; key = k } ∷ [])
  unfolding entries
  append-IsLog h log k op m e l = record {
    from = l.from;
    within = omega (arith, length-append h ((k, op) ∷ []), l.within);
    holds =
        ap (λ t. t ++ record { lsn = m; op_type = op; key = k } ∷ []) l.holds
        ∙ ap
            (λ i.
              entries (l.from + 1) (drop l.from h)
              ++ record { lsn = i; op_type = op; key = k } ∷ [])
            (omega (arith, length-drop h l.from, l.within))
        ∙ sym (entries-append (l.from + 1) (drop l.from h) ((k, op) ∷ []))
        ∙ ap (entries (l.from + 1)) (sym (drop-append h ((k, op) ∷ []) l.from l.within));
  }

  pub start-IsReplicated :
      (nodes : Dict String (FollowerNode V))
      → ((id : String) (n : FollowerNode V) → Dict.get nodes id ≡ some n → n ≡ Follower.init)
      → IsReplicated (record { leader = Leader.init; nodes = nodes }) []
  unfolding replay entries Dict.get
  start-IsReplicated nodes f = record {
    leads = refl;
    numbered = refl;
    logged = record { from = 0; within = omega arith; holds = refl };
    follow = λ id n g.
        subst (IsPrefix []) (sym (f id n g)) (record { within = omega arith; has = refl });
    caught_up = λ id n g r o. absurd (r refl);
  }

  fed-follow :
      (h : List (String × OpType V)) (k : String) (op : OpType V) (n : FollowerNode V) (m : ℕ)
      → IsPrefix h n
      → (n.online ≡ true → n.applied_lsn ≡ length h)
      → m ≡ length h + 1
      → IsPrefix (h ++ (k, op) ∷ []) (fed n (record { lsn = m; op_type = op; key = k }))
        × ((fed n (record { lsn = m; op_type = op; key = k })).online ≡ true
            → (fed n (record { lsn = m; op_type = op; key = k })).applied_lsn
              ≡ length (h ++ (k, op) ∷ []))
  fed-follow h k op n m p c e =
      let goal = λ (n' : FollowerNode V).
        IsPrefix (h ++ (k, op) ∷ []) n'
        × (n'.online ≡ true → n'.applied_lsn ≡ length (h ++ (k, op) ∷ [])) in
      elim (Bool-cases n.online) [
        | inl q ↦
            let (p', c') = apply_entry-IsPrefix h k op n m p (c q) e in
            subst goal (ground arith) (p', λ o. c')
        | inr q ↦ subst goal (ground arith) (IsPrefix-append h (k, op) n p, λ o. ground arith)
      ]

  write-follow :
      (s : System V) (h : List (String × OpType V)) (k : String) (op : OpType V)
      → IsReplicated s h
      → (id : String) (n : FollowerNode V) → Dict.get (write s k op).0.nodes id ≡ some n
      → IsPrefix (h ++ (k, op) ∷ []) n
        × ((Dict.get s.leader.followers id ≢ none)
            → n.online ≡ true
            → n.applied_lsn ≡ length (h ++ (k, op) ∷ []))
  unfolding write finish_write
  write-follow s h k op v id n g = elim (Option-cases (Dict.get s.nodes id)) [
    | inl q ↦ absurd (
        ground (
          arith,
          get-propagate_all-none
              (record { nodes = s.nodes; follower_failed = false; acked = false })
              (next_entry s.leader k op) s.leader.followers id q,
        ))
    | inr (o, q) ↦
        let after =
          get-propagate_all (record { nodes = s.nodes; follower_failed = false; acked = false })
            (next_entry s.leader k op) s.leader.followers id o q in
        elim (Option-cases (Dict.get s.leader.followers id)) [
          | inl r ↦
              let same : o ≡ n = ground (arith, after) in
              (
                subst (IsPrefix (h ++ (k, op) ∷ [])) same
                    (IsPrefix-append h (k, op) o (v.follow id o q)),
                λ t. absurd (t r),
              )
          | inr (m, r) ↦
              let same : fed o (next_entry s.leader k op) ≡ n = ground (arith, after) in
              let (p, c) =
                fed-follow h k op o s.leader.next_lsn (v.follow id o q)
                  (v.caught_up id o q (λ t. ground arith)) v.numbered in
              (
                subst (IsPrefix (h ++ (k, op) ∷ [])) same p,
                λ t u.
                    subst (λ n'. n'.online ≡ true → n'.applied_lsn ≡ length (h ++ (k, op) ∷ []))
                      same c u,
              )
        ]
  ]

  finish_write-registered :
      (s : System V) (k : String) (op : OpType V) (id : String)
      → Dict.get s.leader.followers id ≡ none
      → Dict.get (write s k op).0.leader.followers id ≡ none
  unfolding write finish_write
  finish_write-registered s k op id h = ground (
    arith,
    promote-registered (propagated s (next_entry s.leader k op)).nodes s.leader.followers id h,
  )

  pub write-IsReplicated :
      (s : System V) (h : List (String × OpType V)) (k : String) (op : OpType V)
      → IsReplicated s h
      → IsReplicated (write s k op).0 (h ++ (k, op) ∷ [])
  unfolding write finish_write replay
  write-IsReplicated s h k op v = record {
    leads = ap (λ d. apply_op d k op) v.leads ∙ sym (replay-append [] h ((k, op) ∷ []));
    numbered = omega (arith, v.numbered, length-append h ((k, op) ∷ []));
    logged =
        trim_log-IsLog (h ++ (k, op) ∷ []) _ s.leader.log_retention
          (append-IsLog h s.leader.log k op s.leader.next_lsn v.numbered v.logged);
    follow = λ id n g. (write-follow s h k op v id n g).0;
    caught_up = λ id n g r o.
        (write-follow s h k op v id n g).1 (λ t. r (finish_write-registered s k op id t)) o;
  }
