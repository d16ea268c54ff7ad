-- ===== src/Replication/Tests.antt =====
-- The replication theorems at one leader and two followers.
use ddia_implementations.Prelude.{
  ℕ, ◌≤◌, String, List, string_key, string_dec, ℕ_discrete, [], ◌∷◌, ◌≡◌, refl, true, some, none,
  arith, take, string_ne,
}
use ddia_implementations.Dict
use ddia_implementations.Replication.Follower
use ddia_implementations.Replication.Leader
use ddia_implementations.Replication.Session
use ddia_implementations.Replication.Follower.{OpType, FollowerNode, put_op, delete_op}
use ddia_implementations.Replication.Leader.{System, Mode}
use ddia_implementations.Replication.Replay.{replay}
use ddia_implementations.Replication.Refines.{
  Reached, came_online, wrote, went_offline, added, began,
}
use ddia_implementations.Replication.Agree.{replicas_agree}
use ddia_implementations.Replication.Late.{register, late_follower_misses}

runs : Unit {0}
unfolding Follower.apply_op Follower.apply_entry Follower.apply_from Follower.apply_entries
    Follower.go_offline Follower.come_online Follower.get Leader.propagate_to Leader.propagate_all
    Leader.better_async Leader.best_async Leader.promote_async_to_semi_sync Leader.trim_log
    Leader.finish_write Leader.write Leader.put Leader.delete Leader.get Leader.add_follower
    Leader.remove_follower Leader.get_log_entries Leader.current_lsn Leader.take_offline
    Leader.bring_online Session.find_fresh Session.better Session.most_caught_up Session.read replay
    Dict.get Dict.put Dict.remove string_dec ℕ_discrete
runs = tt

abbrev empty : System ℕ
empty = record { leader = Leader.init; nodes = ("f", Follower.init) ∷ ("g", Follower.init) ∷ [] }

-- "f" misses the second write and catches up
abbrev history : List (String × OpType ℕ)
history = ("x", put_op 1) ∷ ("y", put_op 2) ∷ []

abbrev caught_up : FollowerNode ℕ
caught_up = record { contents = ("x", 1) ∷ ("y", 2) ∷ []; applied_lsn = 2; online = true }

abbrev one_write : System ℕ
one_write = (Leader.write (register empty "f" Leader.sync) "x" (put_op 1)).0

abbrev two_writes : System ℕ
two_writes = (Leader.write (Leader.take_offline one_write "f") "y" (put_op 2)).0

reached : Reached (Leader.bring_online two_writes "f") history
unfolding runs
reached =
    came_online {s = two_writes} {h = history} "f" (λ n g. omega arith)
      (wrote "y" (put_op 2) (
        went_offline "f" (
          wrote "x" (put_op 1) (
            added "f" Leader.sync (λ n g o. ground arith)
              (began empty.nodes (λ id n h. ground arith))))))

replicas_agree_example :
    ((Leader.bring_online two_writes "f").leader.contents ≡ replay [] history)
    × ((caught_up.contents ≡ replay [] (take 2 history))
        × (2 ≤ Leader.current_lsn (Leader.bring_online two_writes "f").leader))
unfolding runs
replicas_agree_example =
    replicas_agree (Leader.bring_online two_writes "f") history "f" caught_up reached refl

late_follower_misses_example :
    (n : FollowerNode ℕ) × ((Dict.get
          (Leader.put (register one_write "g" Leader.async) "y" 3).0.nodes
          "g"
        ≡ some n)
      × ((n.applied_lsn
            ≡ Leader.current_lsn (Leader.put (register one_write "g" Leader.async) "y" 3).0.leader)
          × ((Follower.get n "x" ≡ none)
              × (Leader.get (Leader.put (register one_write "g" Leader.async) "y" 3).0.leader "x"
                  ≡ some 1))))
unfolding runs
late_follower_misses_example =
    late_follower_misses one_write "g" Leader.async "y" "x" 3 1 refl refl (string_ne "y" "x" refl)
      (omega arith)
