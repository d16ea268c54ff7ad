-- ===== src/Lib.antt =====
-- Verification of the programs of ddia-implementations: small Python programs for the ideas of
-- "Designing Data-Intensive Applications". Each directory of the repository is a program of its
-- own; the programs do not call each other, and each one that is modelled is a directory of
-- modules here.
--
-- - Prelude, Dict and Sets: the language. Boolean tests on numbers and strings, lists,
--   options; a `dict` is an association list in insertion order, a `set` a list without
--   repetitions.
-- - Fencing: fencing-tokens/fencing_tokens.py. Fencing.Lock has the class LockService,
--   Fencing.Resource the two resource servers, Fencing.Client the class Client. A FencingToken
--   is an object that the service and its clients share and that `renew` writes to, so tokens
--   live in a table under their number and the clients hold numbers.
-- - TwoPhase: two-phase-commit/two_phase_commit.py. TwoPhase.Participant has the class
--   Participant, TwoPhase.Coordinator the protocol run of Coordinator.execute_transaction,
--   TwoPhase.Coordinator.Recovery its recover; they call prepare, commit and abort of the
--   participants in the order of the dictionary.
-- - Raft: raft-consensus/raft.py. Raft.Node has the state of RaftNode and its changes of role,
--   Raft.Replication the pieces of the log handling, Raft.Handlers the handlers of messages,
--   replies and ticks. The random election timeout is an argument `draw`.
-- - Mvcc: snapshot-isolation/mvcc_database.py. Mvcc.Database has MVCCDatabase with its
--   transactions, Mvcc.Collector its garbage_collect. A transaction object is named by its
--   number.
-- - Clocks: vector-clocks/vector_clock.py. Clocks.Clock has the class VectorClock,
--   Clocks.Store the class VersionedKVStore and find_conflicts; other nodes are clocks that the
--   calls bring.
-- - Quorum: leaderless-replication/dynamo.py. Quorum.Replica has the class ReplicaNode and the
--   loops over the replicas, Quorum.Cluster the methods put, get, set_node_available and
--   anti_entropy_repair of DynamoCluster, Quorum.Hints its deliver_hints. The dictionary of
--   nodes keeps its order; replicas are named by the keys.
-- - Crdts: conflict-free-replicated-data-types/crdts.py. Crdts.Counter has GCounter and
--   PNCounter, Crdts.Set has ORSet.
-- - Lamport: lamport-clocks/lamport.py. Lamport.Node has LamportClock and Node over one list
--   of all events.
-- - Replication: leader-follower-replication/replication.py. Replication.Follower has the
--   class FollowerNode, Replication.Leader the class LeaderNode, Replication.Session the class
--   ReadSession. Leader and callers share the follower objects, so a System holds them under
--   their identifiers beside the leader.
-- - Wal: write-ahead-log/wal.py. Wal.Bytes has struct.pack and slices, Wal.Record
--   _encode_record and _read_record over a Runtime with the checksum and the coding of texts,
--   Wal.Log the class WriteAheadLog with its readers in Wal.Log.Read. Files are byte lists in
--   the order of their numbers, up to 999999. The loop over a file runs on fuel, one round more
--   than the file has bytes.
-- - Events: event-sourcing-store/event_store.py. Events.Store has the class EventStore with
--   its file as a list of lines, over a Json with json.dumps and json.loads; Events.Projection
--   has Projection, LiveProjection and reconstruct_state, with handlers as functions from states
--   to states.
-- - Gossip: gossip-protocol/gossip_protocol.py. Gossip.Node has the class GossipNode,
--   Gossip.Cluster the class GossipCluster, whose random choices of peers are an argument.
-- - Handoff: hinted-handoff/hinted_handoff.py. Handoff.Node has the classes Hint and Node,
--   Handoff.Store the class HintedHandoffStore over a hash of keys.
--
-- Where the code raises an exception the model has a result of its own: `none` stands for
-- IndexError or KeyError, and the classes of the program are constructors of an error type.
-- Times and numbers are natural numbers, as the code adds and compares them only. Values that a
-- store holds are of any type; the code takes a missing value for None, so a stored None is not
-- modelled. Loops go over lists and are structural recursion, but for those named above. Locks
-- of the `threading` module make a method one step.
--
-- Not modelled: the methods that only give out counts or names for display, the messages of the
-- exceptions, and RaftCluster, LamportMutex, happens_before and total_order, LWWRegister and
-- CRDTReplicaGroup. The other directories are not modelled.
pub mod Prelude
pub mod Dict
pub mod Fencing
pub mod Events
pub mod Gossip
pub mod Handoff
pub mod Sets
pub mod Raft
pub mod TwoPhase
pub mod Wal
pub mod Mvcc
pub mod Clocks
pub mod Quorum
pub mod Crdts
pub mod Lamport
pub mod Replication
