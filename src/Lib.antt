-- ===== src/Lib.antt =====
-- ge: a verification library for the streaming graph engine of this repository.
--
-- The engine runs a graph of operators. Packets travel along edges, each a bounded channel with a
-- drop policy; the scheduler's threads push into a channel, take from it and change its life-cycle
-- state. Sessions reserve cpu threads, memory and device sessions in one ledger before their graph
-- starts, and give them back through leases.
--
-- Packet.antt, of include/ge/cpp/packet.h: the header, the flags and the shared references that
-- the edges carry.
--
-- Edge.antt, of src/edge_channel.cpp and include/ge/cpp/edge_channel.h. A channel is a record of
-- its ring, head, size, state and counters, and a member function returns the new record beside
-- its result: Push is `push` and its part under the lock `push_locked`, PushLocked is
-- `push_packet`, TailHasEos `tail_has_eos`, BumpDepth `bump_depth`, InjectEos `inject_eos`, Pop
-- `pop`, Peek `peek`, MarkDraining `mark_draining`, MarkRetired `mark_retired`, ClearBackpressure
-- `clear_backpressure`, MarkBackpressured `mark_backpressured`. The eviction inside Push is
-- `find_victim` and `evict`. Ring indices are 32-bit numbers that wrap where the source's do, and
-- the counters are 64-bit numbers. The loops recurse on a number of rounds, the size for the scan
-- and the number of slots for the shift; neither loop runs longer. Edge/State has the types.
-- Edge/Queue.antt is the contract: a bounded queue with no ring. Edge/Window and Edge/Shift are
-- about the ring's slots, Edge/Inv about well-formed channels, Edge/Contents, View, Push and Marks
-- compare each operation with the queue, and Edge/Runs, Order, Markers and Cycle are about
-- sequences of calls. A call is one step: the mutex of the source makes it so but for Push's first
-- look at the state, which `pushes_checked` accounts for, and for MarkBackpressured, whose two
-- accesses of the state are taken as one step.
--
-- Ledger.antt, of src/resource_ledger.cpp and include/ge/cpp/resource_ledger.h. SetCapacity is
-- `set_capacity`, Reserve `reserve`, TryReserveLocked `try_reserve`, ReleaseLocked `release_all`,
-- CommitLease `commit_lease`, ResourceLease::Release `release` and ResourceLease::Commit `commit`;
-- MergeAmounts is in Ledger/Amounts and the map of accounts in Ledger/AccountMap. A failed
-- reservation returns the dimensions that fall short. Ledger/World puts a ledger together with the
-- leases that are out; the other modules are about sums, single calls and runs of calls.
--
-- Limiter.antt, of src/infer/flow_limiter.cpp: an operator that admits packets up to a limit and
-- waits for their completion. Open is `open_limiter`, Process `process`, Close `close`, Admit
-- `admit`, ReleaseHeld `release_held`, Release `complete`, ReclaimTimedOut `reclaim_timed_out`,
-- Drop `drop_packet`. The sink's answer and the clock are functions that the request carries.
-- Reading a null reference or the front of an empty queue and the overflow of the time-out in
-- nanoseconds are outcomes of their own. Its loops recurse on the queue that they empty.
-- Limiter/State has the types; Limiter/Served, Steps, Inputs and Runs are about the order and the
-- count of the packets, Slots about the number in flight, Failure about a sink that refuses.
--
-- Operation.antt, of src/operation.cpp and include/ge/cpp/operation.h: the registry of
-- asynchronous operations. Create is `create`, SetRunning `set_running`, SetTopologyVersion
-- `set_topology_version`, Finish `finish`, and Succeed, Fail and Cancel `succeed`, `fail` and
-- `cancel`; the calls of the terminal hook are a list of the state. Its map is a function from
-- ids. Operation/State has the types and Operation/Calls the sequences of calls; Trim is about the
-- loop that forgets old records, which recurses on the list of their ids; Terminal, Reports,
-- Retention and Newest are about records that have ended.
--
-- Graph.antt, of src/graph_spec.cpp and include/ge/cpp/graph_spec.h: the graph under edit. AddNode
-- is `add_node`, AddEdge `add_edge`, RemoveNode `remove_node`, RemoveEdge `remove_edge`, with the
-- guards of the two additions in `check_node` and `check_edge`; IsValidStableId is
-- `is_valid_stable_id`, PortRef::ToString and Parse are `port_to_text` and `parse_port`. Texts are
-- lists of bytes. Graph/State has the types, Graph/Names the names of the enumerations,
-- Graph/Builder GraphBuilder, Graph/Patch the actions of a patch with the functions of Mutation and
-- Graph/Mutation sequences of their calls; Lookup, Removal, Edits and Found are about the edits.
--
-- Applier.antt, of src/mutation_applier.cpp and include/ge/cpp/mutation_applier.h: a patch applied to
-- a copy of a graph. Apply is `apply_patch`, ApplyOne `apply_one`, AddEdgeTracked `add_edge_tracked`,
-- RemoveEdgeTracked `remove_edge_tracked`, RemoveNodeWithEdges `remove_node_with_edges`, InsertChain
-- `insert_chain`, RemoveChain `remove_chain`, ReplaceNode `replace_node`, RemoveBranch
-- `remove_branch`; the registry of operators is a function. Applier/State has the types,
-- Applier/Chain the chains with CheckLinearChain, Applier/Branch the search of RemoveBranch with
-- FindSharedDependencies; the fuel of the search is its stack and the edges, of which each is taken
-- once. Tracks, Steps, Incident, Nodes, Sound and Removed are about the lists of added and removed
-- ids, Index about the failed action, Reach and Selection about branches.
--
-- Validator.antt, of src/graph_validator.cpp: Validate up to the negotiation of contracts is
-- `validate`. Its loops over nodes, edges and ports are `check_infos`, `check_edge_specs` and
-- `port_issues` of Validator/Checks, its topological order is `topological_order`, with the loop
-- `sort_nodes`, whose fuel is the number of nodes and one more, and the issue of a cycle is
-- `cycle_issue`. The heap of ready nodes is a list, of which the first in the graph is taken; the
-- table of nodes is a list, so that ports are visited in the order of the graph. Validator/State has
-- the types, Relax, Order and Sorted are about rounds of the sort, Cycles about its result, Accepted
-- and Fits about the checks.
--
-- Diff.antt, of src/graph_diff.cpp and include/ge/cpp/graph_diff.h: the difference of two graphs,
-- which decides what a running graph keeps. Compute is `compute_diff`, ReusedNodes `reused_nodes`,
-- ReusedEdges `reused_edges`, Empty `is_empty_diff`. Diff/State has the types, Diff/Lookup is about
-- the maps, Reuse and Same about what is kept.
--
-- Parameters.antt, of ParameterStore in src/node_runtime.cpp and include/ge/cpp/node_runtime.h: the
-- parameters of a node, changed between two packets. Submit is `submit`, PromoteQueued
-- `promote_queued`, SwitchAtPacketBoundary `switch_at_packet_boundary`, RejectPending
-- `reject_pending`. Parameters/State has the types and Parameters/Log the contract, a log of
-- numbered requests; Refines compares the store with it and Versions is about all calls.
--
-- Node.antt, of NodeRuntime in src/node_runtime.cpp with its callers in src/scheduler.cpp and
-- src/scheduler_invoke.cpp: the life cycle of a node that many threads schedule, invoke and drain.
-- The atomics and the number of threads at each point of the code are one record, every atomic
-- access is one move, and a run is a list of moves of any threads: TrySchedule is `look`,
-- `find_free`, `take_slot`, `confirm` and their failures, BeginInvoke `count_in` and
-- `start_running`, EndInvoke `count_out`, `return_last` or `return_other`, and `reset_ready`,
-- TryEnterDraining `check_flight` to `revert`. Node/State has the types, Node/Sound the invariant
-- and Node/Safety what follows. The accesses are taken as sequentially consistent.
--
-- Events.antt, of src/event_bus.cpp and include/ge/cpp/event_bus.h: published events, queued per
-- subscription and handed to it by worker threads. Publish is `publish`, with one round of its loop
-- as `offer`, Matches `matches`, Subscribe `subscribe`, Cancel `cancel_subscription`, and Worker
-- and Drain are `take_ready`, `drain_step` and `end_call`, moves that interleave in any order.
-- Events/State has the types, Events/Served the invariant of a subscription, Events/Final is about
-- a cancelled one, Events/Runs and Events/Cancels are about whole runs, and Events/Progress about
-- the moves that the workers have left.
--
-- Inputs.antt, of src/input_binding.cpp and include/ge/cpp/input_binding.h: a node's view of the
-- edges of one input port, built on the channels of Edge. Active is `first_active`, Take
-- `take_packet`, and SkimHead `skim_head`, whose fuel is more than the packets and predecessors of
-- the port; Inputs/Skim is about SkimHead.
--
-- Prelude.antt holds the names, the arithmetic and the list lemmas that the parts share.
--
-- Not modelled: names and messages that no modelled branch reads; the wall clock, whose readings are
-- arguments; the read-only snapshots; the scheduler and the topology of a running graph, the
-- negotiation of contracts, sessions and the asynchronous runtime; the parsing of JSON; the operators
-- that call FFmpeg and ONNX Runtime; the loading of plugins and the C interface.
pub mod Prelude
pub mod Packet
pub mod Edge
pub mod Ledger
pub mod Limiter
pub mod Operation
pub mod Graph
pub mod Applier
pub mod Validator
pub mod Diff
pub mod Parameters
pub mod Node
pub mod Events
pub mod Inputs
