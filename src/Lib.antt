-- ===== src/Lib.antt =====
-- AetherMoE: the C++ engine under src/core, src/orchestration and src/api, and src/main.cpp.
--
-- The engine takes generation requests, schedules them in iterations over a paged KV cache, and
-- routes single tokens to expert shards. What is modelled, by file:
--
--   Common        shared names, lists and tests on the native numbers, maps as association lists,
--                 sorting, exceptions as values
--   PageTable     src/core/page_table.hpp: PagedKVCacheAllocator. An Allocator is the object; create,
--                 ensure_capacity, free_sequence, blocks_of and blocks_needed_for are its methods. Each
--                 holds the mutex throughout, so it is one step.
--   Sequence      src/core/sequence.hpp: the Sequence struct and transition_to
--   Telemetry     src/core/telemetry.hpp: the recorder over its ring, draining, snapshots and
--                 compute_stats; run plays any order of calls. Stats is about the percentiles, Flow
--                 about where the samples go, Lifecycle has the flusher's thread.
--   Scheduler     src/core/scheduler.hpp: admit, do_prefill_chunk and step. The three loops of step are
--                 decode_pass, prefill_pass and admit_pass; Scheduler/Runs has whole histories. Work,
--                 Serving, Chunking, Draining, Rounds, Soundness and Liveness are about progress,
--                 Stalling and Deadlock about the lack of it. Recording has the calls of the recorder.
--   RoutedToken   src/orchestration/routed_token.hpp: what goes to a worker shard and what comes back
--   Serialization src/orchestration/serialization.hpp: a batch as bytes. Readers, RoundTrip and Replies
--                 have the readers, the token batches and the result batches.
--   RingBuffer    src/core/spmc_ring_buffer.hpp: try_push and try_pop as one atomic access of a thread
--                 at a time; run plays any interleaving. Claims has the invariant, Changes and Steps
--                 that it is kept, Refinement and Deliveries what follows.
--   Collective    src/orchestration/collective_transport.hpp: the interface of a transport
--   Router        src/orchestration/router.hpp: reassemble; in Assignment assign_effective_experts,
--                 shard_for_expert and the grouping by shard (Tallies, Places and Ceiling have
--                 the capacity ceiling); in Batch route_batch; in Tolerant
--                 route_batch_tolerant. Both take the transports as a parameter.
--   Transport     src/orchestration/unix_socket_transport.hpp: send and receive; Writes and Reads have
--                 their loops, Frames and Cuts whole messages
--   Spawn         src/orchestration/process_spawn.hpp: spawn_workers and join_all, and the descriptors of
--                 each process. Closing, Children and Adoption follow the phases; Isolation and Failure
--                 have the whole.
--   Chaos         src/orchestration/chaos.hpp: delays around a transport (Sessions), and scheduled kills
--                 (Kills)
--   Ingress       src/api/ingress_server.hpp and ingress_server.cpp: the status table, the constructor,
--                 the handlers and stop
--   Engine        src/main.cpp: the drain loop beside the handlers; run plays any interleaving of their
--                 accesses. Books counts requests on their way, Service has the whole.
--   Worker        src/orchestration/worker_shard.hpp: the placeholder computation and the loop
--
-- Handlers push new sequences to the ring; the main thread pops them, admits them to the scheduler
-- and puts the results of its iterations in the status table. The scheduler calls the allocator
-- through ensure_capacity and free_sequence, moves sequences through their phases by transition_to,
-- and records samples. A worker decodes each message that receive gives it, and sends the encoded
-- results; the router reassembles what it decodes from the workers.
--
-- Numbers are natural numbers; sums of size_t and uint64_t wrap at 2 ^ 64, and a block id is the 32-bit
-- pattern of its int. Clock readings are an argument. A call that throws is an `err` of Result. No fuel
-- is used: every loop runs over a list or a number that gets shorter.
-- In Transport the results of the system calls are an argument, a list with one entry for each call,
-- and the loops run over it; a list with a transferring call for each byte is long enough. What a call
-- transfers is bounded by what it is asked for and by what the stream has.
--
-- The ring buffer's accesses are sequentially consistent: its weaker memory orders have no model. The
-- theorems on it assume that positions do not wrap, which takes 2 ^ 63 pushes.
--
-- In Telemetry the ring is a bounded queue, as RingBuffer.Refinement allows: a push or a pop can be
-- refused early, while another thread's call has claimed a cell and not finished with it, so how many pops
-- of a drain find an item is an argument. A double is the exact number: counts below 2 ^ 46 and sums below
-- 2 ^ 53 have no rounding.
--
-- In Engine the ring is a bounded queue too, and the JSON library is a parameter, a record of the calls
-- that the handlers make. The HTTP library calls the handlers; the one for /status gets the digits that
-- its route matched.
--
-- In Spawn what socketpair, fork and waitpid return is an argument too. In Chaos time is
-- counted in milliseconds, a sleep lasts exactly its delay, the drawn delay is an argument, and delays
-- that are not positive are 0. The loops over an unordered_map run in insertion order.
--
-- Not modelled: the HTTP library, JSON, timers, the Metal and Python kernels, benchmarks.
pub mod Chaos
pub mod Collective
pub mod Common
pub mod Engine
pub mod Ingress
pub mod PageTable
pub mod RingBuffer
pub mod RoutedToken
pub mod Router
pub mod Scheduler
pub mod Sequence
pub mod Serialization
pub mod Spawn
pub mod Telemetry
pub mod Transport
pub mod Worker
