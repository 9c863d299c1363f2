-- ===== src/Lib.antt =====
-- A model of the media engine: its lifecycle, the policies that serve it, the value types that its
-- crates share, and parts of the containers, the readers and the timeline.
--
-- The program. A player drives crates/cheetah-media-engine by commands: load, play, pause, stop,
-- destroy, and the events of the network and of the backends. `Engine::apply` answers each with a
-- list of events. The engine owns a recovery policy with a tracker of past attempts, a ledger of
-- the resources that backends hold, a latency controller and performance counters. Items travel
-- between the stages in bounded priority queues that a scheduler multiplexes, and their bytes in
-- buffers of a pool. Timestamps, tracks, formats, errors, packets, budgets, limits and the pool come
-- from crates/cheetah-media-types. The containers, of which crates/cheetah-container-mpegts is one,
-- cut streams into packets with the readers of crates/cheetah-media-bitstream;
-- crates/cheetah-media-timeline times the packets, keeps sound and picture together, and keeps
-- packets for random access; crates/cheetah-crypto-transforms decrypts segments on the way in. In
-- the other direction a broadcast engine drives a pipeline from a capture source over an encoder to
-- a publisher, with the ledger and the metrics of the player's engine. A host hands bytes over
-- through the arena of crates/cheetah-media-abi.
--
-- The files.
--   Prelude: names passed on from the libraries, Boolean tests, lists over the native numbers,
--     saturating words, signed integers.
--   Types/Error, Types/Format, Types/Time, Types/Track, Types/Budget: error.rs, format.rs (with the
--     kinds of lib.rs), time.rs, track.rs and buffer/budget.rs of crates/cheetah-media-types/src. A
--     timestamp is its ticks; `rescale_i64` keeps the checks of the source on i128 and i64.
--   Types/Pool: buffer/pool.rs of the same crate; an acquire returns the pool it leaves with the
--     buffer or the error, and `pool_release` is the drop of a buffer.
--   Engine/State: crates/cheetah-media-engine/src/state.rs. A handler such as `on_load` is a function
--     from the engine to the engine and the events it pushes, and `◌>>◌` runs one after another; the
--     helpers in `_in` are the matches on the state. `apply` answers `done` or `refused`. The states,
--     events and commands are in Engine/State/Command.
--   Engine/Recovery: recovery.rs of the same directory, with `decide` as `decide_loop` on the five
--     rounds of the source.
--   Engine/Resource, Engine/Scheduler, Engine/Latency, Engine/Metrics: the files of the same names; one
--     queue of the scheduler is in Engine/Scheduler/Bounded.
--   Types/Limits: limits.rs of crates/cheetah-media-types/src.
--   Broadcast/Engine, Broadcast/Pipeline, Broadcast/Permission: engine.rs, pipeline.rs and
--     permission.rs of crates/cheetah-media-engine/src/broadcast. The devices behind the trait
--     objects are one parameter, `Devices`, over the state of all of them, and the permission model
--     another, `Permissions`; an operation returns the pipeline or engine it leaves, with an error
--     too. A handler `connect_engine` is `BroadcastEngine::connect`, and so on.
--   Bitstream/Rbsp: crates/cheetah-media-bitstream/src/rbsp.rs.
--   Bitstream/Bit, Bitstream/Bytes: the two cursors of bit.rs beside it. A cursor is the bytes with a
--     position; a read returns the number with the cursor it leaves, or the error.
--   Mpegts/Section, Mpegts/Error: section.rs and error.rs of crates/cheetah-container-mpegts/src. An
--     operation of the assembler returns the assembler it leaves, with an error too.
--   Mpegts/Packet, Mpegts/Clock, Mpegts/Pes: packet.rs, clock.rs and pes.rs of the same directory.
--   Mpegts/Framing: of demuxer.rs there, the buffer of `push`, `parse_packet`, `resync` and `shrink`.
--   Flv/Error, Flv/Header, Flv/Writer: error.rs, header.rs and, of muxer.rs, the writing of the file
--     header and of a tag, of crates/cheetah-container-flv/src.
--   Timeline/Gop: crates/cheetah-media-timeline/src/gop.rs, with the packets of Types/Packet
--     (crates/cheetah-media-types/src/packet.rs). The loop of `trim` recurses on the finalized groups.
--   Timeline/Clock, Timeline/Sync, Timeline/Entries: clock.rs, sync.rs and lib.rs beside it. The binary
--     search of `Timeline::push` is a parameter of `push_time`.
--   Crypto/Xor, Crypto/Cbc: xor.rs and cbc.rs of crates/cheetah-crypto-transforms/src; the block
--     cipher is a parameter.
--   Abi/Arena: arena.rs and handle.rs of crates/cheetah-media-abi/src.
--   In each part the children state and prove what holds of it, and the child Tests applies the
--   theorems to concrete values.
--
-- Numbers. u32, u64 and usize are natural numbers, usize with 64 bits; saturating and wrapping
-- operations are written out, and a theorem that needs a count below the limit says so. An i64 is an
-- integer, with its range checked or clamped where the source does it. A key of a map occurs once in
-- its association list, and nothing that is read of a map depends on the order.
--
-- Bounds and fuel. The loop of `decide` has the five rounds of the source, and the escalation
-- chain has at most four actions, so the rounds are enough. The loop of `gcd_u64` has one round
-- more than the second number, which decreases in each. A read of bits has as many rounds as bits
-- are wanted, since each round takes one at least; the zeros before an Exp-Golomb code are counted in
-- 64 rounds, after which the source gives up. The search for a packet has two rounds, since the
-- second one starts at a sync byte or finds none; the loop of the block cipher has as many rounds as
-- bytes. Every other function recurses on a list or on a number of bits.
--
-- Not modelled. Of the containers and the bitstream readers only the parts named above are
-- modelled: the demuxer's routing of packets to streams, the headers of the codecs and the other
-- containers are not. The HLS client is a separate crate. The operations of the pool run one at a
-- time: concurrent acquires do not interleave. The native engine wraps the state machine in threads
-- and channels; device, codec, GPU and socket access are calls of platform libraries; the bindings
-- pass values between languages. Accessors that only return a field are left out. Static texts such
-- as reasons and stages are texts; a prefix is compared by its length in characters, which orders
-- the prefixes of one stage as its length in bytes does. An index that the source would panic on,
-- as that of a queue without a name, is refused in the model, and the theorems assume as many names
-- as queues.
pub mod Prelude
pub mod Types
pub mod Engine
pub mod Abi
pub mod Bitstream
pub mod Broadcast
pub mod Crypto
pub mod Flv
pub mod Mpegts
pub mod Timeline
