-- ===== src/Lib.antt =====
-- auto_sync keeps directory trees on other machines in step with a source tree. Snapshots record
-- a tree as a list of entries, a comparison of two snapshots gives lists of work, and the work is
-- carried out by requests to the destination, where a changed file can travel as a delta.
--
-- The files and the code they model, by their paths from the repository's root:
-- - Delta: the delta engine, src/core/sync/delta.rs. `Rolling` has the rolling checksum
--   (`Rolling::new`, `digest`, `roll`), `Sums` has `block_len_for` and `compute_block_sums`, `Wire`
--   the ops and the reading of integers, `Apply` has `apply_delta`, `Build` has `build_delta`.
--   `Encoding`, `Matching` and `RoundTrip` relate the two.
-- - Paths: relative paths, src/core/sync/mod.rs. `Components` has `normalize_rel_path`,
--   `safe_join_rel` and `rel_to_string` over a definition of the standard library's
--   `Path::components` for Unix, `Excludes` has `is_rel_excluded` and
--   `glob_segment_prefix_match`.
-- - Manifest: `Entry` has `SnapshotEntry` (src/core/state.rs) and the settings of
--   `NativeSyncConfig` (src/core/config.rs) that are read, `Match` has `entries_match_with`, `Diff`
--   has `diff_manifests` (src/core/sync/mod.rs). `Repair` has `sync_directory`, the steps of
--   `sync_directory_with_transfer` by what each makes of the destination's manifest. The other
--   modules hold the lemmas.
-- - Report: `build_scan_report` (src/core/sync/mod.rs) in `Build`, with its lemmas in `Kinds`,
--   `Labels` and `Sample`.
-- - Push: the delivery of the planned entries, src/core/sync/mod.rs. `Plan` has `plan_push_work`,
--   `Retry` has `with_transfer_retry` and `resolve_parallelism`, `Pool` has `push_entries_parallel`:
--   the shared state of its workers, the change that a finished item makes (`settle`), and the moves
--   of a worker, which `Run` interleaves in any order. The locks that one item's result takes one
--   after the other are one step. `Delivery`, `Bounds`, `Settle`, `Runs`, `Pools` and `Ends` hold
--   the lemmas.
-- - Memory: the budget of transfer buffers, src/core/sync/mod.rs. `Permits` has
--   `acquire_transfer_memory` and the drop of a permit as steps, `Budget` what they keep.
-- - ZfsDiff: `unescape_zfs_path` and `diff_union_and_dst_only`, src/core/sync/mod.rs, in `Paths`.
--   `Escapes` has the documented escapes, `Union` what the merged lists name.
-- - Peer: the transport between machines, src/core/machines.rs. `Lines` has `NdjsonLineSplitter`,
--   `Chunked` has `stream_chunked_body` with the standard library's reading of white space and
--   hexadecimal numbers, `Ndjson` puts the two together as `ndjson_request_on_stream` does, and
--   `Pool` has `TcpConnectionPool`. A connection is the list of what its reads give. `Framing`,
--   `Reading`, `Delivered` and `Bodies` hold the lemmas.
-- - Cancel: cooperative cancellation, src/core/cancel.rs. `Ops` has the registry, the tokens of the
--   threads and the requests, `Nesting` what nested operations leave.
-- - Schedule: when a cycle is due, src/core/scheduler.rs with the schedule of src/core/config.rs, in
--   `Boundary`; the calendar of the chrono library is a parameter (`Calendar`). `Weeks` and `Earliest`
--   have what the weekly search finds, where the calendar behaves as `Steady` says.
-- - Store: the state database, src/core/state.rs. `Tables` has the tables as lists of rows,
--   `Cycles` the cycles of a source, `Events` the event log, `Offsets` the progress and the issues
--   of the destinations, `Targets` which destinations are targeted with which cycle, `Views` what
--   is shown of them, `Tasks` the task log and `Notices` the notices of a restart, each with its
--   lemmas or beside them (`Ordered`, `OpenCycle`, `Between`, `Recording`, `Backlog`, `Pruning`,
--   `Targeting`, `Configured`, `Advance`, `Closing`, `Due`, `Raised`, `Gap`). `Ordered.Reached`
--   interleaves the statements of all connections on the cycles in any order, and `Between` those
--   that can come between two statements of `record_event`: `Gaps` gives them to
--   `ensure_open_cycle`, `record_event` and `mark_open_cycle_needs_rescan` by their place, and the
--   other operations run alone.
-- - Incremental: `event_incremental_plan`, src/core/sync/mod.rs, in `Plan`, with its lemmas in `Paths`
--   and `Covered`.
-- - Prelude: shared lists, texts, integers, maps and results, and in `Utf8` the standard library's
--   reading of UTF-8.
--
-- A text is its list of bytes. Numbers are natural numbers with the machine's wrap-around written
-- out; i64 fields are integers. `strong_hash` (truncated BLAKE3) and the floating-point square
-- root are parameters, and so are the errors of the transfers with the tests on them (`ErrorOps`).
-- The statements of the database are taken to succeed, and one reading of the clock serves an
-- operation. The write lock keeps out the other writers of the event log, and nothing else. Loops
-- run on fuel: a delta's bytes and the bytes of a copy bound the rounds of `apply_delta`, and the
-- new file's bytes those of `build_delta`, since each round moves on by a byte at least;
-- `with_transfer_retry` runs on the number of its attempts, the pruning loop on the rows of the
-- log, since each full round deletes some, the daily search on the dates of the calendar, a
-- chunked body's loops on the bytes of the connection, since each round takes a line end, and the
-- trimming of the pool on its connections and peers.
--
-- Not modelled: sockets, HTTP headers and all other I/O, the snapshots and scan reports of the
-- state database and its errors, the watchers, the collector, the web API and the daemon; failing
-- requests of a full sync; the trash folder that removed paths go to;
-- `compute_block_sums_from_reader`.
pub mod Prelude
pub mod Delta
pub mod Paths
pub mod Manifest
pub mod Report
pub mod Push
pub mod Memory
pub mod ZfsDiff
pub mod Peer
pub mod Cancel
pub mod Schedule
pub mod Store
pub mod Incremental
