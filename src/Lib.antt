-- ===== src/Lib.antt =====
-- A music streaming program: its core (crates/core), which is the play queue that server and web
-- client share, the edits of playlists and the seek bar's waveform; the scanner's queue of scans
-- (crates/scanner); what lets plugins reach the network (crates/plugins): the rules on
-- destinations, the limits on requests and the cache of replies; and the keys that the server
-- (crates/server) stores the items of a playlist under. These parts meet only in code that is not
-- modelled; in each the modules follow the source files:
--
--   Base            names, lists, tests on numbers, sorting, orders, and maps that the others share
--     Base/Equality, Base/Order   a derived equality or order as an instance argument, with its laws
--     Base/KeyMap, Base/Totals    a HashMap, and the total weight of its entries
--   Playlist        crates/core/src/playlist.rs: apply_ops, apply_op, without, selection, check
--   Queue/Permutation  crates/core/src/queue/permutation.rs: permute, unpermute and their rounds
--   Queue/Spans     crates/core/src/queue/spans.rs: SpanList and its operations
--     Spans/Sorted, Spans/RemoveRows   find_sorted and remove_rows
--     Spans/Rows    the list of rows that a span list reads, the specification of the operations
--   Queue/State     crates/core/src/queue/state.rs: QueueState, start, attach_list, attach_hash
--   Queue/Read      crates/core/src/queue/read.rs: up_next_row, find_item, row_of, order_row_of
--   Queue/Cleanup   crates/core/src/queue/cleanup.rs: clean_up
--   Queue/ShuffleReads, Queue/Unshuffle, Queue/Held   crates/core/src/queue/shuffle.rs: reading the
--     shuffle's rows and positions; set_shuffle and unshuffle; shuffle_held_by
--   Queue/History   crates/core/src/queue/history.rs: record_plays, remove_plays, requeue, history_row
--   Queue/Previous  crates/core/src/queue/previous.rs
--   Queue/Anchors, Queue/UpNext, Queue/Edit   crates/core/src/queue/edit.rs: resolve, take, put and
--     spot; the edits of Up Next; apply
--   Queue/Pieces, Queue/Rewind   crates/core/src/queue/rewind.rs
--   Queue/WellFormed, Queue/Reachable   the invariant of a queue, and the states that the operations
--     lead to
--   Queue/Refused   what an edit that fails leaves
--   Queue/UpNext/Rows  the rows of Up Next, which the edits of edit.rs are stated on
--   Queue/Parity    crates/core/src/queue/parity.json: its sequence of edits, run on the model
--   PlaylistKeys    crates/server/src/api/playlists/keys.rs: assign, spread, longest_increasing
--     Tops, Links, Kept, Followed, Longest  the increasing run that is kept
--     Spread, Assigned, Assign              the keys around it
--   Waveform        crates/core/src/waveform.rs: shape_waveform
--   Scanner/Paths, Scanner/Scope   crates/scanner/src/scope.rs: what a scan visits
--     Scope/Covers, Scope/Ordered  covers against the files visited, and against the sort of queue.rs
--   Scanner/Coalesce   crates/scanner/src/queue.rs: coalesce_scopes
--   Scanner/Scan    crates/scanner/src/scan/row.rs: a scan in the store
--   Scanner/Requests   crates/scanner/src/queue.rs, queue/request.rs, queue/worker.rs: requests, retries
--     and turns of the scanner's thread
--     Requests/Awaited, Requests/Steps   the files that wait for a scan, as the queue steps
--   Plugins/Texts   the standard library's operations on texts that network code calls
--   Plugins/Rules   crates/plugins/src/rules.rs: allowed, may_reach, reach
--     Rules/Local   addresses of the server and of its own network
--   Plugins/Scopes, Plugins/Limits   crates/plugins/src/network/limits.rs: turn, answered
--     Limits/Spaced, Limits/Bounds, Limits/Runs   what a queue holds up, the longest wait, runs of calls
--   Plugins/Requests   crates/plugins/src/host/http.rs: the queues that a request waits in
--   Plugins/Cache/Entries, Plugins/Cache/Lifetime, Plugins/Cache   crates/plugins/src/network/cache.rs:
--     keys and replies; lifetime; lookup, store, refresh and invalidate
--     Cache/Sound, Cache/Runs, Cache/Origins, Cache/Kept   the bookkeeping, runs of calls, and what was
--       stored
--
-- State. A queue is the record QueueState with the source's fields. An operation on `&mut self` is
-- a function to the state that it leaves; one that also returns a Result gives both (Outcome). The
-- spans name positions of views; permute and unpermute read the shuffle's positions; clean_up drops
-- the sources and copies that nothing names. The filters of a recipe, a JSON map of serde_json, are
-- a type parameter F: the core stores them and reads nothing of them. What the scanner's queue does
-- under one hold of its lock is one step, and Requests/Steps lets these come in any order: the
-- thread lets go of the lock between taking a due retry and requesting it, and holds the retry in
-- hand meanwhile. The store and its clock are a record of functions on the store's state; that a
-- scan which is created comes back with the scopes given (Creates) is the one hypothesis on it. The
-- limits and the cache are locked for each call and step in the same way; Cache/Runs takes the
-- calls in any order, and Limits/Runs also at instants that do not go back. The readers of HTTP
-- dates, URLs and addresses and the product with a random fraction are parameters without a
-- hypothesis.
--
-- Numbers. u64 and u32 are native numbers. permutation.rs wraps, and each wrap is written out. The
-- other sums are lengths and positions, which the source takes not to overflow together, and
-- up_next_row's checked_add keeps its bound. Subtractions that the source saturates stop at 0; in
-- the others the model has a difference that is not negative where the source's code runs without
-- panic. In waveform.rs a panic is none; elsewhere an index read that would panic has a default
-- that the guards before it never reach. Instants and durations are counts of nanoseconds. A
-- playlist key, an i64, is the number of i64s below it. A cast to u8 keeps the low byte. A sum that
-- saturates is the least of itself and the type's greatest number.
--
-- Loops are structural recursion. match_back has the row for fuel: each turn lowers the row.
-- bit_length has 64, the bits of a u64. The standard library's sorts are insertion sorts, which
-- give the same lists: sort_unstable sorts whole values, sort_by_key is stable. A HashSet is the
-- list of what was inserted, the B-tree maps of rewind.rs and cache.rs lists in the order of their
-- keys, a HashMap a list of entries of which the first under a key counts. The digits of a u64 have
-- 20 for fuel, one each. A path is the list of its components' names; paths with `.` or `..` are
-- not among them.
--
-- Not modelled: serde's derives and the text forms, the Arc sharing of track lists; of crates/core
-- the sort keys, search, fold, format, and the levels that waveform.rs computes with floating-point
-- numbers; of crates/scanner the walks, tags and jobs; of crates/plugins the WebAssembly host, the
-- HTTP client and the manifests; threads, wake-ups and logs; and the rest of the server, which is
-- handlers and SQL.
pub mod Base
pub mod Playlist
pub mod Waveform
pub mod Scanner
pub mod PlaylistKeys
pub mod Plugins
pub mod Queue
