-- ===== src/Lib.antt =====
-- A verification library for the message queue server: the in-memory queues of queue/queue.go over the
-- heaps of queue/heaps.go, the manager of queue/manager.go, the write ahead log of queue/wal.go, the
-- HTTP handlers of api.go, and the process of main.go.
--
-- MsgHeap: msgHeap of queue/heaps.go, its Len, Less, Swap, Push, Pop and peek. A *Msg is a number, and
--   the `index` fields are a map beside the items.
-- Heap: container/heap of Go's standard library, by its own loops `up` and `down`. Heap/Order has the
--   heap order and the invariants of the loops, Heap/Moves and Heap/Locate the `index` fields, Heap/Up
--   and Heap/Down the loops, Heap/Calls and Heap/Removal the calls Push, Pop, Remove and Fix.
-- Msg: Msg and Mode of queue/msg.go and the comparators of queue/heaps.go; Msg/Order has their order.
-- Record: Config of queue/queue.go, Op and Record of queue/wal.go, the errors, and the two appends
--   that a queue makes on a log, as a record `Log` over any type of log.
-- Queue: Queue of queue/queue.go. The root has New, retryLocked, placeLocked, advanceLocked, Tick and
--   signalLocked; Queue/Produce has Enqueue, ReplayDLQ and Stats; Queue/Consume has tryReceive, Ack,
--   Nack and Extend; Queue/Leases is the map of receipts. Queue/Core has the invariant: three valid
--   heaps, no message in two places, and exactly the inflight messages leased under their own
--   receipts. The other children prove the calls one after another, Queue/Create what New makes of a
--   configuration, and Queue/Once what becomes of a settled receipt. Queue/Wait has Receive, the long
--   poll: its rounds carry what the clock, the timer and the wake channel do, and what other clients
--   do to the queue in between. Its theorems ask that the tokens of a round are unused in the queue
--   that the round finds; tokens that are unused at the start are so if the others are idle.
--   Queue/Runs are sequences of calls, Queue/Runs/Conserved what becomes of the messages over them,
--   and Queue/Runs/Timely what is handed out while the clock goes on.
-- Maps, Manager: the manager of queue/manager.go: Create and Get on a map by names, what recover does
--   with the records of one queue (`stage`), restore, and liveRecordsLocked. Manager/Recover has Open
--   and recover, Manager/Calls has List, Bookmark, Err, Replay, Compact, a tick of pump, and Close.
--   Manager/Named is about Create and Get, Manager/Restored about restore, Manager/Managed, Republish
--   and Opened about the consistency of all the queues, and Manager/Stale about bookmarks. The records
--   of a compaction and their recovery: Manager/Staged, Rebuild and Entries for one queue, Separate,
--   Reread, Covered and Roster for all the queues, Installed for the last step of recover, and
--   Regained, Whole and Reopened from the compacted file through Open to the queues.
-- Bytes, Wal: the log of queue/wal.go as the bytes of its file. Wal has encode, write and the reading
--   of one record, Wal/Scan has Recover, Scan, truncate, Bookmark and Compact, and Wal/Service has
--   OpenWAL, the round of the flusher, Err and Close. Wal/Frame, Recovery and Writes prove how the
--   bytes read back, Wal/History how a sequence of writes does, Wal/Scan/Halts that a scan ends on any
--   bytes, and Wal/Scan/Tally, Swap and Rewrite what Compact leaves: when it cannot open the file that
--   it has renamed, the log keeps the old file open and `renamed` is the one at its path. Wal/Ledger
--   counts beside the log what its fsyncs have forced to the disk, and Wal/Cut, Effect and Power say
--   what is left when the power fails.
-- Api: api.go. The root has boundedMS, decode and the responses, Api/Messages the handlers enqueue,
--   receive, ack, nack and extend, Api/Admin the others, and Api/Routes the table of routes. A request
--   carries what its body decodes to and the readings of the clock that its handler makes, and a
--   response is its status with its body before encoding. Api/Bounds, Replies, Status, Promises and
--   Settled prove what the responses say, Api/Managed that every handler returns, and Api/Steps has
--   the server as a state machine.
-- Server: main.go. Flags, Open, the events while the HTTP server runs, the shutdown and the exit
--   status; what the listener, the signals and Shutdown of net/http do is an argument. Server/Exits
--   has how the process ends.
-- Tests: runs on concrete inputs.
--
-- A call that may panic returns an Option, and `none` is a panic or a loop without fuel. The loops of
-- the heaps have the slot or the size as fuel, the loops of a queue the length of the heap that they
-- empty, and the log's scan the number of its bytes: each round takes at least one slot, message or
-- byte away.
--
-- A method of a queue and a write to the log hold their mutex from start to end, so each is one step of
-- the model; a scan reads the bytes that were there when it began. Replay and Compact of the manager and
-- each handler but receive are one step too: what other clients do between the calls of a Replay is not
-- modelled. A queue in the manager's map uses the log that the manager has at the call. Clock readings,
-- random identifiers and the outcomes of file system calls are arguments; encoding/json is a codec, of
-- which the recovery uses that a record that was marshalled unmarshals to itself. A receive that is still
-- waiting at the end of its list of rounds is `waiting`, and once its deadline passes it is not. An int
-- is an unbounded integer except where it is counted up or multiplied, where it wraps as the machine's
-- does.
--
-- Not modelled: the router, the encoding of JSON and the request log of api.go, which net/http,
-- encoding/json and log/slog do; the parsing of the flags and the log messages of main.go; a handler
-- that still runs once a shutdown that timed out has closed the log; the demonstration under cmd/demo,
-- a client that prints a tour; and the timing of the goroutines that call Tick and fsync at intervals,
-- whose rounds are steps that may come at any time. Of the calls of the file system those that make a
-- directory, open, stat, truncate, rename, write, sync or close a file may fail, and a read of the
-- log's bytes does not: a scan takes a failed read for a torn tail, and that is left out. So is the
-- fsync of the directory after a rename, whose failure the code ignores. A power loss is taken to
-- leave a first part of the log that has all that was forced to the disk.
pub mod Base
pub mod Maps
pub mod MsgHeap
pub mod Heap
pub mod Msg
pub mod Record
pub mod Queue
pub mod Manager
pub mod Bytes
pub mod Wal
pub mod Api
pub mod Server
pub mod Tests
