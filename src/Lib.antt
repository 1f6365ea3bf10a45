-- ===== src/Lib.antt =====
-- A verification library of the edge observer, which captures the plaintext of admitted processes
-- and reports what it reconstructs of it.
--
-- The parts, in the order the data takes. A process is admitted with an identity and a grant
-- (`Admission`: admission/admission.go). A decoded event passes the delivery gate, which bounds the
-- events held at once and orders capture-wide invalidation with release (`Gate`:
-- probe/delivery_gate.go, probe/gate_reason.go, held/held.go); its input carries the gate's slot
-- and a loss token (`Held`: held/loss.go, held/churn.go). Capture makes of it a fragment record
-- with the evidence of its position (`Fragment`: fragment/fragment.go, fragment/evidence.go), and
-- the record waits in a bounded store for the worker (`Intake`: intake/intake.go). The worker
-- reassembles each direction of a connection (`Stream`: stream/stream.go), reads it by a cursor
-- (`Stream.Cursor`: stream/cursor.go), tells what it begins with (`Opening`:
-- reconstruct/reconstruct.go, reconstruct/pairing.go), reads its HTTP/1.1 messages as they arrive
-- (`Http1`: http1/http1.go, http1/parser.go), tells their content coding (`ContentCoding`:
-- contentcoding/coding.go), reads the shape of a JSON body (`JsonShape`: jsonshape/jsonshape.go)
-- and delivers lines through one queue with a byte bound (`Sink`: sink/sink.go, sink/queue.go),
-- each of which ends what an earlier write left torn (`Sink.Lines`: sink/final.go, sink/file.go).
-- At the end of a run the capture is stopped and drained, its counters are read, and a seal says
-- whether they balance (`Connection`: connection/count.go, connection/account.go,
-- connection/seal.go); a group of owners does so as one (`Attachment`:
-- attachment/group_lifecycle.go, attachment/group.go). The record of a connection says what it was
-- bound to and how far its bytes can be placed (`Connection.Binding`: connection/connection.go;
-- `Connection.Placement`: connection/placement.go; `Connection.Record`: connection/record.go;
-- `Connection.Agrees`: connection/evidence.go).
--
-- State and operations. A struct is a record, in `State` where a component has several; a method is
-- one function, named after it, from the state to the new state and the result. What runs under a
-- mutex is one step; a list of calls is an interleaving of the users, and `run` does it. A channel
-- that is closed to signal is the number of times it was closed. A pointer into a list is a place
-- in it. Errors are values of a data type with a constructor for each case. uint64 counters and
-- offsets wrap, by `add64` and `sub64` (`Prelude.Words`); int64 amounts are natural numbers where
-- the invariants of their component keep them from falling below zero. int32 process numbers are
-- the integers of `Prelude.Int`. Texts are lists of bytes (`Prelude.Bytes`). Loops run over lists
-- and are structural recursion, but for these. The loops of the cursor have as fuel the number of
-- offsets they may read, `ReadLine` one more, as each round reads one at least or ends; that of the
-- parser's `Feed` has two rounds for each offset of the part and two more, as a round that reads
-- none is followed by one that does. The JSON extractor has one more than its decoder has tokens
-- left, as each loop and each value in it reads one. A reserver, which the parser's user supplies,
-- is any function of the calls it had before; how much a file takes of a write, and what a JSON
-- decoder answers, are parameters too. Sizes of structs are parameters (`Intake.Allowance.Sizes`),
-- as the compiler chooses them.
--
-- The tests and witnesses of a component are in its `Tests`.
--
-- Not modelled: what renders text, waits or calls the system (files, processes, kernel programs);
-- the texts of what went wrong in a message and the parse of a whole stream at once (http1), the
-- pairing of messages (the rest of reconstruct), the routes and admissions of a group (attachment),
-- the decoding of contents, policy and the configuration; and the compression library that
-- internal/brotli holds a copy of.
mod Prelude
pub mod Admission
pub mod Fragment
pub mod Stream
pub mod Gate
pub mod Held
pub mod Intake
pub mod Sink
pub mod Opening
pub mod Http1
pub mod ContentCoding
pub mod JsonShape
pub mod Connection
pub mod Attachment
