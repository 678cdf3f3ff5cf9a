-- ===== src/Lib.antt =====
-- njs-modbus: a Modbus master and slave for Node.js. This library models the parts of it that
-- handle the protocol, as functions on bytes and on the state that they keep.
--
-- The program. A physical layer (src/plugins) delivers chunks of bytes to a protocol layer
-- (src/layers/protocol), which cuts them into frames. The slave (src/slave/slave.ts) takes a frame,
-- finds the unit, and answers by the handler of the frame's function code, which calls the user's
-- unit model; the protocol layer encodes the answer. The master (src/master) sends requests and
-- matches the responses to them.
--
-- Which file models what, with the source relative to the repository's root.
-- - Common: numbers, Boolean tests and lists that the other files share.
-- - Tcp: src/layers/protocol/tcp-protocol-layer.ts. `decode` takes the layer and a chunk to the list
--   of events (the calls of the handlers, in order) and the layer afterwards; `is_one_frame` is its
--   fast path, `decode_residual` the part that completes residual bytes, and `decode_loop` the loop
--   behind them. `encode` and `flush` are the methods of the same name. Tcp/Stream is the
--   specification: a relation between the bytes of a stream, the events and the bytes left over.
-- - Crc: src/utils/crc.ts. `crc_fixed` is crcFixed, `crc_dual` is crcDual, with the table written
--   out. Crc/Bitwise is the definition of the CRC bit by bit.
-- - Ascii: src/layers/protocol/ascii-protocol-layer.ts. `decode` is its decode, with the fast path and
--   the state machine `stream`, one `step` for each byte; `encode` and `flush` are the methods.
-- - TimerHeap: src/utils/timer-heap.ts. `add`, `remove`, `clear` and `on_tick` are the methods, and
--   `heap_add`, `pop` and `sift` the private ones; `direct_fires` and `stale_fires` are the callback of
--   a native timer that the map knows or no longer knows; TimerHeap/Steps has any sequence of them.
-- - Lrc: src/utils/lrc.ts. `lrc` is lrc.
-- - Fingerprint: src/utils/adu-fingerprint.ts. `adu_hash` is generateAduHashFingerprint;
--   Fingerprint/Murmur is MurmurHash3_x86_32 on its own.
-- - Range: src/utils/check-range.ts. `check_range` is checkRange.
-- - Access: src/utils/access-authorizer.ts. `run_check_unit` and `run_check_address` are runCheckUnit
--   and runCheckAddress, as the calls of their callback.
-- - Emitter: src/utils/compact-event.ts, for one event name: `on`, `once`, `off`, `emit_event`,
--   `emit_event_lazy` and `remove_all_listeners` are the methods of CompactEventEmitter.
-- - Session: src/master/master-session.ts. `start`, `stop`, `stop_all`, `has`, `handle_frame` and
--   `handle_error` are the methods of MasterSession on the association list `Waiters`; `run` is a
--   sequence of calls of them. A callback is named by a number, and its calls are returned.
-- - Slave: src/slave/slave.ts with src/error-code.ts, src/vars.ts and src/slave/types.ts.
--   Slave/Reads has _handleFC1 to _handleFC4, Slave/Writes _handleFC5, 6, 8_0, 15, 16, 22 and 23,
--   Slave/ServerInfo _handleFC17, Slave/DeviceId _handleFC43_14, and Slave/Dispatch _handleFC. The
--   loops that pack and unpack coils and registers, which the source writes out in each handler,
--   are in Slave/Pdu. Slave/Execute has _executeUnitWrite and _processFrame without the write lock,
--   whose effects are a list in order. Slave/Overlap has rangesOverlap; Slave/Lock the write lock of
--   one unit: `arrive` is the end of _processUnitWrite, `done` _onLockedUnitWriteDone,
--   `flush_pending_writes` _flushPendingWrites, each with the slave's flag _flushingPending, and
--   Slave/Lock/Ranges the ranges that are locked.
--   Slave/Lock/Steps lets requests arrive and complete in any order.
-- - Master: src/master/master.ts. Each public method is the payload of its request, and a function
--   from the argument of the callback of _send to how the promise is settled. Master/Reads has the
--   reads and FC 23, Master/Writes the writes, Master/Info FC 17 and custom codes, Master/Device
--   FC 43.
-- - Master/Queue: src/master/master.ts, the way of a request. Master/Queue/Operations has `send` for
--   _send, `drain`, `process` for _processNext, `exchange`, `run_exchange`, the callbacks of frames,
--   frame errors, writes and timers, and `destroy`; Master/Queue/Steps has any sequence of them. The
--   queue's parallel arrays are one list, and callbacks are named by numbers.
-- - Exchange: a request of the master, the slave, and the response, each through `encode` and
--   `decode` of the TCP layer; `ask` is a method of the master against a slave.
--   Exchange/Device has the slave's device identification and the master's reading of it.
--
-- State and effects. A handler of the user's unit model is an arbitrary function on a store of the
-- user that answers at once, with an error code or a result; so is a response to a custom function
-- code. The write lock only knows of a handler whether it answers at once or later, where later is
-- not while the pending writes of its own unit are started; and the caller's callback does not hand
-- over a further frame for a unit while the pending writes of that unit are started. A handler of the
-- slave returns the arguments of its callback, the type of the event that it emits, and the store.
-- Texts of messages are left out.
--
-- Numbers. Bytes are natural numbers, and what the source masks is masked here; `&`, `|` and shifts
-- of disjoint bits are written with `%`, `+`, `*` and `/`. The exclusive or of the CRC is the
-- native one.
--
-- Fuel. The loop of the TCP layer runs on fuel one more than the bytes that it gets, and a round
-- consumes at least six bytes. The loop of emitLazy runs on the length of the list, which does not
-- grow. The loops of the timer heap run on the index that falls, or on the length that the index
-- grows towards, and a tick on the number of entries. The passes over the pending writes run on fuel
-- one more than the pending requests, and a pass that asks for another has started one. The search
-- for a transaction id runs on fuel one more than the requests that wait. The other loops count down,
-- or follow their data.
--
-- Not modelled: the sockets and serial ports of src/plugins, and the RTU layer; the slave's queues,
-- its access gate and its lifecycle; the master's access authorizer, but for a runtime check that
-- answers at once; checks of the authorizer that answer by a promise; how long the timer heap waits;
-- the IP whitelist; which bytes of a request its fingerprint hashes.
pub mod Common
pub mod Tcp
pub mod Crc
pub mod Lrc
pub mod TimerHeap
pub mod Ascii
pub mod Fingerprint
pub mod Range
pub mod Emitter
pub mod Session
pub mod Slave
pub mod Master
pub mod Exchange
pub mod Access
