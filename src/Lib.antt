-- ===== src/Lib.antt =====
-- view-sync: a causal broadcast library in C, over UDP. A group of members, each with a number,
-- sends messages to all others; every member delivers each other's messages in the order they were
-- sent, acks what it receives, and sends again what is not acked.
--
-- The parts of the program and the files that model them:
-- - include/result.h, src/result.c (`Result`, `result_unwrap`): Prelude/Outcome. A call returns,
--   ends the process (`exit`), meets undefined behaviour (`fault`), or runs out of fuel (`spin`).
-- - include/cbcast.h, src/cbcast/message.c: Message (constructors of messages and envelopes) and
--   Message/Wire (`cbc_msg_serialize`, `cbc_msg_deserialize`), with the laws in Message/Laws,
--   Headers and RoundTrip.
-- - include/cbcast.h (`struct CBcast`): State. src/vector_clock.c: VectorClock. `cbc_init` of
--   src/cbcast/init.c: Init.
-- - src/cbcast/peer.c: Peer, with the laws in Peer/Laws.
-- - src/cbcast/receive.c: Receive (causality, queueing of control messages), Receive/Data
--   (`handle_data_msg`, `try_deliver_held_msgs`), Receive/Acks (`register_ack`,
--   `queue_retransmission`), Receive/Thread (one round of `cbc_recv_thread`). The laws are in
--   Receive/Rounds, Control, Branches, Handled, Acked, Wire and Arrival.
-- - src/cbcast/send.c: Send (`cbc_send`, `handle_old_messages`), Send/Old (old and dead messages),
--   Send/Dead (`find_dead_peers`, `handle_dead_peers`), Send/Thread (`broadcast`, one round of
--   `cbc_send_thread`). The laws are in Send/Loops, GiveUp, Targets, Resend, Total and Sent.
-- - src/cbcast/statistics.c: Statistics, with the laws in Statistics/Laws.
-- - Node composes a member: calls of its user, rounds of its two threads, and arriving datagrams,
--   in any order. Delivery has what decides on delivery, and the proofs about its order: Order
--   (the invariant), Frame and SendFrame (operations that do not deliver), Handlers (the receive
--   thread), Run (histories). Held is about copies in the held buffer.
-- - Member says what holds of a member's state between steps, and its children that every step
--   keeps it: Peers, Control, Deliver and Incoming (src/cbcast/receive.c), Outgoing and Sending
--   (src/cbcast/send.c), Start (src/cbcast/init.c), Node and Run (all together). The section
--   parameter `Promises` is what is known of the messages that arrive, nothing in Run.
-- - System is a group of members over a network: any packet that a member has sent reaches the
--   address that it was sent to, never, once or often, at any time. Said numbers what each has
--   sent, Worlds says what is known of each member, Invariant is kept by every step, Opening is
--   about its start, Parts what is put of a text into a message, and Fifo has the payloads of one
--   pair.
-- - main.c: Worker (the setup before `worker_process`), Worker/Loop (a round of its loop and the
--   state it prints), with the laws in Worker/Rounds, Setup and Printed. Worker/Sync is the
--   protocol over the shared memory: the barrier, the turns, the signals, and the end of `main`,
--   with the laws in Barrier, Turns, Ending, Hang, Stopping and Progress.
-- - src/cbcast/statistics.c, `create_loki_log`: Statistics/Loki, with its form in
--   Statistics/Envelope.
-- - Memory is a member once more with its blocks of memory: `calloc` and `free` (Heap), the
--   structures with their constructors and `cbc_*_free` functions (Objects), `struct CBcast` with
--   `cbc_init` and `cbc_free` (Context), src/cbcast/peer.c (Peers), src/cbcast/receive.c (Receiving
--   and Arriving), src/cbcast/send.c (Sending and Aging), `cbc_collect_statistics` (Collects), and
--   all of them in one history (Process). A function that is modelled without blocks too has the
--   suffix `_in` there, and takes what it computes from that model. Matches relates a call with
--   blocks to the one without.
--   Blocks, Makes, Life, Reads, Looks, Controls, Delivers, Handles, Acks, Datagrams, Transmits,
--   Resends, Buries and Sends are about single operations, Values about arrays of pointers, Story
--   about a history, Dangles about pointers to freed messages.
-- - Prelude has the shared names, Boolean tests, sequences, bits and loops. Tests has test runs.
--
-- How the code corresponds to the model:
-- - A function of the C code has the same name here. The state `cbc` is an argument and a result:
--   a NULL `cbc` is not modelled. Allocations succeed. Printing
--   does nothing, but that `cbc_send` reads the payload that it prints up to a zero byte, which must
--   be there. Outside of Memory releasing memory does nothing.
-- - The dynamic arrays of stb_ds, a vendored library, are lists; `arrput` appends, `arrdel` and
--   `arrdelswap` are in Prelude/Lists, and `arrpop` takes from the reversed list.
-- - Integers are natural numbers with their wrap-around written out, where the code computes with
--   them or cuts them. `1 << n` is undefined from 31 on. Memory is little-endian.
-- - A call, or a round of a thread, is one step: what the locks let in between is not modelled.
-- - `old_msgs` points into the sent buffer. `give_up` sets the bits of the dead peers in both.
-- - `inet_addr`, `rand`, the success of `socket` and `bind`, and the calls of cJSON are
--   parameters. `recvfrom` returns no error, and sent packets are recorded.
-- - The three `do` loops of receive.c and send.c run on fuel: one more round than the buffer has
--   elements, which is enough since each round takes one element out.
-- - In Memory a pointer is the addresses of an object's blocks, with what they hold. Reading or
--   freeing a block that is not allocated is undefined. The arrays of stb_ds, the objects of
--   `Result` and the texts are not blocks. A loop over an array of pointers reads what all of them
--   point to. `lost_messages` and `lost_sent` of `Context` keep what the program stops pointing to
--   without freeing it. `cbc_free` is called when the threads have been stopped between two rounds;
--   what `pthread_cancel` interrupts is not modelled. The reads that are modelled are those of the
--   loops, of a message while it is handled, sent or taken by the user, of the bytes that a thread
--   receives or sends, of the fields of a peer whose address is copied, and of an object that is
--   freed. The fields of the context, the clock and the statistics are at hand: reads of them before
--   `cbc_free` are not.
-- - In System what a member's user has sent is kept as the user gave it. A member's peers are those
--   that it starts with, and collecting its statistics, which changes nothing else, is no step.
-- - In Worker/Sync each read and write of the shared memory is a step. A worker may fail where it
--   calls the library. A worker that is not forked yet is one that has not done anything. `main`
--   may sleep through a signal between its test and `pause`. Text is what `%lu` of the C library
--   prints, a parameter, and has no zero byte.
--
-- Not modelled: `cbc_start` and `cbc_stop`, which start and cancel threads; in main.c the errors of
-- `shm_open`, `ftruncate`, `mmap` and `fork`, after which `main` ends; in src/cbcast/statistics.c the reading of the time and the upload to Loki; the tests.
pub mod Prelude
pub mod Message
pub mod State
pub mod VectorClock
pub mod Init
pub mod Peer
pub mod Receive
pub mod Send
pub mod Statistics
pub mod Node
pub mod Delivery
pub mod Member
pub mod System
pub mod Worker
pub mod Memory
pub mod Tests
