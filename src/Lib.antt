-- ===== src/Lib.antt =====
-- A model of the IPK24CHAT client (src/main.c, src/protocolReceiver.c, src/protocolSender.c and
-- src/libs), a chat client over TCP or UDP with three threads: the main thread reads commands and
-- queues messages, the sender thread sends the first message of the queue and moves the state machine,
-- the receiver thread handles the messages of the server. They share one program interface: the state
-- of the machine, the queue of messages with its lock, the stored names, the counter of message IDs.
--
-- The files, and the code they are about (functions keep their names, in lower case with
-- underscores):
-- - Prelude, Prelude/Tests, Prelude/Lists: shared names, Boolean tests, lists over native numbers.
-- - Outcome: the results of C functions. `ok` is a value, `error` a call of errHandling() that ends the
--   program, `fault` undefined behaviour (NULL, a read or write out of bounds, an unset value),
--   `blocked` a wait that nothing ends. `Ensures` states what holds where a run returns.
-- - Memory, Memory/Writes, Memory/Spelling: arrays of cells that may be unwritten, pointers as an
--   object with an offset, size_t arithmetic modulo 2 ^ 64, runs of writes.
-- - Utils, Utils/Types, Utils/Scan, Utils/Bytes: src/libs/utils.c and its enums.
-- - Buffer, Buffer/Laws, Buffer/Loading: src/libs/buffer.c.
-- - Queue, Queue/Types, Queue/Order, Queue/Repeated: src/libs/msgQueue.c, the linked list as a list.
-- - Queue/Linked, Queue/Linked/Chain, Queue/Linked/Add, Queue/Linked/Remove, Queue/Linked/First,
--   Queue/Linked/Refinement: src/libs/msgQueue.c with the nodes and pointers of the linked list in a
--   heap. malloc() gives an address that was never used, with the pointer to the next node unset;
--   free() empties a cell. A read of an empty cell or an unset pointer is a fault.
-- - Program, Program/Accepted: src/libs/programInterface.h, the setup of src/libs/cleanUpMaster.c and
--   src/libs/networkCom.h, one record with a trace of what is printed, sent and signalled.
-- - Protocol, Protocol/Blocks, Protocol/Assemble, Protocol/Assemble/Frame, Protocol/Assemble/Writing,
--   Protocol/Assemble/Wire, Protocol/Assemble/Packets, Protocol/Assemble/Packets/Message,
--   Protocol/Disassemble, Protocol/Disassemble/Line, Protocol/Disassemble/Packet, Protocol/RoundTrip,
--   Protocol/RoundTrip/Packet, Protocol/Input, Protocol/Input/Quiet, Protocol/Input/Commands,
--   Protocol/Input/Arguments, Protocol/Input/Lines, Protocol/Words: src/libs/ipk24protocol.c.
-- - Receiver, Receiver/Send, Receiver/Frame, Receiver/Handlers, Receiver/Handlers/Moves,
--   Receiver/Handlers/Confirm, Receiver/Handlers/Rejection, Receiver/Handlers/Security, Receiver/Step,
--   Receiver/Confirming: src/protocolReceiver.c. Receiver/Handlers/Repeated and
--   Receiver/Packets are about messages of the server that come again.
-- - Sender, Sender/Limit, Sender/Laws, Sender/Filtering, Sender/Sending, Sender/Reset,
--   Sender/Security: src/protocolSender.c.
-- - Main, Main/Filter, Main/Typed, Main/Options, Main/Ends, Main/Security: src/main.c, and
--   sigintHandler() of src/libs/cleanUpMaster.c.
-- - System, System/Reaching: the threads together. A move is a round of a thread's loop, its start, an
--   error or SIGINT; the states that moves reach from an accepted command line are the reachable ones.
--   A run of moves is unanswered if no round of the receiver in it handles a positive reply.
-- - System/Exchange: a request through the sender and the receiver, from its sending to its deletion.
-- - Network, Network/Address, Network/Options, Network/Setup: src/libs/networkCom.c and the start of
--   main() in src/main.c, with the calls of the operating system as parameters.
-- - Lifetime, Lifetime/Interfaces, Lifetime/Owns, Lifetime/Buffers, Lifetime/Queue, Lifetime/Usage,
--   Lifetime/Count, Lifetime/Destroy: programInterfaceInit() and programInterfaceDestroy() of
--   src/libs/cleanUpMaster.c with the allocations of src/libs/buffer.c and src/libs/msgQueue.c: which
--   blocks are live. A free of a block that is not live is a fault.
-- - Tests and its children: the theorems at concrete inputs.
--
-- A handler runs without a break between the points where it waits. What other threads do in a wait
-- of the sender or the main thread is a function on the program, the next one of a list; with an empty
-- list the wait never ends. In System these functions are runs of moves themselves, and the locals of a
-- thread are arbitrary in each move. A char is its byte, and where C promotes
-- it to int its sign is written out.
--
-- Loops are structural or run on a number of rounds: a scan makes as many rounds as its limit says, as
-- in the code; the filter of the sender has one round more than the queue has messages, each round but
-- the last pops one, and a filter that needs more rounds is `blocked`; the loops over the linked list
-- have as many rounds as its length, and would be `blocked` without one that they need.
--
-- Not modelled: failing allocations, the creation and destruction of threads and mutexes, getopt() and
-- atoi() (an option comes with its number read, and a negative one is not expressed), the help of the
-- command line, debug output, and the servers for trying the client by hand.
pub mod Prelude
pub mod Outcome
pub mod Memory
pub mod Utils
pub mod Buffer
pub mod Queue
pub mod Program
pub mod Protocol
pub mod Receiver
pub mod Sender
pub mod Lifetime
pub mod Main
pub mod Network
pub mod System
mod Tests
