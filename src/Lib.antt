-- ===== src/Lib.antt =====
-- PR-Shooter: a server-side shooter in C and C++ with a client in Python.
--
-- The host (Host/) keeps the game: players, projectiles and a map. Three threads work on it under
-- one mutex. One takes messages from a queue and handles them (`receiveThread`, `handleMessage`),
-- one moves everything in fixed steps of 3 ms and resolves collisions (`updateThread`), one writes
-- the game state into a message for everyone (`sendThread`). The server library (Server/) carries
-- messages between sockets and queues. The client (Client/) reads messages, draws the game and
-- sends commands.
--
-- Files:
-- - Machine.antt: what the compiler and its mathematics library supply, as a parameter: `double`
--   and `float`, their operations and bytes, the sizes of structures, and named assumptions about
--   them. Machine/Whole.antt is a fixed-point machine on which the definitions run.
-- - Geometry.antt, Geometry/Collisions.antt: Host/basic_structs.hpp, Host/basic_structs.cpp and
--   Host/collisions.cpp; Geometry/Laws.antt their properties.
-- - Wire.antt: bytes, `copyToBuf` and reads from a message. A write behind the end of the buffer
--   that was allocated, or a read behind the end of a message, is a fault, written `none`.
-- - Table.antt: `std::unordered_map`, as a list of keys and values in the order of iteration.
-- - Game.antt: Host/game.hpp and the constants and constructors of Host/game.cpp.
-- - Game/Handlers.antt: `createNewPlayer`, `deletePlayer`, `shootProjectile`, `spawnPlayer`,
--   `isInsideBorder`, `changePlayerOrientation`, `changePlayerMovement`.
-- - Game/Messages.antt: `handleMessage`, with the list of what it locks, unlocks and sends.
-- - Game/Physics.antt: `updatePositions`, `calculateDisplacement`, the `moveAlongNormal` family.
-- - Game/Hits.antt: `checkCollisions`, `checkProjectileCollisions`.
-- - Game/Loop.antt: one pass through the loops of `updateThread` and `sendThread`, and `updateThread`
--   over its turns.
-- - Game/Serialize.antt: `serializeGameState`, `serializeMap`, `sendWelcomeMessage`.
-- - Client.antt: the reading half of Client/client.py, `receive_message` behind the frame's size;
--   Client/Receiving.antt: the calls of `recv` in front of it; Client/Commands.antt: `send_message`,
--   with `directionToVelocity` of Client/game_objects.py.
-- - Server/Queue.antt: Server/server_queue.c, the doubly linked queue between the threads, on an
--   explicit heap of nodes and copied elements; Server/Queue/Cells.antt says which list it holds.
-- - Server/Array.antt: Server/server_array.c, the array that doubles its memory;
--   Server/Array/Holds.antt says which list it holds.
-- - Server/Mutex.antt: Server/server_mutex.c, with what POSIX says of the mutexes behind it;
--   Server/Mutex/Calls.antt: threads that make calls of synchronized functions, as steps of a command
--   each: a lock, an unlock, or work on the data; Server/Mutex/Serial.antt: the calls as wholes.
-- - Server/SyncArray.antt: the synchronized array of Server/server_array.c, as such calls;
--   Server/SyncQueue.antt: the synchronized queue of Server/server_queue.c, and the calls that
--   Server/server_receive.c makes with it.
-- - Server/Queue/Interface.antt: what the threads rely on in a queue (Server/server_queue.h), as an
--   interface that the linked queue fills.
-- - Server/Clients.antt: the table of clients of Server/server.c, `addClient`, `getClient`,
--   `signalClientToStop`, `stopReceivingThreads` and so on; Server/LifeCycle.antt: `runServer`,
--   `stopServer`, `clearEverything`, as lists of what they create, start, join and destroy.
-- - Server/Receive.antt: Server/server_receive.c, the thread of one client (`startReceiving`), and
--   `take` behind its wait; Server/Receive/Waiting.antt: `take` with its wait;
--   Server/Receive/Emptying.antt: `destroyReceivedQueue`.
-- - Server/Listen.antt: Server/server_listen.c, the loop of `startListening`.
-- - Server/Send.antt: Server/server_send.c, `sendToEveryone`, `sendTo`, and the rounds and the end
--   of `startSending`; Server/Send/Thread.antt: `startSending` from its first turn to its end, with
--   `waitForMessage`; Server/Send/System.antt: these with `addClient` as steps on the queue, the
--   message to everyone and the table. Server/Memory.antt: which blocks of bytes are allocated.
-- - Server/Wrapper.antt: Host/server_wrapper.cpp, `Server::run`, `Server::stop` and the owner of an
--   incoming message.
-- - Game/MapFile.antt: `splitMapLine` and `getMap` of Host/game.cpp.
-- - Host.antt: how these work together: `receiveThread` over the queue of the server, and the three
--   threads of `Game::run` as steps on the game; Host/Watching.antt: a game state from the host to a
--   client; Client/Commands/Stream.antt: commands from a client to the host.
-- The files in the folders below these hold the proofs, one subject each. Tests.antt has a
-- small game, and the files in Tests/ the theorems at it.
--
-- Numbers: an id is a `size_t` and health a `uint8_t`; `kills` and `deaths` wrap at 2^16, counts of
-- packets at 2^64, and what is written as `uint16_t` or `uint8_t` is reduced. `players[id]` inserts
-- `Player(0)` for an id that is missing, and the model does so too. `startReceiving` keeps the
-- result of `recv` in an `int`, which compares as another size from 2^31 on (`as_int`).
--
-- Parameters: the random draws of `spawnPlayer`, the durations that `Timer` measures, the clock
-- of the update loop, the machine, `std::stod`, the results of `poll`, `accept`, `recv`, `send`,
-- `pthread_create` and `pthread_cond_timedwait`, and what the threads of the clients put into
-- the queue between two passes of `receiveThread`. Fuel: the loop of `updateThread` gets one
-- unit more than the microseconds in the accumulator, of which every round takes 3000, and it is
-- shown never to run out; the loop of `spawnPlayer` ends in its first round, since
-- `isInsideBorder` accepts every point; the loops of `queueClear`, of `destroyReceivedQueue` and
-- at the end of `startSending` get one test more than the queue has elements. Where a file
-- treats an operation under a mutex as one step, it leans on what Server/Mutex/Serial.antt shows
-- of calls that hold a mutex from their first command to their last; a round of `startSending`,
-- which gives its mutex back before it sends, is one step all the same. `receiveThread` takes a
-- time-out of `take` to find the queue empty; a message that comes with the time-out is left for
-- the next pass. Memory is never exhausted, and in the linked queue `malloc` gives no address
-- twice.
--
-- Not modelled: setting the listening socket up, which only calls the system; the attributes of
-- mutexes beyond their type; signals, printing, the statistics of the destructor, sleeping, and of
-- the client the drawing, the keys and the connection.
pub mod Prelude
pub mod Table
pub mod Machine
pub mod Geometry
pub mod Wire
pub mod Game
pub mod Client
pub mod Server
pub mod Host
pub mod Tests
