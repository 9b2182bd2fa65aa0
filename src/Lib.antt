-- ===== src/Lib.antt =====
-- The gameplay of the Samurai Kirby server, a two-player reflex game.
--
-- The program has two threads. The network thread accepts clients, reads their actions into a hub
-- of queues and sends them what the hub holds for them, both through the serializer. The gameplay
-- thread takes the actions out of the hub, has them handled by the room manager and by the rooms,
-- and ticks every room, which moves the games on and puts messages for the players into the hub.
-- This library models both loops and what they call, and the start of the program:
--
--   Player            src/gameplay/Player, GameplayInput.h, Room/GameDifficulty.h
--   Messages          src/messages/GameplayMessages.h, PlayerActionMessages.h and
--                     PlayerConnectivityMessage.h, and gameplay/Room/GameResultDTO.h
--   Environment       src/messages/MessageHub.h, GameplayMessageBroker (all but the dispatch),
--                     gameplay/GameplayChrono.cpp and GetRandomValueInRange.h
--   Room.State        src/gameplay/Room/Room.h: the record `Room`, and `RoomWorld`, a room and what
--                     is around it, which the methods read and write
--   Room.Queries      the methods of Room.cpp that only read
--   Room.Ticks        Room::tick and its handlers
--   Room.Actions      Room::handlePlayerMessage and its handlers
--   Room.Membership   Room::addPlayer and Room::removePlayer
--   RoomManager       src/gameplay/RoomManager.cpp, over the record `Lobby`
--   Serializer        src/network/serializer, over a JSON library (Json); Serializer.Interface is
--                     what the network takes from it
--   Sockets           the calls of the operating system, as a parameter
--   Sockets.Server    src/network/sockets/ServerSocket.cpp
--   Sockets.Client    src/network/sockets/ClientSocket.cpp, and Server::acceptConnection
--   Network           src/messages/NetworkMessageBroker.cpp and src/network/ConnectedClient.cpp
--   Network.Serving   src/network/Server.cpp, and how ConnectedClient.cpp comes, reads and goes
--   Session.Turns     src/main.cpp, the constructor of Server and Server::start, which make and start
--                     both threads, and the turns that these take
--   Gameplay          src/gameplay/Gameplay.cpp and GameplayMessageBroker::dispatchMessages
--
-- A function has the name of the method that it models, in snake case. A method is an action of
-- `Exec`: it takes the state, and returns the new state with a result or an exception. `value()` of
-- an empty optional is the exception `bad_optional_access`; `undefined_behaviour` marks a call
-- through a pointer to a destroyed room or client or through a null pointer, a read past the end of
-- a vector, and a pointer past the end of a literal. The proofs on a room are in the other modules
-- below Room (Validity and Safety: what holds between two calls; Reachability: every history of
-- calls; Verdict: the rules of a game; Transitions: the state machine; Game: the course of a
-- game; Timing; Steady and Waiting: ticks on a clock that goes on; Idle and Ending: a game that
-- nobody plays; Answer and Winning: one that one player answers; Joining and Leaving; Frame,
-- Seats, Mailbox and Callbacks; Outsiders and Strangers: ids that no room knows), those on the
-- room manager below RoomManager, those on the gameplay's thread below Gameplay (Subscriptions,
-- Newcomers and Newcomers.Batches; Calls, Draining and Dispatch: what a dispatch leaves; Stale:
-- where it is undefined; Loops and Termination: its loops as they are written; Links, Staying,
-- Ticking and Rounds: rounds in which nobody leaves; Bystanders and Strangers: ids that are not
-- known), those on the serializer in Serializer.Actions and Serializer.Announcements, which say
-- what arrives of a message between the server and a client of the contract
-- (Serializer.Contract), those on the sockets in Sockets.Opening and Sockets.Accepting, and
-- those on the network thread below Network (Program: the server ahead of its loop; Invariant
-- and Safety: what holds whenever the loop comes round, with its lemmas in Clients, Dispatch and
-- Reading; Delivery, Queues and Passage: what is sent and what is read; Loops and Termination:
-- the loops of the broker as they are written; Quiet and Strangers: ids that no client has;
-- Failures). Session puts both threads together: Session and Session.Answers for a new player,
-- from the text that it sends to the one that it is sent, and Session.Turns, which interleaves
-- them, Interleaving, Ids: the ids that are yet to be given, Staying: turns while nobody leaves,
-- and Leaving: a run in which somebody does. The modules Examples apply the theorems to concrete
-- games and servers.
--
-- Numbers. Ids are those that the server counts up from 0. Times are nanoseconds; the count of
-- seconds is truncated towards zero and narrowed to a 32-bit int as in the source. The times that
-- clients send are integers. An enumeration has its enumerators and the numbers that have none,
-- since the JSON library casts any number.
--
-- Parameters. The clock and the generator are functions from the number of the reading or draw to
-- its value; that a draw lies between its bounds is the hypothesis `DrawsInRange`, and that the
-- clock goes on, neither backwards nor by jumps, is `IsSteady` where ticks wait for a time. A
-- std::unordered_map is an association list, and is iterated in the order of the list. The loops
-- are recursions over the lists that they go through, so there is no fuel; but the loops of
-- dispatchMessages of both brokers, which look into the hub again after every callback, stand in
-- Gameplay.Loops and Network.Loops as they are written, on fuel, and more fuel than a queue is long
-- is enough. The endless loop of the gameplay thread is given by its body, and that of the network
-- thread by the number of times that it has come round, which the theorems leave open; of the
-- network's loop alone, nothing comes in between. Where both threads run, the theorems are about the
-- turns that they take.
--
-- The JSON library is the record `JsonLibrary`, with the laws `IsLawful`; Json.Documents is an
-- instance. Of its exceptions only that one is thrown is kept.
--
-- The operating system is the record `System`: what the n-th call answers, what recv leaves in the
-- buffer and accept in the address, the conversions of its headers, and the list of the calls that
-- were made. A theorem on a run holds whatever the system answers. That a socket may not take all
-- of a text is not modelled; the code does not look at what `send` answers.
--
-- Not modelled: the interleaving of the two threads within a dispatch, a round of ticks or the
-- serving of a client, where the program has data races. A new room's address is taken to be one
-- that no earlier room had. Room::removePlayer reads the id and the slot of the player that left
-- once more after it has emptied the slot, through a pointer to an object whose lifetime has
-- ended. The model reads what stood there, and no theorem that speaks of undefined behaviour
-- counts this read. Of what is printed, only the addresses of the accepted clients are kept.
pub mod Prelude
pub mod Exec
pub mod Player
pub mod Messages
pub mod Environment
pub mod Room
pub mod RoomManager
pub mod Gameplay
pub mod Session
pub mod Json
pub mod Serializer
pub mod Sockets
pub mod Network
