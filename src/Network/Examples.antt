-- ===== src/Network/Examples.antt =====
-- The theorems on the network thread at a server with two clients.
use samurai_kirby_server.Prelude.{
  ℕ, some, List, [], ◌∷◌, true, false, ◌≡◌, refl, All, map, arith, ◌==◌, if◌then◌else◌,
}
use samurai_kirby_server.Prelude.UnorderedMap.{at}
use samurai_kirby_server.Exec.{is_ok, ended}
use samurai_kirby_server.Player.{p2}
use samurai_kirby_server.Messages.{
  GameplayMessage, all_ready_game_starting, player_left_room, leave_game, set_ready_state,
}
use samurai_kirby_server.Json.Documents.{Document, documents, documents-IsLawful}
use samurai_kirby_server.Serializer.Contract.{
  IsWireAction, IsWireMessage, read_gameplay_message, action_json,
}
use samurai_kirby_server.Serializer.{message_json, serialize_gameplay_message}
use samurai_kirby_server.Serializer.Interface.{Serializer, json_serializer}
use samurai_kirby_server.Sockets.{Answer, returned, failed, would_block, error_of, unix}
use samurai_kirby_server.Sockets.Server.{ServerSocket}
use samurai_kirby_server.Sockets.Client.{ClientSocket}
use samurai_kirby_server.Sockets.Fixtures.{system_of}
use samurai_kirby_server.Network.{dispatch_messages, Server, ConnectedClient, queue_of}
use samurai_kirby_server.Network.Serving.{receive_from_network, rounds}
use samurai_kirby_server.Network.Invariant.{IsServing}
use samurai_kirby_server.Network.Safety.{Lasts, rounds-Lasts}
use samurai_kirby_server.Network.Loops.{broker_loops}
use samurai_kirby_server.Network.Termination.{AreShort, broker_loops-ended}
use samurai_kirby_server.Network.Queues.{HaveTexts, AreDelivered, dispatch_messages-AreDelivered}
use samurai_kirby_server.Network.Passage.{action_arrives, AreDumped, announcements_arrive}
use samurai_kirby_server.Network.Delivery.{AreTexts}
use samurai_kirby_server.Network.Failures.{
  IsRead, read_actions, receive_from_network-IsRead, IsStuck, broken_client_blocks,
}

abbrev serializer : Serializer
serializer = json_serializer documents

abbrev server_socket : ServerSocket
server_socket = record { descriptor = 3 }

abbrev socket_of : ℕ → ClientSocket
socket_of d = record { descriptor = d; addr = record { sin_addr = 2130706433; sin_port = 50000 } }

abbrev client : ConnectedClient
client = record { client_socket = socket_of 5; id = 4; has_been_disconnected = false }

abbrev other_client : ConnectedClient
other_client = record { client_socket = socket_of 6; id = 7; has_been_disconnected = false }

abbrev queue : List GameplayMessage
queue = all_ready_game_starting ∷ player_left_room p2 ∷ []

abbrev texts : List Document
texts =
    message_json documents all_ready_game_starting
    ∷ message_json documents (player_left_room p2)
    ∷ []

abbrev ready : Document
ready = action_json documents (set_ready_state true)

-- Two clients, with messages waiting for both. Every reading is answered by `r`, and nobody new comes.
abbrev server : Answer → Server Document
server r = record {
  next_client_id = 8;
  message_broker = record {
    message_hub = record {
      player_action_messages_by_player_id = (4, leave_game ∷ []) ∷ [];
      gameplay_messages_by_player_id = (4, queue) ∷ (7, all_ready_game_starting ∷ []) ∷ [];
      player_connectivity_messages = [];
    };
    gameplay_message_callbacks = (4, 4) ∷ (7, 7) ∷ [];
  };
  server_socket = some server_socket;
  connected_clients = client ∷ other_client ∷ [];
  log = [];
  system = system_of unix (failed would_block) r (returned 2) ready;
}

texts-AreTexts : AreTexts serializer queue texts
unfolding AreTexts serialize_gameplay_message
texts-AreTexts = (refl, (refl, tt))

queued : queue_of 4 (server (returned 40)) ≡ queue
unfolding at
queued = refl

receive_from_network-IsRead_example :
    (is_ok (receive_from_network serializer client (server (returned 40))).0 ≡ true)
    × IsRead client
        (read_actions (serializer.deserialize ready))
        (server (returned 40))
        (receive_from_network serializer client (server (returned 40))).1
receive_from_network-IsRead_example =
    receive_from_network-IsRead serializer client 39 (server (returned 40)) refl

broken_client_blocks_example :
    (is_ok (rounds serializer 3 (server (failed (error_of 104)))).0 ≡ true)
    × IsStuck serializer 3 server_socket client
        (server (failed (error_of 104)))
        (rounds serializer 3 (server (failed (error_of 104)))).1
broken_client_blocks_example =
    broken_client_blocks serializer 3 server_socket client (other_client ∷ []) 104
      (server (failed (error_of 104))) refl refl refl (λ _. refl) (λ _. refl)

-- The server, serving, with nothing that fails.
abbrev serving : Server Document
serving = server (returned 40)

serving-IsServing : IsServing serving
serving-IsServing = record {
  callbacks = refl;
  ascending = omega arith;
  live = (refl, (refl, tt));
  listens = refl;
  platform = refl;
}

rounds-Lasts_example : Lasts serializer (rounds serializer 2 serving)
rounds-Lasts_example = rounds-Lasts serializer 2 serving serving-IsServing

abbrev texts_of : ℕ → List Document
texts_of id = if id == 4 then texts else message_json documents all_ready_game_starting ∷ []

serving-HaveTexts : HaveTexts serializer texts_of (client ∷ other_client ∷ []) serving
unfolding AreTexts at serialize_gameplay_message
serving-HaveTexts = ((refl, (refl, tt)), ((refl, tt), tt))

dispatch_messages-AreDelivered_example :
    (is_ok (dispatch_messages serializer serving).0 ≡ true)
    × AreDelivered serializer texts_of
        (client ∷ other_client ∷ [])
        serving
        (dispatch_messages serializer serving).1
dispatch_messages-AreDelivered_example =
    dispatch_messages-AreDelivered serializer texts_of serving serving-IsServing serving-HaveTexts

-- Nobody has more than two messages.
serving-AreShort : AreShort 3 serving
unfolding at
serving-AreShort j = ground arith

broker_loops-ended_example :
    broker_loops serializer 3 serving ≡ ended (dispatch_messages serializer serving)
broker_loops-ended_example = broker_loops-ended serializer 3 serving serving-AreShort

ready-IsWireAction : IsWireAction (set_ready_state true)
unfolding IsWireAction
ready-IsWireAction = tt

action_arrives_example :
    (is_ok (receive_from_network serializer client serving).0 ≡ true)
    × IsRead client
        (set_ready_state true ∷ [])
        serving
        (receive_from_network serializer client serving).1
action_arrives_example =
    action_arrives documents documents-IsLawful client 39 (set_ready_state true) serving refl refl
      ready-IsWireAction

serving-AreDumped :
    All
      (λ c. AreDumped documents documents-IsLawful (queue_of c.id serving) (texts_of c.id))
      (client ∷ other_client ∷ [])
unfolding AreDumped at IsWireMessage
serving-AreDumped = ((tt, refl, (tt, refl, tt)), ((tt, refl, tt), tt))

announcements_arrive_example :
    (is_ok (dispatch_messages serializer serving).0 ≡ true)
    × AreDelivered serializer texts_of
        (client ∷ other_client ∷ [])
        serving
        (dispatch_messages serializer serving).1
    × All
        (λ c.
          map (read_gameplay_message documents) (texts_of c.id) ≡ map some (queue_of c.id serving))
        (client ∷ other_client ∷ [])
announcements_arrive_example =
    announcements_arrive documents documents-IsLawful texts_of serving serving-IsServing
      serving-AreDumped
