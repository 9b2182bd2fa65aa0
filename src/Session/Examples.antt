-- ===== src/Session/Examples.antt =====
-- A new player at a server whose gameplay has two rooms.
use samurai_kirby_server.Prelude.{ℕ, All, subst, sym, arith, some, true, [], ◌∷◌, ◌≡◌, refl, List}
use samurai_kirby_server.Prelude.UnorderedMap.{at, update}
use samurai_kirby_server.Player.{easy, p1, p2, new_player, build_lobby_dto}
use samurai_kirby_server.Messages.{
  join_game, player_action_message_type, GameplayMessage, room_joined,
}
use samurai_kirby_server.Environment.{
  gameplay_callback, subscribe_to_player_action_messages, publish_gameplay_message,
}
use samurai_kirby_server.Json.Documents.{Document, documents, documents-IsLawful}
use samurai_kirby_server.Serializer.Contract.{
  IsWireAction, IsWireDifficulty, action_json, IsWireMessage,
}
use samurai_kirby_server.Serializer.{
  to_difficulty, deserialize_player_action_message, deserialize_as, message_json,
}
use samurai_kirby_server.Sockets.{returned, unix}
use samurai_kirby_server.Sockets.Client.{ClientSocket}
use samurai_kirby_server.Sockets.Fixtures.{system_of}
use samurai_kirby_server.Network.{
  Server, publish_player_action_message, publish_player_connectivity_message,
  subscribe_to_gameplay_messages_for_player, queue_of,
}
use samurai_kirby_server.Network.Serving.{add_client, receive_from_network}
use samurai_kirby_server.Network.Passage.{AreDumped}
use samurai_kirby_server.Network.Invariant.{IsServing}
use samurai_kirby_server.Room.Fixtures.{calm}
use samurai_kirby_server.Room.Queries.{is_full, get_available_assignment}
use samurai_kirby_server.Room.Membership.{add_player, add_player_at}
use samurai_kirby_server.Room.State.{broadcast_gameplay_message, notify}
use samurai_kirby_server.RoomManager
use samurai_kirby_server.RoomManager.{Lobby, add_player_to_room, find_if}
use samurai_kirby_server.RoomManager.Fixtures.{evening, evening-AreLive}
use samurai_kirby_server.Gameplay
use samurai_kirby_server.Gameplay.Subscriptions.{manager_subscription, room_subscription}
use samurai_kirby_server.Gameplay.Newcomers.{OthersAreQuiet}
use samurai_kirby_server.Gameplay.{
  dispatch_messages, new_gameplay, new_room_manager, dispatch_connectivity,
  handle_player_connectivity_message, dispatch_actions, deliver, call_all, call,
}
use samurai_kirby_server.Session.{hub_after}
use samurai_kirby_server.Session.Answers.{server_after, Answers, join_is_answered}

abbrev socket : ClientSocket
socket = record { descriptor = 9; addr = record { sin_addr = 2130706433; sin_port = 50000 } }

-- The bytes that are read are those of a JOIN_GAME.
abbrev server : Server Document
server = record {
  next_client_id = 5;
  message_broker = record {
    message_hub = record {
      player_action_messages_by_player_id = (3, []) ∷ [];
      gameplay_messages_by_player_id = [];
      player_connectivity_messages = [];
    };
    gameplay_message_callbacks = [];
  };
  server_socket = some (record { descriptor = 3 });
  connected_clients = [];
  log = [];
  system =
      system_of unix (returned 9) (returned 40) (returned 2)
        (action_json documents (join_game "eve" easy));
}

abbrev lobby : Lobby
lobby = record evening {
  env = record calm {
    hub = hub_after documents socket server;
    connectivity_callback = some gameplay_callback;
    subscriptions = (3, manager_subscription ∷ room_subscription 1 ∷ []) ∷ [];
  };
}

join-IsWireAction : IsWireAction (join_game "eve" easy)
unfolding IsWireAction IsWireDifficulty
join-IsWireAction = tt

lobby-OthersAreQuiet : OthersAreQuiet 5 lobby.env
unfolding at update add_client receive_from_network publish_player_connectivity_message
    subscribe_to_gameplay_messages_for_player publish_player_action_message
    deserialize_player_action_message player_action_message_type deserialize_as
lobby-OthersAreQuiet = ((refl, refl), tt)

-- The room that waits takes the new player in.
abbrev welcome : GameplayMessage
welcome = room_joined p2 (some (record { nickname = "alice"; assignment = p1; is_ready = true }))

answer_is_welcome :
    queue_of 5 (server_after documents socket server (Gameplay.dispatch_messages lobby).1.env.hub)
    ≡ welcome ∷ []
unfolding at update add_client receive_from_network publish_player_connectivity_message
    subscribe_to_gameplay_messages_for_player publish_player_action_message
    deserialize_player_action_message player_action_message_type deserialize_as to_difficulty
    dispatch_messages dispatch_connectivity handle_player_connectivity_message
    subscribe_to_player_action_messages dispatch_actions deliver call_all call
    RoomManager.handle_player_message add_player_to_room find_if is_full add_player add_player_at
    get_available_assignment new_player build_lobby_dto publish_gameplay_message
    broadcast_gameplay_message notify
answer_is_welcome = refl

welcome-AreDumped :
    AreDumped documents documents-IsLawful (welcome ∷ []) (message_json documents welcome ∷ [])
unfolding AreDumped IsWireMessage
welcome-AreDumped = (tt, refl, tt)

server-IsServing : IsServing server
server-IsServing = record {
  callbacks = refl;
  ascending = omega arith;
  live = tt;
  listens = refl;
  platform = refl;
}

abbrev texts : ℕ → List Document
texts _ = message_json documents welcome ∷ []

answer-AreDumped :
    let t = server_after documents socket server (Gameplay.dispatch_messages lobby).1.env.hub in
    All
      (λ c. AreDumped documents documents-IsLawful (queue_of c.id t) (texts c.id))
      t.connected_clients
unfolding add_client receive_from_network deserialize_player_action_message
    player_action_message_type deserialize_as
answer-AreDumped = (
  subst (λ q. AreDumped documents documents-IsLawful q (texts 5)) (sym answer_is_welcome)
      welcome-AreDumped,
  tt,
)

join_is_answered_example :
    Answers documents 5 easy texts lobby
      (server_after documents socket server (Gameplay.dispatch_messages lobby).1.env.hub)
unfolding at
join_is_answered_example =
    join_is_answered documents documents-IsLawful socket 39 "eve" easy server lobby texts refl refl
      refl refl join-IsWireAction refl refl lobby-OthersAreQuiet evening-AreLive server-IsServing
      answer-AreDumped
