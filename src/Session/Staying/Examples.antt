-- ===== src/Session/Staying/Examples.antt =====
-- Turns of both threads: everybody who asks is accepted, and one client joins a game.
use samurai_kirby_server.Prelude.{
  ◌≢◌, ℕ, All, subst, sym, false, [], ◌∷◌, ◌≡◌, refl, ◌==◌, Bool-cases, inl, inr, arith, some,
}
use samurai_kirby_server.Prelude.UnorderedMap.{at, update}
use samurai_kirby_server.Exec.{ok}
use samurai_kirby_server.Player.{easy}
use samurai_kirby_server.Messages.{connect, join_game, leave_game, player_action_message_type}
use samurai_kirby_server.Environment.{
  MessageHub, subscribe_to_player_connectivity_messages, subscribe_to_player_action_messages,
}
use samurai_kirby_server.Json.Documents.{Document, documents}
use samurai_kirby_server.Serializer.Contract.{action_json}
use samurai_kirby_server.Serializer.{
  to_difficulty, deserialize_player_action_message, deserialize_as,
}
use samurai_kirby_server.Serializer.Interface.{Serializer, json_serializer}
use samurai_kirby_server.Sockets.{returned, unix, System}
use samurai_kirby_server.Sockets.Client.{ClientSocket, accept_connection, open_client_socket}
use samurai_kirby_server.Sockets.Fixtures.{system_of}
use samurai_kirby_server.Sockets.Server.{open_server_socket}
use samurai_kirby_server.Network
use samurai_kirby_server.Network.{
  Server, publish_player_action_message, publish_player_connectivity_message,
  subscribe_to_gameplay_messages_for_player, ConnectedClient, dispatch_callbacks, find_client,
}
use samurai_kirby_server.Network.Serving.{
  add_client, receive_from_network, communicate, erase_if_disconnected, start_listening,
  init_network, handle_new_client_connection,
}
use samurai_kirby_server.Room.Fixtures.{calm, calm-DrawsInRange}
use samurai_kirby_server.Gameplay.Rounds.{AllConnect}
use samurai_kirby_server.Gameplay.{
  dispatch_messages, new_gameplay, new_room_manager, dispatch_connectivity,
  handle_player_connectivity_message, dispatch_actions, deliver,
}
use samurai_kirby_server.Gameplay.Strangers.{IsUnknown}
use samurai_kirby_server.Session.Turns.{
  main, new_program, start, World, begin, run, Reach, here, next, takes, accepts, dispatches,
  serves,
}
use samurai_kirby_server.Session.Staying.{NobodyLeavesFor, GoesOn, staying_reachable-GoesOn}
use samurai_kirby_server.Session.Ids.{reachable-IsUnknown}
use samurai_kirby_server.Session.Interleaving.{IsSound, IsExpected, reachable-Ends}

abbrev socket : ClientSocket
socket = record { descriptor = 9; addr = record { sin_addr = 2130706433; sin_port = 50000 } }

-- Everybody who asks is accepted.
abbrev system : System Document
system = system_of unix (returned 9) (returned 0) (returned 2) (action_json documents leave_game)

abbrev serializer : Serializer
serializer = json_serializer documents

abbrev started : World Document
started = begin serializer system calm

begun : (main serializer system calm).0 ≡ ok tt
unfolding main new_program start start_listening init_network open_server_socket
begun = refl

abbrev after_one : World Document
after_one = (run serializer accepts started).1

abbrev after_two : World Document
after_two = (run serializer dispatches after_one).1

first_turn : (run serializer accepts started).0 ≡ ok tt
unfolding main new_program start start_listening init_network open_server_socket
    handle_new_client_connection accept_connection open_client_socket
first_turn = refl

second_turn : (run serializer dispatches after_one).0 ≡ ok tt
unfolding main new_program start start_listening init_network open_server_socket
    handle_new_client_connection accept_connection open_client_socket add_client
    publish_player_connectivity_message subscribe_to_gameplay_messages_for_player dispatch_messages
    new_gameplay new_room_manager subscribe_to_player_connectivity_messages dispatch_connectivity
    handle_player_connectivity_message subscribe_to_player_action_messages dispatch_actions deliver
    update at
second_turn = refl

-- One connection waits.
after_one-NobodyLeaves : NobodyLeavesFor dispatches after_one
unfolding main new_program start start_listening init_network open_server_socket
    handle_new_client_connection accept_connection open_client_socket add_client
    publish_player_connectivity_message subscribe_to_gameplay_messages_for_player at
after_one-NobodyLeaves = ((refl, tt), λ j. tt)

two_turns : Reach serializer NobodyLeavesFor started after_two
two_turns =
    next (next here (takes accepts started tt first_turn))
      (takes dispatches after_one after_one-NobodyLeaves second_turn)

reachable-Ends_example :
    IsSound after_two × IsExpected dispatches (run serializer dispatches after_two)
reachable-Ends_example =
    reachable-Ends serializer NobodyLeavesFor system calm dispatches refl begun calm-DrawsInRange
      two_turns

-- The same, but the client that was accepted is read, and joins a game.
abbrev joined_system : System Document
joined_system =
    system_of unix (returned 9) (returned 40) (returned 2)
      (action_json documents (join_game "eve" easy))

abbrev client : ConnectedClient
client = record { client_socket = socket; id = 0; has_been_disconnected = false }

abbrev joined_one : World Document
joined_one = (run serializer accepts (begin serializer joined_system calm)).1

abbrev joined_two : World Document
joined_two = (run serializer (serves client) joined_one).1

joined_begun : (main serializer joined_system calm).0 ≡ ok tt
unfolding main new_program start start_listening init_network open_server_socket
joined_begun = refl

joined_first : (run serializer accepts (begin serializer joined_system calm)).0 ≡ ok tt
unfolding main new_program start start_listening init_network open_server_socket
    handle_new_client_connection accept_connection open_client_socket
joined_first = refl

joined_second : (run serializer (serves client) joined_one).0 ≡ ok tt
unfolding main new_program start start_listening init_network open_server_socket
    handle_new_client_connection accept_connection open_client_socket add_client
    publish_player_connectivity_message subscribe_to_gameplay_messages_for_player communicate
    receive_from_network publish_player_action_message deserialize_player_action_message
    deserialize_as player_action_message_type Network.dispatch_messages dispatch_callbacks
    Network.deliver erase_if_disconnected at update
joined_second = refl

-- One connection waits, and one JOIN_GAME.
joined_hub : joined_two.gameplay.env.hub ≡ record {
  player_action_messages_by_player_id = (0, join_game "eve" easy ∷ []) ∷ [];
  gameplay_messages_by_player_id = (0, []) ∷ [];
  player_connectivity_messages = record { message_type = connect; player_id = 0 } ∷ [];
}
unfolding main new_program start start_listening init_network open_server_socket
    handle_new_client_connection accept_connection open_client_socket add_client
    publish_player_connectivity_message subscribe_to_gameplay_messages_for_player communicate
    receive_from_network publish_player_action_message deserialize_player_action_message
    deserialize_as player_action_message_type Network.dispatch_messages dispatch_callbacks
    Network.deliver erase_if_disconnected at update to_difficulty
joined_hub = refl

one_join : (j : ℕ) → All (λ m. m ≢ leave_game) (at [] j ((0, join_game "eve" easy ∷ []) ∷ []))
unfolding at
one_join j = elim (Bool-cases (0 == j)) [ inl e ↦ rw e ((λ h. cc), tt) | inr e ↦ rw e tt ]

joined_two-NobodyLeaves : NobodyLeavesFor dispatches joined_two
joined_two-NobodyLeaves =
    subst
      (λ (h : MessageHub).
        AllConnect h.player_connectivity_messages
        × ((j : ℕ) → All (λ m. m ≢ leave_game) (at [] j h.player_action_messages_by_player_id)))
      (sym joined_hub) ((refl, tt), one_join)

staying_reachable-GoesOn_example :
    GoesOn serializer dispatches joined_two (run serializer dispatches joined_two)
staying_reachable-GoesOn_example =
    staying_reachable-GoesOn serializer joined_system calm dispatches refl joined_begun
      calm-DrawsInRange refl
      (next (next here (takes accepts (begin serializer joined_system calm) tt joined_first))
        (takes (serves client) joined_one tt joined_second))
      joined_two-NobodyLeaves

joined_there : find_client 0 joined_one.server.connected_clients ≡ some client
unfolding main new_program start start_listening init_network open_server_socket
    handle_new_client_connection accept_connection open_client_socket add_client
joined_there = refl

joined_next : joined_two.server.next_client_id ≡ 1
unfolding main new_program start start_listening init_network open_server_socket
    handle_new_client_connection accept_connection open_client_socket add_client
    publish_player_connectivity_message subscribe_to_gameplay_messages_for_player communicate
    receive_from_network publish_player_action_message deserialize_player_action_message
    deserialize_as player_action_message_type Network.dispatch_messages dispatch_callbacks
    Network.deliver erase_if_disconnected at update
joined_next = refl

reachable-IsUnknown_example :
    IsUnknown 1 joined_two.gameplay
    × All
        (λ (c : ℕ × ℕ). (c.0 == 1) ≡ false)
        joined_two.server.message_broker.gameplay_message_callbacks
reachable-IsUnknown_example =
    reachable-IsUnknown serializer joined_system calm 1 refl joined_begun calm-DrawsInRange refl
      (next (next here (takes accepts (begin serializer joined_system calm) tt joined_first))
        (takes (serves client) joined_one joined_there joined_second))
      (omega (arith, joined_next))
