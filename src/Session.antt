-- ===== src/Session.antt =====
-- The way of a new player through both threads: what network/Server.cpp and
-- network/ConnectedClient.cpp put into the hub of messages/MessageHub.h, and what
-- gameplay/Gameplay.cpp makes of it.
pub mod Turns
pub mod Interleaving
pub mod Staying
pub mod Answers
pub mod Ids
mod Leaving
mod Examples
use samurai_kirby_server.Prelude.{ℕ, suc, String, some, true, false, [], ◌∷◌, ◌++◌, ◌≡◌, ap, ◌∙◌}
use samurai_kirby_server.Prelude.UnorderedMap
use samurai_kirby_server.Exec.{is_ok}
use samurai_kirby_server.Player.{GameDifficulty}
use samurai_kirby_server.Messages.{join_game, connect}
use samurai_kirby_server.Environment.{MessageHub, gameplay_callback}
use samurai_kirby_server.Json.{JsonLibrary, IsLawful}
use samurai_kirby_server.Serializer.Contract.{IsWireAction, action_json}
use samurai_kirby_server.Serializer.Interface.{json_serializer}
use samurai_kirby_server.Sockets.{returned}
use samurai_kirby_server.Sockets.Client.{ClientSocket}
use samurai_kirby_server.Network
use samurai_kirby_server.Network.{
  Server, ConnectedClient, publish_player_connectivity_message,
  subscribe_to_gameplay_messages_for_player,
}
use samurai_kirby_server.Network.Serving.{add_client, receive_from_network}
use samurai_kirby_server.Network.Failures.{recv_from}
use samurai_kirby_server.Network.Failures
use samurai_kirby_server.Network.Passage.{action_arrives}
use samurai_kirby_server.Room.Mailbox.{mailbox}
use samurai_kirby_server.RoomManager.{Lobby}
use samurai_kirby_server.RoomManager.Soundness.{AreLive}
use samurai_kirby_server.Gameplay
use samurai_kirby_server.Gameplay.Newcomers.{OthersAreQuiet, Joins, newcomer_is_seated}

module _ (L : JsonLibrary) where
  abbrev pub newcomer : ClientSocket → Server L.Text → ConnectedClient
  newcomer socket s = record {
    client_socket = socket;
    id = s.next_client_id;
    has_been_disconnected = false;
  }

  -- The hub after the server has taken on a client and has read from it.
  abbrev pub hub_after : ClientSocket → Server L.Text → MessageHub
  hub_after socket s =
      (receive_from_network (json_serializer L) (newcomer socket s)
        (add_client (json_serializer L) socket s)).1.message_broker.message_hub

module _ (L : JsonLibrary) (laws : IsLawful L) where
  -- Let the server take on a client whose id has no waiting action, while no connection waits, and
  -- read from its socket the text that a client of the contract dumps of a JOIN_GAME whose
  -- difficulty is an enumerator or another number of 32 bits. Let the gameplay, whose callback is subscribed, find this hub, with
  -- every room valid and not empty, and with no waiting action of the players that it listens to,
  -- which are others. Then its dispatch
  -- throws nothing and empties the player's queue; the player sits in a room as in
  -- `RoomManager.Matchmaking.add_player_to_room-IsMatched`; and what waits for the player is what
  -- waited before, then the news that it has joined, and then maybe more.
  pub text_seats_newcomer :
      (socket : ClientSocket) (n : ℕ) (nickname : String) (d : GameDifficulty) (s : Server L.Text)
      (l : Lobby)
      → s.message_broker.message_hub.player_connectivity_messages ≡ []
      → Failures.actions_of s.next_client_id s ≡ []
      → s.system.answer s.system.made (recv_from (newcomer L socket s)) ≡ returned (suc n)
      → L.dump (action_json L (join_game nickname d)) ≡ some (s.system.bytes s.system.made)
      → IsWireAction (join_game nickname d)
      → l.env.hub ≡ hub_after L socket s
      → l.env.connectivity_callback ≡ some gameplay_callback
      → OthersAreQuiet s.next_client_id l.env
      → AreLive l.rooms
      → (is_ok (Gameplay.dispatch_messages l).0 ≡ true)
        × Joins s.next_client_id d l.rooms
            (mailbox s.next_client_id l.env)
            (Gameplay.dispatch_messages l).1
  unfolding add_client publish_player_connectivity_message subscribe_to_gameplay_messages_for_player
  text_seats_newcomer socket n nickname d s l none_waits empty given dumped wire shared callback
        quiet a =
      let S = json_serializer L in
      let read =
        action_arrives L laws (newcomer L socket s) n (join_game nickname d) (add_client S socket s)
          given dumped wire in
      newcomer_is_seated s.next_client_id nickname d l callback
        (ap (λ (h : MessageHub). h.player_connectivity_messages) shared
          ∙ read.1.connectivity
          ∙ ap (λ q. q ++ record { message_type = connect; player_id = s.next_client_id } ∷ [])
              none_waits)
        (ap
            (λ (h : MessageHub).
              UnorderedMap.at [] s.next_client_id h.player_action_messages_by_player_id)
            shared
          ∙ read.1.own
          ∙ ap (λ q. q ++ join_game nickname d ∷ []) empty)
        quiet a
