-- ===== src/Session/Leaving.antt =====
-- A run of the two threads of network/Server.cpp, from main on, in which the only player of a room
-- leaves it.
use samurai_kirby_server.Prelude.{
  ℕ, Bool, true, false, ◌&&◌, ◌≡◌, refl, List, [], ◌∷◌, ltb, if◌then◌else◌, Bool-cases, inl, inr,
  arith,
}
use samurai_kirby_server.Prelude.UnorderedMap.{update, at}
use samurai_kirby_server.Exec.{Result, ok, err, is_ok, undefined_behaviour}
use samurai_kirby_server.Player.{easy}
use samurai_kirby_server.Messages.{join_game, leave_game, player_action_message_type}
use samurai_kirby_server.Environment.{subscribe_to_player_action_messages, publish_gameplay_message}
use samurai_kirby_server.Json.Documents.{Document, documents}
use samurai_kirby_server.Serializer.Contract.{action_json}
use samurai_kirby_server.Serializer.Interface.{Serializer, json_serializer}
use samurai_kirby_server.Serializer.{
  deserialize_player_action_message, deserialize_as, serialize_gameplay_message,
}
use samurai_kirby_server.Sockets.{System, returned, unix}
use samurai_kirby_server.Sockets.Fixtures.{system_of}
use samurai_kirby_server.Network.{ConnectedClient}
use samurai_kirby_server.Network.Serving.{
  handle_new_client_connection, start_listening, init_network, communicate,
}
use samurai_kirby_server.Room.Fixtures.{calm}
use samurai_kirby_server.Room.Membership.{
  add_player, add_player_at, remove_player, remove_player_at,
}
use samurai_kirby_server.Room.Queries.{
  get_available_assignment, get_player_by_id, has_player_with_id, is_empty,
}
use samurai_kirby_server.Room.State.{broadcast_gameplay_message, default_config, notify}
use samurai_kirby_server.RoomManager.{
  add_player_to_room, add_room_with_player, find_if, handle_player_message, remove_player_from_room,
}
use samurai_kirby_server.Gameplay.{
  dispatch_messages, dispatch_connectivity, new_gameplay, handle_player_connectivity_message,
  dispatch_actions, deliver, call_all, call,
}
use samurai_kirby_server.Session.Ids.{IsConnected}
use samurai_kirby_server.Session.Turns.{
  main, new_program, start, World, Turn, accepts, serves, dispatches, run, begin, Reach, here, next,
  takes,
}

module _ (S : Serializer) where
  abbrev run_turns : List Turn → World S.Text → World S.Text
  run_turns [] w = w
  run_turns (t ∷ ts) w = run_turns ts (run S t w).1

  abbrev all_ok : List Turn → World S.Text → Bool
  all_ok [] w = true
  all_ok (t ∷ ts) w = is_ok (run S t w).0 && all_ok ts (run S t w).1

  abbrev AllConnected : List Turn → World S.Text → Type 0
  AllConnected [] w = Unit {0}
  AllConnected (t ∷ ts) w = IsConnected t w × AllConnected ts (run S t w).1

  is_ok-ok : (r : Result (Unit {0})) → is_ok r ≡ true → r ≡ ok tt
  is_ok-ok (ok a) h = refl
  is_ok-ok (err e) h = cc

  -- Turns that end well one after the other can be taken.
  all_ok-Reach :
      (ts : List Turn) (start w : World S.Text)
      → Reach S IsConnected start w
      → all_ok ts w ≡ true
      → AllConnected ts w
      → Reach S IsConnected start (run_turns ts w)
  all_ok-Reach [] start w r good there = r
  all_ok-Reach (t ∷ ts) start w r good (there, later) = elim (Bool-cases (is_ok (run S t w).0)) [
    | inl e ↦
        all_ok-Reach ts start (run S t w).1 (next r (takes t w there (is_ok-ok (run S t w).0 e)))
          (ground (arith, e, good)) later
    | inr e ↦ absurd (ground (arith, e, good))
  ]

abbrev serializer : Serializer
serializer = json_serializer documents

-- The client sends a JOIN_GAME, and then a LEAVE_GAME.
abbrev bytes_of : ℕ → Document
bytes_of n =
    if ltb n 9
    then action_json documents (join_game "eve" easy)
    else action_json documents leave_game

abbrev system : System Document
system = record (system_of unix (returned 9) (returned 40) (returned 2) (bytes_of 0)) {
  bytes = bytes_of;
}

abbrev started : World Document
started = begin serializer system calm

abbrev client : ConnectedClient
client = record {
  client_socket = record {
    descriptor = 9;
    addr = record { sin_addr = 2130706433; sin_port = 50000 };
  };
  id = 0;
  has_been_disconnected = false;
}

abbrev lonely : List Turn
lonely = accepts ∷ serves client ∷ dispatches ∷ serves client ∷ []

-- The room is destroyed while its own handler of the LEAVE_GAME is still to be called.
lonely_course :
    (all_ok serializer lonely started ≡ true)
    × ((run serializer dispatches (run_turns serializer lonely started)).0
        ≡ err undefined_behaviour)
    × AllConnected serializer lonely started
unfolding handle_new_client_connection main new_program start start_listening init_network
    communicate deserialize_player_action_message player_action_message_type deserialize_as update
    at dispatch_messages dispatch_connectivity new_gameplay handle_player_connectivity_message
    dispatch_actions subscribe_to_player_action_messages deliver call_all call
    publish_gameplay_message add_player add_player_at remove_player remove_player_at
    get_available_assignment get_player_by_id has_player_with_id is_empty broadcast_gameplay_message
    default_config notify add_player_to_room add_room_with_player find_if handle_player_message
    remove_player_from_room serialize_gameplay_message
lonely_course = (refl, refl, (tt, (refl, (tt, (refl, tt)))))

-- The program comes to a dispatch whose behaviour is undefined.
leaves_alone_is_undefined :
    (w : World Document) × Reach serializer IsConnected started w
    × ((run serializer dispatches w).0 ≡ err undefined_behaviour)
leaves_alone_is_undefined = (
  run_turns serializer lonely started,
  all_ok-Reach serializer lonely started started here lonely_course.0 lonely_course.2,
  lonely_course.1,
)
