-- ===== src/Serializer/Examples.antt =====
-- Runs of the serializer over documents, and the theorems at concrete messages.
use samurai_kirby_server.Prelude.{some, none, pos, true, ◌≡◌, ◌↔◌, refl, arith, to_int-pos}
use samurai_kirby_server.Player.{p1, p2, east, south, PlayerGameResultDto}
use samurai_kirby_server.Messages.{
  GameplayMessage, game_over_win, PlayerActionMessage, player_action_message_type, player_input,
}
use samurai_kirby_server.Json.Documents.{
  Document, number, object, member, nil, documents, documents-IsLawful,
}
use samurai_kirby_server.Serializer.{
  done, json_exception, not_handled, serialize_gameplay_message, message_json,
  deserialize_player_action_message, deserialize_as,
}
use samurai_kirby_server.Serializer.Contract.{
  IsWireAction, IsWireInput, IsWireMessage, IsWireResult, IsWirePlayer, action_json,
  read_gameplay_message,
}
use samurai_kirby_server.Serializer.Actions.{
  type_of, is_past, deserialize-action_json, deserialize-Classifies,
}
use samurai_kirby_server.Serializer.Announcements.{serialize-Reads}

abbrev winner : PlayerGameResultDto
winner = record { assignment = p1; input_pressed = some south; time_to_press = some (pos 412) }

abbrev loser : PlayerGameResultDto
loser = record { assignment = p2; input_pressed = none; time_to_press = none }

abbrev won : GameplayMessage
won = game_over_win (record { winning_player = some p1; player1 = winner; player2 = loser })

abbrev pressed : PlayerActionMessage
pressed = player_input east (pos 200)

won-IsWireMessage : IsWireMessage won
unfolding IsWireMessage IsWireResult IsWirePlayer IsWireInput
won-IsWireMessage = (
  ((λ i h. ground arith), (λ z h. ground (arith, to_int-pos 412 (ground arith)))),
  ((λ i h. ground arith), (λ z h. ground arith)),
)

pressed-IsWireAction : IsWireAction pressed
unfolding IsWireAction IsWireInput
pressed-IsWireAction = (tt, to_int-pos 200 (ground arith))

-- A type that no class has, a type that is missing, and a member that is missing.
abbrev unknown_type : Document
unknown_type = object (member "messageType" (number (pos 6)) nil)

unknown_type_run : deserialize_player_action_message documents unknown_type ≡ not_handled
unfolding deserialize_player_action_message deserialize_as
unknown_type_run = refl

missing_type_run : deserialize_player_action_message documents (object nil) ≡ json_exception
unfolding deserialize_player_action_message
missing_type_run = refl

missing_member_run :
    deserialize_player_action_message documents (object (member "messageType" (number (pos 0)) nil))
    ≡ json_exception
unfolding deserialize_player_action_message deserialize_as
missing_member_run = refl

serialize-Reads_example :
    (serialize_gameplay_message documents won ≡ done (message_json documents won))
    × (read_gameplay_message documents (message_json documents won) ≡ some won)
serialize-Reads_example =
    serialize-Reads documents documents-IsLawful won (message_json documents won) won-IsWireMessage
      refl

deserialize-action_json_example :
    deserialize_player_action_message documents (action_json documents pressed) ≡ done pressed
deserialize-action_json_example =
    deserialize-action_json documents documents-IsLawful pressed (action_json documents pressed)
      pressed-IsWireAction refl

deserialize-Classifies_example :
    (type_of documents unknown_type ≡ none
      → deserialize_player_action_message documents unknown_type ≡ json_exception)
    × ((deserialize_player_action_message documents unknown_type ≡ not_handled)
        ↔ (is_past (type_of documents unknown_type) ≡ true))
    × ((m : PlayerActionMessage)
        → deserialize_player_action_message documents unknown_type ≡ done m
        → type_of documents unknown_type ≡ some (player_action_message_type m))
deserialize-Classifies_example = deserialize-Classifies documents unknown_type
