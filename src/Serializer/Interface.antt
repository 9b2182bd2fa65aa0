-- ===== src/Serializer/Interface.antt =====
-- The class Serializer of network/serializer/Serializer.h, as the network thread sees it: `Text` is
-- std::string. Over a JSON library it is the serializer of this component.
use samurai_kirby_server.Messages.{GameplayMessage, PlayerActionMessage}
use samurai_kirby_server.Json.{JsonLibrary}
use samurai_kirby_server.Serializer.{
  Outcome, serialize_gameplay_message, deserialize_player_action_message,
}

pub record Serializer : Type 1 where
  pub Text : Type 0
  pub serialize : GameplayMessage → Outcome Text
  pub deserialize : Text → Outcome PlayerActionMessage

abbrev pub json_serializer : JsonLibrary → Serializer
json_serializer L = record {
  Text = L.Text;
  serialize = serialize_gameplay_message L;
  deserialize = deserialize_player_action_message L;
}
