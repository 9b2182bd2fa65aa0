-- ===== src/Serializer/Contract.antt =====
-- The client's side of the communication contract of README.md: the documents that it sends, and how
-- it reads those that it gets. tests/serializer has one of each.
use samurai_kirby_server.Prelude.{
  ℕ, String, Option, none, some, ℤ, pos, to_int, int_modulus, List, [], ◌∷◌, ◌==◌, ◌≡◌, ◌<◌, arith,
  if◌then◌else◌,
}
use samurai_kirby_server.Player.{
  PlayerAssignment, p1, p2, GameplayInput, north, west, east, south, input_of, difficulty_of,
  GameDifficulty, input_value, difficulty_value, PlayerLobbyDto, PlayerGameResultDto,
}
use samurai_kirby_server.Messages.{
  GameResultDto, GameplayMessage, room_joined, player_joined_room, player_left_room,
  player_ready_state_changed, all_ready_game_starting, game_expecting_input, game_over_early_input,
  game_over_wrong_input, game_over_win, game_over_draw, player_replay_ready_state_changed,
  all_replay_ready_game_starting, PlayerActionMessage, player_action_message_type, join_game,
  set_ready_state, notify_can_play, player_input, set_replay_ready_state, leave_game,
}
use samurai_kirby_server.Json.{JsonLibrary}
use samurai_kirby_server.Serializer.{◌>>=◌}

-- An enumerator, or another number of the enumeration's 32 bits.
unfoldable pub IsWireInput : GameplayInput → Type 0
IsWireInput (input_of n) = (3 < n) × (n < int_modulus)
IsWireInput _ = Unit {0}

unfoldable pub IsWireDifficulty : GameDifficulty → Type 0
IsWireDifficulty (difficulty_of n) = (2 < n) × (n < int_modulus)
IsWireDifficulty _ = Unit {0}

-- The numbers of an action's or a message's enumerations fit in 32 bits.
pub input_value-bound : (i : GameplayInput) → IsWireInput i → input_value i < int_modulus
unfolding IsWireInput
input_value-bound i wire = ground arith

pub difficulty_value-bound :
    (d : GameDifficulty) → IsWireDifficulty d → difficulty_value d < int_modulus
unfolding IsWireDifficulty
difficulty_value-bound d wire = ground arith

-- The enumerators, by their numbers.
abbrev pub read_enumerator : ℕ → GameplayInput
read_enumerator n =
    if n == 0
    then north
    else if n == 1
    then west
    else if n == 2
    then east
    else if n == 3
    then south
    else input_of n

pub read_enumerator-value :
    (i : GameplayInput) → IsWireInput i → read_enumerator (input_value i) ≡ i
unfolding IsWireInput
read_enumerator-value i wire = ground arith

-- What C++ can hold of an action: enumerations and an int.
unfoldable pub IsWireAction : PlayerActionMessage → Type 0
IsWireAction (join_game _ difficulty) = IsWireDifficulty difficulty
IsWireAction (player_input input time) = IsWireInput input × (to_int time ≡ time)
IsWireAction _ = Unit {0}

unfoldable pub IsWirePlayer : PlayerGameResultDto → Type 0
IsWirePlayer p =
    ((i : GameplayInput) → p.input_pressed ≡ some i → IsWireInput i)
    × ((z : ℤ) → p.time_to_press ≡ some z → to_int z ≡ z)

unfoldable pub IsWireResult : GameResultDto → Type 0
IsWireResult r = IsWirePlayer r.player1 × IsWirePlayer r.player2

unfoldable pub IsWireMessage : GameplayMessage → Type 0
IsWireMessage (game_expecting_input input) = IsWireInput input
IsWireMessage (game_over_early_input result) = IsWireResult result
IsWireMessage (game_over_wrong_input result) = IsWireResult result
IsWireMessage (game_over_win result) = IsWireResult result
IsWireMessage (game_over_draw result) = IsWireResult result
IsWireMessage _ = Unit {0}

abbrev to_assignment : ℕ → Option PlayerAssignment
to_assignment n = if n == 0 then some p1 else if n == 1 then some p2 else none

module _ (L : JsonLibrary) where
  -- The document of an action: its type, and the members of its class.
  abbrev pub action_members : PlayerActionMessage → List (String × L.Json)
  action_members (join_game nickname difficulty) =
      ("nickname", L.text nickname)
      ∷ ("difficulty", L.number (pos (difficulty_value difficulty)))
      ∷ []
  action_members (set_ready_state is_ready) = ("isReady", L.boolean is_ready) ∷ []
  action_members notify_can_play = []
  action_members (player_input input time_to_press) =
      ("inputPressed", L.number (pos (input_value input)))
      ∷ ("timeToPress", L.number time_to_press)
      ∷ []
  action_members (set_replay_ready_state is_ready_to_replay) =
      ("isReadyToReplay", L.boolean is_ready_to_replay) ∷ []
  action_members leave_game = []

  abbrev pub typed : ℕ → List (String × L.Json) → L.Json
  typed n ms = L.object (("messageType", L.number (pos n)) ∷ ms)

  abbrev pub action_json : PlayerActionMessage → L.Json
  action_json m = typed (player_action_message_type m) (action_members m)

  -- Readers of the values of the documents that come from the server.
  unfoldable pub read_assignment : L.Json → Option PlayerAssignment
  read_assignment j = L.get_enum j >>= to_assignment

  unfoldable pub read_input : L.Json → Option GameplayInput
  read_input j = do i ← L.get_enum j; some (read_enumerator i)

  unfoldable pub read_optional : {A : Type 0} → (L.Json → Option A) → L.Json → Option (Option A)
  read_optional read j = if L.is_null j then some none else (do a ← read j; some (some a))

  unfoldable pub member_of : {A : Type 0} → (L.Json → Option A) → String → L.Json → Option A
  member_of read k j = L.at k j >>= read

  unfoldable pub read_lobby : L.Json → Option PlayerLobbyDto
  read_lobby j = do
    nickname ← member_of L.get_text "nickname" j
    assignment ← member_of read_assignment "assignment" j
    is_ready ← member_of L.get_boolean "isReady" j
    some (record { nickname = nickname; assignment = assignment; is_ready = is_ready })

  unfoldable pub read_player_result : L.Json → Option PlayerGameResultDto
  read_player_result j = do
    assignment ← member_of read_assignment "assignment" j
    input_pressed ← member_of (read_optional read_input) "inputPressed" j
    time_to_press ← member_of (read_optional L.get_int) "timeToPress" j
    some (record {
      assignment = assignment;
      input_pressed = input_pressed;
      time_to_press = time_to_press;
    })

  unfoldable pub read_result : L.Json → Option GameResultDto
  read_result j = do
    winning_player ← member_of (read_optional read_assignment) "winningPlayer" j
    player1 ← member_of read_player_result "player1" j
    player2 ← member_of read_player_result "player2" j
    some (record { winning_player = winning_player; player1 = player1; player2 = player2 })

  -- `make` of the member that `read` reads.
  abbrev pub one :
      {A : Type 0}
      → (A → GameplayMessage)
      → (L.Json → Option A)
      → String
      → L.Json
      → Option GameplayMessage
  one make read k j = do a ← member_of read k j; some (make a)

  -- `make` of a slot and of a member that `read` reads.
  abbrev pub of_player :
      {A : Type 0}
      → (PlayerAssignment → A → GameplayMessage)
      → (L.Json → Option A)
      → String
      → L.Json
      → Option GameplayMessage
  of_player make read k j = do
    assignment ← member_of read_assignment "playerAssignment" j
    a ← member_of read k j
    some (make assignment a)

  unfoldable pub read_as : ℕ → L.Json → Option GameplayMessage
  read_as n j =
      if n == 0
      then of_player room_joined (read_optional read_lobby) "otherPlayer" j
      else if n == 1
      then one player_joined_room read_lobby "player" j
      else if n == 2
      then one player_left_room read_assignment "playerAssignment" j
      else if n == 3
      then of_player player_ready_state_changed L.get_boolean "isReady" j
      else if n == 4
      then some all_ready_game_starting
      else if n == 5
      then one game_expecting_input read_input "expectedInput" j
      else if n == 6
      then one game_over_early_input read_result "gameResult" j
      else if n == 7
      then one game_over_wrong_input read_result "gameResult" j
      else if n == 8
      then one game_over_win read_result "gameResult" j
      else if n == 9
      then one game_over_draw read_result "gameResult" j
      else if n == 10
      then of_player player_replay_ready_state_changed L.get_boolean "isReadyToReplay" j
      else if n == 11
      then some all_replay_ready_game_starting
      else none

  -- How the client reads the text of a gameplay message.
  unfoldable pub read_gameplay_message : L.Text → Option GameplayMessage
  read_gameplay_message t = do j ← L.parse t; n ← member_of L.get_enum "messageType" j; read_as n j
