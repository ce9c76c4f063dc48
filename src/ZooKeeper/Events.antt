-- ===== src/ZooKeeper/Events.antt =====
-- ZooKeeper::getEventTypeStr and getSessionStateStr: what the log says of an event.
use bookie_cpp.Prelude.{ℕ, ◌==◌, if◌then◌else◌}
use bookie_cpp.ZooKeeper.Errors.{Part, text, number, minus}

-- The type of an event and the state of a session are ints.
unfoldable pub get_event_type_str : ℕ → Part
get_event_type_str type =
    if type == minus 1
    then text "None"
    else if type == 1
    then text "NodeCreated"
    else if type == 2
    then text "NodeDeleted"
    else if type == 3
    then text "NodeDataChanged"
    else if type == 4
    then text "NodeChildrenChanged"
    else number type

unfoldable pub get_session_state_str : ℕ → Part
get_session_state_str state =
    if state == 0
    then text "Disconnected"
    else if state == 1
    then text "NoSyncConnected"
    else if state == 3
    then text "Connected"
    else if state == 5
    then text "ConnectedReadOnly"
    else if state == 6
    then text "SaslAuthenticated"
    else if state == minus 112
    then text "Expired"
    else number state
