-- ===== src/ZooKeeper/Errors.antt =====
-- The error codes of ZooKeeper.h and ZooKeeperException. A code is the bit pattern of its int.
use Prim.Native.String.{String}
use bookie_cpp.Prelude.{ℕ, ◌-◌, ◌^◌, List, [], ◌∷◌, ◌++◌, ◌==◌, if◌then◌else◌}

pub data ZooKeeperError : Type 0 where
  ok system_error runtime_inconsistency data_inconsistency connection_loss : ZooKeeperError
  marshalling_error unimplemented operation_timeout bad_arguments invalid_state : ZooKeeperError
  api_error no_node no_auth bad_version no_children_for_ephemerals node_exists : ZooKeeperError
  not_empty session_expired invalid_callback invalid_acl auth_failed closing : ZooKeeperError
  nothing session_moved : ZooKeeperError
  other : ℕ → ZooKeeperError

-- The bit pattern of `- n`.
abbrev pub minus : ℕ → ℕ
minus n = 2 ^ 32 - n

unfoldable pub error_code : ZooKeeperError → ℕ
error_code ok = 0
error_code system_error = minus 1
error_code runtime_inconsistency = minus 2
error_code data_inconsistency = minus 3
error_code connection_loss = minus 4
error_code marshalling_error = minus 5
error_code unimplemented = minus 6
error_code operation_timeout = minus 7
error_code bad_arguments = minus 8
error_code invalid_state = minus 9
error_code api_error = minus 100
error_code no_node = minus 101
error_code no_auth = minus 102
error_code bad_version = minus 103
error_code no_children_for_ephemerals = minus 108
error_code node_exists = minus 110
error_code not_empty = minus 111
error_code session_expired = minus 112
error_code invalid_callback = minus 113
error_code invalid_acl = minus 114
error_code auth_failed = minus 115
error_code closing = minus 116
error_code nothing = minus 117
error_code session_moved = minus 118
error_code (other n) = n

-- The named errors. `static_cast` of an int is the one with its code, or a value without a name.
abbrev named : List ZooKeeperError
named =
    ok ∷ system_error ∷ runtime_inconsistency ∷ data_inconsistency ∷ connection_loss
    ∷ marshalling_error ∷ unimplemented ∷ operation_timeout ∷ bad_arguments ∷ invalid_state
    ∷ api_error ∷ no_node ∷ no_auth ∷ bad_version ∷ no_children_for_ephemerals ∷ node_exists
    ∷ not_empty ∷ session_expired ∷ invalid_callback ∷ invalid_acl ∷ auth_failed ∷ closing ∷ nothing
    ∷ session_moved ∷ []

find_code : ℕ → List ZooKeeperError → ZooKeeperError
unfolding error_code
find_code rc [] = other rc
find_code rc (e ∷ es) = if error_code e == rc then e else find_code rc es

unfoldable pub get_error : ℕ → ZooKeeperError
unfolding find_code
get_error rc = find_code rc named

-- A message, or part of one: a text, or the number of an error.
pub data Part : Type 0 where
  text : String → Part
  number : ℕ → Part

unfoldable pub get_error_msg : ZooKeeperError → List Part
get_error_msg ok = text "OK" ∷ []
get_error_msg system_error = text "System Error" ∷ []
get_error_msg runtime_inconsistency = text "Runtime inconsistency" ∷ []
get_error_msg data_inconsistency = text "Data inconsistency" ∷ []
get_error_msg connection_loss = text "Connection loss" ∷ []
get_error_msg marshalling_error = text "Marshalling error" ∷ []
get_error_msg unimplemented = text "Unimplemented" ∷ []
get_error_msg operation_timeout = text "Operation timeout" ∷ []
get_error_msg bad_arguments = text "Bad arguments" ∷ []
get_error_msg invalid_state = text "Invalid state" ∷ []
get_error_msg api_error = text "API error" ∷ []
get_error_msg no_node = text "No node" ∷ []
get_error_msg no_auth = text "No Auth" ∷ []
get_error_msg bad_version = text "Bad Version" ∷ []
get_error_msg no_children_for_ephemerals = text "No children for ephemerals" ∷ []
get_error_msg node_exists = text "Node exists" ∷ []
get_error_msg not_empty = text "Not empty" ∷ []
get_error_msg session_expired = text "Session expired" ∷ []
get_error_msg invalid_callback = text "Invalid callback" ∷ []
get_error_msg invalid_acl = text "Invalid ACL" ∷ []
get_error_msg auth_failed = text "Auth failed" ∷ []
get_error_msg closing = text "Closing" ∷ []
get_error_msg nothing = text "Nothing" ∷ []
get_error_msg session_moved = text "Session moved" ∷ []
get_error_msg (other n) = text "Unknown error (" ∷ number n ∷ text ")" ∷ []

pub record ZooKeeperException : Type 0 where
  pub error : ZooKeeperError
  pub what : List Part

-- The two constructors.
unfoldable pub exception_of : ℕ → ZooKeeperException
unfolding get_error get_error_msg
exception_of rc = record { error = get_error rc; what = get_error_msg (get_error rc) }

unfoldable pub exception_with : ℕ → List Part → ZooKeeperException
unfolding get_error get_error_msg
exception_with rc msg = record {
  error = get_error rc;
  what = msg ++ (text " - " ∷ get_error_msg (get_error rc));
}
