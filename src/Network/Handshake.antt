-- ===== src/Network/Handshake.antt =====
-- `ready` of src/network/handshake.cpp and the handlers that it binds, which share a counter.
pub mod Completions
use libbitcoin.Prelude.{ℕ, suc, ◌+◌, List, [], ◌∷◌, ◌++◌, ◌==◌, if◌then◌else◌, Option, none, some}
use libbitcoin.Validate.{ErrorCode}

abbrev pub clearance_count : ℕ
clearance_count = 3

-- The counter, the calls of completion_callback so far, and the veracks sent.
pub record Handshake : Type 0 where
  pub counter : ℕ
  pub completions : List (Option ErrorCode)
  pub veracks : ℕ

-- handle_message_sent, which is bound to the version and to the verack that are sent, receive_version
-- and receive_verack.
pub data Event : Type 0 where
  message_sent version_received verack_received : Option ErrorCode → Event

abbrev pub ready : Handshake
ready = record { counter = 0; completions = []; veracks = 0 }

unfoldable pub complete : Handshake → Option ErrorCode → Handshake
complete shake ec = record shake { completions = shake.completions ++ ec ∷ [] }

-- `else if (++(*counter) == clearance_count)`.
unfoldable pub count_up : Handshake → Handshake
unfolding complete
count_up shake =
    let counted = record shake { counter = shake.counter + 1 } in
    if counted.counter == clearance_count then complete counted none else counted

unfoldable pub handle_message_sent : Handshake → Option ErrorCode → Handshake
unfolding complete count_up
handle_message_sent shake (some ec) = complete shake (some ec)
handle_message_sent shake none = count_up shake

unfoldable pub receive_version : Handshake → Option ErrorCode → Handshake
unfolding complete
receive_version shake (some ec) = complete shake (some ec)
receive_version shake none = record shake { veracks = shake.veracks + 1 }

unfoldable pub receive_verack : Handshake → Option ErrorCode → Handshake
unfolding complete count_up
receive_verack shake (some ec) = complete shake (some ec)
receive_verack shake none = count_up shake

unfoldable pub handle : Handshake → Event → Handshake
unfolding handle_message_sent receive_version receive_verack
handle shake (message_sent ec) = handle_message_sent shake ec
handle shake (version_received ec) = receive_version shake ec
handle shake (verack_received ec) = receive_verack shake ec

unfoldable pub handle_all : Handshake → List Event → Handshake
unfolding handle
handle_all shake [] = shake
handle_all shake (event ∷ events) = handle_all (handle shake event) events
