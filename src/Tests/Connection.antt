-- ===== src/Tests/Connection.antt =====
-- Theorems on a connection of src/core/fs/handler.rs at concrete inputs.
use azpfs.Base.{false, ◌≡◌, refl, List, [], ◌∷◌, none, some, Option}
use azpfs.Io.{ok}
use azpfs.Protocol.Message.{Message, success_res, get_attr_req, rm_req, request_id, lookup_res}
use azpfs.Client.Connection.{ClientHandler, new_handler, send_msg, receive_loop, listener_of}
use azpfs.Client.Connection.Routing.{
  IsValid, new_handler-IsValid, replies_to, send_msg-IsValid, receive_loop-queue,
  send_msg-listener_of,
}
use azpfs.Remote.Connected.{NeverEnds, connection_ends}

-- A handler after one request, which has id 0.
abbrev waiting : ClientHandler
waiting = (send_msg (ok tt) (get_attr_req 0 5) new_handler).1

waiting-IsValid : IsValid waiting
waiting-IsValid = send_msg-IsValid (ok tt) (get_attr_req 0 5) new_handler new_handler-IsValid

abbrev stream : List (Option Message)
stream =
    some (success_res 1)
    ∷ none
    ∷ some (success_res 0)
    ∷ some (success_res 2)
    ∷ some (lookup_res 0 4)
    ∷ []

receive_loop-queue_example :
    ((receive_loop stream waiting).channels 0).queue ≡ success_res 0 ∷ lookup_res 0 4 ∷ []
unfolding replies_to request_id send_msg
receive_loop-queue_example = receive_loop-queue stream waiting 0 0 waiting-IsValid refl refl

send_msg-listener_of_example :
    listener_of 1 (receive_loop stream (send_msg (ok tt) (rm_req 0 4) waiting).1)
    ≡ record { messages = success_res 1 ∷ []; closes = false }
unfolding replies_to request_id send_msg
send_msg-listener_of_example = send_msg-listener_of (rm_req 0 4) waiting stream waiting-IsValid

connection_ends_example : NeverEnds (
    listener_of 0
      (receive_loop (some (success_res 3) ∷ []) (send_msg (ok tt) (rm_req 0 4) new_handler).1))
unfolding replies_to request_id send_msg
connection_ends_example =
    connection_ends (rm_req 0 4) new_handler (some (success_res 3) ∷ []) new_handler-IsValid refl
