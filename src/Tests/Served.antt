-- ===== src/Tests/Served.antt =====
-- The call of client 1 in the run of `Tests/Clients`, and what it gets.
use azpfs.Base.{ℕ, ◌≡◌, refl, List, [], ◌∷◌, ◌++◌, some, arith}
use azpfs.Io.{ok}
use azpfs.Protocol.Message.{Message, request_id, set_request_id, read_res}
use azpfs.Server.Session.Effects.{messages}
use azpfs.Server.Clients.{seen_by, replaced, begun, put}
use azpfs.Server.Clients.Serial.{state_after}
use azpfs.Client.Calls.{read_call}
use azpfs.Client.Connection.{ClientHandler, new_handler, send_msg, receive_loop, listener_of}
use azpfs.Client.Connection.Routing.{IsValid, new_handler-IsValid, replies_to}
use azpfs.Client.Connection.About.{about}
use azpfs.Remote.{perform}
use azpfs.Remote.Link.Calls.{Rearranges}
use azpfs.Remote.Served.{call_served}
use azpfs.Tests.Backend.{memory}
use azpfs.Tests.Clients.{inputs, content, run, handled, reading}

-- The handler after one request.
abbrev handler : ClientHandler
handler = record new_handler { next_id = 1 }

handler-IsValid : IsValid handler
handler-IsValid = record {
  next_id-IsU32 = omega arith;
  is_opened = new_handler-IsValid.is_opened;
  has_sender = new_handler-IsValid.has_sender;
  is_one_id = new_handler-IsValid.is_one_id;
}

call_served_example :
    (later earlier : List (ℕ × Message)) × (handled ≡ later ++ ((1, reading) ∷ earlier))
    × (order : List Message → List Message) × Rearranges order
    × ((read_call 2 0 2).reply (
          listener_of 0 (
            receive_loop
              (some (read_res 1 1 0 (8 ∷ [])) ∷ [])
              (send_msg (ok tt) (read_call 2 0 2).request handler).1))
        ≡ (perform memory order 1 (read_call 2 0 2) (state_after memory earlier content)).0)
unfolding run seen_by replaced begun put messages read_call set_request_id replies_to about
    request_id
call_served_example =
    call_served memory inputs content run.0 1 (read_call 2 0 2) handler
      (some (read_res 1 1 0 (8 ∷ [])) ∷ []) [] [] run.1 (refl, refl, refl, refl, refl) refl refl tt
      handler-IsValid refl
