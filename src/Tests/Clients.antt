-- ===== src/Tests/Clients.antt =====
-- Two clients of one server: client 0 writes to the file that client 1 reads.
use azpfs.Base.{
  ℕ, ◌==◌, ◌≡◌, ◌⊎◌, refl, Bytes, List, [], ◌∷◌, ◌++◌, some, Option, arith, Permᴰ, if◌then◌else◌,
}
use azpfs.Protocol.Message.{Message, read_req, read_res, write_req, success_res}
use azpfs.Server.Handlers.{handle_msg, reply_with}
use azpfs.Server.Chunks.{assemble_read_res_chunks}
use azpfs.Server.Session.{
  sending, receive, begin_locked, send, unlock, write, takes_lock, lock_after, spawned,
}
use azpfs.Server.Clients.{
  Server, seen_by, replaced, begun, put, session_of, start_server, ServerReach, ServerStep, start,
  next, steps,
}
use azpfs.Server.Session.Effects.{messages, requests_of, replies_of}
use azpfs.Server.Clients.Serial.{own_requests, state_after, own_replies}
use azpfs.Server.Clients.Runs.{IsDone, client_served, run-IsSerial, server_goes_on}
use azpfs.Server.Clients.Exclusion.{OthersRun, nothing, another, lock_excludes_others}
use azpfs.Server.Clients.Completion.{Completes, server-Completes}
use azpfs.Tests.Backend.{memory}

abbrev pub writing : Message
writing = write_req 4 2 0 (8 ∷ [])

abbrev pub reading : Message
reading = read_req 1 2 0 2

abbrev pub inputs : ℕ → List (Option Message)
inputs i = if i == 0 then some writing ∷ [] else if i == 1 then some reading ∷ [] else []

abbrev pub content : Bytes
content = 5 ∷ 6 ∷ 7 ∷ []

unfoldable pub run : (t : Server Bytes) × ServerReach memory inputs content t
unfolding handle_msg reply_with assemble_read_res_chunks takes_lock lock_after spawned seen_by
    replaced begun put
run = (
  _,
  next
      (next
        (next
          (next
            (next
              (next (next (next start (steps 0 (receive refl))) (steps 1 (receive refl)))
                (steps 0 (begin_locked [] writing [] refl refl refl)))
              (steps 0 (send [] (success_res 4) [] refl (omega arith))))
            (steps 0 (unlock refl)))
          (steps 1 (begin_locked [] reading [] refl refl refl)))
        (steps 1 (send [] (read_res 1 1 0 (8 ∷ [])) [] refl (omega arith))))
      (steps 1 (write refl refl)),
)

abbrev pub handled : List (ℕ × Message)
handled = (1, reading) ∷ (0, writing) ∷ []

client_served_example :
    ((8 ∷ []) ≡ state_after memory handled content)
    × Permᴰ (messages (inputs 1)) (own_requests 1 handled)
    × Permᴰ (own_replies memory 1 handled content) (read_res 1 1 0 (8 ∷ []) ∷ [])
unfolding run seen_by replaced begun put
client_served_example =
    client_served memory inputs content run.0 1 run.1 (refl, refl, refl, refl, refl)

-- A task of client 0 has the lock, and client 1 waits for it.
abbrev waits : Server Bytes
waits = record (start_server inputs content) { lock = sending (success_res 4 ∷ []) }

server_goes_on_example :
    IsDone (session_of 1 waits) ⊎ ((u : Server Bytes) × ServerStep memory waits u)
server_goes_on_example = server_goes_on memory waits 1 (λ e. cc) refl refl

-- Client 1 receives its message meanwhile.
abbrev went_on : (u : Server Bytes) × OthersRun memory 0 waits u
unfolding seen_by replaced begun put spawned
went_on = (_, another nothing 1 refl (receive refl))

lock_excludes_others_example :
    (went_on.0.fs ≡ content)
    × (went_on.0.lock ≡ sending (success_res 4 ∷ []))
    × (went_on.0.holder ≡ 0)
lock_excludes_others_example = lock_excludes_others memory waits went_on.0 (λ e. cc) went_on.1

server-Completes_example : Completes memory 2 inputs content (start_server inputs content)
server-Completes_example = server-Completes memory 2 inputs content (omega arith)

run-IsSerial_example :
    ((8 ∷ []) ≡ state_after memory handled content)
    × ((i : ℕ)
        → Permᴰ (messages (inputs i)) (own_requests i handled ++ requests_of (session_of i run.0))
          × Permᴰ (own_replies memory i handled content) (replies_of (session_of i run.0)))
unfolding run seen_by replaced begun put
run-IsSerial_example = run-IsSerial memory inputs content run.0 run.1
