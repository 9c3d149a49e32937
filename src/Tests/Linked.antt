-- ===== src/Tests/Linked.antt =====
-- A mount of src/client/main.rs that is connected to a server, at concrete inputs, over the read-only
-- file system of `Tests/Stream`.
use mathlib.Core.List.{reverse, map}
use mathlib.Core.Path.{subst}
use azpfs.Base.{
  ℕ, ◌==◌, All-perm, ◌≡◌, refl, sym, true, false, Bytes, List, [], ◌∷◌, All, none, some, arith,
  take, drop, take-append-drop, append-nil, if◌then◌else◌,
}
use azpfs.Io.{Outcome, ok, OfValue}
use azpfs.Protocol.DirEntry.{IsValid}
use azpfs.Protocol.Message.{Message, request_id, init_res, set_request_id}
use azpfs.Protocol.Read.WellFormed.{IsWellFormed}
use azpfs.Protocol.Stream.{encode_all}
use azpfs.Fs.Attr.{after}
use azpfs.Client.Fuse.{FuseFilesystem, specific_time, now, new_filesystem, resolve_time}
use azpfs.Client.Fuse.Operations.{
  looks_up, gets_attr, sets_attr, lists, renames, writes, reads, flushes, Operation, serve_all,
}
use azpfs.Client.Connection.{ClientHandler, new_handler}
use azpfs.Client.Connection.About.{about, about-All}
use azpfs.Client.Connection.Routing.{new_handler-IsValid, replies_to}
use azpfs.Client.Connection.Handshake.{new}
use azpfs.Client.Program.{mounted}
use azpfs.Server.Handlers.{handle_msg}
use azpfs.Remote.Mounted.{remote_outcome, remote_operation, IsSendable, Shows}
use azpfs.Remote.Link.{Link, linked}
use azpfs.Remote.Link.Calls.{Brings, Bounded, IsFine}
use azpfs.Remote.Link.Shown.{server_of, serve_all-linked}
use azpfs.Remote.Started.{beside, mounted-serve_all}
use azpfs.Tests.Stream.{Fine, read_only, read_only-AnswersTyped, read_only-keeps}
use azpfs.Tests.Calls.{backwards, describe}
use azpfs.Tests.Fuse.{room_for}

read_only_names :
    (inode : ℕ) (s : Bytes) → Fine s → OfValue (All IsValid) (read_only.read_dir inode s).0
read_only_names inode s h = omega arith

abbrev bounded : Bounded read_only
bounded = record {
  IsBounded = Fine;
  typed = read_only-AnswersTyped;
  names = read_only_names;
  keeps = λ m s w h. subst Fine (sym (read_only-keeps m s)) h;
}

abbrev calls : List Operation
calls =
    looks_up 1 (b'a' ∷ [])
    ∷ sets_attr (after 7) (after 9) 2 none none none none (some now)
        (some (specific_time (after 1)))
    ∷ gets_attr 5
    ∷ lists (room_for 9) 1 0
    ∷ renames 1 (b'a' ∷ []) 1 (b'b' ∷ [])
    ∷ writes 2 0 (7 ∷ [])
    ∷ reads 2 0 9
    ∷ flushes
    ∷ []

calls-IsSendable : All IsSendable calls
unfolding resolve_time
calls-IsSendable = ground arith

-- A message about another id comes first, then the replies, the last one first; and the first two bytes
-- come on their own.
abbrev other_reply : ℕ → Message
other_reply id = init_res (if id == 0 then 1 else 0) true

abbrev sent_bytes : ℕ → List Message → Bytes
sent_bytes id ms = encode_all (other_reply id ∷ reverse ms) []

abbrev stream : ℕ → List Message → List Bytes
stream id ms = take 2 (sent_bytes id ms) ∷ drop 2 (sent_bytes id ms) ∷ []

other_reply-about : (id : ℕ) → (request_id (other_reply id) == id) ≡ false
unfolding request_id
other_reply-about id = ground arith

other_reply-IsWellFormed : (id : ℕ) → IsWellFormed (other_reply id)
unfolding request_id
other_reply-IsWellFormed id = ground arith

stream-Brings : Brings stream
unfolding about
stream-Brings id ms h formed =
    let turned = All-perm (λ m. request_id m ≡ id) (backwards ms) h in
    (
      other_reply id ∷ reverse ms,
      (other_reply-IsWellFormed id, All-perm IsWellFormed (backwards ms) formed),
      rw (append-nil (drop 2 (sent_bytes id ms))) (take-append-drop 2 (sent_bytes id ms)),
      rw (other_reply-about id, about-All id (reverse ms) turned) (backwards ms),
    )

abbrev link : FuseFilesystem (Link Bytes)
link =
    new_filesystem
      (record { handler = new_handler; server = 1 ∷ 2 ∷ []; unread = []; arrived = [] })

serve_all-linked_example :
    ((serve_all (linked read_only stream describe) calls link).0
      ≡ map remote_outcome
          (serve_all read_only (map remote_operation calls) (new_filesystem (1 ∷ 2 ∷ []))).0)
    × Shows
        (IsFine bounded stream stream-Brings)
        server_of
        (serve_all read_only (map remote_operation calls) (new_filesystem (1 ∷ 2 ∷ []))).1
        (serve_all (linked read_only stream describe) calls link).1
unfolding resolve_time
serve_all-linked_example =
    serve_all-linked bounded stream stream-Brings describe calls (new_filesystem (1 ∷ 2 ∷ [])) link
      calls-IsSendable (refl, refl, (new_handler-IsValid, refl, refl, omega arith))

abbrev made : Outcome (FuseFilesystem ClientHandler)
made = mounted (ok tt) (new (λ _. []) (λ _. []) (ok tt) (some (init_res 0 true) ∷ []))

mounted-serve_all_example :
    (t : FuseFilesystem ClientHandler) × (made ≡ ok t)
    × ((serve_all (linked read_only stream describe) calls (beside (1 ∷ 2 ∷ []) t)).0
        ≡ map remote_outcome
            (serve_all read_only (map remote_operation calls) (new_filesystem (1 ∷ 2 ∷ []))).0)
    × ((serve_all (linked read_only stream describe) calls (beside (1 ∷ 2 ∷ []) t)).1.backend.server
        ≡ (serve_all read_only
            (map remote_operation calls)
            (new_filesystem (1 ∷ 2 ∷ []))).1.backend)
unfolding resolve_time replies_to request_id handle_msg set_request_id
mounted-serve_all_example =
    mounted-serve_all (λ _. []) (λ _. []) bounded stream describe (1 ∷ 2 ∷ [])
      (some (init_res 0 true) ∷ []) (init_res 0 true) [] calls stream-Brings (omega arith) refl refl
      calls-IsSendable
