-- ===== src/Tests/Stream.antt =====
-- The bytes of the server's replies, over a read-only file system of one file whose content is the
-- state.
use azpfs.Base.{
  ℕ, to_be, ◌≡◌, refl, sym, true, Bytes, [], ◌∷◌, ◌++◌, some, All, IsByte, All-append_left,
  All-append_right, take, drop, take-append-drop, length, length-take, length-drop, arith, ◌<◌, ◌^◌,
  List, Bool-cases, inl, inr, Option, if◌then◌else◌, ◌==◌,
}
use mathlib.Core.Path.{subst}
use azpfs.Io.{err, OfValue}
use azpfs.Protocol.Message.{AllSome, Message, read_req, request_id, read_res}
use azpfs.Protocol.Codes.{is_utf8}
use azpfs.Protocol.DirEntry.{serialize_dir_entires, write_entry}
use azpfs.Protocol.Read.WellFormed.{IsWellFormed}
use azpfs.Protocol.Stream.{encode_all, Decodes}
use azpfs.Fs.Backend.{FsBackend}
use azpfs.Server.Handlers.{handle_msg}
use azpfs.Server.Handlers.Sendable.{handle_msg-IsWellFormed}
use azpfs.Server.Handlers.Typed.{IsTypedError, IsPayload, AnswersTyped}
use azpfs.Server.Chunks.{assemble_read_res_chunks}
use azpfs.Server.Handlers.{reply_with}
use azpfs.Server.Session.{receive, begin_locked, send, write, takes_lock, lock_after, spawned}
use azpfs.Server.Clients.{Server, seen_by, replaced, begun, put, ServerReach, start, next, steps}
use azpfs.Server.Clients.Wire.{written-Decodes}
use azpfs.Tests.Backend.{memory, missing, denied}

abbrev pub Fine : Bytes → Type 0
Fine s = All IsByte s × (length s < 2 ^ 62)

missing-IsTyped : is_utf8 missing.text ≡ true
unfolding is_utf8
missing-IsTyped = refl

part_payload : (offset len : ℕ) (s : Bytes) → Fine s → IsPayload (take len (drop offset s))
part_payload offset len s h =
    let behind =
      All-append_right IsByte (take offset s) (drop offset s)
        (subst (All IsByte) (sym (take-append-drop offset s)) h.0) in
    let front =
      All-append_left IsByte (take len (drop offset s)) (drop len (drop offset s))
        (subst (All IsByte) (sym (take-append-drop len (drop offset s))) behind) in
    (front, omega (arith, length-take len (drop offset s), length-drop offset s, h.1))

abbrev pub read_only : FsBackend
read_only = record memory {
  set_attr = λ inode size at mt p u g s. (err denied, s);
  create_file = λ dir p f name s. (err denied, s);
  write = λ inode offset content s. (err denied, s);
  remove = λ inode s. (err denied, s);
}

denied-IsTyped : IsTypedError denied
unfolding is_utf8
denied-IsTyped = (omega arith, refl, omega arith)

pub read_only-AnswersTyped : (s : Bytes) → Fine s → AnswersTyped read_only s
unfolding is_utf8 serialize_dir_entires write_entry to_be
read_only-AnswersTyped s h = record {
  lookup = λ dir name. ground arith;
  get_attr = λ inode. ground arith;
  set_attr = λ inode size at mt p u g. denied-IsTyped;
  stats = (tt, refl, omega arith);
  create_file = λ dir p f name. denied-IsTyped;
  create_dir = λ dir p name. (tt, refl, omega arith);
  read = λ inode offset len. part_payload offset len s h;
  write = λ inode offset content. denied-IsTyped;
  read_dir = λ inode. (omega arith, omega arith);
  remove = λ inode. denied-IsTyped;
  rename = λ inode dir name. denied-IsTyped;
}

pub read_only-keeps : (m : Message) (s : Bytes) → (handle_msg read_only m s).1 ≡ s
unfolding handle_msg
read_only-keeps m s = ground arith

handle_msg-IsWellFormed_example :
    OfValue (All IsWellFormed) (handle_msg read_only (read_req 9 2 1 3) (5 ∷ 6 ∷ 7 ∷ [])).0
handle_msg-IsWellFormed_example =
    handle_msg-IsWellFormed read_only (5 ∷ 6 ∷ 7 ∷ [])
      (read_only-AnswersTyped (5 ∷ 6 ∷ 7 ∷ []) (omega arith)) (read_req 9 2 1 3)
      (unfold request_id in omega arith)

abbrev reading : Message
reading = read_req 1 2 0 2

abbrev inputs : ℕ → List (Option Message)
inputs i = if i == 1 then some reading ∷ [] else []

inputs-IsWellFormed : (j : ℕ) → All (AllSome IsWellFormed) (inputs j)
inputs-IsWellFormed j = elim (Bool-cases (j == 1)) [ inl e ↦ rw e (omega arith) | inr e ↦ rw e tt ]

-- A READ_REQ of client 1 and its reply.
abbrev run : (t : Server Bytes) × ServerReach read_only inputs (5 ∷ 6 ∷ 7 ∷ []) t
unfolding handle_msg reply_with assemble_read_res_chunks takes_lock lock_after spawned seen_by
    replaced begun put
run = (
  _,
  next
      (next
        (next (next start (steps 1 (receive refl)))
          (steps 1 (begin_locked [] reading [] refl refl refl)))
        (steps 1 (send [] (read_res 1 2 0 (5 ∷ 6 ∷ [])) [] refl (omega arith))))
      (steps 1 (write refl refl)),
)

written-Decodes_example :
    Decodes
      (encode_all (read_res 1 2 0 (5 ∷ 6 ∷ []) ∷ []) [] ++ (0 ∷ []))
      (read_res 1 2 0 (5 ∷ 6 ∷ []) ∷ [])
      (0 ∷ [])
unfolding run
written-Decodes_example =
    written-Decodes read_only Fine read_only-AnswersTyped
      (λ m s w h. subst Fine (sym (read_only-keeps m s)) h) inputs (5 ∷ 6 ∷ 7 ∷ []) run.0 1 (0 ∷ [])
      inputs-IsWellFormed (omega arith) run.1
