-- ===== src/Remote/Link/Shown.antt =====
-- The server's file system as it shows through the connection of src/core/fs/handler.rs.
use mathlib.Core.Option
use azpfs.Base.{ℕ, IsU64, none, some, arith, ◌≡◌, Bytes, ap, ◌∙◌, Option, List, All, map}
use azpfs.Io.{Outcome, ok, err, panicked, blocked, OfValue}
use azpfs.Protocol.Message.{Message, set_request_id, AllSome}
use azpfs.Fs.Attr.{SystemTime, InRange, to_unix}
use azpfs.Server.Handlers.Typed.{IsTypedResult, to_unix-IsU64}
use azpfs.Remote.Link.Calls
use azpfs.Protocol.Reader.{ReadError}
use azpfs.Fs.Backend.{FsBackend}
use azpfs.Fs.Run.{Run}
use azpfs.Client.Calls.{
  Call, lookup_call, get_attr_call, set_attr_call, stats_call, create_file_call, create_dir_call,
  read_call, write_call, read_dir_call, remove_call, rename_call,
}
use azpfs.Client.Fuse.{FuseFilesystem}
use azpfs.Client.Fuse.Operations.{Operation, serve_all}
use azpfs.Remote.{perform}
use azpfs.Remote.Seen.{seen}
use azpfs.Remote.Refines.{
  lookup-remote, get_attr-remote, set_attr-remote, stats-remote, create_file-remote,
  create_dir-remote, read-remote, write-remote, read_dir-remote, remove-remote, rename-remote,
}
use azpfs.Remote.Mirror.{Sees, Mirror}
use azpfs.Remote.Mounted.{remote_outcome, remote_operation, IsSendable, Shows}
use azpfs.Remote.Mounted.Sequences.{serve_all-Mirror}
use azpfs.Remote.Link.{Link, call_over, linked}
use azpfs.Remote.Link.Calls.{Rearranges, Brings, Bounded, IsFine, call_over-perform}

-- The server's state behind a connection.
abbrev pub server_of : {S : Type 0} → Link S → S
server_of t = t.server

-- A value within the Rust types has a property that they imply.
of_typed {ℓ} :
    {A : Type ℓ} {P Q : A → Type 0} (r : Outcome A)
    → ((a : A) → P a → Q a)
    → IsTypedResult P r
    → OfValue Q r
of_typed (ok a) f h = f a h
of_typed (err e) f h = tt
of_typed panicked f h = tt
of_typed blocked f h = tt

seconds : (t : Option SystemTime) → AllSome InRange t → AllSome IsU64 (Option.map to_unix t)
seconds none h = tt
seconds (some t) h = to_unix-IsU64 t h

module _ {fs : FsBackend} (bounded : Bounded fs) (stream : ℕ → List Message → List Bytes)
    (brings : Brings stream) where
  -- What holds of a call against the server on its own, whatever the order of the replies, holds of it
  -- over the connection.
  call_over-Sees {ℓ κ} :
      {A : Type ℓ} {B : Type κ} (call : Call B) (view : A → B) (m : Run fs.State A)
      → Calls.IsSendable bounded stream brings call
      → ((order : List Message → List Message)
          → Rearranges order
          → (id : ℕ) (s : fs.State) → bounded.IsBounded s
          → perform fs order id call s ≡ (seen view (m s).0, (m s).1))
      → Sees (IsFine bounded stream brings) server_of view m (call_over fs stream call)
  call_over-Sees call view m fits refines t v =
      let (order, arrives, result, state, valid) =
        call_over-perform bounded stream brings call t fits v in
      let alone = refines order arrives t.handler.next_id t.server v.3 in
      (result ∙ ap (λ q. q.0) alone, state ∙ ap (λ q. q.1) alone, valid)

  module _ (describe : ReadError → Bytes) where
    abbrev linked-Mirror : Mirror fs (linked fs stream describe)
    unfolding set_request_id lookup_call get_attr_call set_attr_call stats_call create_file_call
        create_dir_call read_call write_call read_dir_call remove_call rename_call
    linked-Mirror = record {
      IsFine = IsFine bounded stream brings;
      state = server_of;
      lookup = λ dir name d n.
          call_over-Sees (lookup_call dir name) (λ x. x) (fs.lookup dir name)
            (λ id h. ((h, d, n.0), n.1))
            λ order arrives id s b. lookup-remote order arrives fs id describe dir name s;
      get_attr = λ i k.
          call_over-Sees (get_attr_call i) _ (fs.get_attr i) (λ id h. ((h, k), tt))
            λ order arrives id s b. get_attr-remote order arrives fs id describe i s (
              of_typed (fs.get_attr i s).0 (λ a q. (q.2, q.3, q.4))
                ((bounded.typed s b).get_attr i));
      set_attr = λ i z at mt p u g hi hz h k hp hu hg.
          call_over-Sees (set_attr_call i z at mt p u g) (λ x. x) _
            (λ id e. ((e, hi, hz, seconds at h, seconds mt k, hp, hu, hg), tt))
            λ order arrives id s b.
              set_attr-remote order arrives fs id describe i z at mt p u g s h k;
      stats =
          call_over-Sees stats_call (λ x. x) fs.stats (λ id h. (h, tt))
            λ order arrives id s b. stats-remote order arrives fs id describe s;
      create_file = λ dir p f name d hp hf n.
          call_over-Sees (create_file_call dir p f name) (λ x. x) (fs.create_file dir p f name)
            (λ id h. ((h, d, hp, hf, n.0), n.1))
            λ order arrives id s b. create_file-remote order arrives fs id describe dir p f name s;
      create_dir = λ dir p name d hp n.
          call_over-Sees (create_dir_call dir p name) (λ x. x) (fs.create_dir dir p name)
            (λ id h. ((h, d, hp, omega arith, n.0), n.1))
            λ order arrives id s b. create_dir-remote order arrives fs id describe dir p name s;
      read = λ i o len hi ho hl.
          call_over-Sees (read_call i o len) (λ x. x) (fs.read i o len)
            (λ id h. ((h, hi, ho, hl), tt))
            λ order arrives id s b. read-remote order arrives fs id describe i o len s;
      write = λ i o c hi ho hc l.
          call_over-Sees (write_call i o c) (λ x. x) (fs.write i o c) (λ id h. ((h, hi, ho, hc), l))
            λ order arrives id s b. write-remote order arrives fs id describe i o c s;
      read_dir = λ i k.
          call_over-Sees (read_dir_call describe i) (λ x. x) (fs.read_dir i) (λ id h. ((h, k), tt))
            λ order arrives id s b.
              read_dir-remote order arrives fs id describe i s (bounded.names i s b);
      remove = λ i k.
          call_over-Sees (remove_call i) (λ x. x) (fs.remove i) (λ id h. ((h, k), tt))
            λ order arrives id s b. remove-remote order arrives fs id describe i s;
      rename = λ i dir name hi d n.
          call_over-Sees (rename_call i dir name) (λ x. x) (fs.rename i dir name)
            (λ id h. ((h, hi, d, n.0), n.1))
            λ order arrives id s b. rename-remote order arrives fs id describe i dir name s;
      found = λ dir name t v.
          of_typed (fs.lookup dir name t.server).0 (λ a q. q)
            ((bounded.typed t.server v.3).lookup dir name);
      made_file = λ dir p f name t v.
          of_typed (fs.create_file dir p f name t.server).0 (λ a q. q)
            ((bounded.typed t.server v.3).create_file dir p f name);
      made_dir = λ dir p name t v.
          of_typed (fs.create_dir dir p name t.server).0 (λ a q. q)
            ((bounded.typed t.server v.3).create_dir dir p name);
    }

    -- A sequence of calls of the kernel, each of which goes over the connection as the bytes of requests
    -- under new ids, has the replies that it has on the server's own file system, and the same effect
    -- there, if the calls' numbers lie within their Rust types, their names have at most 255 bytes and
    -- their content is less than 4 GiB; the times that are set are in the range of `SystemTime`; the
    -- server's file system answers within the Rust types, with names of at most 255 bytes and error texts
    -- shorter than 64 KiB; and the bytes of the replies to each request arrive, the replies in any order
    -- and among messages about other ids: but times are in whole seconds, EACCES becomes EIO, and where
    -- the file system panics, this call and those after it wait. The connection stays as it is needed.
    pub serve_all-linked :
        (ops : List Operation) (t : FuseFilesystem fs.State) (t' : FuseFilesystem (Link fs.State))
        → All IsSendable ops
        → Shows (IsFine bounded stream brings) server_of t t'
        → ((serve_all (linked fs stream describe) ops t').0
            ≡ map remote_outcome (serve_all fs (map remote_operation ops) t).0)
          × Shows
              (IsFine bounded stream brings)
              server_of
              (serve_all fs (map remote_operation ops) t).1
              (serve_all (linked fs stream describe) ops t').1
    unfolding linked-Mirror serve_all
    serve_all-linked = serve_all-Mirror linked-Mirror
