-- ===== src/Server/Handlers/Sendable.antt =====
-- The replies of `handle_msg` as messages that can be encoded, by what the file system answers.
use azpfs.Base.{ℕ, true, false, List, [], ◌∷◌, All, IsU32, Option}
use azpfs.Io.{Outcome, ok, err, panicked, blocked, OfValue}
use azpfs.Protocol.Message.{
  Message, init_req, lookup_req, lookup_res, get_attr_req, set_attr_req, success_res, stats_req,
  create_req, read_req, write_req, readdir_req, rm_req, move_req, request_id,
}
use azpfs.Protocol.Errors.{from_error}
use azpfs.Protocol.DirEntry.{serialize_dir_entires}
use azpfs.Protocol.Read.WellFormed.{IsWellFormed}
use azpfs.Fs.Attr.{SystemTime, attr_into_message, stats_into_message}
use azpfs.Fs.Backend.{FsBackend}
use azpfs.Server.Chunks.{assemble_read_res_chunks}
use azpfs.Server.Handlers.{reply_with, optional_time, handle_set_attr, handle_msg}
use azpfs.Server.Handlers.Typed.{
  IsTypedResult, AnswersTyped, attr_into_message-IsWellFormed, stats_into_message-IsWellFormed,
  assemble_read_res_chunks-IsWellFormed,
}

reply_with-IsWellFormed {ℓ} :
    {A : Type ℓ} {P : A → Type 0} (id : ℕ) (make : A → List Message) (r : Outcome A)
    → IsU32 id
    → IsTypedResult P r
    → ((a : A) → P a → All IsWellFormed (make a))
    → OfValue (All IsWellFormed) (reply_with id make r)
unfolding reply_with from_error
reply_with-IsWellFormed id make (ok a) i h k = k a h
reply_with-IsWellFormed id make (err e) i h k = (((i, h.0, h.1), h.2), tt)
reply_with-IsWellFormed id make panicked i h k = tt
reply_with-IsWellFormed id make blocked i h k = tt

-- A single reply.
one {ℓ} :
    {A : Type ℓ} {P : A → Type 0} (id : ℕ) (make : A → Message) (r : Outcome A)
    → IsU32 id
    → IsTypedResult P r
    → ((a : A) → P a → IsWellFormed (make a))
    → OfValue (All IsWellFormed) (reply_with id (λ a. make a ∷ []) r)
one id make r i h k = reply_with-IsWellFormed id (λ a. make a ∷ []) r i h λ a p. (k a p, tt)

module _ (fs : FsBackend) (s : fs.State) (typed : AnswersTyped fs s) where
  handle_set_attr-IsWellFormed :
      (id inode : ℕ) (size : Option ℕ) (at mt : Outcome (Option SystemTime)) (p u g : Option ℕ)
      → IsU32 id
      → OfValue (All IsWellFormed) (handle_set_attr fs id inode size at mt p u g s).0
  unfolding handle_set_attr
  handle_set_attr-IsWellFormed id inode size (ok at) (ok mt) p u g i =
      one id (λ _. success_res id) _ i (typed.set_attr inode size at mt p u g) λ _ _. (i, tt)
  handle_set_attr-IsWellFormed id inode size (ok at) (err e) p u g i = tt
  handle_set_attr-IsWellFormed id inode size (ok at) panicked p u g i = tt
  handle_set_attr-IsWellFormed id inode size (ok at) blocked p u g i = tt
  handle_set_attr-IsWellFormed id inode size (err e) mt p u g i = tt
  handle_set_attr-IsWellFormed id inode size panicked mt p u g i = tt
  handle_set_attr-IsWellFormed id inode size blocked mt p u g i = tt

  -- If the file system answers within the Rust types, and the texts of its errors are shorter than 64
  -- KiB, then every reply to a request with an id of four bytes lies within the Rust types, and every
  -- length in it fits its prefix: that of a chunk of a payload, whatever the payload, and that of a text,
  -- which is the error's own.
  pub handle_msg-IsWellFormed :
      (m : Message) → IsU32 (request_id m) → OfValue (All IsWellFormed) (handle_msg fs m s).0
  unfolding handle_msg request_id
  handle_msg-IsWellFormed (init_req id version) i = ((i, tt), tt)
  handle_msg-IsWellFormed (lookup_req id dir name) i =
      one id (lookup_res id) _ i (typed.lookup dir name) λ n h. ((i, h), tt)
  handle_msg-IsWellFormed (get_attr_req id inode) i =
      one id (λ a. attr_into_message a id) _ i (typed.get_attr inode)
        λ a. attr_into_message-IsWellFormed a id i
  handle_msg-IsWellFormed (set_attr_req id inode size at mt p u g) i =
      handle_set_attr-IsWellFormed id inode size (optional_time at) (optional_time mt) p u g i
  handle_msg-IsWellFormed (stats_req id) i =
      one id (λ x. stats_into_message x id) _ i typed.stats
        λ x. stats_into_message-IsWellFormed x id i
  handle_msg-IsWellFormed (create_req id dir p f true name) i =
      one id (lookup_res id) _ i (typed.create_dir dir p name) λ n h. ((i, h), tt)
  handle_msg-IsWellFormed (create_req id dir p f false name) i =
      one id (lookup_res id) _ i (typed.create_file dir p f name) λ n h. ((i, h), tt)
  handle_msg-IsWellFormed (read_req id inode offset len) i =
      reply_with-IsWellFormed id (assemble_read_res_chunks id) _ i (typed.read inode offset len)
        λ bytes h. assemble_read_res_chunks-IsWellFormed id bytes i h
  handle_msg-IsWellFormed (write_req id inode offset c) i =
      one id (λ _. success_res id) _ i (typed.write inode offset c) λ _ _. (i, tt)
  handle_msg-IsWellFormed (readdir_req id inode) i =
      reply_with-IsWellFormed id (λ es. assemble_read_res_chunks id (serialize_dir_entires es)) _ i
        (typed.read_dir inode)
        λ es h. assemble_read_res_chunks-IsWellFormed id (serialize_dir_entires es) i h
  handle_msg-IsWellFormed (rm_req id inode) i =
      one id (λ _. success_res id) _ i (typed.remove inode) λ _ _. (i, tt)
  handle_msg-IsWellFormed (move_req id inode dir name) i =
      one id (λ _. success_res id) _ i (typed.rename inode dir name) λ _ _. (i, tt)
  handle_msg-IsWellFormed _ i = tt
