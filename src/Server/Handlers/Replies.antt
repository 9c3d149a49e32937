-- ===== src/Server/Handlers/Replies.antt =====
-- Which messages `handle_msg` sends for a request.
use azpfs.Base.{ℕ, ◌≡◌, refl, true, false, List, [], ◌∷◌, All, Option}
use azpfs.Io.{Outcome, ok, err, panicked, blocked, OfValue}
use azpfs.Protocol.Message.{
  Message, init_req, lookup_req, lookup_res, get_attr_req, set_attr_req, success_res, stats_req,
  create_req, read_req, write_req, readdir_req, rm_req, move_req, request_id,
}
use azpfs.Protocol.Errors.{from_error}
use azpfs.Protocol.DirEntry.{serialize_dir_entires}
use azpfs.Fs.Attr.{SystemTime, attr_into_message, stats_into_message}
use azpfs.Fs.Backend.{FsBackend}
use azpfs.Server.Chunks.{assemble_read_res_chunks}
use azpfs.Server.Chunks.Laws.{assemble_read_res_chunks-request_id}
use azpfs.Server.Handlers.{reply_with, optional_time, handle_set_attr, handle_msg}

-- The messages are replies to the request `id`.
abbrev AnswerTo : ℕ → List Message → Type 0
AnswerTo id = All λ m. request_id m ≡ id

reply_with-AnswerTo {ℓ} :
    {A : Type ℓ} (id : ℕ) (make : A → List Message) (r : Outcome A)
    → ((a : A) → AnswerTo id (make a))
    → OfValue (AnswerTo id) (reply_with id make r)
unfolding reply_with from_error request_id
reply_with-AnswerTo id make (ok a) h = h a
reply_with-AnswerTo id make (err e) h = (refl, tt)
reply_with-AnswerTo id make panicked h = tt
reply_with-AnswerTo id make blocked h = tt

-- A single reply.
one {ℓ} :
    {A : Type ℓ} (id : ℕ) (make : A → Message) (r : Outcome A)
    → ((a : A) → request_id (make a) ≡ id)
    → OfValue (AnswerTo id) (reply_with id (λ a. make a ∷ []) r)
one id make r h = reply_with-AnswerTo id (λ a. make a ∷ []) r (λ a. (h a, tt))

module _ (fs : FsBackend) where
  handle_set_attr-AnswerTo :
      (id inode : ℕ) (size : Option ℕ) (at mt : Outcome (Option SystemTime)) (p u g : Option ℕ)
      (s : fs.State)
      → OfValue (AnswerTo id) (handle_set_attr fs id inode size at mt p u g s).0
  unfolding handle_set_attr request_id
  handle_set_attr-AnswerTo id inode size (ok at) (ok mt) p u g s =
      one id (λ _. success_res id) (fs.set_attr inode size at mt p u g s).0 (λ _. refl)
  handle_set_attr-AnswerTo id inode size (ok at) (err e) p u g s = tt
  handle_set_attr-AnswerTo id inode size (ok at) panicked p u g s = tt
  handle_set_attr-AnswerTo id inode size (ok at) blocked p u g s = tt
  handle_set_attr-AnswerTo id inode size (err e) mt p u g s = tt
  handle_set_attr-AnswerTo id inode size panicked mt p u g s = tt
  handle_set_attr-AnswerTo id inode size blocked mt p u g s = tt

  -- Every message that the server sends for a request carries the request's id, whatever the file
  -- system does.
  pub handle_msg-request_id :
      (msg : Message) (s : fs.State)
      → OfValue (All λ m. request_id m ≡ request_id msg) (handle_msg fs msg s).0
  unfolding handle_msg request_id attr_into_message stats_into_message
  handle_msg-request_id (init_req id version) s = (refl, tt)
  handle_msg-request_id (lookup_req id dir name) s =
      one id (lookup_res id) (fs.lookup dir name s).0 (λ _. refl)
  handle_msg-request_id (get_attr_req id inode) s =
      one id (λ a. attr_into_message a id) (fs.get_attr inode s).0 (λ _. refl)
  handle_msg-request_id (set_attr_req id inode size at mt p u g) s =
      handle_set_attr-AnswerTo id inode size (optional_time at) (optional_time mt) p u g s
  handle_msg-request_id (stats_req id) s =
      one id (λ a. stats_into_message a id) (fs.stats s).0 (λ _. refl)
  handle_msg-request_id (create_req id dir p f true name) s =
      one id (lookup_res id) (fs.create_dir dir p name s).0 (λ _. refl)
  handle_msg-request_id (create_req id dir p f false name) s =
      one id (lookup_res id) (fs.create_file dir p f name s).0 (λ _. refl)
  handle_msg-request_id (read_req id inode offset len) s =
      reply_with-AnswerTo id (assemble_read_res_chunks id) (fs.read inode offset len s).0
        (assemble_read_res_chunks-request_id id)
  handle_msg-request_id (write_req id inode offset c) s =
      one id (λ _. success_res id) (fs.write inode offset c s).0 (λ _. refl)
  handle_msg-request_id (readdir_req id inode) s =
      reply_with-AnswerTo id (λ es. assemble_read_res_chunks id (serialize_dir_entires es))
        (fs.read_dir inode s).0 (λ es. assemble_read_res_chunks-request_id id _)
  handle_msg-request_id (rm_req id inode) s =
      one id (λ _. success_res id) (fs.remove inode s).0 (λ _. refl)
  handle_msg-request_id (move_req id inode dir name) s =
      one id (λ _. success_res id) (fs.rename inode dir name s).0 (λ _. refl)
  handle_msg-request_id _ s = tt
