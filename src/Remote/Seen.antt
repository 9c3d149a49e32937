-- ===== src/Remote/Seen.antt =====
-- What the client's ways to wait for replies make of the replies to a request.
use mathlib.Core.Option
use azpfs.Base.{
  ℕ, ◌≡◌, refl, ap, ◌∙◌, false, Bytes, List, [], ◌∷◌, Option, none, some, All, Permᴰ,
  perm_singleton, append-nil,
}
use azpfs.Io.{Outcome, ok, err, panicked, blocked, ◌>>=◌, OfValue}
use azpfs.Protocol.Message.{Message, AllSome, lookup_res, success_res}
use azpfs.Protocol.Reader.{ReadError}
use azpfs.Protocol.Errors.{from_error, over_wire}
use azpfs.Protocol.DirEntry.{DirEntry, serialize_dir_entires, IsValid}
use azpfs.Protocol.DirEntry.Laws.{parse_dir_entries-serialize_dir_entires}
use azpfs.Fs.Attr.{
  SystemTime, InRange, FileAttr, FsStats, to_unix, whole_seconds, from_unix-to_unix, in_seconds,
  attr_into_message, stats_into_message,
}
use azpfs.Server.Chunks.{assemble_read_res_chunks}
use azpfs.Server.Handlers.{reply_with, optional_time}
use azpfs.Client.Replies.{await_success, await_inode, await_attr, await_stats}
use azpfs.Client.Combine.{combine_read_chunks}
use azpfs.Client.Calls.{entries_of}
use azpfs.Remote.{delivered}
use azpfs.Remote.Transfer.{combine_read_chunks-assemble_read_res_chunks}

-- The times of the attributes are such as `SystemTime` holds.
abbrev pub HasTimes : FileAttr → Type 0
HasTimes a = InRange a.access_time × InRange a.modification_time × InRange a.change_time

-- A result of the server's file system as the client sees it: a value through `view`, an error by
-- its code, and where the handler does not come to an end, the client waits.
abbrev pub seen {ℓ κ} : {A : Type ℓ} {B : Type κ} → (A → B) → Outcome A → Outcome B
seen view (ok a) = ok (view a)
seen view (err e) = err (over_wire e)
seen view panicked = blocked
seen view blocked = blocked

module _ (order : List Message → List Message)
    (arrives : (ms : List Message) → Permᴰ ms (order ms)) where
  alone : (m : Message) → order (m ∷ []) ≡ m ∷ []
  alone m = perm_singleton m (order (m ∷ [])) (arrives (m ∷ []))

  pub await_inode-seen :
      (id : ℕ) (r : Outcome ℕ)
      → await_inode (delivered order (reply_with id (λ i. lookup_res id i ∷ []) r))
        ≡ seen (λ i. i) r
  unfolding await_inode reply_with from_error over_wire
  await_inode-seen id (ok a) = rw (alone (lookup_res id a))
  await_inode-seen id (err e) = rw (alone (from_error id e))
  await_inode-seen id panicked = refl
  await_inode-seen id blocked = refl

  pub await_success-seen :
      (id : ℕ) (r : Outcome (Unit {0}))
      → await_success (delivered order (reply_with id (λ _. success_res id ∷ []) r))
        ≡ seen (λ x. x) r
  unfolding await_success reply_with from_error over_wire
  await_success-seen id (ok tt) = rw (alone (success_res id))
  await_success-seen id (err e) = rw (alone (from_error id e))
  await_success-seen id panicked = refl
  await_success-seen id blocked = refl

  pub combine_read_chunks-seen :
      (id : ℕ) (r : Outcome Bytes)
      → combine_read_chunks (delivered order (reply_with id (assemble_read_res_chunks id) r))
        ≡ seen (λ x. x) r
  unfolding reply_with
  combine_read_chunks-seen id (ok bytes) = rw append-nil at (
      combine_read_chunks-assemble_read_res_chunks id bytes
        (order (assemble_read_res_chunks id bytes)) [] false (arrives _))
  combine_read_chunks-seen id (err e) =
      unfold combine_read_chunks from_error over_wire in rw (alone (from_error id e))
  combine_read_chunks-seen id panicked = unfold combine_read_chunks in refl
  combine_read_chunks-seen id blocked = unfold combine_read_chunks in refl

  pub await_attr-seen :
      (id : ℕ) (r : Outcome FileAttr)
      → OfValue HasTimes r
      → await_attr (delivered order (reply_with id (λ a. attr_into_message a id ∷ []) r))
        ≡ seen in_seconds r
  unfolding await_attr reply_with from_error over_wire attr_into_message in_seconds
  await_attr-seen id (ok a) h = rw (
    alone (attr_into_message a id),
    from_unix-to_unix a.access_time h.0,
    from_unix-to_unix a.modification_time h.1,
    from_unix-to_unix a.change_time h.2,
  )
  await_attr-seen id (err e) h = rw (alone (from_error id e))
  await_attr-seen id panicked h = refl
  await_attr-seen id blocked h = refl

  pub await_stats-seen :
      (id : ℕ) (r : Outcome FsStats)
      → await_stats (delivered order (reply_with id (λ a. stats_into_message a id ∷ []) r))
        ≡ seen (λ x. x) r
  unfolding await_stats reply_with from_error over_wire stats_into_message
  await_stats-seen id (ok a) = rw (alone (stats_into_message a id))
  await_stats-seen id (err e) = rw (alone (from_error id e))
  await_stats-seen id panicked = refl
  await_stats-seen id blocked = refl

  pub optional_time-to_unix :
      (t : Option SystemTime)
      → AllSome InRange t
      → optional_time (Option.map to_unix t) ≡ ok (Option.map whole_seconds t)
  unfolding optional_time
  optional_time-to_unix none h = refl
  optional_time-to_unix (some t) h = rw (from_unix-to_unix t h)

  pub read_dir-seen :
      (describe : ReadError → Bytes) (id : ℕ) (r : Outcome (List DirEntry))
      → OfValue (All IsValid) r
      → (combine_read_chunks (
            delivered order
              (reply_with id (λ es. assemble_read_res_chunks id (serialize_dir_entires es)) r))
          >>= entries_of describe)
        ≡ seen (λ x. x) r
  unfolding reply_with entries_of
  read_dir-seen describe id (ok es) h =
      let payload = serialize_dir_entires es in
      ap (λ (r : Outcome Bytes). r >>= entries_of describe)
        (combine_read_chunks-seen id (ok payload))
      ∙ rw (parse_dir_entries-serialize_dir_entires es h, entries_of)
  read_dir-seen describe id (err e) h =
      ap (λ (r : Outcome Bytes). r >>= entries_of describe) (combine_read_chunks-seen id (err e))
  read_dir-seen describe id panicked h =
      ap (λ (r : Outcome Bytes). r >>= entries_of describe) (combine_read_chunks-seen id panicked)
  read_dir-seen describe id blocked h =
      ap (λ (r : Outcome Bytes). r >>= entries_of describe) (combine_read_chunks-seen id blocked)
