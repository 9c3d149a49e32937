-- ===== src/Client/Combine.antt =====
-- `combine_read_chunks` of src/core/fs/handler.rs: the payload of a READ or READDIR reply, put
-- together from its chunks in the order of their offsets.
pub mod Order
pub mod Reassembly
use azpfs.Base.{ℕ, ◌+◌, Bool, Bytes, List, [], ◌∷◌, ◌++◌, length, ltb, ◌==◌, if◌then◌else◌}
use azpfs.Io.{Outcome, ok}
use azpfs.Protocol.Message.{Message, error, read_res}
use azpfs.Client.Replies.{Listener, drained, unwrap_error}

-- `BTreeMap<u64, Vec<u8>>`, in the order of its keys. An entry with the key is replaced.
abbrev pub ChunkMap : Type 0
ChunkMap = List (ℕ × Bytes)

unfoldable pub insert : ℕ → Bytes → ChunkMap → ChunkMap
insert k v [] = (k, v) ∷ []
insert k v ((j, w) ∷ m) =
    if ltb k j then (k, v) ∷ (j, w) ∷ m else if k == j then (k, v) ∷ m else (j, w) ∷ insert k v m

-- `into_iter().map(|(_, v)| v).flatten().collect()`
unfoldable pub flatten : ChunkMap → Bytes
flatten [] = []
flatten ((k, v) ∷ m) = v ++ flatten m

-- The `while let` loop, from the chunks and the count of bytes received so far.
unfoldable pub combine_loop : Bool → List Message → ChunkMap → ℕ → Outcome Bytes
unfolding drained unwrap_error insert flatten
combine_loop closes [] chunks received = drained closes
combine_loop closes (read_res id total offset chunk ∷ ms) chunks received =
    let received' = received + length chunk in
    let chunks' = insert offset chunk chunks in
    let more = combine_loop closes ms chunks' received' in
    if received' == total then ok (flatten chunks') else more
combine_loop closes (error id code text ∷ ms) chunks received = unwrap_error (error id code text)
combine_loop closes (_ ∷ ms) chunks received = combine_loop closes ms chunks received

unfoldable pub combine_read_chunks : Listener → Outcome Bytes
unfolding combine_loop
combine_read_chunks l = combine_loop l.closes l.messages [] 0
