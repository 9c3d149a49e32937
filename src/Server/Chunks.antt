-- ===== src/Server/Chunks.antt =====
-- `assemble_read_res_chunks` of src/core/server/handlers.rs: a payload cut into READ_RES messages.
pub mod Laws
use azpfs.Base.{
  ℕ, zero, suc, ◌+◌, ◌-◌, min, Bytes, List, [], ◌∷◌, length, take, drop, ltb, if◌then◌else◌,
}
use azpfs.Protocol.Message.{Message, read_res}

-- `MAX_READ_RES_CHUNK` of src/core/protocol/messages.rs, the greatest u16.
abbrev pub max_read_res_chunk : ℕ
max_read_res_chunk = 65535

-- The `while` loop, for chunks of at most `most` bytes, on fuel.
unfoldable pub chunk_loop : ℕ → ℕ → ℕ → Bytes → ℕ → List Message
chunk_loop zero most id content head = []
chunk_loop (suc fuel) most id content head =
    let chunk_len = min (length content - head) most in
    let chunk = take chunk_len (drop head content) in
    let more =
      read_res id (length content) head chunk
      ∷ chunk_loop fuel most id content (head + chunk_len) in
    if ltb head (length content) then more else []

-- Each chunk has a byte at least, so as many rounds as there are bytes are enough.
unfoldable pub assemble_read_res_chunks : ℕ → Bytes → List Message
unfolding chunk_loop
assemble_read_res_chunks id [] = read_res id 0 0 [] ∷ []
assemble_read_res_chunks id (b ∷ bs) = chunk_loop (length (b ∷ bs)) max_read_res_chunk id (b ∷ bs) 0
