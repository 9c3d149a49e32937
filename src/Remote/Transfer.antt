-- ===== src/Remote/Transfer.antt =====
-- The chunks that the server sends for a payload, and what the client makes of them.
use mathlib.Core.List.{Permᴰ}
use azpfs.Base.{ℕ, ◌≡◌, refl, Bool, Bytes, List, [], ◌∷◌, ◌++◌, arith, perm_singleton}
use azpfs.Io.{ok}
use azpfs.Protocol.Message.{Message, read_res}
use azpfs.Server.Chunks.{max_read_res_chunk, assemble_read_res_chunks}
use azpfs.Server.Chunks.Laws.{assemble_read_res_chunks-IsCut}
use azpfs.Client.Combine.{combine_read_chunks}
use azpfs.Client.Combine.Reassembly.{combine_read_chunks-IsCut}

-- Whatever the order in which the chunks of a payload arrive, the client has the payload when the
-- last of them is there, and reads nothing that comes behind it.
pub combine_read_chunks-assemble_read_res_chunks :
    (id : ℕ) (bytes : Bytes) (arrived later : List Message) (closes : Bool)
    → Permᴰ (assemble_read_res_chunks id bytes) arrived
    → combine_read_chunks (record { messages = arrived ++ later; closes = closes }) ≡ ok bytes
combine_read_chunks-assemble_read_res_chunks id [] arrived later closes p =
    rw (perm_singleton (read_res id 0 0 []) arrived (unfold assemble_read_res_chunks in p))
      (unfold combine_read_chunks in refl)
combine_read_chunks-assemble_read_res_chunks id (b ∷ bs) arrived later closes p =
    combine_read_chunks-IsCut max_read_res_chunk id (b ∷ bs) (assemble_read_res_chunks id (b ∷ bs))
      arrived later closes (assemble_read_res_chunks-IsCut id (b ∷ bs) (omega arith)) (omega arith)
      p
