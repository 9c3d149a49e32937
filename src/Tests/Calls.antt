-- ===== src/Tests/Calls.antt =====
-- The client's operations against the server, over the file system of `Tests/Backend`, with replies
-- that arrive in reverse.
use mathlib.Core.List.{reverse}
use mathlib.Core.List.Permᴰ
use azpfs.Base.{
  ◌≡◌, ◌^◌, refl, true, false, Bytes, List, [], ◌∷◌, ◌++◌, All, none, some, arith, Permᴰ,
}
use azpfs.Server.Handlers.Faults.{handle_msg-set_attr_overflow}
use azpfs.Io.{ok, panicked, OfValue}
use azpfs.Protocol.Message.{Message, set_attr_req, read_req, read_res, request_id}
use azpfs.Protocol.Reader.{ReadError}
use azpfs.Fs.Attr.{after, in_seconds, whole_seconds}
use azpfs.Server.Chunks.{assemble_read_res_chunks, chunk_loop}
use azpfs.Server.Handlers.{handle_msg}
use azpfs.Server.Handlers.Replies.{handle_msg-request_id}
use azpfs.Client.Combine.{combine_read_chunks, combine_loop, insert, flatten}
use azpfs.Remote.{remote}
use azpfs.Remote.Transfer.{combine_read_chunks-assemble_read_res_chunks}
use azpfs.Remote.Refines.{get_attr-remote, set_attr-remote, read_dir-remote}
use azpfs.Tests.Backend.{memory, attr_of, listing}

pub backwards : (ms : List Message) → Permᴰ ms (reverse ms)
backwards ms = Permᴰ.symm (Permᴰ.reverse ms)

abbrev pub describe : ReadError → Bytes
describe _ = []

abbrev content : Bytes
content = 1 ∷ 2 ∷ 3 ∷ 4 ∷ 5 ∷ []

-- Chunks of two bytes, the last one first.
in_chunks :
    chunk_loop 5 2 9 content 0
    ≡ read_res 9 5 0 (1 ∷ 2 ∷ []) ∷ read_res 9 5 2 (3 ∷ 4 ∷ []) ∷ read_res 9 5 4 (5 ∷ []) ∷ []
unfolding chunk_loop
in_chunks = refl

out_of_order :
    combine_read_chunks (record {
      messages =
          read_res 9 5 4 (5 ∷ []) ∷ read_res 9 5 0 (1 ∷ 2 ∷ []) ∷ read_res 9 5 2 (3 ∷ 4 ∷ []) ∷ [];
      closes = false;
    })
    ≡ ok content
unfolding combine_read_chunks combine_loop insert flatten
out_of_order = refl

combine_read_chunks-assemble_read_res_chunks_example :
    combine_read_chunks (record {
      messages = reverse (assemble_read_res_chunks 9 content) ++ (read_res 9 1 0 (0 ∷ []) ∷ []);
      closes = true;
    })
    ≡ ok content
combine_read_chunks-assemble_read_res_chunks_example =
    combine_read_chunks-assemble_read_res_chunks 9 content
      (reverse (assemble_read_res_chunks 9 content)) (read_res 9 1 0 (0 ∷ []) ∷ []) true
      (backwards _)

handle_msg-request_id_example :
    OfValue (All λ m. request_id m ≡ 9) (handle_msg memory (read_req 9 2 1 3) content).0
unfolding request_id
handle_msg-request_id_example = handle_msg-request_id memory (read_req 9 2 1 3) content

get_attr-remote_example : (remote memory reverse 3 describe).get_attr 2 content ≡ (
  ok (record (attr_of content) {
    access_time = after 1_000_000_000;
    modification_time = after 2_000_000_000;
    change_time = after 3_000_000_000;
  }),
  content,
)
unfolding in_seconds whole_seconds
get_attr-remote_example =
    get_attr-remote reverse backwards memory 3 describe 2 content (omega arith)

set_attr-remote_example :
    (remote memory reverse 3 describe).set_attr 2
      (some 3)
      (some (after 5))
      none
      none
      none
      none
      content
    ≡ (ok tt, 1 ∷ 2 ∷ 3 ∷ [])
set_attr-remote_example =
    set_attr-remote reverse backwards memory 3 describe 2 (some 3) (some (after 5)) none none none
      none content (omega arith) tt

read_dir-remote_example :
    (remote memory reverse 3 describe).read_dir 1 content ≡ (ok listing, content)
read_dir-remote_example =
    read_dir-remote reverse backwards memory 3 describe 1 content (omega arith)

handle_msg-set_attr_overflow_example :
    (handle_msg memory (set_attr_req 3 2 none (some (2 ^ 63)) none none none none) content
      ≡ (panicked, content))
    × (handle_msg memory (set_attr_req 3 2 none none (some (2 ^ 63)) none none none) content
        ≡ (panicked, content))
handle_msg-set_attr_overflow_example =
    handle_msg-set_attr_overflow memory 3 2 (2 ^ 63) none none none none none content (omega arith)
