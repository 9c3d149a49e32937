-- ===== src/Client/Program.antt =====
-- `main` of src/client/main.rs, from the connection to the file system that it mounts.
use azpfs.Base.{Bytes, [], ◌∷◌}
use azpfs.Io.{not_connected, Outcome, ok, err, panicked, blocked}
use azpfs.Client.Connection.{ClientHandler}
use azpfs.Client.Fuse.{FuseFilesystem, new_filesystem}

-- "not connected", the text of `ErrorKind::NotConnected`.
abbrev not_connected_text : Bytes
not_connected_text =
    b'n' ∷ b'o' ∷ b't' ∷ b' ' ∷ b'c' ∷ b'o' ∷ b'n' ∷ b'n' ∷ b'e' ∷ b'c' ∷ b't' ∷ b'e' ∷ b'd' ∷ []

-- The match on `ClientHandler::new`.
abbrev with_handler : Outcome ClientHandler → Outcome (FuseFilesystem ClientHandler)
with_handler (ok h) = ok (new_filesystem h)
with_handler (err e) = err (record { kind = not_connected; text = not_connected_text })
with_handler panicked = panicked
with_handler blocked = blocked

-- What is mounted. `connected` is what `TcpStream::connect` gives, and `made` what `ClientHandler::new`
-- makes of the stream.
unfoldable pub mounted :
    Outcome (Unit {0}) → Outcome ClientHandler → Outcome (FuseFilesystem ClientHandler)
mounted (ok _) made = with_handler made
mounted (err e) made = err e
mounted panicked made = panicked
mounted blocked made = blocked
