-- ===== src/Protocol.antt =====
-- The conversations of the client and the server: what a request and its answer look like on the
-- wire. The comments of src/serverconnection.cpp and src/agfs-server.cpp call them stacks.
pub mod Remote
pub mod Opening
pub mod Handshake
pub mod Reading
pub mod Beat
pub mod Writing
pub mod Session
pub mod Growing
use ag_fs.Base.{ℕ, List, [], ◌∷◌, ◌++◌, length, ℤ, pos, negsuc}
use ag_fs.Words.{of_word}
use ag_fs.Constants.{
  cmd_heartbeat, cmd_getattr, cmd_access, cmd_readdir, cmd_read, cmd_write, cmd_open,
}
use ag_fs.Stat.{Stat}
use ag_fs.Text.{Text}
use ag_fs.Io.Frames.{cmd_frame, mask_frame, size_frame, error_frame, string_frame, stat_frame}

abbrev pub getattr_request : Text → List ℕ
getattr_request path = cmd_frame cmd_getattr ++ string_frame path

abbrev pub access_request : Text → ℕ → List ℕ
access_request path mask = cmd_frame cmd_access ++ (string_frame path ++ mask_frame mask)

abbrev pub open_request : Text → ℕ → List ℕ
open_request path mask = cmd_frame cmd_open ++ (string_frame path ++ mask_frame mask)

abbrev pub readdir_request : Text → List ℕ
readdir_request path = cmd_frame cmd_readdir ++ string_frame path

abbrev pub read_request : Text → ℕ → ℕ → List ℕ
read_request path size offset =
    cmd_frame cmd_read ++ (string_frame path ++ (size_frame size ++ size_frame offset))

abbrev pub getattr_reply : Stat → List ℕ
getattr_reply st = error_frame (pos 0) ++ stat_frame st

abbrev pub entries_frame : List (Text × Stat) → List ℕ
entries_frame [] = []
entries_frame ((name, st) ∷ entries) = string_frame name ++ (stat_frame st ++ entries_frame entries)

abbrev pub readdir_reply : List (Text × Stat) → List ℕ
readdir_reply entries =
    error_frame (pos 0) ++ (size_frame (length entries) ++ entries_frame entries)

abbrev pub read_reply : List ℕ → List ℕ
read_reply bytes = error_frame (pos (length bytes)) ++ (size_frame (length bytes) ++ bytes)

-- What the client sends of a write before the server's first answer.
abbrev pub open_write_request : Text → List ℕ
open_write_request path = cmd_frame cmd_write ++ string_frame path

abbrev pub write_request : Text → List ℕ → ℕ → List ℕ
write_request path bytes offset =
    cmd_frame cmd_write
    ++ (string_frame path ++ (size_frame (length bytes) ++ (size_frame offset ++ bytes)))

-- What the server answers to the data: how many bytes the file took, or the error.
abbrev pub write_answer : ℤ → List ℕ
write_answer (pos k) = error_frame (pos k) ++ size_frame k
write_answer (negsuc e) = error_frame (negsuc e)

abbrev pub write_reply : ℤ → List ℕ
write_reply result = error_frame (pos 0) ++ write_answer result
