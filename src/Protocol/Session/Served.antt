-- ===== src/Protocol/Session/Served.antt =====
-- What the server's system does for the calls of a session.
use ag_fs.Base.{
  ℕ, suc, ◌^◌, ◌<◌, ◌≡◌, List, [], ◌∷◌, ◌++◌, length, All, some, none, true, false, Bool, ℤ, pos,
  negsuc, neg,
}
use ag_fs.Words.Laws.{IsInt64}
use ag_fs.Os.{Os}
use ag_fs.Os.Stream.{Ends, Quiet, Errno}
use ag_fs.Constants.{cmd_heartbeat, enotdir}
use ag_fs.Stat.{Stat, zero_stat, FitsStat, sent_part}
use ag_fs.Text.{Text}
use ag_fs.Io.Frames.{IsText, cmd_frame, error_frame}
use ag_fs.Connection.Calls.{sent_entries, IsEntry}
use ag_fs.Connection.Writing.{written_of}
use ag_fs.Server.{Files, o_rdonly, o_wronly}
use ag_fs.Server.Handlers.Readdir.{StatsOf, names_of}
use ag_fs.Server.Transfers.Reading.{Pieces, Broken}
use ag_fs.Server.Transfers.Writing.{Stored}
use ag_fs.Protocol.{
  getattr_request, getattr_reply, access_request, open_request, readdir_request, readdir_reply,
  read_request, read_reply, open_write_request, write_request, write_reply,
}
use ag_fs.Protocol.Opening.{OpenAnswer}
use ag_fs.Protocol.Session.{
  Call, getattr_call, access_call, open_call, readdir_call, read_call, write_call, heartbeat_call,
  Result, got_stat, got_code, got_entries, got_bytes, got_count,
}

module _ (host : Os) (files : Files host) (mount : Text) {V : Type 0} (E : Ends host.State V) where
  -- From the view `v`, the calls of the server's system for a request have these results: the bytes
  -- of the client's request and of the server's answer, and what the client makes of it.
  pub data Served : V → Call → List ℕ → List ℕ → Result → V → Type 0 where
    found :
        {v v' : V} {path : Text} {st : Stat}
        → IsText path
        → FitsStat st
        → Quiet E (files.lstat (files.join mount path)) v (some st) v'
        → Served v
            (getattr_call path)
            (getattr_request path)
            (getattr_reply st)
            (got_stat (sent_part st) (pos 0))
            v'
    missing :
        {v v' : V} {path : Text} {n : ℕ}
        → IsText path
        → IsInt64 (negsuc n)
        → Quiet E (files.lstat (files.join mount path)) v none v'
        → Errno host E v' (suc n)
        → Served v
            (getattr_call path)
            (getattr_request path)
            (error_frame (negsuc n))
            (got_stat zero_stat (negsuc n))
            v'
    accessed :
        {v v' : V} {path : Text} {mask : ℕ} {err : ℤ}
        → IsText path
        → mask < 2 ^ 32
        → IsInt64 err
        → Quiet E (files.access (files.join mount path) mask) v err v'
        → Served v
            (access_call path mask)
            (access_request path mask)
            (error_frame err)
            (got_code err)
            v'
    opened :
        {v v₁ v' : V} {path : Text} {mask : ℕ} {fd err code : ℤ}
        → IsText path
        → mask < 2 ^ 32
        → Quiet E (files.open_file (files.join mount path) mask) v fd v₁
        → OpenAnswer host E v₁ fd err
        → Quiet E (host.close fd) v₁ code v'
        → Served v
            (open_call path mask)
            (open_request path mask)
            (error_frame err)
            (got_code err)
            v'
    listed :
        {v v₁ v₂ : V} {path : Text} (counted : List Text) (entries : List (Text × Stat))
        → IsText path
        → All IsEntry entries
        → length entries < 2 ^ 64
        → length counted ≡ length entries
        → Quiet E (files.exists (files.join mount path)) v true v
        → Quiet E (files.is_directory (files.join mount path)) v true v
        → Quiet E (files.entries (files.join mount path)) v counted v₁
        → Quiet E (files.entries (files.join mount path)) v₁ (names_of entries) v₂
        → StatsOf host files E (files.join mount path) v₂ entries
        → Served v
            (readdir_call path)
            (readdir_request path)
            (readdir_reply entries)
            (got_entries (sent_entries entries) (pos 0))
            v₂
    unlisted :
        {v : V} {path : Text} {there : Bool}
        → IsText path
        → Quiet E (files.exists (files.join mount path)) v there v
        → Quiet E (files.is_directory (files.join mount path)) v false v
        → Served v
            (readdir_call path)
            (readdir_request path)
            (error_frame (neg enotdir))
            (got_entries [] (neg enotdir))
            v
    read_out :
        {v v₁ v₂ v' : V} {path : Text} {size offset n : ℕ} {code : ℤ} {out : List ℕ}
        → IsText path
        → size < 2 ^ 63
        → offset < 2 ^ 64
        → Quiet E (files.open_file (files.join mount path) o_rdonly) v (pos n) v₁
        → Quiet E (files.lseek (pos n) offset) v₁ code v₂
        → Pieces host E (pos n) size [] v₂ out v'
        → Served v
            (read_call path size offset)
            (read_request path size offset)
            (read_reply out)
            (got_bytes out (pos (length out)))
            v'
    broken_off :
        {v v₁ v₂ v' : V} {path : Text} {size offset n : ℕ} {code : ℤ}
        → IsText path
        → size < 2 ^ 64
        → offset < 2 ^ 64
        → Quiet E (files.open_file (files.join mount path) o_rdonly) v (pos n) v₁
        → Quiet E (files.lseek (pos n) offset) v₁ code v₂
        → Broken host E (pos n) size [] v₂ v'
        → Served v
            (read_call path size offset)
            (read_request path size offset)
            (error_frame (negsuc 0))
            (got_bytes [] (negsuc 0))
            v'
    written :
        {v v₁ v₂ v' : V} {path : Text} {bytes : List ℕ} {offset n : ℕ} {code result : ℤ}
        → IsText path
        → length bytes < 2 ^ 63
        → offset < 2 ^ 64
        → IsInt64 result
        → Quiet E (files.open_file (files.join mount path) o_wronly) v (pos n) v₁
        → Quiet E (files.lseek (pos n) offset) v₁ code v₂
        → Stored host E (pos n) bytes v₂ result v'
        → Served v
            (write_call path bytes offset)
            (write_request path bytes offset)
            (write_reply result)
            (got_count (written_of (length bytes) result).0 (written_of (length bytes) result).1)
            v'
    unread :
        {v v' : V} {path : Text} {size offset k n : ℕ}
        → IsText path
        → size < 2 ^ 64
        → offset < 2 ^ 64
        → IsInt64 (negsuc n)
        → Quiet E (files.open_file (files.join mount path) o_rdonly) v (negsuc k) v'
        → Errno host E v' (suc n)
        → Served v
            (read_call path size offset)
            (read_request path size offset)
            (error_frame (negsuc n))
            (got_bytes [] (negsuc n))
            v'
    unwritten :
        {v v' : V} {path : Text} {bytes : List ℕ} {offset k n : ℕ}
        → IsText path
        → IsInt64 (negsuc n)
        → Quiet E (files.open_file (files.join mount path) o_wronly) v (negsuc k) v'
        → Errno host E v' (suc n)
        → Served v
            (write_call path bytes offset)
            (open_write_request path)
            (error_frame (negsuc n))
            (got_count 0 (negsuc n))
            v'
    beaten :
        {v : V}
        → Served v heartbeat_call
            (cmd_frame cmd_heartbeat)
            (cmd_frame cmd_heartbeat)
            (got_code (pos 0))
            v

  -- The same for calls one after the other.
  pub data AllServed : V → List Call → List ℕ → List ℕ → List Result → V → Type 0 where
    over : {v : V} → AllServed v [] [] [] [] v
    next :
        {v v₁ v' : V} {call : Call} {calls : List Call} {request requests reply replies : List ℕ}
        {result : Result} {results : List Result}
        → Served v call request reply result v₁
        → AllServed v₁ calls requests replies results v'
        → AllServed v (call ∷ calls) (request ++ requests) (reply ++ replies) (result ∷ results) v'
