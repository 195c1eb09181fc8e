-- ===== src/Tests/Client.antt =====
-- The operations of the client over two servers, one of them down; and both ends of a connection
-- whose peer has gone silent.
use ag_fs.Base.{◌≡◌, refl, false, [], ◌∷◌, ◌++◌, inl, none, some, ℤ, pos, negsuc, arith}
use ag_fs.Words.{Endian, little}
use ag_fs.Os.{Os}
use ag_fs.Constants.{cmd_none}
use ag_fs.Stat.{zero_stat}
use ag_fs.Text.{Text, codes}
use ag_fs.Io.{agfs_read_cmd}
use ag_fs.Io.Faults.{agfs_read_cmd_failed}
use ag_fs.Connection.{ServerConnection, connected, heartbeat}
use ag_fs.Connection.Heartbeat.{heartbeat_unanswered}
use ag_fs.Protocol.{getattr_reply}
use ag_fs.Client.{Connections}
use ag_fs.Client.Attributes.{agfs_getattr}
use ag_fs.Client.Attributes.First.{agfs_getattr-Down}
use ag_fs.Server.{Files}
use ag_fs.Server.Commands.{process_commands}
use ag_fs.Server.Commands.Beats.{process_commands_gone}
use ag_fs.Tests.Machine.{Machine, machine, holding, file_stat}

abbrev pub connection : Text → ℤ → ServerConnection
connection host fd = record {
  failed_command = false;
  connection_stopped = false;
  hostname = host;
  port = codes "8080";
  key = codes "K";
  socket = fd;
  closed = false;
}

abbrev pub down : ServerConnection
down = connection (codes "A") (negsuc 0)

abbrev pub up : ServerConnection
up = connection (codes "B") (pos 5)

abbrev pub both : Connections
both = (codes "A", down) ∷ (codes "B", up) ∷ []

abbrev answered : Machine
answered = holding (getattr_reply file_stat ++ [])

agfs_getattr-Down_example :
    agfs_getattr (machine little) ((codes "A", down) ∷ []) (codes "/a") answered
    ≡ ((pos 0, zero_stat), answered)
unfolding connected
agfs_getattr-Down_example =
    agfs_getattr-Down (machine little) ((codes "A", down) ∷ []) (codes "/a") answered (refl, tt)

-- A machine on which nothing arrives any more.
abbrev pub silent : Endian → Os
silent e = record (machine e) { read = λ fd n m. (none, m) }

heartbeat_unanswered_example : (heartbeat (silent little) up (holding [])).0 ≡ (pos 0, up)
heartbeat_unanswered_example = heartbeat_unanswered (silent little) up (holding []) refl

agfs_read_cmd_failed_example :
    (agfs_read_cmd (silent little) (pos 5) cmd_none (holding [])).0 ≡ (negsuc 0, 2816)
agfs_read_cmd_failed_example =
    agfs_read_cmd_failed (silent little) (pos 5) (holding []) cmd_none (omega arith) refl

abbrev silent_files : Files (silent little)
silent_files = record {
  join = λ a b. a ++ b;
  lstat = λ path m. (none, m);
  access = λ path mask m. (pos 0, m);
  open_file = λ path flags m. (negsuc 0, m);
  lseek = λ fd offset m. (pos offset, m);
  exists = λ path m. (false, m);
  is_directory = λ path m. (false, m);
  entries = λ path m. ([], m);
}

process_commands_gone_example :
    (process_commands
      (silent little)
      silent_files
      6
      (record { mount_point = codes "/srv"; socket = pos 4; beats_missed = 0 })
      (holding [])).0
    ≡ some (record { mount_point = codes "/srv"; socket = negsuc 0; beats_missed = 6 })
process_commands_gone_example =
    process_commands_gone (silent little) silent_files (pos 4) (λ n s. inl refl) 6 (codes "/srv")
      (holding []) (omega arith)
