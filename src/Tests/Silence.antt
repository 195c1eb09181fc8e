-- ===== src/Tests/Silence.antt =====
-- A client whose server does not answer, and a server that counts the reads which bring nothing.
use ag_fs.Base.{◌≡◌, ◌⊎◌, refl, [], ◌∷◌, inl, some, pos, negsuc, arith}
use ag_fs.Words.{little, big}
use ag_fs.Text.{Text, codes, str_eq, find}
use ag_fs.SortedMap
use ag_fs.Io.Frames.{cmd_frame}
use ag_fs.Constants.{cmd_heartbeat}
use ag_fs.Connection.{connected, getattr}
use ag_fs.Connection.Silence.{IsBlank}
use ag_fs.Disambiguater.{ambiguate}
use ag_fs.Client.{FileHandle}
use ag_fs.Client.Attributes.{agfs_getattr}
use ag_fs.Client.Attributes.First.{skip, done}
use ag_fs.Client.Contents.{agfs_open, agfs_read}
use ag_fs.Client.Directories.{agfs_readdir}
use ag_fs.Client.Silence.{dots, agfs_unanswered, agfs_getattr_hidden}
use ag_fs.Server.{ClientConnection}
use ag_fs.Server.Commands.{command_loop}
use ag_fs.Server.Commands.Misses.{missed_reads, Counted, command_loop-missed_reads}
use ag_fs.Tests.Machine.{Machine, machine, holding, files}
use ag_fs.Tests.Client.{silent, up, both}

abbrev pub name : Text
name = codes "/a{:B:}"

abbrev pub handle : FileHandle
handle = record { server = codes "B"; file = codes "/a" }

agfs_unanswered_example :
    ((agfs_getattr (silent little) both name (holding [])).0.0 ≡ pos 0)
    × IsBlank (agfs_getattr (silent little) both name (holding [])).0.1
    × ((agfs_readdir (silent little) both name (holding [])).0 ≡ (pos 0, dots))
    × ((agfs_open (silent little) both name 0 (holding [])).0 ≡ (pos 0, some handle))
    × ((agfs_read (silent little) both handle 10 0 (holding [])).0.1 ≡ [])
    × (((agfs_read (silent little) both handle 10 0 (holding [])).0.0 ≡ pos 0)
        ⊎ ((agfs_read (silent little) both handle 10 0 (holding [])).0.0 ≡ negsuc 0))
unfolding connected find SortedMap.find ambiguate str_eq
agfs_unanswered_example =
    agfs_unanswered (silent little) both (holding []) up name b'B' [] 0 10 0 refl (λ n s. inl refl)
      refl refl

-- The first connection is down, and the second server does not answer.
agfs_getattr_hidden_example :
    ((agfs_getattr (silent little) both (codes "/a") (holding [])).0.0 ≡ pos 0)
    × IsBlank (agfs_getattr (silent little) both (codes "/a") (holding [])).0.1
    × ((agfs_getattr (silent little) both (codes "/a") (holding [])).1
        ≡ (getattr (silent little) up (codes "/a") (holding [])).1)
unfolding connected find SortedMap.find ambiguate str_eq
agfs_getattr_hidden_example =
    agfs_getattr_hidden (silent little) both (holding []) (codes "/a") (codes "B") up
      ((codes "A", _) ∷ []) [] refl refl (skip refl (done _ _)) refl (λ n s. inl refl)

abbrev serving : ClientConnection
serving = record { mount_point = codes "/srv"; socket = pos 4; beats_missed = 3 }

-- A heartbeat, and two reads that bring nothing.
abbrev beating : Machine
beating = holding (cmd_frame cmd_heartbeat)

command_loop-missed_reads_example :
    Counted
      (machine big)
      (files big)
      serving
      (missed_reads (machine big) (files big) 3 serving beating)
      (command_loop (machine big) (files big) 3 serving beating).0
command_loop-missed_reads_example =
    command_loop-missed_reads (machine big) (files big) 3 serving beating (omega arith)
