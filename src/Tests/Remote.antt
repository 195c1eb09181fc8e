-- ===== src/Tests/Remote.antt =====
-- Calls of a client against a server that has one file.
use ag_fs.Base.{refl, true, false, List, [], ◌∷◌, ◌++◌, pos, neg, arith}
use ag_fs.Words.{little, big}
use ag_fs.Os.Stream.{Reached}
use ag_fs.Constants.{enotdir}
use ag_fs.Stat.{Stat, sent_part}
use ag_fs.Text.{Text, codes, str_eq}
use ag_fs.Io.Frames.{IsText, error_frame}
use ag_fs.Connection.{ServerConnection, getattr, readdir}
use ag_fs.Server.{ClientConnection}
use ag_fs.Server.Commands.{command_round}
use ag_fs.Protocol.{getattr_request, getattr_reply, readdir_request, readdir_reply}
use ag_fs.Protocol.Remote.{getattr_remote, readdir_remote, readdir_remote_failed}
use ag_fs.Tests.Machine.{Machine, machine, ends, stream, holding, unmoved, files, file_stat}

abbrev pub conn : ServerConnection
conn = record {
  failed_command = false;
  connection_stopped = false;
  hostname = codes "h";
  port = codes "8080";
  key = codes "K";
  socket = pos 5;
  closed = false;
}

abbrev pub served : ClientConnection
served = record { mount_point = codes "/srv"; socket = pos 4; beats_missed = 0 }

abbrev pub path : Text
path = codes "/a"

pub path-IsText : IsText path
path-IsText = omega arith

abbrev client : Machine
client = holding (getattr_reply file_stat ++ [])

abbrev host : Machine
host = holding (getattr_request path ++ [])

getattr_remote_example :
    Reached
      (ends little)
      (getattr (machine little) conn path)
      client
      []
      (getattr_request path)
      (sent_part file_stat, pos 0)
      0
    × Reached
        (ends big)
        (command_round (machine big) (files big) served)
        host
        []
        (getattr_reply file_stat)
        (true, served)
        0
unfolding str_eq
getattr_remote_example =
    getattr_remote (machine little) (machine big) (files big) conn served (stream little (pos 5))
      (stream big (pos 4)) client host [] [] path path-IsText 0 file_stat (omega arith)
      (unmoved big _ _ 0 (λ s. refl)) refl refl

abbrev gone : Text
gone = codes "/b"

abbrev listing : List (Text × Stat)
listing = (codes "a", file_stat) ∷ []

readdir_remote_example :
    Reached
      (ends little)
      (readdir (machine little) conn (codes "/"))
      (holding (readdir_reply listing ++ []))
      []
      (readdir_request (codes "/"))
      ((codes "a", sent_part file_stat) ∷ [], pos 0)
      0
    × Reached
        (ends big)
        (command_round (machine big) (files big) served)
        (holding (readdir_request (codes "/") ++ []))
        []
        (readdir_reply listing)
        (true, served)
        0
unfolding str_eq
readdir_remote_example =
    readdir_remote (machine little) (machine big) (files big) conn served (stream little (pos 5))
      (stream big (pos 4)) (holding (readdir_reply listing ++ []))
      (holding (readdir_request (codes "/") ++ [])) [] [] (codes "/") (omega arith) listing
      (((omega arith), (omega arith)), tt) (omega arith) (unmoved big _ _ 0 (λ s. refl))
      (unmoved big _ _ 0 (λ s. refl)) (unmoved big _ _ 0 (λ s. refl))
      (unmoved big _ _ 0 (λ s. refl), tt) refl refl

readdir_remote_failed_example :
    Reached
      (ends little)
      (readdir (machine little) conn gone)
      (holding (error_frame (neg enotdir) ++ []))
      []
      (readdir_request gone)
      ([], neg enotdir)
      0
    × Reached
        (ends big)
        (command_round (machine big) (files big) served)
        (holding (readdir_request gone ++ []))
        []
        (error_frame (neg enotdir))
        (true, served)
        0
unfolding str_eq
readdir_remote_failed_example =
    readdir_remote_failed (machine little) (machine big) (files big) conn served
      (stream little (pos 5)) (stream big (pos 4)) (holding (error_frame (neg enotdir) ++ []))
      (holding (readdir_request gone ++ [])) [] [] gone (omega arith) false
      (unmoved big _ _ 0 (λ s. refl)) (unmoved big _ _ 0 (λ s. refl)) refl refl
