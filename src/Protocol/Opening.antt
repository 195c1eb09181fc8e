-- ===== src/Protocol/Opening.antt =====
-- An open of the client against a round of the server. `s` is the client's machine and `s'` the
-- server's.
use ag_fs.Base.{ℕ, suc, ◌^◌, ◌<◌, ◌≡◌, refl, true, List, ◌++◌, ℤ, pos, negsuc, arith}
use ag_fs.Os.{Os}
use ag_fs.Os.Stream.{Ends, Stream, Reached, Quiet, Errno}
use ag_fs.Text.{Text}
use ag_fs.Io.Frames.{IsText, error_frame}
use ag_fs.Connection.{ServerConnection, open_path}
use ag_fs.Connection.Calls.{open_path-Talks}
use ag_fs.Server.{Files, ClientConnection}
use ag_fs.Server.Handlers.Answers.{process_open-Talks, process_open-Talks_failed}
use ag_fs.Server.Commands.{command_round}
use ag_fs.Server.Commands.Rounds.{round_open}
use ag_fs.Protocol.{open_request}

-- What the server answers to an open, from the descriptor that it got: 0, or -errno.
pub data OpenAnswer (host : Os) {V : Type 0} (E : Ends host.State V) (v₁ : V) : ℤ → ℤ → Type 0 where
  was_opened : {fd : ℕ} → OpenAnswer host E v₁ (pos fd) (pos 0)
  was_refused :
      {k n : ℕ}
      → suc n < 2 ^ 63
      → Errno host E v₁ (suc n)
      → OpenAnswer host E v₁ (negsuc k) (negsuc n)

module _ (client host : Os) (files : Files host) (c : ServerConnection) (d : ClientConnection)
    {W V : Type 0} (t : Stream client c.socket W) (u : Stream host d.socket V) (s : client.State)
    (s' : host.State) (rest rest' : List ℕ) (path : Text) (text : IsText path) (v' : V) where
  -- An open of a file that the server cannot open, where each end finds what the other writes: the
  -- client has the server's -errno, and the server goes on, whatever close says of descriptor -1.
  open_remote_failed :
      {v₁ : V} (mask k n : ℕ) (code : ℤ)
      → mask < 2 ^ 32
      → suc n < 2 ^ 63
      → Quiet u.ends
          (files.open_file (files.join d.mount_point path) mask)
          (u.ends.view s')
          (negsuc k)
          v₁
      → Errno host u.ends v₁ (suc n)
      → Quiet u.ends (host.close (negsuc k)) v₁ code v'
      → t.ends.inbox s ≡ error_frame (negsuc n) ++ rest
      → u.ends.inbox s' ≡ open_request path mask ++ rest'
      → Reached t.ends
          (open_path client c path mask)
          s
          rest
          (open_request path mask)
          (negsuc n)
          (t.ends.view s)
        × Reached u.ends (command_round host files d) s' rest' (error_frame (negsuc n)) (true, d) v'
  open_remote_failed mask k n code lt lt' opened errno shut hc hs = (
    (open_path-Talks client c t (t.ends.view s) path mask (negsuc n) (omega arith)).at s rest refl
        hc,
    (round_open host files d u (
          process_open-Talks_failed host files d u path text mask k n code lt opened errno shut)).at
        s' rest' refl hs,
  )

  -- An open of the client against one round of the server, where each end finds what the other
  -- writes, whatever the server's open and the close behind it answer: the client has 0 if the
  -- server could open the file, and the server's -errno otherwise, and the server goes on.
  pub open_remote :
      {v₁ : V} (mask : ℕ) (fd err code : ℤ)
      → mask < 2 ^ 32
      → Quiet u.ends (files.open_file (files.join d.mount_point path) mask) (u.ends.view s') fd v₁
      → OpenAnswer host u.ends v₁ fd err
      → Quiet u.ends (host.close fd) v₁ code v'
      → t.ends.inbox s ≡ error_frame err ++ rest
      → u.ends.inbox s' ≡ open_request path mask ++ rest'
      → Reached t.ends
          (open_path client c path mask)
          s
          rest
          (open_request path mask)
          err
          (t.ends.view s)
        × Reached u.ends (command_round host files d) s' rest' (error_frame err) (true, d) v'
  open_remote mask (pos fd) err code lt found was_opened shut hc hs = (
    (open_path-Talks client c t (t.ends.view s) path mask (pos 0) (omega arith)).at s rest refl hc,
    (round_open host files d u
          (process_open-Talks host files d u path text mask fd code lt found shut)).at
        s' rest' refl hs,
  )
  open_remote mask (negsuc k) err code lt found (was_refused {n = n} fits errno) shut hc hs =
      open_remote_failed mask k n code lt fits found errno shut hc hs
