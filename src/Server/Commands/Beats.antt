-- ===== src/Server/Commands/Beats.antt =====
-- How the loop of processCommands ends when nothing arrives any more.
use ag_fs.Base.{
  ℕ, zero, suc, ◌+◌, ◌≤◌, ◌≡◌, false, List, inl, inr, some, ℤ, negsuc, is_pos, ltb, arith,
  Bool-cases,
}
use ag_fs.Monad.{◌>>=◌}
use ag_fs.Os.{Os}
use ag_fs.Constants.{cmd_getattr}
use ag_fs.Io.{agfs_read_cmd, read_object}
use ag_fs.Io.Faults.{Gone}
use ag_fs.Server.{Files, ClientConnection}
use ag_fs.Server.Commands.{miss_beat, command_round, command_loop, process_commands}

module _ (os : Os) (files : Files os) (fd : ℤ) (gone : Gone os fd) where
  no_command : (cmd : ℕ) (s : os.State) → is_pos (agfs_read_cmd os fd cmd s).0.0 ≡ false
  unfolding agfs_read_cmd read_object ◌>>=◌
  no_command cmd s = elim (gone 2 s) [ inl failed ↦ rw failed | inr ended ↦ rw ended ]

  round_gone :
      (mount : List ℕ) (beats : ℕ) (s : os.State)
      → let c : ClientConnection = record {
        mount_point = mount;
        socket = fd;
        beats_missed = beats;
      } in
        command_round os files c s ≡ miss_beat os files c (agfs_read_cmd os fd cmd_getattr s).1
  unfolding command_round ◌>>=◌
  round_gone mount beats s = rw (no_command cmd_getattr s)

  loop_gone :
      (fuel : ℕ) (mount : List ℕ) (beats : ℕ) (s : os.State)
      → 6 ≤ fuel + beats
      → beats ≤ 5
      → let c : ClientConnection = record {
        mount_point = mount;
        socket = fd;
        beats_missed = beats;
      } in
        (command_loop os files fuel c s).0
        ≡ some (record { mount_point = mount; socket = negsuc 0; beats_missed = 6 })
  unfolding command_loop miss_beat ◌>>=◌
  loop_gone zero mount beats s enough few = absurd (omega arith)
  loop_gone (suc fuel) mount beats s enough few = elim (Bool-cases (ltb 5 (beats + 1))) [
    | inl last ↦ rw (round_gone, last) (let e : beats + 1 ≡ 6 = ground arith in rw e)
    | inr more ↦
        rw (round_gone, more) (loop_gone fuel mount (beats + 1) _ (omega arith) (ground arith))
  ]

  -- A server whose client is gone does not run on: from the state that the constructor leaves, the
  -- loop of processCommands ends with its sixth round, with the socket closed.
  pub process_commands_gone :
      (fuel : ℕ) (mount : List ℕ) (s : os.State)
      → 6 ≤ fuel
      → (process_commands os files fuel
          (record { mount_point = mount; socket = fd; beats_missed = 0 })
          s).0
        ≡ some (record { mount_point = mount; socket = negsuc 0; beats_missed = 6 })
  unfolding process_commands ◌>>=◌
  process_commands_gone fuel mount s enough = loop_gone fuel mount 0 _ (omega arith) (omega arith)
