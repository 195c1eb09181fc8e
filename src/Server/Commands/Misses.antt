-- ===== src/Server/Commands/Misses.antt =====
-- How many reads of a command may bring nothing in the whole life of a connection.
use ag_fs.Base.{
  ℕ, zero, suc, ◌+◌, ◌≤◌, ◌≡◌, refl, ◌∙◌, true, false, ◌⊎◌, inl, inr, Option, none, some, negsuc,
  is_pos, ltb, arith, Bool-cases, if◌then◌else◌,
}
use ag_fs.Monad.{◌>>=◌}
use ag_fs.Os.{Os}
use ag_fs.Constants.{cmd_getattr}
use ag_fs.Io.{agfs_read_cmd}
use ag_fs.Server.{Files, ClientConnection}
use ag_fs.Server.Commands.{Round, dispatch, miss_beat, command_round, command_loop}

module _ (os : Os) (files : Files os) where
  -- Whether the next round's read of a command brings nothing, as a number.
  abbrev missed : ClientConnection → os.State → ℕ
  missed c s = if is_pos (agfs_read_cmd os c.socket cmd_getattr s).0.0 then 0 else 1

  -- How many of the reads of commands bring nothing, in as many rounds as the fuel, as far as the
  -- loop goes on.
  pub missed_reads : ℕ → ClientConnection → os.State → ℕ
  missed_reads zero c s = 0
  missed_reads (suc fuel) c s =
      let next = command_round os files c s in
      let rest = missed_reads fuel next.0.1 next.1 in missed c s + (if next.0.0 then rest else 0)

  -- The round goes on with the same object, or closes the socket and leaves the count of beats.
  abbrev Kept : ClientConnection → Round → Type 0
  Kept c r = (r ≡ (true, c)) ⊎ (r ≡ (false, record c { socket = negsuc 0 }))

  -- So it is whatever the command is.
  dispatch-Kept :
      (c : ClientConnection) (cmd : ℕ) (s : os.State) → Kept c (dispatch os files c cmd s).0
  unfolding dispatch ◌>>=◌
  dispatch-Kept c cmd s = ground arith

  -- The object `d` follows `c` after `n` missed reads.
  record Follows (c d : ClientConnection) (n : ℕ) : Type 0 where
    mount_point : d.mount_point ≡ c.mount_point
    beats_missed : d.beats_missed ≡ c.beats_missed + n

  abbrev Went : ClientConnection → ℕ → Round → Type 0
  Went c n r =
      ((r.0 ≡ true) × Follows c r.1 n × (c.beats_missed + n ≤ 5))
      ⊎ ((r.0 ≡ false) × Follows c r.1 n × (c.beats_missed + n ≤ 6) × (r.1.socket ≡ negsuc 0))

  command_round-Went :
      (c : ClientConnection) (s : os.State)
      → c.beats_missed ≤ 5
      → Went c (missed c s) (command_round os files c s).0
  unfolding command_round miss_beat ◌>>=◌
  command_round-Went c s few =
      let got = agfs_read_cmd os c.socket cmd_getattr s in
      elim (Bool-cases (is_pos got.0.0)) [
        | inl command ↦ rw command (elim (dispatch-Kept c got.0.1 got.1) [
          | inl more ↦ rw more (ground arith)
          | inr last ↦ rw last (ground arith)
        ])
        | inr nothing ↦ rw nothing (elim (Bool-cases (ltb 5 (c.beats_missed + 1))) [
          | inl sixth ↦ rw sixth (ground arith)
          | inr more ↦ rw more (ground arith)
        ])
      ]

  -- How the loop stands after `n` missed reads: it goes on, or it has closed the socket.
  abbrev pub Counted : ClientConnection → ℕ → Option ClientConnection → Type 0
  Counted c n r =
      ((r ≡ none) × (c.beats_missed + n ≤ 5))
      ⊎ ((d : ClientConnection) × (r ≡ some d)
          × (d.mount_point ≡ c.mount_point)
          × (d.socket ≡ negsuc 0)
          × (d.beats_missed ≡ c.beats_missed + n)
          × (c.beats_missed + n ≤ 6))

  Counted-Follows :
      (c d : ClientConnection) (m n : ℕ) {r : Option ClientConnection}
      → Follows c d m
      → Counted d n r
      → Counted c (m + n) r
  Counted-Follows c d m n follows (inl (on, few)) = inl (on, omega (arith, follows.beats_missed))
  Counted-Follows c d m n follows (inr (e, ended, mount, closed, beats, few)) = inr (
    e,
    ended,
    mount ∙ follows.mount_point,
    closed,
    omega (arith, follows.beats_missed),
    omega (arith, follows.beats_missed),
  )

  -- Whatever the client sends and whatever the system answers, from an object with at most five
  -- missed beats and in any number of rounds: the loop's count of missed beats has grown by the
  -- number of all reads of a command that brought nothing, and no command resets it. If the loop
  -- still goes on, the count is five at most; if it has ended, it is six at most, the socket is
  -- closed and the mount point is what it was.
  pub command_loop-missed_reads :
      (fuel : ℕ) (c : ClientConnection) (s : os.State)
      → c.beats_missed ≤ 5
      → Counted c (missed_reads fuel c s) (command_loop os files fuel c s).0
  unfolding command_loop missed_reads ◌>>=◌
  command_loop-missed_reads zero c s few = inl (refl, omega arith)
  command_loop-missed_reads (suc fuel) c s few =
      let next = command_round os files c s in
      elim (command_round-Went c s few) [
        | inl (more, follows, left) ↦
            let rest =
              command_loop-missed_reads fuel next.0.1 next.1
                (omega (arith, follows.beats_missed)) in
            rw more (Counted-Follows c next.0.1 _ _ follows rest)
        | inr (last, follows, left, closed) ↦ rw last (
            inr (
              next.0.1,
              refl,
              follows.mount_point,
              closed,
              omega (arith, follows.beats_missed),
              omega arith,
            ))
      ]
