-- ===== src/Tests/Local.antt =====
-- A symbolic link whose target fills the buffer.
use ag_fs.Base.{ℕ, zero, suc, ◌≤◌, List, [], ◌∷◌, length, take, some, pos, arith}
use ag_fs.Words.{little}
use ag_fs.Text.{codes}
use ag_fs.Client.Local.{LocalCalls, agfs_readlink}
use ag_fs.Client.Local.Bounds.{Answered, agfs_readlink-Answered}
use ag_fs.Tests.Machine.{machine, holding}

abbrev pub calls : LocalCalls (machine little)
calls = record {
  readlink = λ path n m. (some (take n (codes "target")), m);
  create_file = λ path mode m. (pos 3, m);
  mkfifo = λ path mode m. (pos 0, m);
  mknod = λ path mode rdev m. (pos 0, m);
  mkdir = λ path mode m. (pos 0, m);
  unlink = λ path m. (pos 0, m);
  rmdir = λ path m. (pos 0, m);
  symlink = λ to from m. (pos 0, m);
  rename = λ from to m. (pos 0, m);
  link = λ from to m. (pos 0, m);
  chmod = λ path mode m. (pos 0, m);
  lchown = λ path uid gid m. (pos 0, m);
  truncate = λ path size m. (pos 0, m);
  utimes = λ path a b m. (pos 0, m);
  statvfs = λ path m. (pos 0, m);
}

length-take_le : (n : ℕ) (xs : List ℕ) → length (take n xs) ≤ n
length-take_le zero xs = omega arith
length-take_le (suc n) [] = omega arith
length-take_le (suc n) (x ∷ xs) = omega (arith, length-take_le n xs)

agfs_readlink-Answered_example :
    Answered 4 0
      (some (codes "tar"))
      (agfs_readlink (machine little) calls (codes "l") 4 (holding [])).0
agfs_readlink-Answered_example =
    agfs_readlink-Answered (machine little) calls (codes "l") 4 (holding []) (omega arith)
      (omega arith) (λ n. length-take_le n (codes "target"))
