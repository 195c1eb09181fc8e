-- ===== src/Tests/Io.antt =====
-- The round trips of src/agfsio.cpp at concrete values, from a host that stores the lowest byte
-- first to one that stores the highest first.
use ag_fs.Base.{ℕ, refl, List, [], ◌∷◌, pos, arith}
use ag_fs.Words.{little, big, le_bytes, of_le, be_bytes, store, htobe, bswap}
use ag_fs.Monad.{◌>>=◌}
use ag_fs.Stat.{sent_part}
use ag_fs.Text.{codes}
use ag_fs.Io.{
  agfs_write_size, agfs_write_stat, write_object, agfs_read_string, agfs_read_stat,
  agfs_write_string,
}
use ag_fs.Io.Frames.{stat_frame, IsText}
use ag_fs.Io.RoundTrip.{Delivers, read_string-write_string, read_stat-write_stat}
use ag_fs.Tests.Machine.{machine, ends, stream, holding, file_stat}

abbrev text : List ℕ
text = codes "/srv"

abbrev string_bytes : List ℕ
string_bytes = 0 ∷ 0 ∷ 0 ∷ 0 ∷ 0 ∷ 0 ∷ 0 ∷ 4 ∷ codes "/srv"

text-IsText : IsText text
text-IsText = omega arith

read_string-write_string_example :
    Delivers
      (ends little)
      (agfs_read_string (machine little) (pos 4) [])
      (holding string_bytes)
      (pos 12, text)
      []
unfolding agfs_write_string agfs_write_size write_object store htobe bswap le_bytes of_le ◌>>=◌
read_string-write_string_example =
    read_string-write_string (machine little) (machine little) (stream little (pos 3))
      (stream little (pos 4)) (holding []) (holding string_bytes) text [] string_bytes []
      text-IsText (omega arith) refl refl

read_stat-write_stat_example :
    Delivers
      (ends big)
      (agfs_read_stat (machine big) (pos 4))
      (holding (stat_frame file_stat))
      (pos 44, sent_part file_stat)
      []
unfolding agfs_write_stat agfs_write_size write_object store htobe bswap le_bytes of_le be_bytes
    ◌>>=◌
read_stat-write_stat_example =
    read_stat-write_stat (machine little) (machine big) (stream little (pos 3)) (stream big (pos 4))
      (holding []) (holding (stat_frame file_stat)) file_stat (stat_frame file_stat) []
      (omega arith) refl refl
