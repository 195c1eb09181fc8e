-- ===== src/Io/Frames.antt =====
-- The bytes on the wire: every number in network order, a string behind its length, and the six
-- members of a stat struct one after the other.
use ag_fs.Base.{ℕ, ◌-◌, ◌^◌, ◌<◌, ◌≢◌, List, ◌++◌, length, All, ℤ, pos}
use ag_fs.Words.{be_bytes, to_word, to_int}
use ag_fs.Stat.{Stat}
use ag_fs.Io.{add_int}

abbrev pub cmd_frame : ℕ → List ℕ
cmd_frame cmd = be_bytes 2 cmd

abbrev pub mask_frame : ℕ → List ℕ
mask_frame mask = be_bytes 4 mask

abbrev pub size_frame : ℕ → List ℕ
size_frame size = be_bytes 8 size

abbrev pub error_frame : ℤ → List ℕ
error_frame err = be_bytes 8 (to_word err)

abbrev pub string_frame : List ℕ → List ℕ
string_frame str = size_frame (length str) ++ str

abbrev pub stat_frame : Stat → List ℕ
stat_frame st =
    be_bytes 8 st.st_dev
    ++ (be_bytes 4 st.st_mode
        ++ (size_frame st.st_size
            ++ (be_bytes 8 st.st_atime ++ (be_bytes 8 st.st_mtime ++ be_bytes 8 st.st_ctime))))

-- What agfs_write_string and agfs_read_string return for `n` bytes behind the length.
abbrev pub string_result : ℕ → ℤ
string_result n = add_int (pos 8) (to_int (pos n))

-- A string that a C string can hold, and whose length a size can.
pub record IsText (str : List ℕ) : Type 0 where
  pub no_nul : All (λ c. c ≢ 0) str
  pub fits : length str < 2 ^ 64 - 1
