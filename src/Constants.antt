-- ===== src/Constants.antt =====
-- src/constants.hpp: the commands on the wire; and the error numbers of <errno.h>
-- that the programs name.
use ag_fs.Base.{ℕ}

abbrev pub cmd_stop : ℕ
cmd_stop = 0

abbrev pub cmd_heartbeat : ℕ
cmd_heartbeat = 1

abbrev pub cmd_getattr : ℕ
cmd_getattr = 2

abbrev pub cmd_accept : ℕ
cmd_accept = 3

abbrev pub cmd_invalid_key : ℕ
cmd_invalid_key = 4

abbrev pub cmd_mount_not_found : ℕ
cmd_mount_not_found = 5

abbrev pub cmd_user_not_found : ℕ
cmd_user_not_found = 6

abbrev pub cmd_access : ℕ
cmd_access = 7

abbrev pub cmd_readdir : ℕ
cmd_readdir = 8

abbrev pub cmd_read : ℕ
cmd_read = 9

abbrev pub cmd_write : ℕ
cmd_write = 10

abbrev pub cmd_none : ℕ
cmd_none = 11

abbrev pub cmd_open : ℕ
cmd_open = 12

-- ENOENT, EEXIST and ENOTDIR.
abbrev pub enoent : ℕ
enoent = 2

abbrev pub eexist : ℕ
eexist = 17

abbrev pub enotdir : ℕ
enotdir = 20
