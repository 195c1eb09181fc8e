-- ===== src/Connection/Connect.antt =====
-- ServerConnection::connect and dnsLookup of src/serverconnection.cpp, and the constructor.
use ag_fs.Base.{ℕ, Bool, true, false, ◌==◌, Option, none, some, ℤ, pos, negsuc, if◌then◌else◌}
use ag_fs.Monad.{M, pure, ◌>>=◌, ◌>>◌}
use ag_fs.Os.{Os}
use ag_fs.Constants.{cmd_accept, cmd_none}
use ag_fs.Text.{Text}
use ag_fs.Io.{agfs_read_cmd, agfs_write_string}
use ag_fs.Connection.{ServerConnection}

-- The calls of the system that find and open a connection.
pub record Network (os : Os) : Type 1 where
  pub Address : Type 0
  -- getaddrinfo(host, port): the first address; `none` is a result that is not 0
  pub getaddrinfo : Text → Text → M os.State (Option Address)
  -- socket(...): a descriptor or -1
  pub new_socket : Address → M os.State ℤ
  -- connect(fd, address): 0 or -1
  pub connect_to : ℤ → Address → M os.State ℤ
  -- setsockopt(fd, SO_RCVTIMEO, seconds and microseconds) and ioctl(fd, FIONBIO, 0)
  pub set_timeout : ℤ → ℕ → ℕ → M os.State (Unit {0})
  pub set_blocking : ℤ → M os.State (Unit {0})

abbrev pub client_block_sec : ℕ
client_block_sec = 1

abbrev pub client_block_usec : ℕ
client_block_usec = 0

abbrev pub dns_error : ℤ
dns_error = negsuc 0

abbrev pub socket_failure : ℤ
socket_failure = negsuc 1

abbrev pub connection_failure : ℤ
connection_failure = negsuc 2

-- The test `x == -1`.
abbrev pub is_minus_one : ℤ → Bool
is_minus_one (negsuc n) = n == 0
is_minus_one (pos n) = false

-- The switch on the descriptor: the three codes of failure, and the rest.
abbrev pub is_failure : ℤ → Bool
is_failure (negsuc n) = if n == 0 then true else if n == 1 then true else n == 2
is_failure (pos n) = false

module _ (os : Os) (net : Network os) where
  abbrev open_address : Option net.Address → M os.State ℤ
  open_address none = pure dns_error
  open_address (some address) = do
    fd ← net.new_socket address
    if is_minus_one fd then pure socket_failure else do
      result ← net.connect_to fd address
      if is_minus_one result then pure connection_failure else pure fd

  unfoldable pub dns_lookup : ServerConnection → Text → M os.State ℤ
  dns_lookup c port = do found ← net.getaddrinfo c.hostname port; open_address found

  unfoldable pub connect : ServerConnection → M os.State ServerConnection
  unfolding dns_lookup
  connect c = do
    fd ← dns_lookup c c.port
    if is_failure fd then pure (record c { socket = fd }) else do
      net.set_timeout fd client_block_sec client_block_usec
      net.set_blocking fd
      agfs_write_string os fd c.key
      (_, serv_resp) ← agfs_read_cmd os fd cmd_none
      if serv_resp == cmd_accept
          then pure (record c { socket = fd })
          else do os.close fd; pure (record c { socket = negsuc 0 })

  abbrev pub fresh : Text → Text → Text → ServerConnection
  fresh hostname port key = record {
    failed_command = false;
    connection_stopped = false;
    hostname = hostname;
    port = port;
    key = key;
    socket = negsuc 0;
    closed = false;
  }

  -- ServerConnection(hostname, port, key)
  unfoldable pub server_connection : Text → Text → Text → M os.State ServerConnection
  unfolding connect
  server_connection hostname port key = connect (fresh hostname port key)
