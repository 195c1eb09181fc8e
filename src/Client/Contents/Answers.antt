-- ===== src/Client/Contents/Answers.antt =====
-- agfs_open of a name without a server, from the bytes on the sockets of all servers to what FUSE
-- gets.
use ag_fs.Base.{
  ℕ, ◌^◌, ◌<◌, ◌≡◌, ◌≢◌, refl, ap, ◌∙◌, true, List, [], ◌∷◌, ◌++◌, length, none, some, ℤ, pos, neg,
  negsuc, is_neg, if◌then◌else◌, arith,
}
use ag_fs.Words.Laws.{IsInt64}
use ag_fs.Monad.{◌>>=◌}
use ag_fs.Os.{Os}
use ag_fs.Os.Sockets.{Bytes, put, Sockets, stream_of, around, Exchanged, Talks-Exchanged}
use ag_fs.Constants.{enoent}
use ag_fs.Text.{Text}
use ag_fs.Io.Frames.{error_frame}
use ag_fs.SortedMap
use ag_fs.Protocol.{access_request, open_request}
use ag_fs.Connection.{ServerConnection, access, open_path, connected}
use ag_fs.Connection.Calls.{access-Talks, open_path-Talks}
use ag_fs.Disambiguater.{ambiguate}
use ag_fs.Client.{Connections, FileHandle, check_existance, f_ok, to_int}
use ag_fs.Client.Contents.{agfs_open, choose}
use ag_fs.Client.Contents.Opening.{agfs_open_unclear}
use ag_fs.Client.Directories.Answers.{asked_all}

-- On the socket of every connection stands the answer of its server to an access: the hosts whose
-- server grants it, and the bytes that are left.
pub data Granting : Connections → Bytes → List Text → Bytes → Type 0 where
  nobody : {f : Bytes} → Granting [] f [] f
  grants :
      {host : Text} {c : ServerConnection} {more : Connections} {f g : Bytes} {hosts : List Text}
      (n : ℕ) (rest : List ℕ)
      → n < 2 ^ 63
      → f c.socket ≡ error_frame (pos n) ++ rest
      → Granting more (put c.socket rest f) hosts g
      → Granting ((host, c) ∷ more) f (host ∷ hosts) g
  denies :
      {host : Text} {c : ServerConnection} {more : Connections} {f g : Bytes} {hosts : List Text}
      (n : ℕ) (rest : List ℕ)
      → IsInt64 (negsuc n)
      → f c.socket ≡ error_frame (negsuc n) ++ rest
      → Granting more (put c.socket rest f) hosts g
      → Granting ((host, c) ∷ more) f hosts g

module _ (os : Os) {W : Type 0} (sockets : Sockets os W) (path : Text) where
  access_answered :
      (c : ServerConnection) (mask : ℕ) (err : ℤ) (rest : List ℕ) (s : os.State)
      → IsInt64 err
      → sockets.inbox s c.socket ≡ error_frame err ++ rest
      → Exchanged os sockets c.socket (access os c path mask) s rest (access_request path mask) err
  access_answered c mask err rest s fits here =
      Talks-Exchanged os sockets c.socket s rest
        (access-Talks os c (stream_of os sockets c.socket) (around os sockets c.socket s) path mask
          err fits)
        here

  open_answered :
      (c : ServerConnection) (flags : ℕ) (err : ℤ) (rest : List ℕ) (s : os.State)
      → IsInt64 err
      → sockets.inbox s c.socket ≡ error_frame err ++ rest
      → Exchanged os sockets c.socket
          (open_path os c path flags)
          s
          rest
          (open_request path flags)
          err
  open_answered c flags err rest s fits here =
      Talks-Exchanged os sockets c.socket s rest
        (open_path-Talks os c (stream_of os sockets c.socket) (around os sockets c.socket s) path
          flags err fits)
        here

module _ (os : Os) {W : Type 0} (sockets : Sockets os W) (path : Text) where
  -- All servers were asked for access, and these grant it.
  record Found (connections : Connections) (s : os.State) (hosts : List Text) (g : Bytes)
      : Type 0 where
    result : (check_existance os connections path s).0 ≡ hosts
    inbox : sockets.inbox (check_existance os connections path s).1 ≡ g
    outbox :
        sockets.outbox (check_existance os connections path s).1
        ≡ asked_all connections (access_request path f_ok) (sockets.outbox s)

  check_existance-Found :
      {connections : Connections} {f g : Bytes} {hosts : List Text} (s : os.State)
      → sockets.inbox s ≡ f
      → Granting connections f hosts g
      → Found connections s hosts g
  unfolding check_existance ◌>>=◌
  check_existance-Found s e nobody = record { result = refl; inbox = e; outbox = refl }
  check_existance-Found s e
        (grants {host = host} {c = c} {more = connections} n rest lt here more) =
      let asked =
        access_answered os sockets path c f_ok (pos n) rest s (omega arith)
          (ap (λ (h : Bytes). h c.socket) e ∙ here) in
      let others = check_existance-Found _ (asked.inbox ∙ ap (put c.socket rest) e) more in
      record {
        result = rw asked.result (ap (λ l. host ∷ l) others.result);
        inbox = rw asked.result others.inbox;
        outbox =
            rw asked.result
              (others.outbox ∙ ap (asked_all connections (access_request path f_ok)) asked.outbox);
      }
  check_existance-Found s e (denies {c = c} {more = connections} n rest fits here more) =
      let asked =
        access_answered os sockets path c f_ok (negsuc n) rest s fits
          (ap (λ (h : Bytes). h c.socket) e ∙ here) in
      let others = check_existance-Found _ (asked.inbox ∙ ap (put c.socket rest) e) more in
      record {
        result = rw asked.result others.result;
        inbox = rw asked.result others.inbox;
        outbox =
            rw asked.result
              (others.outbox ∙ ap (asked_all connections (access_request path f_ok)) asked.outbox);
      }

  -- A name without a server. On the socket of every connection stands the answer of its server to an
  -- access of that name, and exactly one server grants it: its connection is up, and behind its
  -- answer to the access stands its answer to an open. Then agfs_open gives the result of that open
  -- as an int, and a handle that names this server and the file if the result is not negative, and
  -- none otherwise. It has read exactly these answers; it has written the request for access on the
  -- socket of each connection, and then the request to open on the socket of that server alone.
  pub agfs_open_answers :
      (connections : Connections) (flags : ℕ) (host : Text) (c : ServerConnection) (err : ℤ)
      (rest : List ℕ) (s : os.State) {g : Bytes}
      → (ambiguate path).0 ≡ []
      → Granting connections (sockets.inbox s) (host ∷ []) g
      → SortedMap.find host connections ≡ some c
      → connected c ≡ true
      → IsInt64 err
      → g c.socket ≡ error_frame err ++ rest
      → let r = agfs_open os connections path flags s in
        let file = (ambiguate path).1 in
        let asked = asked_all connections (access_request path f_ok) (sockets.outbox s) in
        let handle : FileHandle = record { server = host; file = file } in
        (r.0 ≡ (to_int err, if is_neg err then none else some handle))
        × (sockets.inbox r.1 ≡ put c.socket rest g)
        × (sockets.outbox r.1 ≡ put c.socket (asked c.socket ++ open_request file flags) asked)
  unfolding agfs_open ◌>>=◌
  agfs_open_answers connections flags host c err rest s {g} plain granted found up fits here =
      let one = check_existance-Found s refl granted in
      let after = (check_existance os connections path s).1 in
      let request = open_request (ambiguate path).1 flags in
      let opened =
        open_answered os sockets (ambiguate path).1 c flags err rest after fits
          (ap (λ (h : Bytes). h c.socket) one.inbox ∙ here) in
      rw (plain, choose, one.result, found, up, opened.result)
        (
          refl,
          opened.inbox ∙ ap (put c.socket rest) one.inbox,
          opened.outbox ∙ ap (λ (o : Bytes). put c.socket (o c.socket ++ request) o) one.outbox,
        )

  -- A name without a server that no server grants access to, or more than one, is not opened: the
  -- result is -ENOENT, there is no handle, every answer to the access is read, and nothing but the
  -- request for access is written on any socket.
  pub agfs_open_unclear_answers :
      (connections : Connections) (flags : ℕ) (hosts : List Text) (s : os.State) {g : Bytes}
      → (ambiguate path).0 ≡ []
      → Granting connections (sockets.inbox s) hosts g
      → length hosts ≢ 1
      → let r = agfs_open os connections path flags s in
        (r.0 ≡ (neg enoent, none))
        × (sockets.inbox r.1 ≡ g)
        × (sockets.outbox r.1 ≡ asked_all connections (access_request path f_ok) (sockets.outbox s))
  agfs_open_unclear_answers connections flags hosts s plain granted several =
      let many = check_existance-Found s refl granted in
      let after = (check_existance os connections path s).1 in
      rw
        (agfs_open_unclear os connections path flags s hosts {s' = after} plain
          (λ i. (many.result i, after)) several)
        (refl, many.inbox, many.outbox)
