-- ===== src/Client/Attributes/Answers.antt =====
-- agfs_getattr of a name without a server, from the bytes on the sockets of all servers to what FUSE
-- gets.
use ag_fs.Base.{
  ℕ, ◌≡◌, refl, ap, ◌∙◌, true, false, List, [], ◌∷◌, ◌++◌, none, ℤ, pos, negsuc, is_neg,
  if◌then◌else◌,
}
use ag_fs.Words.Laws.{IsInt64}
use ag_fs.Monad.{◌>>=◌}
use ag_fs.Os.{Os}
use ag_fs.Os.Sockets.{Bytes, put, Sockets, stream_of, around, Exchanged, Talks-Exchanged}
use ag_fs.Stat.{Stat, zero_stat, FitsStat, sent_part}
use ag_fs.Text.{Text}
use ag_fs.Io.Frames.{error_frame}
use ag_fs.SortedMap
use ag_fs.Protocol.{getattr_request, getattr_reply}
use ag_fs.Connection.{ServerConnection, getattr, connected}
use ag_fs.Connection.Calls.{getattr-Talks, getattr-Talks_failed}
use ag_fs.Disambiguater.{ambiguate}
use ag_fs.Client.{Connections, connected_entry, to_int}
use ag_fs.Client.Attributes.{agfs_getattr, first_getattr}

-- The bytes to read and the bytes written, on every socket.
pub record Traffic : Type 0 where
  pub incoming : Bytes
  pub outgoing : Bytes

-- A request has been written on a socket, and its answer read.
abbrev pub after_call : ℤ → List ℕ → List ℕ → Traffic → Traffic
after_call fd request rest t = record {
  incoming = put fd rest t.incoming;
  outgoing = put fd (t.outgoing fd ++ request) t.outgoing;
}

-- The servers asked one after the other for the attributes of a file, with the result so far: a
-- connection that is closed is passed over; a server whose answer is an error is asked, and the next
-- one too; with a server whose answer is a stat it ends.
pub data Asking (file : Text) : Connections → Traffic → Stat × ℤ → Stat × ℤ → Traffic → Type 0 where
  exhausted : {t : Traffic} {r : Stat × ℤ} → Asking file [] t r r t
  closed :
      {host : Text} {c : ServerConnection} {more : Connections} {t t' : Traffic} {r r' : Stat × ℤ}
      → connected c ≡ false
      → Asking file more t r r' t'
      → Asking file ((host, c) ∷ more) t r r' t'
  fails :
      {host : Text} {c : ServerConnection} {more : Connections} {t t' : Traffic} {r r' : Stat × ℤ}
      (n : ℕ) (rest : List ℕ)
      → connected c ≡ true
      → IsInt64 (negsuc n)
      → t.incoming c.socket ≡ error_frame (negsuc n) ++ rest
      → Asking file more
          (after_call c.socket (getattr_request file) rest t)
          (zero_stat, negsuc n)
          r'
          t'
      → Asking file ((host, c) ∷ more) t r r' t'
  succeeds :
      {host : Text} {c : ServerConnection} {more : Connections} {t t' : Traffic} {r r' : Stat × ℤ}
      (st : Stat) (rest : List ℕ)
      → connected c ≡ true
      → FitsStat st
      → t.incoming c.socket ≡ getattr_reply st ++ rest
      → r' ≡ (sent_part st, pos 0)
      → t' ≡ after_call c.socket (getattr_request file) rest t
      → Asking file ((host, c) ∷ more) t r r' t'

module _ (os : Os) {W : Type 0} (sockets : Sockets os W) where
  abbrev pub traffic : os.State → Traffic
  traffic s = record { incoming = sockets.inbox s; outgoing = sockets.outbox s }

  module _ (file : Text) where
    -- A call on one socket, as a change of the traffic.
    Exchanged-after_call :
        (c : ServerConnection) (fd : ℤ) {rest request : List ℕ} {a : Stat × ℤ} (s : os.State)
        {t : Traffic}
        → Exchanged os sockets fd (getattr os c file) s rest request a
        → traffic s ≡ t
        → traffic (getattr os c file s).1 ≡ after_call fd request rest t
    Exchanged-after_call c fd {rest} {request} s asked e =
        (λ i. record { incoming = asked.inbox i; outgoing = asked.outbox i })
        ∙ ap (after_call fd request rest) e

    first_getattr-Asking :
        {connections : Connections} {t t' : Traffic} {r r' : Stat × ℤ} (s : os.State)
        → traffic s ≡ t
        → Asking file connections t r r' t'
        → ((first_getattr os connections file r s).0 ≡ r')
          × (traffic (first_getattr os connections file r s).1 ≡ t')
    unfolding first_getattr ◌>>=◌
    first_getattr-Asking s e exhausted = (refl, e)
    first_getattr-Asking s e (closed down more) = rw down (first_getattr-Asking s e more)
    first_getattr-Asking s e (fails {c = c} n rest up fits here more) =
        let asked =
          Talks-Exchanged os sockets c.socket s rest
            (getattr-Talks_failed os c (stream_of os sockets c.socket)
              (around os sockets c.socket s) file n fits)
            (ap (λ (t : Traffic). t.incoming c.socket) e ∙ here) in
        rw (up, asked.result)
          (first_getattr-Asking _ (Exchanged-after_call c c.socket s asked e) more)
    first_getattr-Asking s e (succeeds {c = c} st rest up fits here found left) =
        let asked =
          Talks-Exchanged os sockets c.socket s rest
            (getattr-Talks os c (stream_of os sockets c.socket) (around os sockets c.socket s) file
              st fits)
            (ap (λ (t : Traffic). t.incoming c.socket) e ∙ here) in
        rw (up, asked.result, found, left) (refl, Exchanged-after_call c c.socket s asked e)

  -- A name whose server is not connected, or without a server: agfs_getattr asks the connections that
  -- are up, in the order of their hosts and each once, until a server answers a stat; it reads
  -- exactly their answers and writes on no other socket. FUSE gets 0 and the sent members of that
  -- stat; or, if no server answers one, the error of the last that was asked, as an int, and a
  -- zeroed stat; or 0 and a zeroed stat if none was up.
  pub agfs_getattr_answers :
      (connections : Connections) (path : Text) (s : os.State) {r : Stat × ℤ} {t : Traffic}
      → connected_entry (SortedMap.find (ambiguate path).0 connections) ≡ none
      → Asking (ambiguate path).1 connections (traffic s) (zero_stat, pos 0) r t
      → let got = agfs_getattr os connections path s in
        (got.0 ≡ (to_int r.1, if is_neg r.1 then zero_stat else r.0)) × (traffic got.1 ≡ t)
  unfolding agfs_getattr ◌>>=◌
  agfs_getattr_answers connections path s unnamed asking =
      let asked = first_getattr-Asking (ambiguate path).1 s refl asking in
      rw (unnamed, asked.0) (refl, asked.1)
