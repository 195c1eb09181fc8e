-- ===== src/Client/Directories/Answers.antt =====
-- The answers to a readdir as they stand on the sockets of all servers.
use ag_fs.Base.{
  ℕ, ◌^◌, ◌<◌, ◌≡◌, refl, ap, ◌∙◌, Bool-cases, List, [], ◌∷◌, ◌++◌, length, All, inl, inr, ℤ, pos,
  negsuc, is_neg,
}
use ag_fs.Words.Laws.{IsInt64}
use ag_fs.Monad.{◌>>=◌}
use ag_fs.Os.{Os}
use ag_fs.Os.Sockets.{Bytes, put, Sockets, stream_of, around, Exchanged, Talks-Exchanged}
use ag_fs.Stat.{Stat}
use ag_fs.Text.{Text}
use ag_fs.Io.Frames.{error_frame}
use ag_fs.Protocol.{readdir_request, readdir_reply}
use ag_fs.Connection.{ServerConnection, readdir}
use ag_fs.Connection.Calls.{sent_entries, IsEntry, readdir-Talks, readdir-Talks_failed}
use ag_fs.Disambiguater.{Disambiguater}
use ag_fs.Client.{Connections}
use ag_fs.Client.Directories.{merge}
use ag_fs.Client.Directories.Union.{Answer, answers}

-- On the socket of every connection stands the answer of its server to a readdir, a listing or an
-- error, with other bytes behind it: the entries as they arrive, by the servers that list, and the
-- bytes that are left.
pub data Answering : Connections → Bytes → List Answer → Bytes → Type 0 where
  nobody : {f : Bytes} → Answering [] f [] f
  lists :
      {host : Text} {c : ServerConnection} {more : Connections} {f g : Bytes}
      {answered : List Answer} (entries : List (Text × Stat)) (rest : List ℕ)
      → All IsEntry entries
      → length entries < 2 ^ 64
      → f c.socket ≡ readdir_reply entries ++ rest
      → Answering more (put c.socket rest f) answered g
      → Answering ((host, c) ∷ more) f ((host, sent_entries entries) ∷ answered) g
  refuses :
      {host : Text} {c : ServerConnection} {more : Connections} {f g : Bytes}
      {answered : List Answer} (n : ℕ) (rest : List ℕ)
      → IsInt64 (negsuc n)
      → f c.socket ≡ error_frame (negsuc n) ++ rest
      → Answering more (put c.socket rest f) answered g
      → Answering ((host, c) ∷ more) f answered g

-- What is written on the sockets when every server is asked once.
abbrev pub asked_all : Connections → List ℕ → Bytes → Bytes
asked_all [] request f = f
asked_all ((host, c) ∷ more) request f =
    asked_all more request (put c.socket (f c.socket ++ request) f)

module _ (os : Os) {W : Type 0} (sockets : Sockets os W) (file : Text) where
  pub readdir_listed :
      (c : ServerConnection) (entries : List (Text × Stat)) (rest : List ℕ) (s : os.State)
      → All IsEntry entries
      → length entries < 2 ^ 64
      → sockets.inbox s c.socket ≡ readdir_reply entries ++ rest
      → Exchanged os sockets c.socket
          (readdir os c file)
          s
          rest
          (readdir_request file)
          (sent_entries entries, pos 0)
  readdir_listed c entries rest s fits lt here =
      Talks-Exchanged os sockets c.socket s rest
        (readdir-Talks os c (stream_of os sockets c.socket) (around os sockets c.socket s) file
          entries fits lt)
        here

  pub readdir_refused :
      (c : ServerConnection) (n : ℕ) (rest : List ℕ) (s : os.State)
      → IsInt64 (negsuc n)
      → sockets.inbox s c.socket ≡ error_frame (negsuc n) ++ rest
      → Exchanged os sockets c.socket
          (readdir os c file)
          s
          rest
          (readdir_request file)
          ([], negsuc n)
  readdir_refused c n rest s fits here =
      Talks-Exchanged os sockets c.socket s rest
        (readdir-Talks_failed os c (stream_of os sockets c.socket) (around os sockets c.socket s)
          file n fits)
        here

  pub answers-Answering :
      {connections : Connections} {f g : Bytes} {answered : List Answer} (s : os.State)
      → sockets.inbox s ≡ f
      → Answering connections f answered g
      → answers os file connections s ≡ answered
  unfolding answers
  answers-Answering s e nobody = refl
  answers-Answering s e (lists {host = host} {c = c} entries rest fits lt here more) =
      let asked =
        readdir_listed c entries rest s fits lt (ap (λ (h : Bytes). h c.socket) e ∙ here) in
      rw asked.result (
        ap (λ l. (host, sent_entries entries) ∷ l)
          (answers-Answering _ (asked.inbox ∙ ap (put c.socket rest) e) more))
  answers-Answering s e (refuses {c = c} n rest fits here more) =
      let asked = readdir_refused c n rest s fits (ap (λ (h : Bytes). h c.socket) e ∙ here) in
      rw asked.result (answers-Answering _ (asked.inbox ∙ ap (put c.socket rest) e) more)

module _ (os : Os) (file : Text) where
  -- Merging a server's answer leaves the machine as its readdir did.
  pub merge-state :
      (host : Text) (c : ServerConnection) (found : Disambiguater × ℤ) (s : os.State)
      → (merge os host c file found s).1 ≡ (readdir os c file s).1
  unfolding merge ◌>>=◌
  merge-state host c found s = elim (Bool-cases (is_neg (readdir os c file s).0.1)) [
    | inl failed ↦ rw failed refl
    | inr fine ↦ rw fine refl
  ]

  pub merge-code_listed :
      (host : Text) (c : ServerConnection) (found : Disambiguater × ℤ) (s : os.State)
      {entries : List (Text × Stat)}
      → (readdir os c file s).0 ≡ (entries, pos 0)
      → (merge os host c file found s).0.1 ≡ pos 0
  unfolding merge ◌>>=◌
  merge-code_listed host c found s listed = rw listed refl

  pub merge-code_refused :
      (host : Text) (c : ServerConnection) (found : Disambiguater × ℤ) (s : os.State) {n : ℕ}
      → (readdir os c file s).0 ≡ ([], negsuc n)
      → (merge os host c file found s).0.1 ≡ found.1
  unfolding merge ◌>>=◌
  merge-code_refused host c found s refused = rw refused refl
