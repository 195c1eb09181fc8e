-- ===== src/Client/Directories/Answered.antt =====
-- agfs_readdir over all servers, from the bytes on their sockets to what FUSE gets.
use ag_fs.Base.{ℕ, ◌≡◌, refl, ap, ◌∙◌, List, [], ◌∷◌, map, none, ℤ, pos, neg}
use ag_fs.Monad.{◌>>=◌}
use ag_fs.Os.{Os}
use ag_fs.Os.Sockets.{Bytes, put, Sockets, Exchanged}
use ag_fs.Constants.{enotdir}
use ag_fs.Stat.{Stat}
use ag_fs.Text.{Text, codes}
use ag_fs.SortedMap
use ag_fs.SortedMap.Order.{IsSorted}
use ag_fs.Protocol.{readdir_request}
use ag_fs.Connection.{ServerConnection, readdir}
use ag_fs.Disambiguater.{Disambiguater, empty, disambiguated_filepaths_with_stats, ambiguate}
use ag_fs.Disambiguater.Invariant.{owners, IsWellFormed}
use ag_fs.Client.{Connections, to_int}
use ag_fs.Client.Directories.{given, merge, merge_all, agfs_readdir}
use ag_fs.Client.Directories.Union.{Answer, owners_of, directory_of, Plain, agfs_readdir_union}
use ag_fs.Client.Directories.Answers.{
  Answering, nobody, lists, refuses, asked_all, readdir_listed, readdir_refused, answers-Answering,
  merge-state, merge-code_listed, merge-code_refused,
}

-- The result of the whole readdir, over the result so far: 0 if any server lists.
abbrev pub code_of : ℤ → List Answer → ℤ
code_of err [] = err
code_of err (answer ∷ answered) = pos 0

code_of-zero : (answered : List Answer) → code_of (pos 0) answered ≡ pos 0
code_of-zero [] = refl
code_of-zero (answer ∷ answered) = refl

to_int-code_of :
    (answered : List Answer)
    → to_int (code_of (neg enotdir) answered) ≡ code_of (neg enotdir) answered
to_int-code_of [] = refl
to_int-code_of (answer ∷ answered) = refl

module _ (os : Os) {W : Type 0} (sockets : Sockets os W) (file : Text) where
  merge_all-code_of :
      {connections : Connections} {f g : Bytes} {answered : List Answer} (found : Disambiguater × ℤ)
      (s : os.State)
      → sockets.inbox s ≡ f
      → Answering connections f answered g
      → (merge_all os connections file found s).0.1 ≡ code_of found.1 answered
  unfolding merge_all ◌>>=◌
  merge_all-code_of found s e nobody = refl
  merge_all-code_of found s e
        (lists {host = host} {c = c} {answered = answered} entries rest fits lt here more) =
      let asked =
        readdir_listed os sockets file c entries rest s fits lt
          (ap (λ (h : Bytes). h c.socket) e ∙ here) in
      let next = merge os host c file found s in
      let same = merge-state os file host c found s in
      merge_all-code_of next.0 next.1
        (ap sockets.inbox same ∙ asked.inbox ∙ ap (put c.socket rest) e) more
      ∙ ap (λ x. code_of x answered) (merge-code_listed os file host c found s asked.result)
      ∙ code_of-zero answered
  merge_all-code_of found s e
        (refuses {host = host} {c = c} {answered = answered} n rest fits here more) =
      let asked =
        readdir_refused os sockets file c n rest s fits (ap (λ (h : Bytes). h c.socket) e ∙ here) in
      let next = merge os host c file found s in
      let same = merge-state os file host c found s in
      merge_all-code_of next.0 next.1
        (ap sockets.inbox same ∙ asked.inbox ∙ ap (put c.socket rest) e) more
      ∙ ap (λ x. code_of x answered) (merge-code_refused os file host c found s asked.result)

  -- The machine after all servers were asked: every answer is read, every request is written.
  pub record Asked (connections : Connections) (s s' : os.State) (g : Bytes) : Type 0 where
    pub inbox : sockets.inbox s' ≡ g
    pub outbox : sockets.outbox s' ≡ asked_all connections (readdir_request file) (sockets.outbox s)
    pub view : sockets.view s' ≡ sockets.view s

  -- One server is asked, and then the others.
  Asked-Exchanged :
      (host : Text) (c : ServerConnection) (more : Connections) {rest : List ℕ} (s : os.State)
      {t s' : os.State} {g : Bytes} {a : List (Text × Stat) × ℤ}
      → Exchanged os sockets c.socket (readdir os c file) s rest (readdir_request file) a
      → t ≡ (readdir os c file s).1
      → Asked more t s' g
      → Asked ((host, c) ∷ more) s s' g
  Asked-Exchanged host c more s asked same others = record {
    inbox = others.inbox;
    outbox =
        others.outbox
        ∙ ap (asked_all more (readdir_request file)) (ap sockets.outbox same ∙ asked.outbox);
    view = others.view ∙ ap sockets.view same ∙ asked.view;
  }

  merge_all-Asked :
      {connections : Connections} {f g : Bytes} {answered : List Answer} (found : Disambiguater × ℤ)
      (s : os.State)
      → sockets.inbox s ≡ f
      → Answering connections f answered g
      → Asked connections s (merge_all os connections file found s).1 g
  unfolding merge_all ◌>>=◌
  merge_all-Asked found s e nobody = record { inbox = e; outbox = refl; view = refl }
  merge_all-Asked found s e
        (lists {host = host} {c = c} {more = connections} {g = g} entries rest fits lt here more) =
      let asked =
        readdir_listed os sockets file c entries rest s fits lt
          (ap (λ (h : Bytes). h c.socket) e ∙ here) in
      let next = merge os host c file found s in
      let same = merge-state os file host c found s in
      Asked-Exchanged host c connections s asked same (
        merge_all-Asked next.0 next.1
          (ap sockets.inbox same ∙ asked.inbox ∙ ap (put c.socket rest) e) more)
  merge_all-Asked found s e
        (refuses {host = host} {c = c} {more = connections} {g = g} n rest fits here more) =
      let asked =
        readdir_refused os sockets file c n rest s fits (ap (λ (h : Bytes). h c.socket) e ∙ here) in
      let next = merge os host c file found s in
      let same = merge-state os file host c found s in
      Asked-Exchanged host c connections s asked same (
        merge_all-Asked next.0 next.1
          (ap sockets.inbox same ∙ asked.inbox ∙ ap (put c.socket rest) e) more)

  -- agfs_readdir leaves the machine and the result as the merging does.
  agfs_readdir-merge_all :
      (connections : Connections) (path : Text) (s : os.State) {g : Bytes} {code : ℤ}
      → ambiguate path ≡ ([], file)
      → SortedMap.find [] connections ≡ none
      → let merged = merge_all os connections file (empty, neg enotdir) s in
        let r = agfs_readdir os connections path s in
        Asked connections s merged.1 g
        → merged.0.1 ≡ code
        → Asked connections s r.1 g × (r.0.0 ≡ to_int code)
  unfolding agfs_readdir ◌>>=◌
  agfs_readdir-merge_all connections path s plain_name no_host asked coded =
      rw (plain_name, no_host) (asked, ap to_int coded)

  -- A directory without a server in its name, over connections in the order of their hosts, none of
  -- which is empty. On the socket of each stands the answer of its server, a listing or an error,
  -- and no listing has the name of a file twice. Then agfs_readdir fills in the two dots and the
  -- listing of a well-formed Disambiguater in which the owners of every file are exactly the servers
  -- that listed it, in the order of their hosts, each with the members of the stat that are sent, and
  -- the directory of every name is the one that was listed last. The result is 0 if a server lists,
  -- and -ENOTDIR otherwise. It has read exactly these answers, has written one request on the socket
  -- of each connection, and has changed nothing else on any socket.
  pub agfs_readdir_answers :
      (connections : Connections) (path : Text) (s : os.State) {answered : List Answer} {g : Bytes}
      → IsSorted connections
      → ambiguate path ≡ ([], file)
      → SortedMap.find [] connections ≡ none
      → Answering connections (sockets.inbox s) answered g
      → Plain os file answered
      → (d : Disambiguater) × IsWellFormed d
        × ((agfs_readdir os connections path s).0.1
            ≡ (codes ".", none)
              ∷ (codes "..", none)
              ∷ map given (disambiguated_filepaths_with_stats d))
        × ((j : Text) → owners j d ≡ owners_of j answered)
        × ((j : Text) → SortedMap.find j d.directorymap ≡ directory_of j none answered)
        × ((agfs_readdir os connections path s).0.0 ≡ code_of (neg enotdir) answered)
        × Asked connections s (agfs_readdir os connections path s).1 g
  agfs_readdir_answers connections path s {answered = answered} sorted plain_name no_host standing
        plain =
      let same = answers-Answering os sockets file s refl standing in
      let (d, formed, filled, owned, shared) =
        agfs_readdir_union os file connections path s sorted plain_name no_host (rw same plain) in
      let whole =
        agfs_readdir-merge_all connections path s plain_name no_host
          (merge_all-Asked (empty, neg enotdir) s refl standing)
          (merge_all-code_of (empty, neg enotdir) s refl standing) in
      (
        d,
        formed,
        filled,
        λ j. owned j ∙ ap (owners_of j) same,
        λ j. shared j ∙ ap (directory_of j none) same,
        whole.1 ∙ to_int-code_of answered,
        whole.0,
      )
