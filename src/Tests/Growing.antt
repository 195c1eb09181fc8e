-- ===== src/Tests/Growing.antt =====
-- A directory that gains an entry while the server lists it.
use ag_fs.Base.{
  ℕ, ◌+◌, ◌≡◌, refl, sym, ap, ◌∙◌, true, List, [], ◌∷◌, ◌++◌, append-nil, some, pos, ◌==◌,
  if◌then◌else◌, arith,
}
use ag_fs.Words.{little, big}
use ag_fs.Monad.{M}
use ag_fs.Os.Stream.{Reached, Quiet}
use ag_fs.Stat.{Stat, sent_part}
use ag_fs.Text.{Text, codes}
use ag_fs.Io.Frames.{stat_frame}
use ag_fs.Server.{Files}
use ag_fs.Server.Commands.{command_round}
use ag_fs.Protocol.{readdir_request, access_request}
use ag_fs.Protocol.Growing.{announced_reply, readdir_access, readdir_grown}
use ag_fs.Tests.Machine.{Machine, machine, ends, stream, holding, file_stat, files, unmoved}
use ag_fs.Tests.Remote.{conn, served}

-- The number of the machine counts the walks over the directory: the second finds one entry more.
abbrev growing : Files (machine big)
growing = record (files big) {
  lstat = λ path m. (some file_stat, m);
  exists = λ path m. (true, m);
  is_directory = λ path m. (true, m);
  entries = λ path m. (
    if m.errno == 0 then codes "a" ∷ [] else codes "a" ∷ codes "bc" ∷ [],
    record m { errno = m.errno + 1 },
  );
}

-- A call that counts the number of the machine up.
counts :
    {A : Type 0} (m : M Machine A) (a : A) (w n : ℕ)
    → ((s : Machine) → s.errno ≡ w → m s ≡ (a, record s { errno = n }))
    → Quiet (ends big) m w a n
counts {A} m a w n h = record {
  at = λ s rest hw hi. record {
    result = ap (λ (r : A × Machine). r.0) (h s hw);
    inbox = ap (λ (r : A × Machine). r.1.inbox) (h s hw) ∙ hi;
    outbox = ap (λ (r : A × Machine). r.1.outbox) (h s hw) ∙ sym (append-nil s.outbox);
    view = ap (λ (r : A × Machine). r.1.errno) (h s hw);
  };
}

abbrev known : List (Text × Stat)
known = (codes "a", file_stat) ∷ []

abbrev reply : List ℕ
reply = announced_reply 1 (known ++ (codes "bc", file_stat) ∷ [])

readdir_grown_example :
    Reached
      (ends little)
      (readdir_access (machine little) conn (codes "/") (codes "/x") 2)
      (holding (reply ++ []))
      (codes "bc" ++ (stat_frame file_stat ++ []))
      (readdir_request (codes "/") ++ access_request (codes "/x") 2)
      (((codes "a", sent_part file_stat) ∷ [], pos 0), pos 2)
      0
    × Reached
        (ends big)
        (command_round (machine big) growing served)
        (holding (readdir_request (codes "/") ++ []))
        []
        reply
        (true, served)
        2
readdir_grown_example =
    readdir_grown (machine little) (machine big) growing conn served (stream little (pos 5))
      (stream big (pos 4)) (holding (reply ++ [])) (holding (readdir_request (codes "/") ++ [])) []
      [] (codes "/") (codes "/x") (omega arith) known [] (codes "bc") file_stat (codes "a" ∷ []) 2
      (omega arith) (omega arith) (omega arith) refl (unmoved big _ _ 0 (λ s. refl))
      (unmoved big _ _ 0 (λ s. refl)) (counts _ _ 0 1 (λ s e. rw e refl))
      (counts _ _ 1 2 (λ s e. rw e refl))
      (unmoved big _ _ 2 (λ s. refl), (unmoved big _ _ 2 (λ s. refl), tt)) refl refl
