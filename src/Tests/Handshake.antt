-- ===== src/Tests/Handshake.antt =====
-- A client that connects to a server whose list of keys has two records.
use ag_fs.Base.{ℕ, List, refl, ◌≡◌, ◌≢◌, ◌∷◌, true, false, [], ◌++◌, none, some, pos, negsuc, arith}
use ag_fs.Monad.{◌>>=◌}
use ag_fs.Words.{little, big}
use ag_fs.Os.Stream.{Reached}
use ag_fs.Constants.{cmd_stop, cmd_heartbeat, cmd_accept, cmd_invalid_key}
use ag_fs.Text.{Text, codes, str_eq}
use ag_fs.Io.Frames.{cmd_frame, string_frame, error_frame}
use ag_fs.Stat.{sent_part}
use ag_fs.Connection.{ServerConnection}
use ag_fs.Connection.Connect.{Network, connect, dns_lookup}
use ag_fs.Server.Keys.{is_space, find_key}
use ag_fs.Server.Keys.Extract.{words}
use ag_fs.Server.Keys.Scan.{granted, find_key_lem, find_key_unopened}
use ag_fs.Server.Admission.{Accounts, serve_client}
use ag_fs.Protocol.Handshake.{handshake_refused, session_served}
use ag_fs.Protocol.{getattr_request, getattr_reply, open_request, access_request}
use ag_fs.Protocol.Opening.{was_refused}
use ag_fs.Protocol.Session.{
  Call, getattr_call, heartbeat_call, open_call, access_call, Result, got_stat, got_code, session,
}
use ag_fs.Protocol.Session.Served.{AllServed, over, next, found, beaten, opened, accessed}
use ag_fs.Tests.Machine.{machine, ends, stream, holding, unmoved, fails, files, file_stat}

abbrev contents : Text
contents = codes "/home ann A /srv/a bob K "

filled : {c : ℕ} {cs : Text} → c ∷ cs ≢ []
filled h = ground (arith, h)

find_key_lem_example :
    find_key 8 (codes "K") (some contents) ≡ some (some (codes "/srv/a", codes "bob"))
unfolding words is_space granted str_eq
find_key_lem_example = find_key_lem 8 (codes "K") contents filled (omega arith)

find_key_unopened_example : find_key 1000 (codes "K") none ≡ none
find_key_unopened_example = find_key_unopened 1000 (codes "K") filled

abbrev pub network : Network (machine little)
network = record {
  Address = Unit {0};
  getaddrinfo = λ host port m. (some tt, m);
  new_socket = λ a m. (pos 5, m);
  connect_to = λ fd a m. (pos 0, m);
  set_timeout = λ fd sec usec m. (tt, m);
  set_blocking = λ fd m. (tt, m);
}

abbrev accounts : Accounts (machine big)
accounts = record {
  set_timeout = λ fd sec usec m. (tt, m);
  set_blocking = λ fd m. (tt, m);
  key_list = λ m. (some contents, m);
  getpwnam = λ user m. (some (record { pw_uid = 1000; pw_gid = 100 }), m);
  setuid = λ uid m. (pos 0, m);
  setgid = λ gid m. (negsuc 0, m);
}

abbrev pub with_key : Text → ServerConnection
with_key key = record {
  failed_command = false;
  connection_stopped = false;
  hostname = codes "h";
  port = codes "8080";
  key = key;
  socket = negsuc 0;
  closed = false;
}

handshake_refused_example :
    Reached
      (ends little)
      (connect (machine little) network (with_key (codes "X")))
      (holding (cmd_frame cmd_invalid_key ++ []))
      []
      (string_frame (codes "X"))
      (with_key (codes "X"))
      0
    × Reached
        (ends big)
        (serve_client (machine big) (files big) accounts 77 8 0 (pos 3) (pos 4))
        (holding (string_frame (codes "X") ++ []))
        []
        (cmd_frame cmd_invalid_key)
        (some (record { mount_point = []; socket = negsuc 0; beats_missed = 77 }))
        0
unfolding words is_space granted str_eq dns_lookup ◌>>=◌
handshake_refused_example =
    handshake_refused (machine little) (machine big) network (files big) accounts
      (with_key (codes "X")) 5 4 77 8 0 (pos 3) (pos 0) (stream little (pos 5)) (stream big (pos 4))
      (holding (cmd_frame cmd_invalid_key ++ [])) (holding (string_frame (codes "X") ++ [])) [] []
      contents (omega arith) filled (omega arith) (unmoved little _ _ 0 (λ s. refl))
      (unmoved little _ _ 0 (λ s. refl)) (unmoved little _ _ 0 (λ s. refl))
      (unmoved big _ _ 0 (λ s. refl)) (unmoved big _ _ 0 (λ s. refl))
      (unmoved big _ _ 0 (λ s. refl)) (unmoved big _ _ 0 (λ s. refl)) refl refl refl

-- A stat, a heartbeat, an open of what is not there, and an access.
abbrev four_calls : List Call
four_calls = getattr_call [] ∷ heartbeat_call ∷ open_call (codes "/x") 0 ∷ access_call [] 4 ∷ []

abbrev four_requests : List ℕ
four_requests =
    getattr_request []
    ++ (cmd_frame cmd_heartbeat ++ (open_request (codes "/x") 0 ++ (access_request [] 4 ++ [])))

abbrev four_replies : List ℕ
four_replies =
    getattr_reply file_stat
    ++ (cmd_frame cmd_heartbeat ++ (error_frame (negsuc 1) ++ (error_frame (pos 0) ++ [])))

abbrev four_results : List Result
four_results =
    got_stat (sent_part file_stat) (pos 0)
    ∷ got_code (pos 0)
    ∷ got_code (negsuc 1)
    ∷ got_code (pos 0)
    ∷ []

four_served :
    AllServed
      (machine big)
      (files big)
      (codes "/srv/a")
      (ends big)
      0
      four_calls
      four_requests
      four_replies
      four_results
      2
unfolding str_eq
four_served = next (found (omega arith) (omega arith) (unmoved big _ _ 0 (λ s. refl))) (
    next beaten (
      next
        (opened {v₁ = 2} {fd = negsuc 0} {code = pos 0} (omega arith) (omega arith)
          (fails big _ _ 0 2 (λ s. refl)) (was_refused (omega arith) (λ s e. e))
          ((stream big (negsuc 0)).close_succeeds 2))
        (next (accessed (omega arith) (omega arith) (omega arith) (unmoved big _ _ 2 (λ s. refl)))
          over)))

session_served_example :
    Reached
      (ends little)
      (session (machine little) network (with_key (codes "K")) four_calls)
      (holding ((cmd_frame cmd_accept ++ four_replies) ++ []))
      []
      (string_frame (codes "K") ++ (four_requests ++ cmd_frame cmd_stop))
      (four_results, (pos 0, record (with_key (codes "K")) { closed = true }))
      0
    × Reached
        (ends big)
        (serve_client (machine big) (files big) accounts 77 8 5 (pos 3) (pos 4))
        (holding ((string_frame (codes "K") ++ (four_requests ++ cmd_frame cmd_stop)) ++ []))
        []
        (cmd_frame cmd_accept ++ four_replies)
        (some (record { mount_point = codes "/srv/a"; socket = negsuc 0; beats_missed = 0 }))
        2
unfolding words is_space granted str_eq dns_lookup ◌>>=◌
session_served_example =
    session_served (machine little) (machine big) network (files big) accounts
      (with_key (codes "K")) 5 4 77 8 5 (pos 3) (pos 0) (stream little (pos 5)) (stream big (pos 4))
      (holding ((cmd_frame cmd_accept ++ four_replies) ++ []))
      (holding ((string_frame (codes "K") ++ (four_requests ++ cmd_frame cmd_stop)) ++ [])) [] []
      contents (omega arith) filled (omega arith) (unmoved little _ _ 0 (λ s. refl))
      (unmoved little _ _ 0 (λ s. refl)) (unmoved little _ _ 0 (λ s. refl))
      (unmoved big _ _ 0 (λ s. refl)) (unmoved big _ _ 0 (λ s. refl))
      (unmoved big _ _ 0 (λ s. refl)) (unmoved big _ _ 0 (λ s. refl)) (codes "/srv/a") (codes "bob")
      (record { pw_uid = 1000; pw_gid = 100 }) (pos 0) (negsuc 0) refl
      (unmoved big _ _ 0 (λ s. refl)) (unmoved big _ _ 0 (λ s. refl))
      (unmoved big _ _ 0 (λ s. refl)) (unmoved big _ _ 0 (λ s. refl)) (omega arith) four_served refl
      refl
