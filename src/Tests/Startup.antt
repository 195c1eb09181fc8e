-- ===== src/Tests/Startup.antt =====
-- The start of the client with two key files, of which one has the right extension.
use ag_fs.Base.{true, [], ◌∷◌, ◌++◌, some}
use ag_fs.Words.{little}
use ag_fs.Constants.{cmd_accept}
use ag_fs.Text.{Text, codes}
use ag_fs.Io.Frames.{cmd_frame}
use ag_fs.Client.Startup.{KeyEntry}
use ag_fs.Client.Main.{KeyDirectory, client_main}
use ag_fs.Client.Main.Ready.{Started, client_main-Started}
use ag_fs.Tests.Machine.{Machine, machine, holding}
use ag_fs.Tests.Handshake.{network}
use ag_fs.Tests.Local.{calls}

abbrev key_entry : Text → KeyEntry
key_entry ext = record {
  is_regular_file = true;
  extension_of = ext;
  contents = some (codes "h 8080 K");
}

abbrev keys : KeyDirectory (machine little)
keys = record {
  exists = λ m. (true, m);
  entries = λ m. (key_entry (codes ".agkey") ∷ key_entry (codes ".bak") ∷ [], m);
}

abbrev accepting : Machine
accepting = holding (cmd_frame cmd_accept ++ [])

client_main-Started_example :
    Started
      (machine little)
      network
      true
      (client_main (machine little) calls network keys accepting).0
client_main-Started_example = client_main-Started (machine little) network calls keys accepting
