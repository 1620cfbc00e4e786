-- ===== src/Tests/Mains.antt =====
-- The theorem about the server's socket, for a start node named "a".
use icehydra.Prelude.{◌+◌, none, [], ◌∷◌, arith}
use icehydra.Run.{Ends}
use icehydra.Names.{NoByteMore}
use icehydra.Setup.Connect.{socket_path}
use icehydra.Main.{open_server}
use icehydra.Main.Open.{Opened, open_server-Opened}
use icehydra.Tests.Sim.{Sockets, sim}
use icehydra.Tests.Opened.{sim_unix, sim_IsUnix}
use icehydra.Tests.Configs.{disk, start, loaded_node}

abbrev silent : Sockets
silent = record { input = λ fd. []; written = λ fd. []; name = λ fd. none; peer = λ fd. none }

open_server-Opened_example :
    Ends
      (NoByteMore (λ n. n + 1) (socket_path (97 ∷ [])))
      (λ r. Opened disk sim sim_unix sim_IsUnix start (loaded_node 7 ∷ []) silent (r.0, r.2))
      (open_server disk sim sim_unix (λ n. n + 1) start (loaded_node 7 ∷ []) 0 silent)
open_server-Opened_example =
    open_server-Opened disk sim sim_unix sim_IsUnix (λ n. n + 1) start (loaded_node 7 ∷ []) 0 silent
      (omega arith)
