-- ===== src/Broker/Loop/Causes.antt =====
-- main.c: the causes of a fault in a pass of the loop.
use icehydra.Prelude.{ℕ, suc, ◌≤◌, ◌≡◌, ◌⊎◌, true, false, some, List, length, get_elem?, pos}
use icehydra.Run.{ok}
use icehydra.Kernel.{Kernel, ready}
use icehydra.Kernel.Stream.{IsStream}
use icehydra.Node.{PubSubNode}
use icehydra.Broker.Loop.{Broker, serve_node, fd_isset, fd_setsize}
use icehydra.Broker.Loop.Safe.{Overfull}
use icehydra.Broker.Loop.Serve.{watched, select_args}
use icehydra.Setup.{sun_path_len}

module _ (k : Kernel) (s : IsStream k) where
  -- FD_SET is called with a descriptor that is not below FD_SETSIZE.
  abbrev pub HighDescriptor : Broker → Type 0
  HighDescriptor st =
      (fd_setsize ≤ st.sockfd)
      ⊎ ((i fd : ℕ) × (node : PubSubNode) × (get_elem? st.nodes i ≡ some node)
          × (node.connfd ≡ pos fd)
          × (fd_setsize ≤ fd))

  -- When the processes from position `i` on are served, one that is ready has an overfull message at
  -- its descriptor when its turn comes.
  pub data OverfullIn (rset : List ℕ) : ℕ → Broker → k.World → Type 0 where
    at_its_turn :
        {i fd : ℕ} {st : Broker} {w : k.World} {node : PubSubNode}
        → get_elem? st.nodes i ≡ some node
        → node.connfd ≡ pos fd
        → fd_isset node.connfd rset ≡ true
        → Overfull k s fd w
        → OverfullIn rset i st w
    behind_it :
        {i : ℕ} {st st' : Broker} {w w' : k.World}
        → serve_node k rset st i w ≡ ok (st', w')
        → OverfullIn rset (suc i) st' w'
        → OverfullIn rset i st w

  -- Of what is ready after select: a client connects whose path fills sun_path, or a process that is
  -- served has an overfull message.
  abbrev pub ReadyFails : Broker → List ℕ → k.World → Type 0
  ReadyFails st rset w =
      ((fd_isset (pos st.sockfd) rset ≡ true) × (sun_path_len ≤ length (k.accept st.sockfd w).0.1))
      ⊎ ((fd_isset (pos st.sockfd) rset ≡ false) × OverfullIn rset 0 st w)

  -- The pass of the loop from these variables in this world fails, for one of these causes.
  abbrev pub PassFails : Broker → k.World → Type 0
  PassFails st w =
      HighDescriptor st
      ⊎ ((rset : List ℕ) × (w1 : k.World) × (k.select (select_args st).0 (select_args st).1 w
            ≡ (ready rset, w1))
          × ReadyFails (watched st) rset w1)
