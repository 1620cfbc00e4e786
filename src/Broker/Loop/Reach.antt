-- ===== src/Broker/Loop/Reach.antt =====
-- The broker's loop as a whole: the states that it comes to from a configuration.
use icehydra.Prelude.{ℕ, ◌<◌, ◌≡◌, refl, sym, false, map, List, [], ◌∷◌, length, pos, eqb_ℤ}
use mathlib.Core.Path.{subst}
use icehydra.Run.{Run, ok, Ends}
use icehydra.Run
use icehydra.Kernel.{Kernel}
use icehydra.Kernel.Stream.{IsStream}
use icehydra.Node.{PubSubNode}
use icehydra.Config.{max_file_name}
use icehydra.Config.Nodes.{IsRead}
use icehydra.Config.Start.{AllListed}
use icehydra.Broker.Loop.{Broker, again, begin, round}
use icehydra.Broker.Loop.Config.{SameConfig, SameConfig-trans, configured, round-SameConfig}

-- A pass of the loop leads from one state to the next.
pub data Reaches (k : Kernel) (st : Broker) (w : k.World) : Broker → k.World → Type 0 where
  here : Reaches k st w st w
  pass :
      {a b : Broker} {u v : k.World}
      → Reaches k st w a u
      → round k a u ≡ ok (again b, v)
      → Reaches k st w b v

-- A pass in front.
pub Reaches-front :
    {k : Kernel} {st st' : Broker} {w w' : k.World} {b : Broker} {v : k.World}
    → round k st w ≡ ok (again st', w')
    → Reaches k st' w' b v
    → Reaches k st w b v
Reaches-front first here = pass here first
Reaches-front first (pass before next) = pass (Reaches-front first before) next

-- Each process has an id other than 0 and a name that fits.
abbrev pub AllNumbered : List PubSubNode → Type 0
AllNumbered [] = Unit {0}
AllNumbered (n ∷ ns) =
    (eqb_ℤ n.id (pos 0) ≡ false) × (length n.name < max_file_name) × AllNumbered ns

pub AllListed-AllNumbered : (ns : List PubSubNode) → AllListed ns → AllNumbered ns
AllListed-AllNumbered [] h = tt
AllListed-AllNumbered (n ∷ ns) (e, r, h) = (e, r.1, AllListed-AllNumbered ns h)

AllNumbered-configured : (ns : List PubSubNode) → AllNumbered ns → AllNumbered (map configured ns)
AllNumbered-configured [] h = tt
AllNumbered-configured (n ∷ ns) (e, s, h) = (e, s, AllNumbered-configured ns h)

AllNumbered-configured_inv :
    (ns : List PubSubNode) → AllNumbered (map configured ns) → AllNumbered ns
AllNumbered-configured_inv [] h = tt
AllNumbered-configured_inv (n ∷ ns) (e, s, h) = (e, s, AllNumbered-configured_inv ns h)

pub AllNumbered-kept :
    (ns ms : List PubSubNode)
    → map configured ms ≡ map configured ns
    → AllNumbered ns
    → AllNumbered ms
AllNumbered-kept ns ms same h =
    AllNumbered-configured_inv ms (subst AllNumbered (sym same) (AllNumbered-configured ns h))

module _ (k : Kernel) (s : IsStream k) where
  pub Reaches-SameConfig :
      (st : Broker) (w : k.World) (b : Broker) (v : k.World) → Reaches k st w b v → SameConfig st b
  Reaches-SameConfig st w b v here = (refl, refl, refl)
  Reaches-SameConfig st w b v (pass {a} {u = u} before next) =
      SameConfig-trans st a b (Reaches-SameConfig st w a u before)
        (Run.value (round-SameConfig k s a u) next)

  -- However long the loop has run from a configuration as get_node_start reads it, the start node is
  -- still as it was read, the processes are as many and have the same names and ids as at the start,
  -- every id is other than 0, every name fits, and the loop listens on the same descriptor.
  pub Reaches-IsServed :
      (start : PubSubNode) (nodes : List PubSubNode) (sockfd : ℕ) (b : Broker) (w v : k.World)
      → IsRead start
      → AllListed nodes
      → Reaches k (begin start nodes sockfd) w b v
      → IsRead b.start
        × (map configured b.nodes ≡ map configured nodes)
        × AllNumbered b.nodes
        × (b.sockfd ≡ sockfd)
  Reaches-IsServed start nodes sockfd b w v r listed path =
      let (same, kept, fd) = Reaches-SameConfig (begin start nodes sockfd) w b v path in
      (
        subst IsRead (sym kept) r,
        same,
        AllNumbered-kept nodes b.nodes same (AllListed-AllNumbered nodes listed),
        fd,
      )
