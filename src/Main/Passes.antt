-- ===== src/Main/Passes.antt =====
-- main.c: any number of passes of the loop, from the variables it began with.
use icehydra.Prelude.{ℕ, zero, suc, ◌≡◌, sym}
use mathlib.Core.Path.{subst}
use icehydra.Run.{Run, ok, ◌>>=◌, Ends, returned}
use icehydra.Run
use icehydra.Kernel.{Kernel}
use icehydra.Kernel.Stream.{IsStream}
use icehydra.Config.Nodes.{IsRead}
use icehydra.Broker.Loop.{Broker, Next, again, quit, round}
use icehydra.Broker.Loop.Config.{SameConfig, state}
use icehydra.Broker.Loop.Safe.{HoldsBytes}
use icehydra.Broker.Loop.Pass.{round-Returns}
use icehydra.Broker.Loop.Causes.{PassFails}
use icehydra.Broker.Loop.Reach.{Reaches, here, Reaches-front}
use icehydra.Main.{Started, no_file, exited, aborted, looping, left, passes}

module _ (k : Kernel) (t : IsStream k) where
  -- One of so many passes from these variables in this world fails, for a cause of PassFails.
  pub data OnePassFails : ℕ → Broker → k.World → Type 0 where
    this_pass : {n : ℕ} {b : Broker} {w : k.World} → PassFails k t b w → OnePassFails (suc n) b w
    later_pass :
        {n : ℕ} {b b' : Broker} {w w' : k.World}
        → round k b w ≡ ok (again b', w')
        → OnePassFails n b' w'
        → OnePassFails (suc n) b w

  -- The variables after passes of the loop, or after the pass in which it was left.
  abbrev pub LoopsTo : Broker → k.World → Started × k.World → Type 0
  LoopsTo st w (no_file, w') = ⊥
  LoopsTo st w (exited, w') = ⊥
  LoopsTo st w (aborted, w') = ⊥
  LoopsTo st w (looping b, w') = Reaches k st w b w'
  LoopsTo st w (left b, w') =
      (a : Broker) × (v : k.World) × Reaches k st w a v × (round k a v ≡ ok (quit b, w'))

  pub passes-LoopsTo :
      (n : ℕ) (b : Broker) (w : k.World)
      → HoldsBytes k t
      → IsRead b.start
      → Ends (OnePassFails n b w) (LoopsTo b w) (passes k n b w)
  unfolding passes
  passes-LoopsTo zero b w bytes r = returned here
  passes-LoopsTo (suc n) b w bytes r =
      Run.bind_ok (round-Returns k t b w bytes r) this_pass
        λ (next, w') e same. next_pass next w' (λ b' r'. passes-LoopsTo n b' w' bytes r') e same
    where
      from_next :
          (b' : Broker) (w' : k.World) (r : Started × k.World)
          → round k b w ≡ ok (again b', w')
          → LoopsTo b' w' r
          → LoopsTo b w r
      from_next b' w' (no_file, v) e q = q
      from_next b' w' (exited, v) e q = q
      from_next b' w' (aborted, v) e q = q
      from_next b' w' (looping c, v) e q = Reaches-front e q
      from_next b' w' (left c, v) e (a, u, path, end) = (a, u, Reaches-front e path, end)

      next_pass :
          (next : Next) (w' : k.World)
          → ((b' : Broker)
              → IsRead b'.start
              → Ends (OnePassFails n b' w') (LoopsTo b' w') (passes k n b' w'))
          → round k b w ≡ ok (next, w')
          → SameConfig b (state next)
          → Ends
              (OnePassFails (suc n) b w)
              (LoopsTo b w)
              (elim next [ again b' ↦ passes k n b' w' | quit b' ↦ ok (left b', w') ])
      next_pass (again b') w' rest e (all, same, fd) =
          Run.mono (rest b' (subst IsRead (sym same) r)) (later_pass e)
            (λ x q. from_next b' w' x e q)
      next_pass (quit b') w' rest e same = returned (b, w, here, e)
