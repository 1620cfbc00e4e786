-- ===== src/Broker/Loop/Watch.antt =====
-- What a pass of the loop gives to select.
use icehydra.Prelude.{ℕ, ◌≤◌, ◌<◌, ◌≡◌, ◌⊎◌, List, [], ◌∷◌, to_nat}
use icehydra.Run.{fault}
use icehydra.Kernel.{Kernel}
use icehydra.Broker.Loop.{Broker, watch, fd_setsize, after_select, round}

-- Each descriptor lies between 1 and `top`.
abbrev pub Within : ℕ → List ℕ → Type 0
Within top [] = Unit {0}
Within top (fd ∷ fds) = (0 < fd) × (fd ≤ top) × Within top fds

abbrev pub AllBelow : ℕ → List ℕ → Type 0
AllBelow n [] = Unit {0}
AllBelow n (fd ∷ fds) = (fd < n) × AllBelow n fds

-- A pass calls select once, with the listening descriptor and those of the processes that watch
-- collects, and goes on with its answer; or it faults, as one of them is 1024 or more.
abbrev pub Selects : (k : Kernel) → Broker → k.World → Type 0
Selects k st w =
    let fds = (watch st.nodes st.max_conn_fd).0 in
    let top = (watch st.nodes st.max_conn_fd).1 in
    ((AllBelow fd_setsize (st.sockfd ∷ fds)
        × ((nfds : ℕ) × (round k st w
              ≡ after_select k (record st { max_conn_fd = top })
                  (k.select nfds (st.sockfd ∷ fds) w))
            × AllBelow nfds (st.sockfd ∷ fds)))
      ⊎ ((¬ AllBelow fd_setsize (st.sockfd ∷ fds)) × (round k st w ≡ fault)))
    × Within (to_nat top) fds
