-- ===== src/Relay/Journey.antt =====
-- A message on its way: from the client that calls ih_send_broadcast_data (icehydra.c), through the
-- broker (main.c), to a process that calls ih_recv_data (icehydra.c). Each of the three runs on a
-- system of its own.
use icehydra.Prelude.{
  ℕ, ◌+◌, ◌-◌, ◌≤◌, ◌<◌, ◌≡◌, ◌≢◌, refl, sym, ap, ◌∙◌, true, false, inl, inr, some, List, [], ◌∷◌,
  ◌++◌, arith, eq→==, length, length-append, take, replicate, get_elem?, ℤ, pos, is_neg,
}
use icehydra.Run.{Run, ok, Ends, returned, ◌>>=◌}
use icehydra.Run
use icehydra.Kernel.{Kernel, ready}
use icehydra.Kernel.Stream.{IsStream, Accepts, Delivers}
use icehydra.Wire.{encode, head_len, round4, send_parallel, cmd_default}
use icehydra.Wire.Layout.{length-encode}
use icehydra.Wire.Head.{fresh_cmd}
use icehydra.Node.{PubSubNode}
use icehydra.Broker.Cast.Shares.{expected, FailedIn}
use icehydra.Broker.Loop.{
  Broker, Next, again, fd_isset, receive_from, round, max_cmd_len, fd_setsize, all_below,
}
use icehydra.Broker.Loop.Serve.{OthersQuiet, watched, select_args, round-only}
use icehydra.Client.{ih_send_broadcast_data}
use icehydra.Client.Send.{padded, broadcast_to, client_message, ih_send_broadcast_data-SentMessage}
use icehydra.Relay.{subscriber_message}
use icehydra.Relay.Deliver.{receive_from-Relayed}
use icehydra.Relay.Times.{times, expected-copies}
use icehydra.Relay.Receive.{receive_times, receive_times-copies}

-- A connection of two systems. `carry` is the reader's world once it has what the writer wrote to
-- `out` from the one world to the other, and perhaps more behind it.
pub record Carries (a b : Kernel) (s : IsStream a) (t : IsStream b) (out in_fd : ℕ) : Type 0 where
  pub carry : a.World → a.World → b.World
  pub carried :
      (w w' : a.World) (new : List ℕ)
      → s.output out w' ≡ s.output out w ++ new
      → (more : List ℕ) × (t.pending in_fd (carry w w') ≡ new ++ more)

-- The system takes what is sent to any of the processes.
abbrev pub AllAccept : Kernel → List PubSubNode → Type 0
AllAccept k nodes =
    (i fd : ℕ) (node : PubSubNode)
    → get_elem? nodes i ≡ some node
    → node.connfd ≡ pos fd
    → Accepts k fd

-- The system reports the descriptor, and no other, to the broker in these variables once something
-- can be read from it, and reporting reads and writes nothing.
abbrev pub Reports : (k : Kernel) → IsStream k → Broker → ℕ → Type 0
Reports k s st fd =
    (w : k.World)
    → s.pending fd w ≢ []
    → (w' : k.World) × (k.select (select_args st).0 (select_args st).1 w ≡ (ready (fd ∷ []), w'))
      × (s.pending fd w' ≡ s.pending fd w)
      × ((g : ℕ) → s.output g w' ≡ s.output g w)

accepted :
    (k : Kernel) (s : IsStream k) (ns : List PubSubNode) (num : ℕ) (ids : List ℕ) (r : ℤ)
    → AllAccept k ns
    → FailedIn k s ns num ids r
    → ⊥
accepted k s ns num ids r all (i, node, at, (e, (fd, conn, refused), named)) =
    refused (all i fd node at conn)

some_message : (num n : ℕ) (ids area more : List ℕ) → client_message num ids n area ++ more ≡ [] → ⊥
some_message num n ids area more e =
    let head = fresh_cmd (n + round4 num) send_parallel cmd_default num in
    omega (
      arith,
      ap length e,
      length-append (client_message num ids n area) more,
      length-append (encode head) (padded num ids ++ take n area),
      length-encode head,
    )

module _ (b : Kernel) (t : IsStream b) (num n i fb : ℕ) (ids area : List ℕ) (st : Broker)
    (node : PubSubNode) (counted : num ≤ length ids) (room : n ≤ length area)
    (small : n + round4 num < max_cmd_len - head_len) (at : get_elem? st.nodes i ≡ some node)
    (conn : node.connfd ≡ pos fb) (no_call : st.sockfd ≢ fb)
    (others : OthersQuiet (fb ∷ []) st.nodes i) (all : AllAccept b st.nodes) (d : Delivers b t fb)
    (reports : Reports b t st fb) (low : all_below fd_setsize (select_args st).1 ≡ true) where
  -- The pass serves the client, and everybody has the message.
  abbrev Passed : b.World → Next × b.World → Type 0
  Passed v (next, v') =
      (next ≡ again (watched st))
      × ((g : ℕ)
          → t.output g v' ≡ t.output g v ++ expected g st.nodes num ids (subscriber_message n area))

  -- A message that waits for the broker is passed on in one pass of its loop.
  round-Passed :
      (v : b.World) (more : List ℕ)
      → t.pending fb v ≡ client_message num ids n area ++ more
      → Ends ⊥ (Passed v) (round b st v)
  round-Passed v more comes =
      let (v1, found, same, quiet) =
        reports v (λ e. some_message num n ids area more (sym comes ∙ e)) in
      let ((st', v2), served, relayed) = Run.returns (
        receive_from-Relayed b t num n ids area counted room small (watched st) i fb node v1 more
          conn (same ∙ comes) d) in
      elim relayed [
        | inr (r, bad, closed, front) ↦ absurd (accepted b t st.nodes num ids r all bad)
        | inl (kept, o) ↦
            let stays : receive_from b (watched st) i node v1 ≡ ok (watched st, v2) =
              served ∙ ap (λ (x : Broker). ok (x, v2)) kept in
            let opened : is_neg node.connfd ≡ false = ap is_neg conn in
            let is_set : fd_isset node.connfd (fb ∷ []) ≡ true =
              ap (λ (x : ℤ). fd_isset x (fb ∷ [])) conn ∙ rw (eq→== fb fb refl) refl in
            let unset : fd_isset (pos st.sockfd) (fb ∷ []) ≡ false = ground arith in
            rw
              (round-only b (fb ∷ []) st i node v v1 v2 found low unset at opened is_set others
                stays)
              (returned (
                refl,
                λ g.
                    o g
                    ∙ ap (λ x. x ++ expected g st.nodes num ids (subscriber_message n area))
                        (quiet g),
              ))
      ]

module _ (a b c : Kernel) (s : IsStream a) (t : IsStream b) (u : IsStream c) (fa fb out fc : ℕ)
    (up : Carries a b s t fa fb) (down : Carries b c t u out fc) where
  -- The client sends, the broker makes a pass of its loop, and the process behind the broker's
  -- descriptor `out` receives as often as the message is for it. The results are the client's, what
  -- the pass leads to, and what the receiver got.
  pub relay : ℕ → ℕ → List ℕ → ℕ → List ℕ → Broker → a.World → Run (ℤ × Next × List (ℤ × List ℕ))
  relay m num ids n area st w = do
    (ret, fd, w') ← ih_send_broadcast_data a (pos fa) (broadcast_to num ids n area) w
    (next, v') ← round b st (up.carry w w')
    (got, x) ←
        receive_times c m (times out st.nodes num ids) (pos fc) (down.carry (up.carry w w') v')
    ok (ret, next, got)

  -- A client names up to 56 processes and gives `n` bytes of data, and the message fits the
  -- broker's buffer. The broker's descriptors are below 1024. The client is the process at position `i` of the broker, and what it sends is
  -- all that the broker has to do; the systems take what is sent, deliver what waits and report
  -- it. Then the call of the client succeeds, the broker's loop goes on with its variables as they
  -- were but for the highest descriptor, and the process behind `out`, with a buffer that holds
  -- more than the data, gets exactly these bytes with result 0, once for each time that it is
  -- named. Nothing runs out of fuel or leaves its buffers on the way.
  pub relay-delivered :
      (m num n i : ℕ) (ids area : List ℕ) (st : Broker) (node : PubSubNode) (w : a.World)
      → num ≤ length ids
      → num ≤ 56
      → n ≤ length area
      → n + round4 num < max_cmd_len - head_len
      → n < m
      → get_elem? st.nodes i ≡ some node
      → node.connfd ≡ pos fb
      → st.sockfd ≢ fb
      → OthersQuiet (fb ∷ []) st.nodes i
      → Accepts a fa
      → AllAccept b st.nodes
      → Delivers b t fb
      → Delivers c u fc
      → Reports b t st fb
      → all_below fd_setsize (select_args st).1 ≡ true
      → Ends ⊥
          (λ r. r ≡ (
            pos 0,
            again (watched st),
            replicate (times out st.nodes num ids) (pos 0, take n area),
          ))
          (relay m num ids n area st w)
  unfolding relay
  relay-delivered m num n i ids area st node w counted few room small space at conn no_call others
        takes all d d' reports low =
      Run.bind
        (ih_send_broadcast_data-SentMessage a s fa num n ids area w counted few room
          (omega (arith, small)))
        λ (ret, fd, w') sent. elim sent [
          | inr (closed, bad, refused) ↦ absurd (refused takes)
          | inl (z, kept, o) ↦
              let (more, comes) = up.carried w w' (client_message num ids n area) o in
              Run.bind
                (round-Passed b t num n i fb ids area st node counted room small at conn no_call
                  others all d reports low (up.carry w w') more comes)
                λ (next, v') (goes_on, o').
                  let count = times out st.nodes num ids in
                  let (more', comes') = down.carried (up.carry w w') v' _ (o' out) in
                  let copied =
                    ap (λ x. x ++ more')
                      (expected-copies out st.nodes num ids (subscriber_message n area)) in
                  Run.bind
                    (receive_times-copies c u fc n m area d' room space count
                      (down.carry (up.carry w w') v') more' (comes' ∙ copied))
                    λ (got, x) (as_sent, end). returned (rw (z, goes_on, as_sent) refl)
        ]
