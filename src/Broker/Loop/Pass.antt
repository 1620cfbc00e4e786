-- ===== src/Broker/Loop/Pass.antt =====
-- main.c: what can go wrong in a pass of the loop, however long it has run.
use icehydra.Prelude.{
  ℕ, zero, suc, ◌+◌, ◌≤◌, ◌<◌, ◌≡◌, refl, sym, ap, ◌∙◌, inl, inr, false, some, none, ltb, ltb→le,
  is_pos, to_nat, List, [], ◌∷◌, arith, Bool-cases, Option-cases, length, map, get_elem?, ℤ, pos,
  negsuc, is_neg,
}
use mathlib.Core.Path.{subst}
use icehydra.Run.{Run, ok, fault, Ends, returned, faulted, ◌>>=◌}
use icehydra.Run
use icehydra.Kernel.{Kernel, Selected, select_failed, timed_out, ready}
use icehydra.Kernel.Stream.{IsStream}
use icehydra.Node.{PubSubNode}
use icehydra.Config.Nodes.{IsRead}
use icehydra.Broker.Loop.{
  Broker, begin, serve_node, serve_nodes, on_ready, after_select, round, fd_isset, watch, max_ℤ,
  fd_setsize, all_below,
}
use icehydra.Broker.Loop.Config.{
  SameConfig, configured, state, accept_unix_tcp-Ends, serve_node-KeepsConfig, round-SameConfig,
}
use icehydra.Broker.Loop.Safe.{HoldsBytes, receive_from-Returns}
use icehydra.Broker.Loop.Serve.{watched}
use icehydra.Config.Start.{AllListed}
use icehydra.Broker.Loop.Reach.{Reaches, Reaches-IsServed}
use icehydra.Broker.Loop.Causes.{
  HighDescriptor, OverfullIn, at_its_turn, behind_it, ReadyFails, PassFails,
}

length-configured : (ns : List PubSubNode) → length (map configured ns) ≡ length ns
length-configured [] = refl
length-configured (n ∷ ns) = ap suc (length-configured ns)

module _ (k : Kernel) (s : IsStream k) where
  opened-pos : (z : ℤ) → is_neg z ≡ false → (fd : ℕ) × (z ≡ pos fd)
  opened-pos (pos fd) e = (fd, refl)
  opened-pos (negsuc n) e = absurd (ground arith)

  none-beyond : (ns : List PubSubNode) (j : ℕ) → get_elem? ns j ≡ none → length ns ≤ j
  none-beyond [] j e = omega arith
  none-beyond (n ∷ ns) zero e = absurd (ground arith)
  none-beyond (n ∷ ns) (suc j) e = let h = none-beyond ns j e in omega arith

  watch-high :
      (ns : List PubSubNode) (m : ℤ)
      → all_below fd_setsize (watch ns m).0 ≡ false
      → (i fd : ℕ) × (node : PubSubNode) × (get_elem? ns i ≡ some node)
        × (node.connfd ≡ pos fd)
        × (fd_setsize ≤ fd)
  unfolding watch
  watch-high [] m e = absurd (ground arith)
  watch-high (n ∷ ns) m e = elim (Bool-cases (is_pos n.connfd)) [
    | inr closed ↦
        let (i, fd, node, at, conn, high) = watch-high ns (max_ℤ n.connfd m) (rw closed at e) in
        (suc i, fd, node, at, conn, high)
    | inl opened ↦ elim (Bool-cases (ltb (to_nat n.connfd) fd_setsize)) [
      | inl low ↦
          let (i, fd, node, at, conn, high) =
            watch-high ns (max_ℤ n.connfd m) (rw (opened, low) at e) in
          (suc i, fd, node, at, conn, high)
      | inr high ↦ (
        0,
        to_nat n.connfd,
        n,
        refl,
        ground (arith, opened),
        ltb→le (to_nat n.connfd) fd_setsize high,
      )
    ]
  ]

  watch-HighDescriptor :
      (st : Broker)
      → all_below fd_setsize (st.sockfd ∷ (watch st.nodes st.max_conn_fd).0) ≡ false
      → HighDescriptor k s st
  watch-HighDescriptor st e = elim (Bool-cases (ltb st.sockfd fd_setsize)) [
    | inr high ↦ inl (ltb→le st.sockfd fd_setsize high)
    | inl low ↦ inr (watch-high st.nodes st.max_conn_fd (rw low at e))
  ]

  serve_node-Returns :
      (rset : List ℕ) (st : Broker) (i : ℕ) (w : k.World)
      → HoldsBytes k s
      → IsRead st.start
      → i < length st.nodes
      → Ends (OverfullIn k s rset i st w) (λ x. Unit {0}) (serve_node k rset st i w)
  unfolding serve_node
  serve_node-Returns rset st i w bytes r below = elim (Option-cases (get_elem? st.nodes i)) [
    | inl e ↦ absurd (omega (arith, none-beyond st.nodes i e))
    | inr (node, e) ↦ elim (Bool-cases (is_neg node.connfd)) [
      | inl closed ↦ rw (e, serve_node, closed) (returned tt)
      | inr opened ↦ elim (Bool-cases (fd_isset node.connfd rset)) [
        | inr unset ↦ rw (e, serve_node, opened, unset) (returned tt)
        | inl is_set ↦
            let (fd, conn) = opened-pos node.connfd opened in
            rw (e, serve_node, opened, is_set)
              (Run.mono (receive_from-Returns k s st i fd node w bytes r conn)
                (at_its_turn e conn is_set) (λ x q. q))
      ]
    ]
  ]

  -- The list of processes stays as long as it was.
  SameConfig-length : (a b : Broker) → SameConfig a b → length b.nodes ≡ length a.nodes
  SameConfig-length a b (same, start, fd) =
      sym (length-configured b.nodes) ∙ ap length same ∙ length-configured a.nodes

  serve_nodes-Returns :
      (rset : List ℕ) (left i : ℕ) (st : Broker) (w : k.World)
      → HoldsBytes k s
      → IsRead st.start
      → left + i ≤ length st.nodes
      → Ends (OverfullIn k s rset i st w) (λ x. Unit {0}) (serve_nodes k rset left i st w)
  unfolding serve_nodes
  serve_nodes-Returns rset zero i st w bytes r below = returned tt
  serve_nodes-Returns rset (suc left) i st w bytes r below =
      Run.bind_ok
        (Run.both (serve_node-KeepsConfig k s rset st i w)
          (serve_node-Returns rset st i w bytes r (omega arith)))
        (λ x. x)
        λ (st', w') served (same, t).
          Run.mono
            (serve_nodes-Returns rset left (suc i) st' w' bytes (subst IsRead (sym same.1) r)
              (omega (arith, SameConfig-length st st' same)))
            (behind_it served) (λ x q. q)

  on_ready-Returns :
      (st : Broker) (rset : List ℕ) (w : k.World)
      → HoldsBytes k s
      → IsRead st.start
      → Ends (ReadyFails k s st rset w) (λ x. Unit {0}) (on_ready k st rset w)
  unfolding on_ready
  on_ready-Returns st rset w bytes r = elim (Bool-cases (fd_isset (pos st.sockfd) rset)) [
    | inl call ↦ rw call (
        Run.bind_ok (accept_unix_tcp-Ends k s st.sockfd w) (λ long. inl (refl, long))
          λ got e t. returned tt)
    | inr quiet ↦ rw quiet (
        Run.mono (serve_nodes-Returns rset (length st.nodes) 0 st w bytes r (omega arith))
          (λ x. inr (refl, x)) (λ x q. q))
  ]

  after_select-Returns :
      (st : Broker) (x : Selected × k.World)
      → HoldsBytes k s
      → IsRead st.start
      → Ends
          ((rset : List ℕ) × (w1 : k.World) × (x ≡ (ready rset, w1)) × ReadyFails k s st rset w1)
          (λ x. Unit {0})
          (after_select k st x)
  unfolding after_select
  after_select-Returns st (timed_out, w) bytes r = returned tt
  after_select-Returns st (select_failed, w) bytes r = returned tt
  after_select-Returns st (ready rset, w) bytes r =
      Run.bind_ok (on_ready-Returns st rset w bytes r) (λ x. (rset, w, refl, x))
        λ y e q. returned tt

  round-PassFails :
      (st : Broker) (w : k.World)
      → HoldsBytes k s
      → IsRead st.start
      → Ends (PassFails k s st w) (λ x. Unit {0}) (round k st w)
  unfolding round
  round-PassFails st w bytes r =
      elim (Bool-cases (all_below fd_setsize (st.sockfd ∷ (watch st.nodes st.max_conn_fd).0))) [
        | inr high ↦ rw high (faulted (inl (watch-HighDescriptor st high)))
        | inl low ↦
            rw low (Run.mono (after_select-Returns (watched st) _ bytes r) (λ x. inr x) (λ x q. q))
      ]

  -- A pass from a start node as it was read.
  pub round-Returns :
      (st : Broker) (w : k.World)
      → HoldsBytes k s
      → IsRead st.start
      → Ends (PassFails k s st w) (λ x. SameConfig st (state x.0)) (round k st w)
  round-Returns st w bytes r =
      Run.mono (Run.both (round-SameConfig k s st w) (round-PassFails st w bytes r)) (λ x. x)
        (λ x p. p.0)

  -- The loop began with a configuration as get_node_start reads it, and what can be read from a
  -- descriptor are bytes. However long the loop has run, the next pass ends with every process
  -- named, numbered and set up as before, or it faults. It faults only if, in this pass: the
  -- listening descriptor or that of a process is 1024 or more; or select reports a connection, and
  -- the path that accept then gives has 108 bytes or more; or a process that select reports has, when
  -- its turn comes, a message before it whose head announces 4088 bytes or more, as many as the
  -- broker's buffer holds behind the head.
  pub Reaches-Returns :
      (start : PubSubNode) (nodes : List PubSubNode) (sockfd : ℕ) (b : Broker) (w v : k.World)
      → HoldsBytes k s
      → IsRead start
      → AllListed nodes
      → Reaches k (begin start nodes sockfd) w b v
      → Ends (PassFails k s b v) (λ x. SameConfig b (state x.0)) (round k b v)
  Reaches-Returns start nodes sockfd b w v bytes r listed path =
      round-Returns b v bytes (Reaches-IsServed k s start nodes sockfd b w v r listed path).0
