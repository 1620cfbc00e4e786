-- ===== src/Broker/Loop/Serve.antt =====
-- main.c: a pass of the loop in which one process has a message.
use icehydra.Prelude.{
  ℕ, zero, suc, ◌+◌, ◌≤◌, ◌<◌, ◌≡◌, ◌≢◌, refl, ◌⊎◌, inl, inr, true, false, none, some, List, [],
  ◌∷◌, arith, ◌==◌, ==→eq, Bool-cases, Option-cases, length, get_elem?, pos, is_neg, to_nat,
}
use icehydra.Run.{ok}
use icehydra.Kernel.{Kernel, ready}
use icehydra.Node.{PubSubNode}
use icehydra.Broker.Loop.{
  Broker, again, watch, max_ℤ, fd_isset, receive_from, serve_node, serve_nodes, on_ready,
  after_select, round, fd_setsize, all_below,
}

-- The processes at other positions have nothing to read.
abbrev pub OthersQuiet : List ℕ → List PubSubNode → ℕ → Type 0
OthersQuiet rset nodes i =
    (j : ℕ) (n : PubSubNode)
    → get_elem? nodes j ≡ some n
    → j ≢ i
    → (is_neg n.connfd ≡ true) ⊎ (fd_isset n.connfd rset ≡ false)

get_elem-below : (ns : List PubSubNode) (j : ℕ) → get_elem? ns j ≡ none → length ns ≤ j
get_elem-below [] j e = omega arith
get_elem-below (n ∷ ns) zero e = absurd (ground arith)
get_elem-below (n ∷ ns) (suc j) e = let h = get_elem-below ns j e in omega arith

-- The variables that a pass begins with.
abbrev pub watched : Broker → Broker
watched st = record st { max_conn_fd = (watch st.nodes st.max_conn_fd).1 }

-- What select is called with.
abbrev pub select_args : Broker → ℕ × List ℕ
select_args st =
    let (fds, top) = watch st.nodes st.max_conn_fd in
    (to_nat (max_ℤ (pos st.sockfd) top) + 1, st.sockfd ∷ fds)

module _ (k : Kernel) (rset : List ℕ) (st : Broker) (i : ℕ) (node : PubSubNode)
    (at : get_elem? st.nodes i ≡ some node) (others : OthersQuiet rset st.nodes i) where
  serve_node-quiet :
      (j : ℕ) (w : k.World) → j ≢ i → j < length st.nodes → serve_node k rset st j w ≡ ok (st, w)
  unfolding serve_node
  serve_node-quiet j w ne h = elim (Option-cases (get_elem? st.nodes j)) [
    | inl e ↦ absurd (omega (arith, get_elem-below st.nodes j e))
    | inr (n, e) ↦ elim (others j n e ne) [
      | inl closed ↦ rw (serve_node, e, closed) refl
      | inr unset ↦ elim (Bool-cases (is_neg n.connfd)) [
        | inl closed ↦ rw (serve_node, e, closed) refl
        | inr opened ↦ rw (serve_node, e, opened, unset) refl
      ]
    ]
  ]

  serve_nodes-quiet :
      (left j : ℕ) (w : k.World)
      → i < j
      → left + j ≡ length st.nodes
      → serve_nodes k rset left j st w ≡ ok (st, w)
  unfolding serve_nodes
  serve_nodes-quiet zero j w h e = refl
  serve_nodes-quiet (suc left) j w h e =
      rw (serve_nodes, serve_node-quiet j w (λ x. omega arith) (omega arith))
        (serve_nodes-quiet left (suc j) w (omega arith) (omega arith))

  module _ (w w' : k.World) (opened : is_neg node.connfd ≡ false)
      (is_set : fd_isset node.connfd rset ≡ true)
      (served : receive_from k st i node w ≡ ok (st, w')) where
    serve_node-only : serve_node k rset st i w ≡ ok (st, w')
    unfolding serve_node
    serve_node-only = rw (serve_node, at, opened, is_set) served

    serve_nodes-only :
        (left j : ℕ)
        → j ≤ i
        → left + j ≡ length st.nodes
        → i < length st.nodes
        → serve_nodes k rset left j st w ≡ ok (st, w')
    unfolding serve_nodes
    serve_nodes-only zero j h e below = absurd (omega arith)
    serve_nodes-only (suc left) j h e below = elim (Bool-cases (j == i)) [
      | inl hit ↦
          let same = ==→eq j i hit in
          rw (serve_nodes, same, serve_node-only)
            (serve_nodes-quiet left (suc i) w' (omega arith) (omega arith))
      | inr miss ↦
          rw (serve_nodes, serve_node-quiet j w (λ x. ground arith) (omega arith))
            (serve_nodes-only left (suc j) (ground arith) (omega arith) below)
    ]

get_elem-within :
    (ns : List PubSubNode) (j : ℕ) (n : PubSubNode) → get_elem? ns j ≡ some n → j < length ns
get_elem-within [] j n e = absurd (ground arith)
get_elem-within (m ∷ ns) zero n e = omega arith
get_elem-within (m ∷ ns) (suc j) n e = let h = get_elem-within ns j n e in omega arith

-- The descriptors that the pass waits for are below 1024, and select reports a set in which, of the listening descriptor and the processes, only the one at
-- position `i` is. If the broker serves that process and its variables stay, that is what the pass
-- does, and another pass follows.
pub round-only :
    (k : Kernel) (rset : List ℕ) (st : Broker) (i : ℕ) (node : PubSubNode) (w w1 w2 : k.World)
    → k.select (select_args st).0 (select_args st).1 w ≡ (ready rset, w1)
    → all_below fd_setsize (select_args st).1 ≡ true
    → fd_isset (pos st.sockfd) rset ≡ false
    → get_elem? st.nodes i ≡ some node
    → is_neg node.connfd ≡ false
    → fd_isset node.connfd rset ≡ true
    → OthersQuiet rset st.nodes i
    → receive_from k (watched st) i node w1 ≡ ok (watched st, w2)
    → round k st w ≡ ok (again (watched st), w2)
unfolding round after_select on_ready
round-only k rset st i node w w1 w2 found low no_call at opened is_set others served =
    let all =
      serve_nodes-only k rset (watched st) i node at others w1 w2 opened is_set served
        (length st.nodes) 0 (omega arith) (omega arith) (get_elem-within st.nodes i node at) in
    rw (low, found, after_select, on_ready, no_call, all) refl
