-- ===== src/Broker/Loop/Close.antt =====
-- main.c: a broadcast has failed at a process.
use icehydra.Prelude.{
  ℕ, ◌≡◌, refl, ap, ◌∙◌, inl, inr, Bool-cases, Option-cases, some, List, if◌then◌else◌, get_elem?,
  ℤ, is_neg, is_pos, to_nat, neg,
}
use icehydra.Kernel.{Kernel}
use icehydra.Kernel.Stream.{IsStream}
use icehydra.Node.{PubSubNode, find_node_by_id}
use icehydra.Node.Find.{close_first, close_found, close_found-first}
use icehydra.Broker.Loop.{Broker, close_node, after_broadcast}

-- The processes after a broadcast: if its result is negative, the first one whose id it is minus is
-- closed.
abbrev pub closed_after : ℤ → List PubSubNode → List PubSubNode
closed_after ret ns = if is_neg ret then close_first (neg ret) ns else ns

module _ (k : Kernel) (s : IsStream k) where
  close_node-found :
      (ns : List PubSubNode) (j : ℕ) (w : k.World)
      → (close_node k ns j w).0 ≡ close_found ns (some j)
  unfolding close_node
  close_node-found ns j w = elim (Option-cases (get_elem? ns j)) [
    | inl e ↦ rw (close_node, close_found, e) refl
    | inr (n, e) ↦ rw (close_node, close_found, e) refl
  ]

  close_node-quiet :
      (ns : List PubSubNode) (j g : ℕ) (w : k.World)
      → s.output g (close_node k ns j w).1 ≡ s.output g w
  unfolding close_node
  close_node-quiet ns j g w = elim (Option-cases (get_elem? ns j)) [
    | inl e ↦ rw (close_node, e) refl
    | inr (n, e) ↦ elim (Bool-cases (is_pos n.connfd)) [
      | inl opened ↦ rw (e, close_node, opened) (s.close_output (to_nat n.connfd) g w)
      | inr closed ↦ rw (e, close_node, closed) refl
    ]
  ]

  -- What a broadcast leaves behind: the process that it failed at is closed, and nothing is written.
  pub after_broadcast-Closes :
      (st : Broker) (ret : ℤ) (w : k.World)
      → ((after_broadcast k st (ret, w)).0 ≡ record st { nodes = closed_after ret st.nodes })
        × ((g : ℕ) → s.output g (after_broadcast k st (ret, w)).1 ≡ s.output g w)
  unfolding after_broadcast
  after_broadcast-Closes st ret w = elim (Bool-cases (is_neg ret)) [
    | inr good ↦ rw good (refl, λ g. refl)
    | inl bad ↦ elim (Option-cases (find_node_by_id st.nodes (neg ret))) [
      | inl gone ↦
          let closed = close_found-first st.nodes (neg ret) in
          rw (bad, gone)
            (ap (λ (ns : List PubSubNode). record st { nodes = ns }) (rw gone at closed), λ g. refl)
      | inr (j, at) ↦
          let closed = close_found-first st.nodes (neg ret) in
          rw (bad, at)
            (
              ap (λ (ns : List PubSubNode). record st { nodes = ns })
                  (close_node-found st.nodes j w ∙ (rw at at closed)),
              λ g. close_node-quiet st.nodes j g w,
            )
    ]
  ]
