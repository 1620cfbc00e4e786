-- ===== src/Broker/Cast/Progress.antt =====
-- broadcast_cmd gives each process that a message names the stripped message, once for each time
-- that it is named, and nothing to anybody else.
use icehydra.Prelude.{
  ℕ, zero, suc, ◌≤◌, ◌<◌, ◌≡◌, refl, sym, ap, ◌∙◌, ◌⊎◌, inl, inr, Option, none, some, List, [], ◌∷◌,
  ◌++◌, append-nil, arith, if◌then◌else◌, Bool-cases, length, take, ◌==◌, ==→eq, ℤ, pos, negsuc,
  minus_one, neg, eqb_ℤ, is_neg,
}
use icehydra.Run.{Run, ok, Ends, returned, faulted}
use icehydra.Run
use icehydra.Kernel.{Kernel}
use icehydra.Kernel.Stream.{IsStream, Accepts}
use icehydra.Wire.{ProtocolCmd, encode, decode, head_len}
use icehydra.Wire.Layout.{decode-encode, length-encode}
use icehydra.Socket.{tcp_send_protocol_cmd}
use icehydra.Socket.SendCmds.{message, IsPrefix, Delivered, tcp_send_protocol_cmd-Delivered}
use icehydra.Node.{PubSubNode}
use icehydra.Broker.Cast.Shares.{
  count_id, copies, share, expected, Progress, Progress-cong, Progress-weaken, Progress-after,
  Progress-cut, FailedAt, FailedIn,
}
use icehydra.Broker.Cast.{send_to_node, broadcast_nodes}

pub message-encode :
    (h : ProtocolCmd) (area : List ℕ) → message (encode h) area ≡ encode h ++ take h.bodylen area
unfolding encode decode
message-encode h area =
    ap (λ (c : ProtocolCmd). encode h ++ take c.bodylen area)
      (ap decode (sym (append-nil (encode h))) ∙ decode-encode h [])

module _ (k : Kernel) (s : IsStream k) where
  open s use {output}

  module _ (head : ProtocolCmd) (area : List ℕ) (room : head.bodylen ≤ length area) where
    abbrev frame : List ℕ
    frame = encode head ++ take head.bodylen area

    -- One send to a node: nothing at all if its descriptor is closed.
    abbrev Sent1 : ℤ → k.World → ℤ × k.World → Type 0
    Sent1 connfd w (ret, w') =
        ((ret ≡ pos 0) × ((g : ℕ) → output g w' ≡ output g w ++ share g connfd 1 frame))
        ⊎ ((ret ≡ minus_one)
            × ((fd : ℕ) × (connfd ≡ pos fd) × (¬ Accepts k fd))
            × ((g : ℕ)
                → (new : List ℕ) × (output g w' ≡ output g w ++ new)
                  × IsPrefix new (share g connfd 1 frame)))

    Delivered-Sent1 :
        (fd : ℕ) (w : k.World) (r : ℤ × k.World) → Delivered k s fd frame w r → Sent1 (pos fd) w r
    Delivered-Sent1 fd w (ret, w') (new, o, inl (z, e), q, all) = inl (z, to)
      where
        to : (g : ℕ) → output g w' ≡ output g w ++ share g (pos fd) 1 frame
        to g = elim (Bool-cases (fd == g)) [
          | inl hit ↦ rw (hit, append-nil, ← e, ← ==→eq fd g hit) o
          | inr miss ↦ rw (miss, append-nil) (q g (λ x. ground arith))
        ]
    Delivered-Sent1 fd w (ret, w') (new, o, inr (z, e), q, all) =
        inr (z, (fd, refl, λ a. ground (arith, all a)), to)
      where
        to :
            (g : ℕ)
            → (new : List ℕ) × (output g w' ≡ output g w ++ new)
              × IsPrefix new (share g (pos fd) 1 frame)
        to g = elim (Bool-cases (fd == g)) [
          | inl hit ↦ rw (hit, append-nil) (new, rw (← ==→eq fd g hit) o, e)
          | inr miss ↦ rw (miss) ([], q g (λ x. ground arith) ∙ sym (append-nil _), ([], refl))
        ]

    one_send-Sent1 :
        (connfd : ℤ) (w : k.World)
        → Ends ⊥
            (Sent1 connfd w)
            (tcp_send_protocol_cmd k connfd (some (encode head)) (some area) w)
    unfolding tcp_send_protocol_cmd
    one_send-Sent1 (negsuc n) w = returned (inl (refl, λ g. sym (append-nil (output g w))))
    one_send-Sent1 (pos fd) w =
        Run.mono (tcp_send_protocol_cmd-Delivered k s fd (encode head) area w) no_short
          λ r p. Delivered-Sent1 fd w r (rw (message-encode head area) at p)
      where
        no_short :
            (length (encode head) < head_len) ⊎ (length area < (decode (encode head)).bodylen) → ⊥
        no_short (inl x) = omega (arith, length-encode head)
        no_short (inr x) =
            let e =
              ap (λ (c : ProtocolCmd). c.bodylen)
                (ap decode (sym (append-nil (encode head))) ∙ decode-encode head []) in
            omega (arith, e)

    share-suc :
        (g : ℕ) (connfd : ℤ) (n : ℕ)
        → share g connfd 1 frame ++ share g connfd n frame ≡ share g connfd (suc n) frame
    share-suc g connfd n = elim (Bool-cases (eqb_ℤ connfd (pos g))) [
      | inl hit ↦ rw hit (ap (λ x. x ++ copies n frame) (append-nil frame))
      | inr miss ↦ rw miss
    ]

    share-zero : (g : ℕ) (connfd : ℤ) → share g connfd 0 frame ≡ []
    share-zero g connfd = ground arith

    -- What the loop does behind one send: it stops there, or goes on with the rest.
    after_one :
        (node : PubSubNode) (n : ℕ) (w : k.World) (r : ℤ × k.World)
        (rest : k.World → Run (Option ℤ × k.World))
        → Sent1 node.connfd w r
        → ((w' : k.World)
            → Ends ⊥
                (Progress k s (λ g. share g node.connfd n frame) (FailedAt k s node n) w')
                (rest w'))
        → Ends ⊥
            (Progress k s (λ g. share g node.connfd (suc n) frame) (FailedAt k s node (suc n)) w)
            (if is_neg r.0 then ok (some (neg node.id), r.1) else rest r.1)
    after_one node n w (ret, w') rest (inl (z, o)) next = rw z (
        Run.mono (next w') (λ x. x)
          λ r p.
            Progress-cong k s _ (λ g. share g node.connfd (suc n) frame) (FailedAt k s node (suc n))
              w r (λ g. share-suc g node.connfd n)
              (Progress-after k s (λ g. share g node.connfd 1 frame)
                (λ g. share g node.connfd n frame) (FailedAt k s node (suc n)) w w' r o
                (Progress-weaken k s (λ g. share g node.connfd n frame) (FailedAt k s node n)
                  (FailedAt k s node (suc n)) w' r (λ e (z', x, some_left). (z', x, omega arith))
                  p)))
    after_one node n w (ret, w') rest (inr (z, bad, o)) next = rw z (
        returned (
          Progress-cong k s _ (λ g. share g node.connfd (suc n) frame) (FailedAt k s node (suc n)) w
            (some (neg node.id), w') (λ g. share-suc g node.connfd n)
            (Progress-cut k s (λ g. share g node.connfd 1 frame) (λ g. share g node.connfd n frame)
              (FailedAt k s node (suc n)) (FailedAt k s node (suc n)) w w' _ (λ x. x)
              ((refl, bad, omega arith), o))))

    send_to_node-Progress :
        (node : PubSubNode) (num : ℕ) (ids : List ℕ) (w : k.World)
        → num ≤ length ids
        → Ends ⊥
            (Progress k s
              (λ g. share g node.connfd (count_id node.id num ids) frame)
              (FailedAt k s node (count_id node.id num ids))
              w)
            (send_to_node k node head area num ids w)
    unfolding send_to_node
    send_to_node-Progress node zero ids w h =
        returned (λ g. sym (ap (◌++◌ (output g w)) (share-zero g node.connfd) ∙ append-nil _))
    send_to_node-Progress node (suc num) [] w h = absurd (omega arith)
    send_to_node-Progress node (suc num) (i ∷ ids) w h = elim (Bool-cases (eqb_ℤ (pos i) node.id)) [
      | inl hit ↦
          rw (hit, send_to_node)
            (Run.bind (one_send-Sent1 node.connfd w) λ r p.
              after_one node (count_id node.id num ids) w r (send_to_node k node head area num ids)
                p λ w'. send_to_node-Progress node num ids w' (omega arith))
      | inr miss ↦ rw (miss, send_to_node) (send_to_node-Progress node num ids w (omega arith))
    ]

    pub broadcast_nodes-Progress :
        (nodes : List PubSubNode) (num : ℕ) (ids : List ℕ) (w : k.World)
        → num ≤ length ids
        → Ends ⊥
            (Progress k s (λ g. expected g nodes num ids frame) (FailedIn k s nodes num ids) w)
            (broadcast_nodes k nodes head area num ids w)
    unfolding broadcast_nodes
    broadcast_nodes-Progress [] num ids w h = returned (λ g. sym (append-nil _))
    broadcast_nodes-Progress (node ∷ nodes) num ids w h =
        Run.bind (send_to_node-Progress node num ids w h)
          (step (λ w'. broadcast_nodes-Progress nodes num ids w' h))
      where
        mine : ℕ → List ℕ
        mine g = share g node.connfd (count_id node.id num ids) frame

        others : ℕ → List ℕ
        others g = expected g nodes num ids frame

        step :
            ((w' : k.World)
              → Ends ⊥
                  (Progress k s others (FailedIn k s nodes num ids) w')
                  (broadcast_nodes k nodes head area num ids w'))
            → (r : Option ℤ × k.World)
            → Progress k s mine (FailedAt k s node (count_id node.id num ids)) w r
            → Ends ⊥
                (Progress k s (λ g. mine g ++ others g) (FailedIn k s (node ∷ nodes) num ids) w)
                (elim r.0 [
                  | some e ↦ ok (some e, r.1)
                  | none ↦ broadcast_nodes k nodes head area num ids r.1
                ])
        step ih (none, w') p =
            Run.mono (ih w') (λ x. x)
              λ r q. Progress-after k s mine others (FailedIn k s (node ∷ nodes) num ids) w w' r p (
                Progress-weaken k s others (FailedIn k s nodes num ids)
                  (FailedIn k s (node ∷ nodes) num ids) w' r (λ e (i, n, at, x). (suc i, n, at, x))
                  q)
        step ih (some e, w') p = returned (
            Progress-cut k s mine others (FailedAt k s node (count_id node.id num ids))
              (FailedIn k s (node ∷ nodes) num ids) w w' e (λ x. (0, node, refl, x)) p)
