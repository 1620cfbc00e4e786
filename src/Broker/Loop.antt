-- ===== src/Broker/Loop.antt =====
-- main.c: one pass of the broker's loop, and accept_unix_tcp of src/unix_socket.c.
pub mod Attach
pub mod Watch
pub mod Close
pub mod Config
pub mod Reach
pub mod Serve
pub mod Safe
pub mod Causes
pub mod Pass
use icehydra.Prelude.{
  ℕ, zero, suc, ◌+◌, ◌-◌, ◌%◌, ◌^◌, Bool, true, false, ◌&&◌, not, ◌||◌, Option, none, some, List,
  [], ◌∷◌, ◌++◌, ◌==◌, if◌then◌else◌, length, drop, replicate, get_elem?, set, ℤ, pos, negsuc,
  minus_one, is_neg, is_pos, to_nat, neg, ltb_ℤ, ltb, leb, succ, pred,
}
use icehydra.Run.{Run, ok, fault, ◌>>=◌}
use icehydra.Kernel.{Kernel, Selected, select_failed, timed_out, ready}
use icehydra.Traces.{trace}
use icehydra.Wire.{ProtocolCmd, Packet, decode, head_len, send_reserve, send_serial}
use icehydra.Socket.{tcp_recv_protocol_cmd}
use icehydra.Node.{PubSubNode, str_same_n, find_node_by_id}
use icehydra.Setup.{sun_path_len}
use icehydra.Broker.Cast.{broadcast_cmd}
use icehydra.Broker.Reserve.{parser_reserve_cmd}

-- NAME_PREFIX_LEN, SOCK_NAME_SUFFIX_LEN and MAX_CMD_LEN
abbrev pub name_prefix_len : ℕ
name_prefix_len = 9

abbrev pub sock_name_suffix_len : ℕ
sock_name_suffix_len = 5

abbrev pub max_cmd_len : ℕ
max_cmd_len = 4096

-- MAX_PATH, the size of `un` and of accept_unix_tcp's `name`
abbrev pub max_path : ℕ
max_path = 128

-- FD_SETSIZE
abbrev pub fd_setsize : ℕ
fd_setsize = 1024

-- `strlen(un)-NAME_PREFIX_LEN-SOCK_NAME_SUFFIX_LEN` is a size_t, and wraps below zero.
abbrev pub size_mod : ℕ
size_mod = 2 ^ 64

-- The test that finds the configured process behind a peer's path.
unfoldable pub is_peer : PubSubNode → List ℕ → Bool
is_peer node un =
    str_same_n node.name (drop name_prefix_len un) (length node.name)
    && length node.name
      == (length un + size_mod - name_prefix_len - sock_name_suffix_len) % size_mod

-- The variables of `main` that its loop keeps.
pub record Broker : Type 0 where
  pub start : PubSubNode
  pub nodes : List PubSubNode
  pub sockfd : ℕ
  pub max_conn_fd : ℤ
  pub link_count : ℤ

-- What they hold when the loop begins, for the configuration and the descriptor that it listens on.
abbrev pub begin : PubSubNode → List PubSubNode → ℕ → Broker
begin start nodes sockfd = record {
  start = start;
  nodes = nodes;
  sockfd = sockfd;
  max_conn_fd = minus_one;
  link_count = pos 0;
}

abbrev pub max_ℤ : ℤ → ℤ → ℤ
max_ℤ x y = if ltb_ℤ y x then x else y

-- The descriptors that the round waits for, besides `sockfd`, and the highest one seen.
unfoldable pub watch : List PubSubNode → ℤ → List ℕ × ℤ
watch [] max_conn_fd = ([], max_conn_fd)
watch (n ∷ ns) max_conn_fd =
    let (fds, top) = watch ns (max_ℤ n.connfd max_conn_fd) in
    (if is_pos n.connfd then to_nat n.connfd ∷ fds else fds, top)

-- A new connection is given to every process whose name fits; each counts as a link.
unfoldable pub attach : List PubSubNode → List ℕ → ℤ → ℤ → List PubSubNode × ℤ
unfolding is_peer
attach [] un connfd link_count = ([], link_count)
attach (n ∷ ns) un connfd link_count =
    let hit = is_peer n un in
    let (ns', links) = attach ns un connfd (if hit then succ link_count else link_count) in
    ((if hit then record n { connfd = connfd } else n) ∷ ns', links)

-- FD_SET of each descriptor stays within the fd_set.
abbrev pub all_below : ℕ → List ℕ → Bool
all_below n [] = true
all_below n (fd ∷ fds) = ltb fd n && all_below n fds

abbrev pub fd_isset : ℤ → List ℕ → Bool
fd_isset fd [] = false
fd_isset fd (f ∷ fs) = (not (is_neg fd) && to_nat fd == f) || fd_isset fd fs

-- What a pass of the loop leads to: another pass, or the end of the program.
pub data Next : Type 0 where
  again : Broker → Next
  quit : Broker → Next

-- The receiving buffer `rbuf`, cleared: a head, and the memory behind it.
abbrev pub clear_head : List ℕ
clear_head = replicate head_len 0

abbrev pub clear_area : List ℕ
clear_area = replicate (max_cmd_len - head_len) 0

abbrev pub bytes_of : Option (List ℕ) → List ℕ
bytes_of none = []
bytes_of (some bs) = bs

module _ (k : Kernel) where
  open k use {World, accept, stat, select, close}

  -- The peer's path, copied with its NUL out of sun_path, and into `name` and `cli_name`.
  abbrev pub copy_peer : List ℕ → Run (List ℕ)
  copy_peer path =
      let len = length path + 1 in
      if ltb sun_path_len len then fault else if leb max_path len then fault else ok path

  -- The descriptor or -1, and the peer's path.
  unfoldable pub accept_unix_tcp : ℕ → World → Run ((ℤ × List ℕ) × World)
  accept_unix_tcp sockfd w = do
    let ((connfd, path), w1) = accept sockfd w
    name ← copy_peer path
    let (found, w2) = stat name w1
    ok (elim found [
      | none ↦ ((minus_one, []), w2)
      | some is_sock ↦ if is_sock then ((connfd, name), w2) else ((minus_one, []), w2)
    ])

  -- close_s: the node at a position loses its descriptor.
  pub close_node : List PubSubNode → ℕ → World → List PubSubNode × World
  close_node nodes i w = elim (get_elem? nodes i) [
    | none ↦ (nodes, w)
    | some n ↦ (
      set nodes i (record n { connfd = minus_one }),
      if is_pos n.connfd then close (to_nat n.connfd) w else w,
    )
  ]

  -- The node at a position is closed, and is no link any more.
  abbrev pub remove_node : Broker → ℕ → World → Broker × World
  remove_node st i w =
      let (nodes, w') = close_node st.nodes i w in
      (record st { nodes = nodes; link_count = pred st.link_count }, w')

  -- A failed broadcast closes the process that it failed at.
  unfoldable pub after_broadcast : Broker → ℤ × World → Broker × World
  unfolding close_node
  after_broadcast st (ret, w) =
      if not (is_neg ret) then (st, w) else elim (find_node_by_id st.nodes (neg ret)) [
        | none ↦ (st, w)
        | some j ↦ let (nodes, w') = close_node st.nodes j w in (record st { nodes = nodes }, w')
      ]

  unfoldable pub dispatch : Broker → PubSubNode → Packet → World → Run (Broker × World)
  unfolding after_broadcast
  dispatch st node p w =
      if p.head.cmd_send_type == send_reserve
      then (do (ret, w') ← parser_reserve_cmd k st.start node p.head w; ok (st, w'))
      else if p.head.cmd_send_type == send_serial
      then ok (st, w)
      else do r ← broadcast_cmd k st.nodes (some p) w; ok (after_broadcast st r)

  unfoldable pub receive_from : Broker → ℕ → PubSubNode → World → Run (Broker × World)
  unfolding trace dispatch close_node
  receive_from st i node w = do
    (ret, head, area, w1) ←
        tcp_recv_protocol_cmd k node.connfd (some clear_head) (some clear_area) w
    if is_neg ret then ok (remove_node st i w1) else (do
      printed ← trace (decode (bytes_of head)) (bytes_of area)
      dispatch st node (record { head = decode (bytes_of head); tail = bytes_of area }) w1)

  -- The body of the second `list_for_each`, at the node at position `i`.
  pub serve_node : List ℕ → Broker → ℕ → World → Run (Broker × World)
  unfolding receive_from
  serve_node rset st i w = elim (get_elem? st.nodes i) [
    | none ↦ fault
    | some node ↦
        if is_neg node.connfd
        then ok (st, w)
        else if not (fd_isset node.connfd rset)
        then ok (st, w)
        else receive_from st i node w
  ]

  pub serve_nodes : List ℕ → ℕ → ℕ → Broker → World → Run (Broker × World)
  unfolding serve_node
  serve_nodes rset zero i st w = ok (st, w)
  serve_nodes rset (suc left) i st w = do
    (st', w') ← serve_node rset st i w
    serve_nodes rset left (suc i) st' w'

  -- A connection is accepted, or the ready processes are served: one of the two in a pass.
  unfoldable pub on_ready : Broker → List ℕ → World → Run (Broker × World)
  unfolding accept_unix_tcp
  on_ready st rset w =
      if not (fd_isset (pos st.sockfd) rset) then serve_nodes rset (length st.nodes) 0 st w else (do
        ((connfd, un), w') ← accept_unix_tcp st.sockfd w
        let (nodes, links) = attach st.nodes un connfd st.link_count
        ok (if is_neg connfd then st else record st { nodes = nodes; link_count = links }, w'))

  unfoldable pub after_select : Broker → Selected × World → Run (Next × World)
  unfolding on_ready
  after_select st (timed_out, w) = ok (again st, w)
  after_select st (select_failed, w) = ok (quit st, w)
  after_select st (ready rset, w) = do (st', w') ← on_ready st rset w; ok (again st', w')

  -- One pass of `while(1)`. FD_SET of a descriptor that is not below FD_SETSIZE is a fault.
  unfoldable pub round : Broker → World → Run (Next × World)
  unfolding after_select
  round st w =
      let (fds, top) = watch st.nodes st.max_conn_fd in
      let nfds = to_nat (max_ℤ (pos st.sockfd) top) + 1 in
      if all_below fd_setsize (st.sockfd ∷ fds)
      then after_select (record st { max_conn_fd = top }) (select nfds (st.sockfd ∷ fds) w)
      else fault
