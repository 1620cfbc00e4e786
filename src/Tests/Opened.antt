-- ===== src/Tests/Opened.antt =====
-- The simulated system opens sockets and passes messages; and the theorems about that.
use icehydra.Prelude.{
  IsText, ℕ, ◌+◌, ◌≡◌, refl, sym, ap, ◌∙◌, ◌⊎◌, ◌↔◌, none, some, List, [], ◌∷◌, ◌++◌, arith, ◌==◌,
  eq→==, if◌then◌else◌, replicate, take, drop, ℤ, pos, negsuc, to_nat,
}
use icehydra.Run.{Ends, ok, fault}
use icehydra.Kernel.Unix.{Unix, IsUnix}
use icehydra.Node.{PubSubNode, chunk_sub}
use icehydra.Wire.{round4, encode, send_parallel, cmd_conn_ok}
use icehydra.Wire.Head.{fresh_cmd}
use icehydra.Traces.{number, text, print_data_char}
use icehydra.Traces.Texts.{IsTextAt, arguments_of, print_data_char-Prints}
use icehydra.Names.{NoByteMore}
use icehydra.Setup.{
  creat_bind_unix_tcp, ih_subscriber_create_connect, wait_all_unix_connet, cmd_all_connect_ok,
}
use icehydra.Setup.Connect.{
  socket_path, Attached, creat_bind_unix_tcp-fault, ih_subscriber_create_connect-Attached,
}
use icehydra.Setup.Ready.{wait_all_unix_connet-head}
use icehydra.Passing.{send_errno_unix_domain, recv_fd_unix_domain, fd_message}
use icehydra.Passing.Receive.{recv_fd_unix_domain-fd_message}
use icehydra.Passing.Errors.{OnlyText, send_errno_unix_domain-text}
use icehydra.Tests.Sim.{Sockets, sim, sim_stream, take_in}

-- Every descriptor that is opened is 6, and every message carries the descriptor 8.
abbrev pub sim_unix : Unix sim
sim_unix = record {
  unlink = λ path w. w;
  socket = λ w. (pos 6, w);
  bind = λ fd path w. (pos 0, record w { name = λ g. if g == fd then some path else w.name g });
  connect = λ fd path w. (pos 0, record w { peer = λ g. if g == fd then some path else w.peer g });
  chmod = λ path mode w. w;
  listen = λ fd backlog w. (pos 0, w);
  recv_all = λ fd n w. take_in (to_nat fd) n (w.input (to_nat fd)) w;
  sendmsg = λ fd m w. (pos 2, w);
  recvmsg = λ fd n w. (
    some (record { bytes = take n (w.input (to_nat fd)); rights = some (pos 8) }),
    record w { input = λ g. if g == to_nat fd then drop n (w.input g) else w.input g },
  );
}

pub if_same : {A : Type 0} (g : ℕ) (a b : A) → (if g == g then a else b) ≡ a
if_same g a b = rw (eq→== g g refl)

abbrev pub sim_IsUnix : IsUnix sim sim_unix
sim_IsUnix = record {
  name_of = λ fd w. w.name fd;
  peer_of = λ fd w. w.peer fd;
  bind_name = λ fd path w w' r e good.
      ap (λ (p : ℤ × Sockets). p.1.name fd) (sym e) ∙ if_same fd (some path) (w.name fd);
  chmod_name = λ fd mode path w. refl;
  connect_peer = λ fd path w w' r e good.
      ap (λ (p : ℤ × Sockets). p.1.peer fd) (sym e) ∙ if_same fd (some path) (w.peer fd);
  connect_name = λ fd g path w w' r e. ap (λ (p : ℤ × Sockets). p.1.name g) (sym e);
  listen_name = λ fd backlog g w w' r e. ap (λ (p : ℤ × Sockets). p.1.name g) (sym e);
}

abbrev waiting : List ℕ → Sockets
waiting bs = record { input = λ fd. bs; written = λ fd. []; name = λ fd. none; peer = λ fd. none }

abbrev subscriber : PubSubNode
subscriber = record {
  name = 115 ∷ [];
  chunk_type = chunk_sub;
  cpu_bind = pos 1;
  id = pos 1;
  connfd = pos 0;
  shm_nodes = none;
  shm_node_num = 0;
  pub_links_num = pos 0;
}

-- What becomes of the process when the broker accepts descriptor 9.
ih_subscriber_create_connect-Attached_example :
    Ends
      (NoByteMore (λ n. n + 1) (socket_path (115 ∷ []))
        ⊎ NoByteMore (λ n. n + 1) (socket_path (112 ∷ [])))
      (Attached sim sim_unix sim_IsUnix (subscriber ∷ []) (pos 9) (pos 0) (115 ∷ []) (112 ∷ []))
      (ih_subscriber_create_connect sim sim_unix (λ n. n + 1) (115 ∷ []) (112 ∷ []) (waiting []))
ih_subscriber_create_connect-Attached_example =
    ih_subscriber_create_connect-Attached sim sim_unix sim_IsUnix (λ n. n + 1) (115 ∷ []) (112 ∷ [])
      (waiting []) (subscriber ∷ []) (pos 9) (pos 0) (omega arith) (omega arith)

creat_bind_unix_tcp-fault_example :
    creat_bind_unix_tcp sim sim_unix (replicate 108 47) (waiting []) ≡ fault
creat_bind_unix_tcp-fault_example =
    creat_bind_unix_tcp-fault sim sim_unix (replicate 108 47) (waiting []) refl

wait_all_unix_connet-head_example :
    ((wait_all_unix_connet sim sim_unix (pos 6) (waiting (cmd_all_connect_ok ++ 1 ∷ []))).0 ≡ pos 0)
    ↔ (cmd_all_connect_ok ≡ encode (fresh_cmd 0 send_parallel cmd_conn_ok 0))
wait_all_unix_connet-head_example =
    wait_all_unix_connet-head sim sim_unix (pos 6) (waiting (cmd_all_connect_ok ++ 1 ∷ []))
      (take_in 6 8 (cmd_all_connect_ok ++ 1 ∷ []) (waiting (cmd_all_connect_ok ++ 1 ∷ []))).1
      cmd_all_connect_ok refl

-- Error number 5 behind a text of two bytes, which comes without a descriptor.
abbrev refusal : List ℕ
refusal = 110 ∷ 111 ∷ (fd_message (negsuc 4)).bytes

abbrev refusing : Unix sim
refusing = record sim_unix {
  recvmsg = λ fd n w. (some (record { bytes = take n (w.input (to_nat fd)); rights = none }), w);
}

recv_fd_unix_domain-fd_message_example :
    recv_fd_unix_domain sim refusing 1 (pos 6) (waiting refusal)
    ≡ ok (negsuc 4, (refusing.recvmsg (pos 6) 128 (waiting refusal)).1)
recv_fd_unix_domain-fd_message_example =
    recv_fd_unix_domain-fd_message sim refusing 0 (pos 6) (negsuc 4) (pos 8) (110 ∷ 111 ∷ [])
      (waiting refusal) (refusing.recvmsg (pos 6) 128 (waiting refusal)).1
      (omega arith, (omega arith, tt)) (omega arith) (omega arith) refl

send_errno_unix_domain-text_example :
    Ends ⊥
      (OnlyText sim sim_unix sim_stream 6 (110 ∷ 111 ∷ []) (waiting []))
      (send_errno_unix_domain sim sim_unix (pos 6) (negsuc 4) (110 ∷ 111 ∷ []) (waiting []))
send_errno_unix_domain-text_example =
    send_errno_unix_domain-text sim sim_unix sim_stream 6 4 (110 ∷ 111 ∷ []) (waiting [])
      (omega arith)

-- One id, and a text of two bytes behind its room.
abbrev received : List ℕ
received = 7 ∷ 0 ∷ 0 ∷ 0 ∷ 104 ∷ 105 ∷ 0 ∷ []

print_data_char-Prints_example :
    Ends
      (IsText (drop (round4 1) received))
      (λ out.
        (body : List ℕ) × IsTextAt (drop (round4 1) received) body
        × (arguments_of out ≡ number 7 ∷ text body ∷ []))
      (print_data_char 1 received)
print_data_char-Prints_example = print_data_char-Prints 1 received
