-- ===== src/Tests/Sockets.antt =====
-- The theorems about messages and streams, at a message with three bytes of body.
use icehydra.Prelude.{
  negsuc, none, ℕ, ◌+◌, ◌%◌, ◌≤◌, ◌<◌, ◌≡◌, refl, List, [], ◌∷◌, ◌++◌, some, length, take,
  replicate, arith, pos,
}
use icehydra.Run.{Ends}
use icehydra.Wire.{
  encode, decode, round4, zero_cmd, set_pure_protocol_head, set_broadcast_cmd_head, send_parallel,
}
use icehydra.Wire.Ranges.{InRange, set_pure_protocol_head-InRange}
use icehydra.Wire.Layout.{AllBytes, decode-encode, encode-decode}
use icehydra.Wire.Padding.{round4-least}
use icehydra.Wire.Head.{fresh_cmd, set_broadcast_cmd_head-given}
use icehydra.Socket.{tcp_send_protocol_cmd, tcp_send_noblock, tcp_recv_protocol_cmd}
use icehydra.Socket.SendCmds.{message, Short}
use icehydra.Socket.RecvCmds.{Oversized}
use icehydra.Socket.Outcomes.{
  SentSome, SentAll, TakenOrNot, TakenExactly, tcp_send_protocol_cmd-SentSome,
  tcp_send_protocol_cmd-SentAll, tcp_send_noblock-SentSome, tcp_recv_protocol_cmd-TakenOrNot,
  tcp_recv_protocol_cmd-TakenExactly,
}
use icehydra.Tests.Sim.{Sockets, sim, sim_stream, sim-Delivers, sim-Accepts}

abbrev head : List ℕ
head = 73 ∷ 72 ∷ 3 ∷ 0 ∷ 1 ∷ 188 ∷ 0 ∷ 0 ∷ []

abbrev body : List ℕ
body = 97 ∷ 98 ∷ 99 ∷ []

abbrev quiet : Sockets
quiet = record { input = λ fd. []; written = λ fd. []; name = λ fd. none; peer = λ fd. none }

-- The message waits at descriptor 5, with a byte behind it.
abbrev waiting : Sockets
waiting = record {
  input = λ fd. head ++ (body ++ 7 ∷ []);
  written = λ fd. [];
  name = λ fd. none;
  peer = λ fd. none;
}

head_bodylen : (decode head).bodylen ≡ 3
unfolding decode
head_bodylen = refl

head_comes_back : decode (encode (fresh_cmd 300 1 188 2) ++ body) ≡ fresh_cmd 300 1 188 2
head_comes_back = decode-encode (fresh_cmd 300 1 188 2) body

head-again : encode (decode head) ≡ head
head-again = encode-decode head refl (omega arith)

round4-five : (round4 5 % 4 ≡ 0) × (5 ≤ round4 5) × (round4 5 < 5 + 4)
round4-five = round4-least 5

head_for_two :
    set_broadcast_cmd_head zero_cmd (pos 11) (pos 188) 2
    ≡ fresh_cmd (11 + round4 2) send_parallel 188 2
unfolding round4
head_for_two =
    set_broadcast_cmd_head-given zero_cmd 11 188 2 (omega arith) (omega arith) (omega arith)

tcp_send_protocol_cmd-SentSome_example :
    Ends
      (Short head body)
      (SentSome sim sim_stream 5 (message head body) quiet)
      (tcp_send_protocol_cmd sim (pos 5) (some head) (some body) quiet)
tcp_send_protocol_cmd-SentSome_example =
    tcp_send_protocol_cmd-SentSome sim sim_stream 5 head body quiet

tcp_send_protocol_cmd-SentAll_example :
    Ends
      (Short head body)
      (SentAll sim sim_stream 5 (message head body) quiet)
      (tcp_send_protocol_cmd sim (pos 5) (some head) (some body) quiet)
tcp_send_protocol_cmd-SentAll_example =
    tcp_send_protocol_cmd-SentAll sim sim_stream 5 head body quiet (sim-Accepts 5)

some_text-SentSome :
    Ends
      (length body < 2)
      (SentSome sim sim_stream 5 (take 2 body) quiet)
      (tcp_send_noblock sim (pos 5) (some body) (pos 2) quiet)
some_text-SentSome = tcp_send_noblock-SentSome sim sim_stream 5 2 body quiet (omega arith)

abbrev head_room : List ℕ
head_room = replicate 8 0

abbrev body_room : List ℕ
body_room = replicate 4 0

tcp_recv_protocol_cmd-TakenOrNot_example :
    Ends
      (Oversized sim sim_stream 5 4 waiting)
      (TakenOrNot sim sim_stream 5 head_room body_room waiting)
      (tcp_recv_protocol_cmd sim (pos 5) (some head_room) (some body_room) waiting)
tcp_recv_protocol_cmd-TakenOrNot_example =
    tcp_recv_protocol_cmd-TakenOrNot sim sim_stream 5 head_room body_room waiting (omega arith)

tcp_recv_protocol_cmd-TakenExactly_example :
    Ends ⊥
      (TakenExactly sim sim_stream 5 head_room body_room head body (7 ∷ []) waiting)
      (tcp_recv_protocol_cmd sim (pos 5) (some head_room) (some body_room) waiting)
unfolding decode
tcp_recv_protocol_cmd-TakenExactly_example =
    tcp_recv_protocol_cmd-TakenExactly sim sim_stream 5 head_room body_room head body (7 ∷ [])
      waiting (omega arith) refl refl (omega arith) refl (sim-Delivers 5)

-- A length and numbers that do not fit their fields.
fields-InRange :
    InRange (set_pure_protocol_head zero_cmd (pos 70000) (negsuc 0) (pos 300))
    × InRange (set_broadcast_cmd_head zero_cmd (pos 70000) (pos 300) 260)
    × AllBytes (encode (set_broadcast_cmd_head zero_cmd (pos 70000) (pos 300) 260))
fields-InRange =
    set_pure_protocol_head-InRange zero_cmd (pos 70000) (negsuc 0) (pos 300) 260
      (omega arith, omega arith, omega arith, omega arith, omega arith, omega arith, omega arith)
