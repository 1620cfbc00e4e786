-- ===== src/Tests/Bytes.antt =====
-- A pass of the broker's loop, over a system where one fixed message is what any descriptor gives.
use icehydra.Prelude.{
  ℕ, zero, suc, ◌+◌, ◌≤◌, ◌<◌, ◌≡◌, refl, sym, ap, ◌∙◌, true, some, List, [], ◌∷◌, ◌++◌, arith,
  length, length-take, take, drop, take-append-drop, ℤ, pos, minus_one, is_neg, false, Option, none,
}
use mathlib.Core.Path.{ap₂}
use icehydra.Run.{Ends}
use icehydra.Kernel.{
  Kernel, Received, got, recv_failed, Errno, eagain, other, sent, send_failed, ready,
}
use icehydra.Kernel.Stream.{IsStream}
use icehydra.Wire.{byte_at, encode, round4}
use icehydra.Client.Send.{client_message}
use icehydra.Broker.Loop.{begin, round}
use icehydra.Broker.Loop.Config.{SameConfig, state}
use icehydra.Broker.Loop.Reach.{here}
use icehydra.Broker.Loop.Watch.{AllBelow}
use icehydra.Broker.Loop.Pass.{Reaches-Returns}
use icehydra.Broker.Loop.Causes.{PassFails}
use icehydra.Kernel.Unix.{Unix, IsUnix}
use icehydra.Files.{read_file}
use icehydra.Main.{key_f, Host, main}
use icehydra.Main.Described.{MainFails, ServesAs, main-ServesAs}
use icehydra.Tests.Configs.{start, loaded_node, disk}
use icehydra.Tests.Files.{file_json, file_json-Shortens, first_process, second_process, file-Reads}

abbrev message : List ℕ
message = client_message 1 (7 ∷ []) 2 (104 ∷ (105 ∷ []))

-- How many bytes were asked for, and the path that was bound.
abbrev Tape : Type 0
Tape = ℕ × Option (List ℕ)

-- What is left, after `n` more bytes were asked for.
abbrev next_bytes : List ℕ → ℕ → Tape → Received × Tape
next_bytes [] n w = (recv_failed eagain, w)
next_bytes (b ∷ bs) n w = (got (take n (b ∷ bs)), (w.0 + n, w.1))

-- Nothing can be sent.
abbrev tape : Kernel
tape = record {
  World = Tape;
  recv = λ fd n w. next_bytes (drop w.0 message) n w;
  send = λ fd bs w. (send_failed other, w);
  close = λ fd w. w;
  select = λ nfds fds w. (ready (0 ∷ []), w);
  accept = λ fd w. ((pos 9, []), w);
  stat = λ path w. (some true, w);
}

drop-drop : (n w : ℕ) (xs : List ℕ) → drop n (drop w xs) ≡ drop (w + n) xs
drop-drop n zero xs = let e : n ≡ 0 + n = omega arith in ap (λ (i : ℕ). drop i xs) e
drop-drop zero (suc w) [] = let e : suc w + 0 ≡ suc w = omega arith in rw e refl
drop-drop (suc n) (suc w) [] = let e : suc w + suc n ≡ suc (w + suc n) = omega arith in rw e refl
drop-drop n (suc w) (x ∷ xs) =
    let e : suc w + n ≡ suc (w + n) = omega arith in
    drop-drop n w xs ∙ ap (λ (i : ℕ). drop i (x ∷ xs)) (sym e)

next-length :
    (xs : List ℕ) (n : ℕ) (w w' : Tape) (bs : List ℕ)
    → next_bytes xs n w ≡ (got bs, w')
    → length bs ≤ n
next-length [] n w w' bs e = absurd (ground arith)
next-length (x ∷ xs) n w w' bs e =
    let same : take n (x ∷ xs) ≡ bs = ground arith in
    omega (arith, length-take n (x ∷ xs), ap length same)

next-split :
    (xs : List ℕ) (n : ℕ) (w w' : Tape) (bs : List ℕ)
    → xs ≡ drop w.0 message
    → next_bytes xs n w ≡ (got bs, w')
    → drop w.0 message ≡ bs ++ drop w'.0 message
next-split [] n w w' bs at e = absurd (ground arith)
next-split (x ∷ xs) n w w' bs at e =
    let same : take n (x ∷ xs) ≡ bs = ground arith in
    let on : w.0 + n ≡ w'.0 = ap (λ (p : Received × Tape). p.1.0) e in
    let left : drop n (x ∷ xs) ≡ drop w'.0 message =
      ap (drop n) at ∙ drop-drop n w.0 message ∙ ap (λ (i : ℕ). drop i message) on in
    sym at ∙ sym (take-append-drop n (x ∷ xs)) ∙ ap₂ ◌++◌ same left

next-failed :
    (xs : List ℕ) (n : ℕ) (w w' : Tape) (c : Errno)
    → next_bytes xs n w ≡ (recv_failed c, w')
    → w' ≡ w
next-failed [] n w w' c e = ap (λ (p : Received × Tape). p.1) (sym e)
next-failed (x ∷ xs) n w w' c e = absurd (ground arith)

never-sent : (fd n : ℕ) (bs : List ℕ) (w w' : Tape) → tape.send fd bs w ≡ (sent n, w') → ⊥
never-sent fd n bs w w' e = ground arith

abbrev tape_stream : IsStream tape
tape_stream = record {
  pending = λ fd w. drop w.0 message;
  output = λ fd w. [];
  recv_length = λ fd n w w' bs e. next-length (drop w.0 message) n w w' bs e;
  recv_pending = λ fd n w w' bs e. next-split (drop w.0 message) n w w' bs refl e;
  recv_failed_pending = λ fd n w w' c e.
      ap (λ (x : Tape). drop x.0 message) (next-failed (drop w.0 message) n w w' c e);
  recv_output = λ fd n g w w' r e. refl;
  send_length = λ fd n bs w w' e. absurd (never-sent fd n bs w w' e);
  send_output = λ fd n bs w w' e. absurd (never-sent fd n bs w w' e);
  send_failed_output = λ fd bs w w' c e. refl;
  send_output_ne = λ fd g bs w w' r ne e. refl;
  close_output = λ fd g w. refl;
}

byte-below : (xs : List ℕ) (w i : ℕ) → AllBelow 256 xs → byte_at (drop w xs) i < 256
byte-below [] zero i h = omega arith
byte-below [] (suc w) i h = omega arith
byte-below (x ∷ xs) zero zero h = h.0
byte-below (x ∷ xs) zero (suc i) h = byte-below xs zero i h.1
byte-below (x ∷ xs) (suc w) i h = byte-below xs w i h.1

message-AllBelow : AllBelow 256 message
unfolding encode round4
message-AllBelow = ground arith

Reaches-Returns_example :
    Ends
      (PassFails tape tape_stream (begin start (loaded_node 7 ∷ []) 3) (0, none))
      (λ x. SameConfig (begin start (loaded_node 7 ∷ []) 3) (state x.0))
      (round tape (begin start (loaded_node 7 ∷ []) 3) (0, none))
Reaches-Returns_example =
    Reaches-Returns tape tape_stream start (loaded_node 7 ∷ []) 3
      (begin start (loaded_node 7 ∷ []) 3) (0, none) (0, none)
      (λ fd i w. byte-below message w.0 i message-AllBelow)
      (refl, omega arith, (omega arith, omega arith, (omega arith, tt)))
      (refl, (refl, omega arith, (omega arith, omega arith, (omega arith, tt))), tt) here

-- Every socket can be opened; the path that was bound last is known.
abbrev tape_unix : Unix tape
tape_unix = record {
  unlink = λ path w. w;
  socket = λ w. (pos 6, w);
  bind = λ fd path w. (pos 0, (w.0, some path));
  connect = λ fd path w. (minus_one, w);
  chmod = λ path mode w. w;
  listen = λ fd backlog w. (pos 0, w);
  recv_all = λ fd n w. (recv_failed eagain, w);
  sendmsg = λ fd m w. (minus_one, w);
  recvmsg = λ fd n w. (none, w);
}

never-connected :
    (fd : ℕ) (path : List ℕ) (w w' : Tape) (r : ℤ)
    → tape_unix.connect fd path w ≡ (r, w')
    → is_neg r ≡ false
    → ⊥
never-connected fd path w w' r e good =
    let lost : minus_one ≡ r = ap (λ (p : ℤ × Tape). p.0) e in ground arith

abbrev tape_IsUnix : IsUnix tape tape_unix
tape_IsUnix = record {
  name_of = λ fd w. w.1;
  peer_of = λ fd w. none;
  bind_name = λ fd path w w' r e good. ap (λ (p : ℤ × Tape). p.1.1) (sym e);
  chmod_name = λ fd mode path w. refl;
  connect_peer = λ fd path w w' r e good. absurd (never-connected fd path w w' r e good);
  connect_name = λ fd g path w w' r e. ap (λ (p : ℤ × Tape). p.1.1) (sym e);
  listen_name = λ fd backlog g w w' r e. ap (λ (p : ℤ × Tape). p.1.1) (sym e);
}

abbrev host : Host disk tape
host = record { access = λ path v. true; daemon = λ w. w }

main-ServesAs_example :
    Ends
      (MainFails disk tape tape_unix tape_IsUnix tape_stream 3
        (λ n. n + 1)
        (record first_process { pub_links_num = pos 1 })
        (second_process ∷ [])
        (0, none))
      (λ r.
        ServesAs disk tape tape_unix tape_IsUnix
          (record first_process { pub_links_num = pos 1 })
          (second_process ∷ [])
          (0, none)
          (r.0, r.2))
      (main disk tape tape_unix host file_json 3 (λ n. n + 1) (key_f (47 ∷ []) ∷ []) 0 (0, none))
unfolding read_file
main-ServesAs_example =
    main-ServesAs disk tape tape_unix tape_IsUnix host file_json tape_stream 3 (λ n. n + 1)
      (47 ∷ []) (0 ∷ (7 ∷ [])) first_process (second_process ∷ []) 0 0 (0, none) file_json-Shortens
      (λ fd i w. byte-below message w.0 i message-AllBelow) refl (omega arith) (omega arith) refl
      file-Reads refl (refl, tt)
