-- ===== src/Setup/Ready.antt =====
-- wait_all_unix_connet of src/unix_socket.c: what a client takes for the broker's signal.
use icehydra.Prelude.{
  ℕ, ◌≡◌, refl, sym, ap, ◌∙◌, ◌↔◌, inl, inr, true, Bool-cases, List, [], ◌∷◌, arith, ◌==◌, ==→eq,
  length, ℤ, pos, minus_one,
}
use icehydra.Kernel.{Kernel, Received, got}
use icehydra.Kernel.Unix.{Unix}
use icehydra.Wire.{encode, send_parallel, cmd_conn_ok}
use icehydra.Wire.Head.{fresh_cmd}
use icehydra.Setup.{
  cmd_all_connect_ok, cmd_all_connect_ok_len, is_mem_same_n, all_connected, wait_all_unix_connet,
}

is_mem_same_n-eq :
    (a b : List ℕ) → length a ≡ length b → is_mem_same_n a b (length b) ≡ true → a ≡ b
unfolding is_mem_same_n
is_mem_same_n-eq [] [] h e = refl
is_mem_same_n-eq [] (y ∷ b) h e = absurd (omega arith)
is_mem_same_n-eq (x ∷ a) [] h e = absurd (omega arith)
is_mem_same_n-eq (x ∷ a) (y ∷ b) h e = ground (arith, is_mem_same_n-eq a b (omega arith))

-- The text of CMD_ALL_CONNECT_OK is a head: a parallel command without a body or ids.
signal-head : cmd_all_connect_ok ≡ encode (fresh_cmd 0 send_parallel cmd_conn_ok 0)
unfolding encode
signal-head = refl

zero_or_minus_one : pos 0 ≡ minus_one → ⊥
zero_or_minus_one e = cc

all_connected-eq : (bs : List ℕ) → all_connected (got bs) ≡ pos 0 → bs ≡ cmd_all_connect_ok
all_connected-eq bs h = elim (Bool-cases (length bs == cmd_all_connect_ok_len)) [
  | inr other ↦
      let lost : all_connected (got bs) ≡ minus_one = rw other in
      absurd (zero_or_minus_one (sym h ∙ lost))
  | inl whole ↦ elim (Bool-cases (is_mem_same_n bs cmd_all_connect_ok cmd_all_connect_ok_len)) [
    | inl same ↦ is_mem_same_n-eq bs cmd_all_connect_ok (==→eq (length bs) 8 whole) same
    | inr differ ↦
        let lost : all_connected (got bs) ≡ minus_one = rw (whole, differ) in
        absurd (zero_or_minus_one (sym h ∙ lost))
  ]
]

module _ (k : Kernel) (u : Unix k) (sockfd : ℤ) (w w' : k.World) (bs : List ℕ)
    (answer : u.recv_all sockfd cmd_all_connect_ok_len w ≡ (got bs, w')) where
  wait_all-all_connected : (wait_all_unix_connet k u sockfd w).0 ≡ all_connected (got bs)
  unfolding wait_all_unix_connet
  wait_all-all_connected = ap (λ (r : Received × k.World). all_connected r.0) answer

  -- Where recv gives some bytes, the wait is over with result 0 exactly if they are the head of a
  -- parallel command IH_CMD_ID_CONN_OK without a body and ids.
  pub wait_all_unix_connet-head :
      ((wait_all_unix_connet k u sockfd w).0 ≡ pos 0)
      ↔ (bs ≡ encode (fresh_cmd 0 send_parallel cmd_conn_ok 0))
  unfolding is_mem_same_n
  wait_all_unix_connet-head = (
    λ h. all_connected-eq bs (sym wait_all-all_connected ∙ h) ∙ signal-head,
    λ e. wait_all-all_connected ∙ ap (λ x. all_connected (got x)) (e ∙ sym signal-head),
  )
