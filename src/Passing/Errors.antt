-- ===== src/Passing/Errors.antt =====
-- send_errno_unix_domain of src/unix_socket.c: a text, then an error number.
use icehydra.Prelude.{
  ℕ, ◌<◌, ◌≡◌, refl, ◌⊎◌, ap, ◌∙◌, inl, inr, false, List, arith, length, take, take_all, lt→ltb, ℤ,
  pos, negsuc, minus_one, eqb_ℤ,
}
use mathlib.Core.Path.{subst}
use icehydra.Run.{Run, Ends, returned}
use icehydra.Run
use icehydra.Kernel.{Kernel}
use icehydra.Kernel.Stream.{IsStream}
use icehydra.Kernel.Unix.{Unix}
use icehydra.Socket.SendCmds.{IsPrefix}
use icehydra.Socket.Outcomes.{Wrote, SentSome, tcp_send_noblock-SentSome}
use icehydra.Passing.{send_errno_unix_domain}

module _ (k : Kernel) (u : Unix k) (s : IsStream k) where
  -- The result is -1, and no more than the text, or a front part of it, was written.
  abbrev pub OnlyText : ℕ → List ℕ → k.World → ℤ × k.World → Type 0
  OnlyText fd msg w (ret, w') =
      (ret ≡ minus_one)
      × ((new : List ℕ) × Wrote k s fd new w w' × ((new ≡ msg) ⊎ IsPrefix new msg))

  OnlyText-of :
      (fd : ℕ) (msg : List ℕ) (w : k.World) (r : ℤ × k.World)
      → SentSome k s fd (take (length msg) msg) w r
      → OnlyText fd msg w (minus_one, r.1)
  OnlyText-of fd msg w r (new, o, done) =
      let whole : take (length msg) msg ≡ msg = take_all (length msg) msg (omega arith) in
      (refl, (new, o, text_or_front done whole))
    where
      text_or_front :
          {ret : ℤ} {new some_text : List ℕ}
          → ((ret ≡ pos 0) × (new ≡ some_text)) ⊎ ((ret ≡ minus_one) × IsPrefix new some_text)
          → some_text ≡ msg
          → (new ≡ msg) ⊎ IsPrefix new msg
      text_or_front (inl (z, e)) whole = inl (e ∙ whole)
      text_or_front {new = new} (inr (z, front)) whole = inr (subst (IsPrefix new) whole front)

  other_result :
      (fd n : ℕ) (msg : List ℕ) (w : k.World) (r : ℤ × k.World)
      → 0 < n
      → SentSome k s fd msg w r
      → eqb_ℤ r.0 (pos n) ≡ false
  other_result fd n msg w r h (new, o, inl (z, e)) = ap (λ i. eqb_ℤ i (pos n)) z ∙ ground arith
  other_result fd n msg w r h (new, o, inr (z, e)) = ap (λ i. eqb_ℤ i (pos n)) z

  -- For a text that is not empty and a negative error number, send_errno_unix_domain takes the result
  -- 0 of tcp_send_noblock for a failure: its own result is -1, and the error number is not sent, but
  -- the text or a front part of it.
  pub send_errno_unix_domain-text :
      (fd n : ℕ) (msg : List ℕ) (w : k.World)
      → 0 < length msg
      → Ends ⊥ (OnlyText fd msg w) (send_errno_unix_domain k u (pos fd) (negsuc n) msg w)
  unfolding send_errno_unix_domain
  send_errno_unix_domain-text fd n msg w h = rw (lt→ltb 0 (length msg) h) (
      Run.bind
        (Run.mono (tcp_send_noblock-SentSome k s fd (length msg) msg w h) (λ short. omega arith)
          λ r q. q)
        λ r q.
          rw (other_result fd (length msg) (take (length msg) msg) w r h q)
            (returned (OnlyText-of fd msg w r q)))
