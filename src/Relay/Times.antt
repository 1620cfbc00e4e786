-- ===== src/Relay/Times.antt =====
-- How often a message for some ids reaches a descriptor.
use icehydra.Prelude.{
  ℕ, zero, suc, ◌+◌, ◌≡◌, refl, ap, ◌∙◌, inl, inr, Bool-cases, List, [], ◌∷◌, ◌++◌, append_assoc,
  arith, if◌then◌else◌, pos, eqb_ℤ,
}
use icehydra.Node.{PubSubNode}
use icehydra.Broker.Cast.Shares.{count_id, copies, expected}

-- Once for each time that the id of a process connected there stands among the first `num`.
unfoldable pub times : ℕ → List PubSubNode → ℕ → List ℕ → ℕ
times fd [] num ids = 0
times fd (n ∷ ns) num ids =
    let others = times fd ns num ids in
    if eqb_ℤ n.connfd (pos fd) then count_id n.id num ids + others else others

copies-add : (a b : ℕ) (frame : List ℕ) → copies a frame ++ copies b frame ≡ copies (a + b) frame
copies-add zero b frame = let e : b ≡ 0 + b = omega arith in ap (λ (x : ℕ). copies x frame) e
copies-add (suc a) b frame =
    let e : suc (a + b) ≡ suc a + b = omega arith in
    append_assoc frame (copies a frame) (copies b frame)
    ∙ ap (◌++◌ frame) (copies-add a b frame)
    ∙ ap (λ (x : ℕ). copies x frame) e

pub expected-copies :
    (fd : ℕ) (ns : List PubSubNode) (num : ℕ) (ids frame : List ℕ)
    → expected fd ns num ids frame ≡ copies (times fd ns num ids) frame
unfolding times
expected-copies fd [] num ids frame = refl
expected-copies fd (n ∷ ns) num ids frame = elim (Bool-cases (eqb_ℤ n.connfd (pos fd))) [
  | inl hit ↦ rw hit (
      ap (◌++◌ (copies (count_id n.id num ids) frame)) (expected-copies fd ns num ids frame)
      ∙ copies-add (count_id n.id num ids) (times fd ns num ids) frame)
  | inr miss ↦ rw miss (expected-copies fd ns num ids frame)
]
