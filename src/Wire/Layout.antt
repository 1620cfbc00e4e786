-- ===== src/Wire/Layout.antt =====
-- The layout of the head in memory (include/conf.h) loses nothing.
use icehydra.Prelude.{
  ℕ, ◌<◌, ◌≡◌, refl, sym, ap, ◌∙◌, append-nil, List, [], ◌∷◌, ◌++◌, arith, length, get_or-append,
}
use icehydra.Wire.{ProtocolCmd, encode, decode, head_len}

-- Reading a head back from the bytes that lay it out, whatever follows them, gives the head.
pub decode-encode : (h : ProtocolCmd) (rest : List ℕ) → decode (encode h ++ rest) ≡ h
unfolding encode decode
decode-encode h rest = ground arith

pub length-encode : (h : ProtocolCmd) → length (encode h) ≡ head_len
unfolding encode
length-encode h = refl

abbrev pub AllBytes : List ℕ → Type 0
AllBytes [] = Unit {0}
AllBytes (b ∷ bs) = (b < 256) × AllBytes bs

-- Eight bytes are the layout of the head that is read from them.
pub encode-decode : (bs : List ℕ) → length bs ≡ head_len → AllBytes bs → encode (decode bs) ≡ bs
unfolding encode decode
encode-decode bs n b = ground arith

pub bodylen-encode : (h : ProtocolCmd) → (decode (encode h)).bodylen ≡ h.bodylen
bodylen-encode h =
    ap (λ (c : ProtocolCmd). c.bodylen)
      (ap decode (sym (append-nil (encode h))) ∙ decode-encode h [])

-- The head is in the first eight bytes.
pub decode-append : (bs rest : List ℕ) → length bs ≡ head_len → decode (bs ++ rest) ≡ decode bs
unfolding decode
decode-append bs rest n =
    let at = λ (i : ℕ) (h : i < length bs). get_or-append i bs rest 0 h in
    ground (
      arith,
      at 0 (omega arith),
      at 1 (omega arith),
      at 2 (omega arith),
      at 3 (omega arith),
      at 4 (omega arith),
      at 5 (omega arith),
      at 6 (omega arith),
      at 7 (omega arith),
    )
