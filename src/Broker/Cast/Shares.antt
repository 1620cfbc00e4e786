-- ===== src/Broker/Cast/Shares.antt =====
-- broadcast_cmd: what each descriptor is to receive, and how far a run came with it.
use icehydra.Prelude.{
  ℕ, zero, suc, ◌<◌, ◌≡◌, ap, ◌∙◌, Option, none, some, List, [], ◌∷◌, ◌++◌, append_assoc,
  if◌then◌else◌, get_elem?, ℤ, pos, neg, eqb_ℤ,
}
use mathlib.Core.Path.{fun_ext, subst}
use icehydra.Kernel.{Kernel}
use icehydra.Kernel.Stream.{IsStream, Accepts}
use icehydra.Socket.SendCmds.{IsPrefix, prefix-append, prefix_of_left}
use icehydra.Node.{PubSubNode}

-- How often an id stands among the first `num` bytes.
abbrev pub count_id : ℤ → ℕ → List ℕ → ℕ
count_id id zero ids = 0
count_id id (suc num) [] = 0
count_id id (suc num) (i ∷ ids) =
    if eqb_ℤ (pos i) id then suc (count_id id num ids) else count_id id num ids

abbrev pub copies : ℕ → List ℕ → List ℕ
copies zero frame = []
copies (suc n) frame = frame ++ copies n frame

-- What one process's descriptor is to receive, if it is `fd`.
abbrev pub share : ℕ → ℤ → ℕ → List ℕ → List ℕ
share fd connfd n frame = if eqb_ℤ connfd (pos fd) then copies n frame else []

-- What descriptor `fd` is to receive of a message for the first `num` of `ids`.
abbrev pub expected : ℕ → List PubSubNode → ℕ → List ℕ → List ℕ → List ℕ
expected fd [] num ids frame = []
expected fd (n ∷ ns) num ids frame =
    share fd n.connfd (count_id n.id num ids) frame ++ expected fd ns num ids frame

module _ (k : Kernel) (s : IsStream k) where
  open s use {output}

  -- Everything was sent, or the run stopped early after a front part; then `Cause r` holds of the
  -- result.
  abbrev pub Progress : (ℕ → List ℕ) → (ℤ → Type 0) → k.World → Option ℤ × k.World → Type 0
  Progress all Cause w (none, w') = (g : ℕ) → output g w' ≡ output g w ++ all g
  Progress all Cause w (some r, w') =
      Cause r
      × ((g : ℕ) → (new : List ℕ) × (output g w' ≡ output g w ++ new) × IsPrefix new (all g))

  pub Progress-cong :
      (all all' : ℕ → List ℕ) (Cause : ℤ → Type 0) (w : k.World) (r : Option ℤ × k.World)
      → ((g : ℕ) → all g ≡ all' g)
      → Progress all Cause w r
      → Progress all' Cause w r
  Progress-cong all all' Cause w r h p = subst (λ a. Progress a Cause w r) (fun_ext h) p

  pub Progress-weaken :
      (all : ℕ → List ℕ) (Cause Cause' : ℤ → Type 0) (w : k.World) (r : Option ℤ × k.World)
      → ((e : ℤ) → Cause e → Cause' e)
      → Progress all Cause w r
      → Progress all Cause' w r
  Progress-weaken all Cause Cause' w (none, w') weaken p = p
  Progress-weaken all Cause Cause' w (some r, w') weaken (c, p) = (weaken r c, p)

  pub Progress-after :
      (pre all : ℕ → List ℕ) (Cause : ℤ → Type 0) (w w' : k.World) (r : Option ℤ × k.World)
      → ((g : ℕ) → output g w' ≡ output g w ++ pre g)
      → Progress all Cause w' r
      → Progress (λ g. pre g ++ all g) Cause w r
  Progress-after pre all Cause w w' (none, w'') o p =
      λ g. p g ∙ ap (λ x. x ++ all g) (o g) ∙ append_assoc (output g w) (pre g) (all g)
  Progress-after pre all Cause w w' (some r, w'') o (c, p) = (
    c,
    λ g.
        let (new, e, f) = p g in
        (
          pre g ++ new,
          e ∙ ap (λ x. x ++ new) (o g) ∙ append_assoc (output g w) (pre g) new,
          prefix-append (pre g) new (all g) f,
        ),
  )

  pub Progress-cut :
      (all more : ℕ → List ℕ) (Cause Cause' : ℤ → Type 0) (w w' : k.World) (r : ℤ)
      → (Cause r → Cause' r)
      → Progress all Cause w (some r, w')
      → Progress (λ g. all g ++ more g) Cause' w (some r, w')
  Progress-cut all more Cause Cause' w w' r weaken (c, p) =
      (weaken c, λ g. let (new, e, f) = p g in (new, e, prefix_of_left new (all g) (more g) f))

  -- The send to a node that is named so many times failed, and its descriptor is one that does not
  -- accept all it is given.
  abbrev pub FailedAt : PubSubNode → ℕ → ℤ → Type 0
  FailedAt node n r =
      (r ≡ neg node.id) × ((fd : ℕ) × (node.connfd ≡ pos fd) × (¬ Accepts k fd)) × (0 < n)

  -- The failed node stands in the list, and its id among the first `num` of `ids`.
  abbrev pub FailedIn : List PubSubNode → ℕ → List ℕ → ℤ → Type 0
  FailedIn nodes num ids r =
      (i : ℕ) × (node : PubSubNode) × (get_elem? nodes i ≡ some node)
      × FailedAt node (count_id node.id num ids) r
