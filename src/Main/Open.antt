-- ===== src/Main/Open.antt =====
-- main.c: the server's socket is opened.
use icehydra.Prelude.{
  ℕ, zero, suc, ◌<◌, ◌≡◌, refl, ap, ◌∙◌, ◌⊎◌, inl, inr, not, false, some, List, arith, length, ℤ,
  pos, negsuc, is_pos, lt→ltb, if◌then◌else◌, to_nat,
}
use icehydra.Run.{Run, ok, ◌>>=◌, Ends, returned, faulted}
use icehydra.Run
use icehydra.Kernel.{Kernel}
use icehydra.Kernel.Unix.{Unix, IsUnix}
use icehydra.Storage.{Storage}
use icehydra.Files.{bind_cpu}
use icehydra.Names.{name_prefix, sock_name_suffix, NoByteMore, name_fix-Joins}
use icehydra.Node.{PubSubNode}
use icehydra.Config.{max_file_name}
use icehydra.Setup.{creat_bind_unix_tcp, listen_unix_tcp}
use icehydra.Setup.Connect.{socket_path, length-socket_path, Bound, creat_bind_unix_tcp-Bound}
use icehydra.Broker.Loop.{begin}
use icehydra.Main.{Started, aborted, looping, open_server}

module _ (s : Storage) (k : Kernel) (u : Unix k) (i : IsUnix k u) where
  -- What opening the server's socket leads to. If the descriptor is not positive, the assertion fails
  -- and nothing more is done. Or it is positive, and the loop is to begin with these processes and
  -- this descriptor, which is bound to the start node's path; it listens, with a backlog of 32.
  abbrev pub Opened : PubSubNode → List PubSubNode → k.World → Started × k.World → Type 0
  Opened start nodes w (started, w') =
      (sockfd : ℤ) × (w1 : k.World) × (creat_bind_unix_tcp k u (socket_path start.name) w
        ≡ ok (sockfd, w1))
      × (((is_pos sockfd ≡ false) × (started ≡ aborted) × (w' ≡ w1))
          ⊎ ((fd : ℕ) × (sockfd ≡ pos fd)
              × (0 < fd)
              × (started ≡ looping (begin start nodes fd))
              × (w' ≡ (u.listen (pos fd) (pos 32) w1).1)
              × (i.name_of fd w' ≡ some (socket_path start.name))))

  -- For a start node with a name of less than 32 bytes: open_server ends. The assertion on the
  -- descriptor fails, and then the program stops there; or the descriptor is positive, bound to the
  -- path of the start node's socket and listened on with a backlog of 32, and the loop is to begin
  -- with it and the processes that were read. It leaves a buffer only if calloc gave no byte more
  -- than it was asked for, for that path.
  pub open_server-Opened :
      (reserved : ℕ → ℕ) (start : PubSubNode) (nodes : List PubSubNode) (v : s.World) (w : k.World)
      → length start.name < max_file_name
      → Ends
          (NoByteMore reserved (socket_path start.name))
          (λ r. Opened start nodes w (r.0, r.2))
          (open_server s k u reserved start nodes v w)
  unfolding open_server listen_unix_tcp
  open_server-Opened reserved start nodes v w short =
      Run.bind_ok (name_fix-Joins reserved name_prefix start.name sock_name_suffix) (λ x. x)
        λ path e at_path. rw at_path (Run.mono opens absurd (λ r q. q))
    where
      opened :
          (sockfd : ℤ) (w1 : k.World)
          → creat_bind_unix_tcp k u (socket_path start.name) w ≡ ok (sockfd, w1)
          → Bound k u i (socket_path start.name) (sockfd, w1)
          → Ends {A = Started × s.World × k.World} ⊥
              (λ r. Opened start nodes w (r.0, r.2))
              (if not (is_pos sockfd)
                then ok (aborted, (bind_cpu s start.cpu_bind v).1, w1)
                else ok (
                  looping (begin start nodes (to_nat sockfd)),
                  (bind_cpu s start.cpu_bind v).1,
                  (u.listen sockfd (pos 32) w1).1,
                ))
      opened (negsuc m) w1 e b = returned (negsuc m, w1, e, inl (refl, refl, refl))
      opened (pos zero) w1 e b = returned (pos zero, w1, e, inl (refl, refl, refl))
      opened (pos (suc m)) w1 e (inl lost) = absurd (ground arith)
      opened (pos (suc m)) w1 e (inr (n, e', named)) = rw (lt→ltb 0 (suc m) (omega arith)) (
          returned (
            pos (suc m),
            w1,
            e,
            inr (
              suc m,
              refl,
              omega arith,
              refl,
              refl,
              i.listen_name (pos (suc m)) (pos 32) (suc m) w1 _ _ refl
                  ∙ ap (λ fd. i.name_of fd w1) (ap to_nat e')
                  ∙ named,
            ),
          ))

      opens :
          Ends {A = Started × s.World × k.World} ⊥
            (λ r. Opened start nodes w (r.0, r.2))
            (do
              (sockfd, w1) ← creat_bind_unix_tcp k u (socket_path start.name) w
              if not (is_pos sockfd)
                  then ok (aborted, (bind_cpu s start.cpu_bind v).1, w1)
                  else ok (
                    looping (begin start nodes (to_nat sockfd)),
                    (bind_cpu s start.cpu_bind v).1,
                    (u.listen sockfd (pos 32) w1).1,
                  ))
      opens =
          Run.bind_ok
            (creat_bind_unix_tcp-Bound k u i (socket_path start.name) w
              (omega (arith, length-socket_path start.name, short)))
            (λ x. x) λ (sockfd, w1) e bound. opened sockfd w1 e bound
