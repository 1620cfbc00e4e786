-- ===== src/Main/Described.antt =====
-- main.c, started with a file that describes its processes: from the option to any number of passes of
-- the loop.
use icehydra.Prelude.{
  ℕ, ◌<◌, ◌≡◌, refl, sym, ap, ◌∙◌, ◌⊎◌, inl, inr, true, false, some, List, [], ◌∷◌, map, arith,
  length, ◌==◌, ℤ, pos, is_pos, lt→ltb,
}
use icehydra.Run.{Run, ok, ◌>>=◌, Ends, returned}
use icehydra.Run
use icehydra.Kernel.{Kernel}
use icehydra.Kernel.Stream.{IsStream}
use icehydra.Kernel.Unix.{Unix, IsUnix}
use icehydra.Storage.{Storage}
use icehydra.Files.{read_file}
use icehydra.Names.{NoByteMore}
use icehydra.Node.{PubSubNode}
use icehydra.Config.{CJson}
use icehydra.Config.Nodes.{IsRead}
use icehydra.Config.Start.{Shortens, get_node_start-IsLoaded}
use icehydra.Config.Order.{Reads, NoneStarts, get_node_start-Reads}
use icehydra.Setup.{creat_bind_unix_tcp}
use icehydra.Setup.Connect.{socket_path}
use icehydra.Broker.Loop.{max_path, Broker, quit, begin, round}
use icehydra.Broker.Loop.Config.{SameConfig-trans, configured, round-SameConfig}
use icehydra.Broker.Loop.Safe.{HoldsBytes}
use icehydra.Broker.Loop.Reach.{Reaches, Reaches-SameConfig}
use icehydra.Main.Open.{Opened, open_server-Opened}
use icehydra.Main.{
  key_f, Host, Started, no_file, exited, aborted, looping, left, no_arguments, parse_opt,
  parse_opts, start_up, passes, main,
}
use icehydra.Main.Passes.{OnePassFails, LoopsTo, passes-LoopsTo}

module _ (s : Storage) (k : Kernel) (u : Unix k) (i : IsUnix k u) where
  -- The state serves these processes: those that were read but for their descriptors, under the start
  -- node that was read, on the descriptor that the socket got.
  abbrev pub Serves : PubSubNode → List PubSubNode → ℕ → Broker → Type 0
  Serves start nodes fd b =
      (b.start ≡ start) × (map configured b.nodes ≡ map configured nodes) × (b.sockfd ≡ fd)

  -- The loop began on this descriptor, which is bound to the start node's path and listened on, and
  -- it has come to a state, or was left in one, that serves these processes.
  abbrev pub ServesOn : PubSubNode → List PubSubNode → ℕ → k.World → Started × k.World → Type 0
  ServesOn start nodes fd w (no_file, w') = ⊥
  ServesOn start nodes fd w (exited, w') = ⊥
  ServesOn start nodes fd w (aborted, w') = ⊥
  ServesOn start nodes fd w (looping b, w') =
      Serves start nodes fd b × Reaches k (begin start nodes fd) w b w'
  ServesOn start nodes fd w (left b, w') =
      Serves start nodes fd b
      × ((a : Broker) × (v : k.World) × Reaches k (begin start nodes fd) w a v
          × (round k a v ≡ ok (quit b, w')))

  -- The socket's descriptor is positive: the world from which the loop begins is that after listen.
  abbrev pub Listens : PubSubNode → ℕ → k.World → k.World → Type 0
  Listens start fd w w2 =
      (0 < fd)
      × ((w1 : k.World) × (creat_bind_unix_tcp k u (socket_path start.name) w ≡ ok (pos fd, w1))
          × (w2 ≡ (u.listen (pos fd) (pos 32) w1).1)
          × (i.name_of fd w2 ≡ some (socket_path start.name)))

  -- The program stops since the descriptor is not positive, or it serves these processes.
  abbrev pub ServesAs : PubSubNode → List PubSubNode → k.World → Started × k.World → Type 0
  ServesAs start nodes w (started, w') =
      ((sockfd : ℤ) × (creat_bind_unix_tcp k u (socket_path start.name) w ≡ ok (sockfd, w'))
        × (is_pos sockfd ≡ false)
        × (started ≡ aborted))
      ⊎ ((fd : ℕ) × (w2 : k.World) × Listens start fd w w2
          × ServesOn start nodes fd w2 (started, w'))

  -- The causes of a fault: the memory for the path, or one of the passes.
  abbrev pub MainFails : IsStream k → ℕ → (ℕ → ℕ) → PubSubNode → List PubSubNode → k.World → Type 0
  MainFails t n reserved start nodes w =
      NoByteMore reserved (socket_path start.name)
      ⊎ ((fd : ℕ) × (w2 : k.World) × Listens start fd w w2
          × OnePassFails k t n (begin start nodes fd) w2)

  LoopsTo-ServesOn :
      (t : IsStream k) (start : PubSubNode) (nodes : List PubSubNode) (fd : ℕ) (w2 : k.World)
      (r : Started × k.World)
      → LoopsTo k t (begin start nodes fd) w2 r
      → ServesOn start nodes fd w2 r
  LoopsTo-ServesOn t start nodes fd w2 (no_file, w') q = q
  LoopsTo-ServesOn t start nodes fd w2 (exited, w') q = q
  LoopsTo-ServesOn t start nodes fd w2 (aborted, w') q = q
  LoopsTo-ServesOn t start nodes fd w2 (looping b, w') q =
      let (all, same, on) = Reaches-SameConfig k t (begin start nodes fd) w2 b w' q in
      ((same, all, on), q)
  LoopsTo-ServesOn t start nodes fd w2 (left b, w') (a, v, path, end) =
      let (all, same, on) =
        SameConfig-trans (begin start nodes fd) a b
          (Reaches-SameConfig k t (begin start nodes fd) w2 a v path)
          (Run.value (round-SameConfig k t a v) end) in
      ((same, all, on), (a, v, path, end))

  module _ (h : Host s k) (j : CJson) where
    parse_opts-file :
        (file : List ℕ) (v : s.World)
        → h.access file v ≡ true
        → length file < max_path
        → parse_opts s k h (key_f file ∷ []) no_arguments v
          ≡ ok (record no_arguments { file = file })
    unfolding parse_opts parse_opt
    parse_opts-file file v there short =
        rw (parse_opts, parse_opt, there, lt→ltb (length file) max_path short) refl

    -- The program is started with a file that can be read and describes processes, the first one
    -- with the id 0 and no other; the file's path has from 1 to 127 bytes, parsing a value shortens
    -- the text, and what can be read from a descriptor are bytes. Then `main`, with its loop followed
    -- for any number of passes, ends. Either the socket's descriptor is not positive, and it stops
    -- there; or the descriptor is positive, bound to the start node's path and listened on, and the
    -- loop on it has come by its passes to a state, or is left in one, that serves the processes
    -- that the file describes under the start node that it describes. It faults only if calloc gave
    -- no byte more than it was asked for, for that path, or one of the passes fails: a descriptor to
    -- wait for is 1024 or more, the path of a client that connects has 108 bytes or more, or a
    -- process that is served has a message before it that announces 4088 bytes or more.
    pub main-ServesAs :
        (t : IsStream k) (n : ℕ) (reserved : ℕ → ℕ) (file text : List ℕ) (start : PubSubNode)
        (nodes : List PubSubNode) (v v' : s.World) (w : k.World)
        → Shortens j
        → HoldsBytes k t
        → h.access file v ≡ true
        → 0 < length file
        → length file < max_path
        → read_file s file v ≡ some text
        → Reads s j text (start ∷ nodes) v v'
        → start.id ≡ pos 0
        → NoneStarts nodes
        → let counted = record start { pub_links_num = pos (length nodes) } in
          Ends
            (MainFails t n reserved counted nodes w)
            (λ r. ServesAs counted nodes w (r.0, r.2))
            (main s k u h j n reserved (key_f file ∷ []) v w)
    unfolding main start_up
    main-ServesAs t n reserved file text start nodes v v' w p bytes there given short at_path
          described z none_starts =
        let counted = record start { pub_links_num = pos (length nodes) } in
        let loads =
          get_node_start-Reads s j file text start nodes v v' p at_path described z none_starts in
        let is_loaded = Run.value (get_node_start-IsLoaded s j file v p) loads in
        let some_file : (length file == 0) ≡ false = ground arith in
        rw (parse_opts-file file v there short, some_file, loads)
          (Run.bind_ok (open_server-Opened s k u i reserved counted nodes v' w is_loaded.2.1.1)
            (λ x. inl x) λ (started, v1, w2) e o. run_loop counted is_loaded.2.1 started v1 w2 o)
      where
        run_loop :
            (counted : PubSubNode)
            → IsRead counted
            → (started : Started) (v1 : s.World) (w2 : k.World)
            → Opened s k u i counted nodes w (started, w2)
            → Ends {A = Started × s.World × k.World}
                (MainFails t n reserved counted nodes w)
                (λ r. ServesAs counted nodes w (r.0, r.2))
                (elim started [
                  | no_file ↦ ok (no_file, v1, w2)
                  | exited ↦ ok (exited, v1, w2)
                  | aborted ↦ ok (aborted, v1, w2)
                  | looping b ↦ do (started', w3) ← passes k n b w2; ok (started', v1, w3)
                  | left b ↦ ok (left b, v1, w2)
                ])
        run_loop counted read started v1 w2 (sockfd, w1, e, inl (lost, stops, same)) =
            rw stops (returned (inl (sockfd, e ∙ ap (λ x. ok (sockfd, x)) (sym same), lost, refl)))
        run_loop counted read started v1 w2
              (sockfd, w1, e, inr (fd, at_fd, some_fd, begins, listening, named)) =
            let listens : Listens counted fd w w2 =
              (some_fd, (w1, e ∙ ap (λ x. ok (x, w1)) at_fd, listening, named)) in
            rw begins (
              Run.bind_ok (passes-LoopsTo k t n (begin counted nodes fd) w2 bytes read)
                (λ x. inr (fd, w2, listens, x))
                λ (started', w3) e' q.
                  returned (
                    inr (fd, w2, listens, LoopsTo-ServesOn t counted nodes fd w2 (started', w3) q)))
