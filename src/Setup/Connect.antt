-- ===== src/Setup/Connect.antt =====
-- What a client's connection is bound to and connected to.
use icehydra.Prelude.{
  ℕ, ◌+◌, ◌<◌, ◌≡◌, refl, ap, ◌∙◌, ◌⊎◌, inl, inr, false, Bool-cases, some, List, ◌++◌, map, arith,
  lt→ltb, le→ltb, if◌then◌else◌, length, length-append, ℤ, pos, negsuc, minus_one, is_neg, to_nat,
}
use icehydra.Run.{Run, ok, fault, ◌>>=◌, Ends, returned}
use icehydra.Run
use icehydra.Kernel.{Kernel}
use icehydra.Kernel.Unix.{Unix, IsUnix}
use icehydra.Names.{name_prefix, sock_name_suffix, NoByteMore, name_fix-Joins}
use icehydra.Client.{close_s}
use icehydra.Node.{PubSubNode, str_same}
use icehydra.Broker.Loop.{attach}
use icehydra.Broker.Loop.Attach.{SocketPath, attach-client}
use icehydra.Setup.{
  sun_path_len, creat_bind_unix_tcp, connect_unix_tcp, ih_subscriber_create_connect,
}

-- The path of a process's socket.
abbrev pub socket_path : List ℕ → List ℕ
socket_path name = name_prefix ++ (name ++ sock_name_suffix)

pos_of : (i : ℤ) → is_neg i ≡ false → i ≡ pos (to_nat i)
pos_of (pos n) e = refl
pos_of (negsuc n) e = cc

pub length-socket_path : (name : List ℕ) → length (socket_path name) ≡ length name + 14
length-socket_path name = omega (arith, length-append name sock_name_suffix)

socket_path-SocketPath : (name : List ℕ) → length name < 94 → SocketPath (socket_path name) name
socket_path-SocketPath name h =
    (name_prefix, sock_name_suffix, refl, refl, refl, omega (arith, length-socket_path name))

module _ (k : Kernel) (u : Unix k) where
  -- A path of as many bytes as sun_path has passes the test, and its NUL is written behind it.
  pub creat_bind_unix_tcp-fault :
      (name : List ℕ) (w : k.World)
      → length name ≡ sun_path_len
      → creat_bind_unix_tcp k u name w ≡ fault
  unfolding creat_bind_unix_tcp
  creat_bind_unix_tcp-fault name w h = rw (
    le→ltb sun_path_len (length name) (omega arith),
    le→ltb (length name) sun_path_len (omega arith),
  )

  module _ (s : IsUnix k u) where
    open s use {name_of, peer_of}

    abbrev pub Bound : List ℕ → ℤ × k.World → Type 0
    Bound name (fd, w) = (fd ≡ minus_one) ⊎ ((n : ℕ) × (fd ≡ pos n) × (name_of n w ≡ some name))

    pub creat_bind_unix_tcp-Bound :
        (name : List ℕ) (w : k.World)
        → length name < sun_path_len
        → Ends ⊥ (Bound name) (creat_bind_unix_tcp k u name w)
    unfolding creat_bind_unix_tcp
    creat_bind_unix_tcp-Bound name w h =
        let opened = u.socket (u.unlink name w) in
        let bound = u.bind (to_nat opened.0) name opened.1 in
        rw (le→ltb sun_path_len (length name) (omega arith), lt→ltb (length name) sun_path_len h)
          (elim (Bool-cases (is_neg opened.0)) [
            | inl bad ↦ rw bad (returned (inl refl))
            | inr good ↦ elim (Bool-cases (is_neg bound.0)) [
              | inl lost ↦ rw (good, lost) (returned (inl refl))
              | inr done ↦
                  rw (good, done)
                    (returned (
                      inr (
                        to_nat opened.0,
                        pos_of opened.0 good,
                        s.chmod_name (to_nat opened.0) _ name bound.1
                            ∙ s.bind_name (to_nat opened.0) name opened.1 bound.1 bound.0 refl done,
                      )))
            ]
          ])

    -- The descriptor is bound to the one path and connected to the other.
    abbrev pub Connected : List ℕ → List ℕ → ℤ × k.World → Type 0
    Connected client server (fd, w) =
        (fd ≡ minus_one)
        ⊎ ((n : ℕ) × (fd ≡ pos n) × (name_of n w ≡ some client) × (peer_of n w ≡ some server))

    connect-Connected :
        (client server : List ℕ) (fd : ℤ) (w : k.World)
        → length server < sun_path_len
        → Bound client (fd, w)
        → Ends ⊥
            (λ r. Connected client server (if is_neg r.0 then close_s k fd r.1 else (fd, r.1)))
            (connect_unix_tcp k u fd server w)
    unfolding connect_unix_tcp
    connect-Connected client server (negsuc n) w h b = returned (inl refl)
    connect-Connected client server (pos n) w h (inl none_open) = absurd (ground arith)
    connect-Connected client server (pos n) w h (inr (m, e, named)) =
        let tried = u.connect n server w in
        let kept : name_of n tried.1 ≡ some client =
          s.connect_name n n server w tried.1 tried.0 refl
          ∙ ap (λ i. name_of i w) (ap to_nat e)
          ∙ named in
        rw (lt→ltb (length server) sun_path_len h) (elim (Bool-cases (is_neg tried.0)) [
          | inl bad ↦ rw bad (returned (inl refl))
          | inr good ↦
              rw good (
                returned (inr (n, refl, kept, s.connect_peer n server w tried.1 tried.0 refl good)))
        ])

    -- What the broker makes of the connection: the processes of the client's name take it.
    abbrev pub Attached : List PubSubNode → ℤ → ℤ → List ℕ → List ℕ → ℤ × k.World → Type 0
    Attached ns connfd links subscriber publisher (fd, w) =
        (fd ≡ minus_one)
        ⊎ ((n : ℕ) × (un : List ℕ) × (fd ≡ pos n)
            × (name_of n w ≡ some un)
            × (peer_of n w ≡ some (socket_path publisher))
            × ((attach ns un connfd links).0
                ≡ map (λ m. if str_same m.name subscriber then record m { connfd = connfd } else m)
                    ns))

    -- For names of less than 94 bytes, the call ends. Its result is -1, or a descriptor that is
    -- connected to the publisher's socket and bound to a path by which the broker gives it to the
    -- processes of the subscriber's name and to no other. It leaves a buffer only if calloc gave no
    -- byte more than it was asked for, for the path of the one name or of the other.
    pub ih_subscriber_create_connect-Attached :
        (reserved : ℕ → ℕ) (subscriber publisher : List ℕ) (w : k.World) (ns : List PubSubNode)
        (connfd links : ℤ)
        → length subscriber < 94
        → length publisher < 94
        → Ends
            (NoByteMore reserved (socket_path subscriber)
              ⊎ NoByteMore reserved (socket_path publisher))
            (Attached ns connfd links subscriber publisher)
            (ih_subscriber_create_connect k u reserved subscriber publisher w)
    unfolding ih_subscriber_create_connect
    ih_subscriber_create_connect-Attached reserved subscriber publisher w ns connfd links hs hp =
        Run.bind_ok (name_fix-Joins reserved name_prefix subscriber sock_name_suffix) (λ x. inl x)
          λ client e at_client.
            Run.bind_ok (name_fix-Joins reserved name_prefix publisher sock_name_suffix)
              (λ x. inr x)
              λ server e' at_server. rw (at_client, at_server) (Run.mono connects absurd (λ r q. q))
      where
        attached :
            (r : ℤ × k.World)
            → Connected (socket_path subscriber) (socket_path publisher) r
            → Attached ns connfd links subscriber publisher r
        attached (fd, w) (inl lost) = inl lost
        attached (fd, w) (inr (n, e, named, peer)) = inr (
          n,
          socket_path subscriber,
          e,
          named,
          peer,
          attach-client ns (socket_path subscriber) subscriber connfd links
              (socket_path-SocketPath subscriber hs),
        )

        connects : Ends ⊥ (Attached ns connfd links subscriber publisher) (do
          (sockfd, w1) ← creat_bind_unix_tcp k u (socket_path subscriber) w
          (ret, w2) ← connect_unix_tcp k u sockfd (socket_path publisher) w1
          ok (if is_neg ret then close_s k sockfd w2 else (sockfd, w2)))
        connects =
            Run.bind
              (creat_bind_unix_tcp-Bound (socket_path subscriber) w
                (omega (arith, length-socket_path subscriber)))
              λ (sockfd, w1) bound.
                Run.bind
                  (connect-Connected (socket_path subscriber) (socket_path publisher) sockfd w1
                    (omega (arith, length-socket_path publisher)) bound)
                  λ r q. returned (attached _ q)
