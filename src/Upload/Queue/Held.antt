-- ===== src/Upload/Queue/Held.antt =====
-- The publisher keeps no connection but its own: every other one that it opens is closed again.
use flowix.Common.{
  ◌≡◌, ◌⊎◌, inl, inr, String, true, Option, none, some, List, [], ◌∷◌, ◌==◌, Bool-cases, arith,
}
use flowix.Upload.{Outcome, ok, fail}
use flowix.Upload.Queue.{
  Broker, Publisher, Table, and_then, wrapped, declare_fanout, declare_topology, Result, redeclared,
  reopened, redialled, deleted, dropped, declared, opened, dialled, connect, is_open,
  close_channel_of, close_conn_of, close, ensure, send_on, resend, retried, ensured, publish,
  new_publisher, unconnected, is_stale, fanout_queues,
}

module _ {W Conn Chan : Type 0} (b : Broker W Conn Chan) where
  -- No connection is open that was not open before.
  abbrev pub Quiet : W → W → Type 0
  Quiet w v = (d : Conn) → b.is_closed d w ≡ true → b.is_closed d v ≡ true

  -- What the library amqp promises of connections: `Close` ends a connection, `Dial` opens at most
  -- the one that it returns, nothing else opens one. Any of them may end by itself at any time.
  pub record IsLawful : Type 0 where
    pub dial-open :
        (url : String) (d : Conn) (w : W)
        → b.is_closed d w ≡ true
        → ((b.dial url w).0 ≡ ok d) ⊎ (b.is_closed d (b.dial url w).1 ≡ true)
    pub close-closed : (c : Conn) (w : W) → b.is_closed c (b.close c w) ≡ true
    pub close-Quiet : (c : Conn) (w : W) → Quiet w (b.close c w)
    pub open_channel-Quiet : (c : Conn) (w : W) → Quiet w (b.open_channel c w).1
    pub close_channel-Quiet : (ch : Chan) (w : W) → Quiet w (b.close_channel ch w)
    pub exchange_declare-Quiet :
        (ch : Chan) (x k : String) (w : W) → Quiet w (b.exchange_declare ch x k w).1
    pub queue_declare-Quiet :
        (ch : Chan) (q : String) (t : Table) (w : W) → Quiet w (b.queue_declare ch q t w).1
    pub queue_bind-Quiet :
        (ch : Chan) (q k x : String) (w : W) → Quiet w (b.queue_bind ch q k x w).1
    pub queue_delete-Quiet : (ch : Chan) (q : String) (w : W) → Quiet w (b.queue_delete ch q w)
    pub send-Quiet : (ch : Chan) (q body : String) (w : W) → Quiet w (b.send ch q body w).1

  -- Every open connection is this one.
  abbrev pub Only : Option Conn → W → Type 0
  Only o w = (d : Conn) → (o ≡ some d) ⊎ (b.is_closed d w ≡ true)

  abbrev pub AllClosed : W → Type 0
  AllClosed w = (d : Conn) → b.is_closed d w ≡ true

  -- Every open connection is the publisher's.
  abbrev pub Holds : Result b → Type 0
  Holds (o, p, w) = Only p.conn w

  module _ (law : IsLawful) where
    call-Quiet :
        (w : W) (m : String) (x : Outcome (Unit {0}) × W)
        (k : Unit {0} → W → Outcome (Unit {0}) × W)
        → Quiet w x.1
        → ((v : W) → Quiet v (k tt v).1)
        → Quiet w (and_then (wrapped m x) k).1
    unfolding and_then wrapped
    call-Quiet w m (fail e, v) k q r = q
    call-Quiet w m (ok a, v) k q r = λ d c. r v d (q d c)

    wrapped-Quiet :
        (w : W) (m : String) (x : Outcome (Unit {0}) × W) → Quiet w x.1 → Quiet w (wrapped m x).1
    unfolding and_then wrapped
    wrapped-Quiet w m (fail e, v) q = q
    wrapped-Quiet w m (ok a, v) q = q

    declare_fanout-Quiet :
        (ch : Chan) (args : Table) (qs : List String) (w : W)
        → Quiet w (declare_fanout b ch args qs w).1
    unfolding declare_fanout
    declare_fanout-Quiet ch args [] w = λ d c. c
    declare_fanout-Quiet ch args (q ∷ qs) w =
        call-Quiet w _ _ _ (law.queue_declare-Quiet ch q args w) (declare_fanout-Quiet ch args qs)

    declare_topology-Quiet :
        (ch : Chan) (q : String) (w : W) → Quiet w (declare_topology b ch q w).1
    unfolding declare_topology
    declare_topology-Quiet ch q w = elim (Bool-cases (q == "video.uploaded")) [
      | inr e ↦ rw e (wrapped-Quiet w _ _ (law.queue_declare-Quiet ch q [] w))
      | inl e ↦ rw e (
          call-Quiet w _ _ _ (law.exchange_declare-Quiet ch "dlx" "direct" w) (λ w.
            call-Quiet w _ _ _ (law.queue_declare-Quiet ch _ [] w) (λ w.
              call-Quiet w _ _ _ (law.queue_bind-Quiet ch _ _ "dlx" w) (λ w.
                call-Quiet w _ _ _ (law.queue_declare-Quiet ch _ _ w) (λ w.
                  call-Quiet w _ _ _ (law.queue_declare-Quiet ch _ _ w)
                    (declare_fanout-Quiet ch _ fanout_queues))))))
    ]

    Only-Quiet : (o : Option Conn) (w v : W) → Only o w → Quiet w v → Only o v
    Only-Quiet o w v h q d = elim (h d) [ inl e ↦ inl e | inr c ↦ inr (q d c) ]

    close-AllClosed : (c : Conn) (w : W) → Only (some c) w → AllClosed (b.close c w)
    close-AllClosed c w h d = elim (h d) [
      | inl e ↦ ground (arith, e, law.close-closed c w)
      | inr q ↦ law.close-Quiet c w d q
    ]

    none_open : (o : Option Conn) (w : W) → AllClosed w → Only o w
    none_open o w h d = inr (h d)

    -- A dialled connection, as the following clauses get it.
    abbrev Fresh : Outcome Conn × W → Type 0
    Fresh (ok c, w) = Only (some c) w
    Fresh (fail e, w) = AllClosed w

    fresh :
        (x : Outcome Conn × W) → ((d : Conn) → (x.0 ≡ ok d) ⊎ (b.is_closed d x.1 ≡ true)) → Fresh x
    fresh (ok c, v) k = λ d. elim (k d) [ inl e ↦ inl (ground (arith, e)) | inr q ↦ inr q ]
    fresh (fail m, v) k = λ d. elim (k d) [ inl e ↦ absurd (ground (arith, e)) | inr q ↦ q ]

    dial-Fresh : (url : String) (w : W) → AllClosed w → Fresh (b.dial url w)
    dial-Fresh url w h = fresh (b.dial url w) (λ d. law.dial-open url d w (h d))

    give_up-AllClosed :
        (c : Conn) (ch : Chan) (w : W)
        → Only (some c) w
        → AllClosed (b.close c (b.close_channel ch w))
    give_up-AllClosed c ch w h =
        close-AllClosed c _ (Only-Quiet (some c) w _ h (law.close_channel-Quiet ch w))

    module _ (p : Publisher Conn Chan) where
      redeclared-Holds :
          (c : Conn) (ch : Chan) (x : Outcome (Unit {0}) × W)
          → Only (some c) x.1
          → Holds (redeclared b p c ch x)
      redeclared-Holds c ch (ok t, v) h = h
      redeclared-Holds c ch (fail e, v) h = none_open p.conn _ (give_up-AllClosed c ch v h)

      reopened-Holds :
          (c : Conn) (x : Outcome Chan × W) → Only (some c) x.1 → Holds (reopened b p c x)
      unfolding reopened
      reopened-Holds c (fail e, v) h = none_open p.conn _ (close-AllClosed c v h)
      reopened-Holds c (ok ch, v) h =
          redeclared-Holds c ch (declare_topology b ch p.queue v)
            (Only-Quiet (some c) v _ h (declare_topology-Quiet ch p.queue v))

      redialled-Holds : (x : Outcome Conn × W) → Fresh x → Holds (redialled b p x)
      unfolding redialled
      redialled-Holds (fail e, v) h = none_open p.conn v h
      redialled-Holds (ok c, v) h =
          reopened-Holds c (b.open_channel c v)
            (Only-Quiet (some c) v _ h (law.open_channel-Quiet c v))

      deleted-Quiet : (x : Outcome Chan × W) → Quiet x.1 (deleted b p x)
      deleted-Quiet (fail e, v) = λ d q. q
      deleted-Quiet (ok ch, v) =
          λ d q. law.close_channel-Quiet ch _ d (law.queue_delete-Quiet ch p.queue v d q)

      dropped-AllClosed : (x : Outcome Conn × W) → Fresh x → AllClosed (dropped b p x)
      dropped-AllClosed (fail e, v) h = h
      dropped-AllClosed (ok c, v) h = close-AllClosed c _ (
          Only-Quiet (some c) v _ h
            (λ d q. deleted-Quiet (b.open_channel c v) d (law.open_channel-Quiet c v d q)))

      declared-Holds :
          (c : Conn) (ch : Chan) (x : Outcome (Unit {0}) × W)
          → Only (some c) x.1
          → Holds (declared b p c ch x)
      unfolding declared
      declared-Holds c ch (ok t, v) h = h
      declared-Holds c ch (fail e, v) h =
          let closed = give_up-AllClosed c ch v h in
          elim (Bool-cases (is_stale e)) [
            | inl s ↦ rw s (
                redialled-Holds _
                  (dial-Fresh p.url _ (dropped-AllClosed _ (dial-Fresh p.url _ closed))))
            | inr s ↦ rw s (none_open p.conn _ closed)
          ]

      opened-Holds : (c : Conn) (x : Outcome Chan × W) → Only (some c) x.1 → Holds (opened b p c x)
      unfolding opened
      opened-Holds c (fail e, v) h = none_open p.conn _ (close-AllClosed c v h)
      opened-Holds c (ok ch, v) h =
          declared-Holds c ch (declare_topology b ch p.queue v)
            (Only-Quiet (some c) v _ h (declare_topology-Quiet ch p.queue v))

      dialled-Holds : (x : Outcome Conn × W) → Fresh x → Holds (dialled b p x)
      unfolding dialled
      dialled-Holds (fail e, v) h = none_open p.conn v h
      dialled-Holds (ok c, v) h =
          opened-Holds c (b.open_channel c v)
            (Only-Quiet (some c) v _ h (law.open_channel-Quiet c v))

      connect-Holds : (w : W) → AllClosed w → Holds (connect b p w)
      unfolding connect
      connect-Holds w h = dialled-Holds (b.dial p.url w) (dial-Fresh p.url w h)

      close_channel_of-Quiet : (o : Option Chan) (w : W) → Quiet w (close_channel_of b p o w)
      close_channel_of-Quiet none w = λ d q. q
      close_channel_of-Quiet (some ch) w = law.close_channel-Quiet ch w

      close_conn_of-AllClosed :
          (o : Option Conn) (w : W) → Only o w → AllClosed (close_conn_of b p o w)
      close_conn_of-AllClosed none w h =
          λ d. elim (h d) [ inl e ↦ absurd (ground (arith, e)) | inr q ↦ q ]
      close_conn_of-AllClosed (some c) w h = close-AllClosed c w h

      -- `Close` leaves no connection open.
      pub close-AllClosed_lem : (w : W) → Only p.conn w → AllClosed (close b p w)
      unfolding close
      close-AllClosed_lem w h =
          close_conn_of-AllClosed p.conn _
            (Only-Quiet p.conn w _ h (close_channel_of-Quiet p.channel w))

      ensure-Holds : (w : W) → Only p.conn w → Holds (ensure b p w)
      unfolding ensure
      ensure-Holds w h = elim (Bool-cases (is_open b p p.conn p.channel w)) [
        | inl e ↦ rw e h
        | inr e ↦ rw e (connect-Holds (close b p w) (close-AllClosed_lem w h))
      ]

    send_on-Holds :
        (p : Publisher Conn Chan) (o : Option Chan) (body : String) (w : W)
        → Only p.conn w
        → Holds (send_on b p o body w)
    send_on-Holds p none body w h = h
    send_on-Holds p (some ch) body w h = Only-Quiet p.conn w _ h (law.send-Quiet ch p.queue body w)

    resend-Holds : (body : String) (r : Result b) → Holds r → Holds (resend b body r)
    resend-Holds body (fail e, p, w) h = h
    resend-Holds body (ok t, p, w) h = send_on-Holds p p.channel body w h

    retried-Holds : (body : String) (r : Result b) → Holds r → Holds (retried b body r)
    unfolding retried
    retried-Holds body (ok t, p, w) h = h
    retried-Holds body (fail e, p, w) h = resend-Holds body (ensure b p w) (ensure-Holds p w h)

    ensured-Holds : (body : String) (r : Result b) → Holds r → Holds (ensured b body r)
    unfolding ensured
    ensured-Holds body (fail e, p, w) h = h
    ensured-Holds body (ok t, p, w) h =
        retried-Holds body (send_on b p p.channel body w) (send_on-Holds p p.channel body w h)

    -- If every open connection is the publisher's, this is so after `Publish` as well, whether it
    -- succeeds or not and whatever fails in between. The condition is what amqp promises of
    -- connections.
    pub publish-Holds :
        (p : Publisher Conn Chan) (body : Outcome String) (w : W)
        → Only p.conn w
        → Only (publish b p body w).1.conn (publish b p body w).2
    unfolding publish
    publish-Holds p (fail e) w h = h
    publish-Holds p (ok body) w h = ensured-Holds body (ensure b p w) (ensure-Holds p w h)

    pub new_publisher-Holds :
        (url queue : String) (w : W)
        → AllClosed w
        → Only (new_publisher b url queue w).1.conn (new_publisher b url queue w).2
    unfolding new_publisher
    new_publisher-Holds url queue w h = connect-Holds (unconnected b url queue) w h
