-- ===== src/Upload/Queue/Available.antt =====
-- When `Publish` succeeds: what it needs of a broker that is up, call by call.
use flowix.Common.{
  ◌≡◌, inl, inr, refl, String, ◌<>◌, ◌==◌, true, false, List, [], ◌∷◌, All, if◌then◌else◌, Option,
  none, some, Bool-cases, arith,
}
use flowix.Upload.{Outcome, ok, fail}
use flowix.Upload.Queue.{
  Table, retry_args, main_args, fanout_queues, and_then, wrapped, declare_fanout, close_conn_of,
  close_channel_of, Broker, Publisher, declare_topology, Result, declared, opened, dialled, connect,
  is_open, close, ensure, send_on, resend, retried, ensured, publish,
}

module _ {W Conn Chan : Type 0} (b : Broker W Conn Chan) where
  module _ (Up : W → Type 0) (Fits : String → Table → Type 0) where
    -- The outcome of a dial, of an opened channel and of a declaration on a channel, where the call
    -- succeeds: the connection or the channel is not closed, and the broker still up.
    abbrev pub Dialled : Outcome Conn × W → Type 0
    Dialled (fail e, w) = ⊥
    Dialled (ok c, w) = (b.is_closed c w ≡ false) × Up w

    abbrev pub Opened : Outcome Chan × W → Type 0
    Opened (fail e, w) = ⊥
    Opened (ok ch, w) = (b.is_channel_closed ch w ≡ false) × Up w

    abbrev pub Declared : Chan → Outcome (Unit {0}) × W → Type 0
    Declared ch (fail e, w) = ⊥
    Declared ch (ok _, w) = (b.is_channel_closed ch w ≡ false) × Up w

    -- What is asked of a broker that is up, call by call: it takes connections, gives a channel on
    -- an open connection, and on an open channel it makes every declaration whose arguments fit
    -- those of a queue that is there, and takes every text. Closing does not take it down.
    pub record IsUp : Type 0 where
      pub dial-Dialled : (url : String) (w : W) → Up w → Dialled (b.dial url w)
      pub open_channel-Opened :
          (c : Conn) (w : W) → Up w → b.is_closed c w ≡ false → Opened (b.open_channel c w)
      pub exchange_declare-Declared :
          (ch : Chan) (name kind : String) (w : W)
          → Up w
          → b.is_channel_closed ch w ≡ false
          → Declared ch (b.exchange_declare ch name kind w)
      pub queue_declare-Declared :
          (ch : Chan) (q : String) (args : Table) (w : W)
          → Up w
          → b.is_channel_closed ch w ≡ false
          → Fits q args
          → Declared ch (b.queue_declare ch q args w)
      pub queue_bind-Declared :
          (ch : Chan) (q key exchange : String) (w : W)
          → Up w
          → b.is_channel_closed ch w ≡ false
          → Declared ch (b.queue_bind ch q key exchange w)
      pub send-ok :
          (ch : Chan) (q text : String) (w : W)
          → Up w
          → b.is_channel_closed ch w ≡ false
          → (b.send ch q text w).0 ≡ ok tt
      pub close-Up : (c : Conn) (w : W) → Up w → Up (b.close c w)
      pub close_channel-Up : (ch : Chan) (w : W) → Up w → Up (b.close_channel ch w)

    -- The queues that a publisher declares fit those that are there: its own queue, and for
    -- "video.uploaded" the ones beside it.
    abbrev pub AllFit : String → Type 0
    AllFit queue =
        if queue == "video.uploaded"
        then Fits (queue <> ".dlq") []
          × Fits (queue <> ".retry") (retry_args queue)
          × Fits queue (main_args (queue <> ".dlq"))
          × All (λ q. Fits q (main_args (queue <> ".dlq"))) fanout_queues
        else Fits queue []

    wrapped-Declared :
        (ch : Chan) (msg : String) (x : Outcome (Unit {0}) × W)
        → Declared ch x
        → Declared ch (wrapped msg x)
    unfolding wrapped
    wrapped-Declared ch msg (fail e, w) h = h
    wrapped-Declared ch msg (ok _, w) h = h

    and_then-Declared :
        (ch : Chan) (x : Outcome (Unit {0}) × W) (k : Unit {0} → W → Outcome (Unit {0}) × W)
        → Declared ch x
        → ((u : Unit {0}) (w : W) → Up w → b.is_channel_closed ch w ≡ false → Declared ch (k u w))
        → Declared ch (and_then x k)
    unfolding and_then
    and_then-Declared ch (fail e, w) k h next = absurd h
    and_then-Declared ch (ok u, w) k (live, up) next = next u w up live

    module _ (law : IsUp) where
      declare_fanout-Declared :
          (ch : Chan) (args : Table) (qs : List String) (w : W)
          → All (λ q. Fits q args) qs
          → Up w
          → b.is_channel_closed ch w ≡ false
          → Declared ch (declare_fanout b ch args qs w)
      unfolding declare_fanout
      declare_fanout-Declared ch args [] w fits up live = (live, up)
      declare_fanout-Declared ch args (q ∷ qs) w (fit, fits) up live =
          and_then-Declared ch _ _
            (wrapped-Declared ch _ _ (law.queue_declare-Declared ch q args w up live fit))
            (λ u v up live. declare_fanout-Declared ch args qs v fits up live)

      declare_topology-Declared :
          (ch : Chan) (queue : String) (w : W)
          → AllFit queue
          → Up w
          → b.is_channel_closed ch w ≡ false
          → Declared ch (declare_topology b ch queue w)
      unfolding declare_topology
      declare_topology-Declared ch queue w fits up live =
          elim (Bool-cases (queue == "video.uploaded")) [
            | inr e ↦ rw e (
                wrapped-Declared ch _ _
                  (law.queue_declare-Declared ch queue [] w up live (rw e at fits)))
            | inl e ↦
                let (dlq, retry, main, fanout) = rw e at fits in
                rw e (
                  and_then-Declared ch _ _
                    (wrapped-Declared ch _ _
                      (law.exchange_declare-Declared ch "dlx" "direct" w up live))
                    (λ _ w up live.
                      and_then-Declared ch _ _
                        (wrapped-Declared ch _ _ (law.queue_declare-Declared ch _ _ w up live dlq))
                        (λ _ w up live.
                          and_then-Declared ch _ _
                            (wrapped-Declared ch _ _ (law.queue_bind-Declared ch _ _ _ w up live))
                            (λ _ w up live.
                              and_then-Declared ch _ _
                                (wrapped-Declared ch _ _
                                  (law.queue_declare-Declared ch _ _ w up live retry))
                                (λ _ w up live.
                                  and_then-Declared ch _ _
                                    (wrapped-Declared ch _ _
                                      (law.queue_declare-Declared ch _ _ w up live main))
                                    (λ _ w up live.
                                      declare_fanout-Declared ch (main_args (queue <> ".dlq"))
                                        fanout_queues w fanout up live))))))
          ]

      module _ (text : String) (p : Publisher Conn Chan) (fits : AllFit p.queue) where
        declared-ok :
            (c : Conn) (ch : Chan) (x : Outcome (Unit {0}) × W)
            → Declared ch x
            → (resend b text (declared b p c ch x)).0 ≡ ok tt
        unfolding declared
        declared-ok c ch (fail e, w) h = absurd h
        declared-ok c ch (ok _, w) (live, up) = law.send-ok ch p.queue text w up live

        opened-ok :
            (c : Conn) (x : Outcome Chan × W)
            → Opened x
            → (resend b text (opened b p c x)).0 ≡ ok tt
        unfolding opened
        opened-ok c (fail e, w) h = absurd h
        opened-ok c (ok ch, w) (live, up) =
            declared-ok c ch _ (declare_topology-Declared ch p.queue w fits up live)

        dialled-ok : (x : Outcome Conn × W) → Dialled x → (resend b text (dialled b p x)).0 ≡ ok tt
        unfolding dialled
        dialled-ok (fail e, w) h = absurd h
        dialled-ok (ok c, w) (live, up) = opened-ok c _ (law.open_channel-Opened c w up live)

        connect-ok : (w : W) → Up w → (resend b text (connect b p w)).0 ≡ ok tt
        unfolding connect
        connect-ok w up = dialled-ok _ (law.dial-Dialled p.url w up)

        close_parts-Up :
            (o : Option Conn) (q : Option Chan) (w : W)
            → Up w
            → Up (close_conn_of b p o (close_channel_of b p q w))
        close_parts-Up none none w up = up
        close_parts-Up none (some ch) w up = law.close_channel-Up ch w up
        close_parts-Up (some c) none w up = law.close-Up c w up
        close_parts-Up (some c) (some ch) w up = law.close-Up c _ (law.close_channel-Up ch w up)

        close-keeps_Up : (w : W) → Up w → Up (close b p w)
        unfolding close
        close-keeps_Up w up = close_parts-Up p.conn p.channel w up

        retried_of_ok : (r : Result b) → r.0 ≡ ok tt → (retried b text r).0 ≡ ok tt
        unfolding retried
        retried_of_ok (ok t, q, w) h = refl
        retried_of_ok (fail e, q, w) h = absurd (ground arith)

        ensured_of_resend :
            (r : Result b) → (resend b text r).0 ≡ ok tt → (ensured b text r).0 ≡ ok tt
        unfolding ensured
        ensured_of_resend (fail e, q, w) h = absurd (ground arith)
        ensured_of_resend (ok t, q, w) h = retried_of_ok (send_on b q q.channel text w) h

        open-ok :
            (o : Option Conn) (q : Option Chan) (w : W)
            → Up w
            → is_open b p o q w ≡ true
            → (send_on b p q text w).0 ≡ ok tt
        open-ok none q w up h = absurd (ground arith)
        open-ok (some c) none w up h = absurd (ground arith)
        open-ok (some c) (some ch) w up h = law.send-ok ch p.queue text w up (ground arith)

        -- While the broker is up, `Publish` succeeds from every state of the publisher, one that
        -- never had a connection or whose connection or channel is closed included. The conditions:
        -- the laws of the broker's single calls hold while it is up, and the queues that the
        -- publisher declares fit the arguments of those that are there.
        pub publish-ok : (w : W) → Up w → (publish b p (ok text) w).0 ≡ ok tt
        unfolding publish ensure
        publish-ok w up = elim (Bool-cases (is_open b p p.conn p.channel w)) [
          | inl e ↦ rw e (ensured_of_resend (ok tt, p, w) (open-ok p.conn p.channel w up e))
          | inr e ↦ rw e (
              ensured_of_resend (connect b p (close b p w))
                (connect-ok (close b p w) (close-keeps_Up w up)))
        ]
