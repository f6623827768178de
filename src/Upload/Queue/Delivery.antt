-- ===== src/Upload/Queue/Delivery.antt =====
-- What success of `Publish` says.
use flowix.Common.{◌≡◌, inl, inr, refl, ap, ◌∙◌, String, Option, none, some, Bool-cases, arith}
use flowix.Upload.{Outcome, ok, fail}
use flowix.Upload.Queue.{
  Broker, Publisher, declare_topology, Result, redeclared, reopened, redialled, declared, opened,
  dialled, dropped, connect, is_open, close, ensure, send_on, resend, retried, ensured, publish,
  is_stale,
}

module _ {W Conn Chan : Type 0} (b : Broker W Conn Chan) where
  module _ (p : Publisher Conn Chan) where
    -- The publisher still sends to the same queue.
    abbrev Keeps : Result b → Type 0
    Keeps r = r.1.queue ≡ p.queue

    redeclared-Keeps :
        (c : Conn) (ch : Chan) (x : Outcome (Unit {0}) × W) → Keeps (redeclared b p c ch x)
    redeclared-Keeps c ch (ok t, v) = refl
    redeclared-Keeps c ch (fail e, v) = refl

    reopened-Keeps : (c : Conn) (x : Outcome Chan × W) → Keeps (reopened b p c x)
    unfolding reopened
    reopened-Keeps c (fail e, v) = refl
    reopened-Keeps c (ok ch, v) = redeclared-Keeps c ch (declare_topology b ch p.queue v)

    redialled-Keeps : (x : Outcome Conn × W) → Keeps (redialled b p x)
    unfolding redialled
    redialled-Keeps (fail e, v) = refl
    redialled-Keeps (ok c, v) = reopened-Keeps c (b.open_channel c v)

    declared-Keeps :
        (c : Conn) (ch : Chan) (x : Outcome (Unit {0}) × W) → Keeps (declared b p c ch x)
    unfolding declared
    declared-Keeps c ch (ok t, v) = refl
    declared-Keeps c ch (fail e, v) = elim (Bool-cases (is_stale e)) [
      | inl s ↦ rw s (
          redialled-Keeps
            (b.dial p.url (dropped b p (b.dial p.url (b.close c (b.close_channel ch v))))))
      | inr s ↦ rw s refl
    ]

    opened-Keeps : (c : Conn) (x : Outcome Chan × W) → Keeps (opened b p c x)
    unfolding opened
    opened-Keeps c (fail e, v) = refl
    opened-Keeps c (ok ch, v) = declared-Keeps c ch (declare_topology b ch p.queue v)

    dialled-Keeps : (x : Outcome Conn × W) → Keeps (dialled b p x)
    unfolding dialled
    dialled-Keeps (fail e, v) = refl
    dialled-Keeps (ok c, v) = opened-Keeps c (b.open_channel c v)

    ensure-Keeps : (w : W) → Keeps (ensure b p w)
    unfolding ensure connect
    ensure-Keeps w = elim (Bool-cases (is_open b p p.conn p.channel w)) [
      | inl e ↦ rw e refl
      | inr e ↦ rw e (dialled-Keeps (b.dial p.url (close b p w)))
    ]

  -- The last thing that happened is that the broker took the text for the queue.
  abbrev pub Sent : String → String → Result b → Type 0
  Sent queue text r = (ch : Chan) × (v : W) × (b.send ch queue text v ≡ (ok tt, r.2))

  send_on-Sent :
      (p : Publisher Conn Chan) (o : Option Chan) (body : String) (w : W)
      → (send_on b p o body w).0 ≡ ok tt
      → Sent p.queue body (send_on b p o body w)
  send_on-Sent p none body w h = absurd (ground arith)
  send_on-Sent p (some ch) body w h = (ch, w, ap (λ o. (o, (b.send ch p.queue body w).1)) h)

  resend-Sent :
      (queue body : String) (r : Result b)
      → r.1.queue ≡ queue
      → (resend b body r).0 ≡ ok tt
      → Sent queue body (resend b body r)
  resend-Sent queue body (fail e, p, w) k h = absurd (ground arith)
  resend-Sent queue body (ok t, p, w) k h = rw (← k) (send_on-Sent p p.channel body w h)

  send_on-queue :
      (p : Publisher Conn Chan) (o : Option Chan) (body : String) (w : W)
      → (send_on b p o body w).1.queue ≡ p.queue
  send_on-queue p none body w = refl
  send_on-queue p (some ch) body w = refl

  retried-Sent :
      (queue body : String) (r : Result b)
      → r.1.queue ≡ queue
      → (r.0 ≡ ok tt → Sent queue body r)
      → (retried b body r).0 ≡ ok tt
      → Sent queue body (retried b body r)
  unfolding retried
  retried-Sent queue body (ok t, p, w) k sent h = sent refl
  retried-Sent queue body (fail e, p, w) k sent h =
      resend-Sent queue body (ensure b p w) (ensure-Keeps p w ∙ k) h

  ensured-Sent :
      (queue body : String) (r : Result b)
      → r.1.queue ≡ queue
      → (ensured b body r).0 ≡ ok tt
      → Sent queue body (ensured b body r)
  unfolding ensured
  ensured-Sent queue body (fail e, p, w) k h = absurd (ground arith)
  ensured-Sent queue body (ok t, p, w) k h =
      retried-Sent queue body (send_on b p p.channel body w) (send_on-queue p p.channel body w ∙ k)
        (λ s. rw (← k) (send_on-Sent p p.channel body w s)) h

  -- `Publish` reports success only if the payload has a JSON text and the broker took that text for
  -- the publisher's queue, by the last call that the publisher made.
  pub publish-Sent :
      (p : Publisher Conn Chan) (body : Outcome String) (w : W)
      → (publish b p body w).0 ≡ ok tt
      → (t : String) × (body ≡ ok t) × Sent p.queue t (publish b p body w)
  unfolding publish
  publish-Sent p (fail e) w h = absurd (ground arith)
  publish-Sent p (ok t) w h = (t, refl, ensured-Sent p.queue t (ensure b p w) (ensure-Keeps p w) h)
