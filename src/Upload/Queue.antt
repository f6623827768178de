-- ===== src/Upload/Queue.antt =====
-- services/upload/internal/queue/publisher.go: the publisher of events. The library amqp and the
-- broker behind it are a parameter. The mutex makes `Publish` and `Close` one step each.
pub mod Held
pub mod Delivery
pub mod Available
mod Tests
use flowix.Common.{
  ℕ, String, ◌<>◌, Bool, true, false, ◌||◌, ◌&&◌, not, Option, none, some, List, [], ◌∷◌, ◌==◌,
  if◌then◌else◌,
}
use flowix.Common.Text.{contains}
use flowix.Upload.{Outcome, ok, fail}

-- A value in an `amqp.Table`.
pub data Argument : Type 0 where
  text : String → Argument
  int32 : ℕ → Argument

abbrev Table : Type 0
Table = List (String × Argument)

-- What the publisher calls, with the state `W` of the broker and of the connections to it. A
-- declared queue or exchange is durable and not deleted by itself.
pub record Broker (W Conn Chan : Type 0) : Type 0 where
  pub dial : String → W → Outcome Conn × W
  pub open_channel : Conn → W → Outcome Chan × W
  pub close : Conn → W → W
  pub close_channel : Chan → W → W
  pub is_closed : Conn → W → Bool
  pub is_channel_closed : Chan → W → Bool
  pub exchange_declare : Chan → String → String → W → Outcome (Unit {0}) × W
  pub queue_declare : Chan → String → Table → W → Outcome (Unit {0}) × W
  pub queue_bind : Chan → String → String → String → W → Outcome (Unit {0}) × W
  pub queue_delete : Chan → String → W → W
  pub send : Chan → String → String → W → Outcome (Unit {0}) × W

pub record Publisher (Conn Chan : Type 0) : Type 0 where
  pub url : String
  pub queue : String
  pub conn : Option Conn
  pub channel : Option Chan

-- The next call, unless there was an error.
unfoldable pub and_then : {W A B : Type 0} → Outcome A × W → (A → W → Outcome B × W) → Outcome B × W
and_then (fail e, w) k = (fail e, w)
and_then (ok a, w) k = k a w

-- `fmt.Errorf("…: %w", err)`
unfoldable pub wrapped : {W A : Type 0} → String → Outcome A × W → Outcome A × W
wrapped msg (fail e, w) = (fail (msg <> ": " <> e), w)
wrapped msg (ok a, w) = (ok a, w)

abbrev retry_args : String → Table
retry_args queue =
    ("x-dead-letter-exchange", text "")
    ∷ ("x-dead-letter-routing-key", text queue)
    ∷ ("x-message-ttl", int32 30000)
    ∷ []

abbrev main_args : String → Table
main_args dlq =
    ("x-dead-letter-exchange", text "dlx") ∷ ("x-dead-letter-routing-key", text dlq) ∷ []

abbrev fanout_queues : List String
fanout_queues = "video.transcode.360p" ∷ "video.transcode.720p" ∷ "video.transcode.1080p" ∷ []

-- The error of a queue that is there with other arguments.
abbrev is_stale : String → Bool
is_stale e = contains e "PRECONDITION" || contains e "inequivalent"

module _ {W Conn Chan : Type 0} (b : Broker W Conn Chan) where
  declare_fanout : Chan → Table → List String → W → Outcome (Unit {0}) × W
  declare_fanout ch args [] w = (ok tt, w)
  declare_fanout ch args (q ∷ qs) w =
      and_then (wrapped ("fanout queue declare " <> q) (b.queue_declare ch q args w))
        (λ _ w. declare_fanout ch args qs w)

  -- `declareTopology`
  unfoldable pub declare_topology : Chan → String → W → Outcome (Unit {0}) × W
  unfolding declare_fanout
  declare_topology ch queue w =
      if not (queue == "video.uploaded")
      then wrapped "queue declare" (b.queue_declare ch queue [] w)
      else and_then (wrapped "exchange declare dlx" (b.exchange_declare ch "dlx" "direct" w))
          (λ _ w.
            and_then (wrapped "dlq declare" (b.queue_declare ch (queue <> ".dlq") [] w)) (λ _ w.
              and_then
                (wrapped "dlq bind" (b.queue_bind ch (queue <> ".dlq") (queue <> ".dlq") "dlx" w))
                (λ _ w.
                  and_then
                    (wrapped "retry queue declare"
                      (b.queue_declare ch (queue <> ".retry") (retry_args queue) w))
                    (λ _ w.
                      and_then
                        (wrapped "queue declare"
                          (b.queue_declare ch queue (main_args (queue <> ".dlq")) w))
                        (λ _ w. declare_fanout ch (main_args (queue <> ".dlq")) fanout_queues w)))))

  abbrev pub Result : Type 0
  Result = Outcome (Unit {0}) × Publisher Conn Chan × W

  module _ (p : Publisher Conn Chan) where
    abbrev connected : Conn → Chan → Publisher Conn Chan
    connected c ch = record p { conn = some c; channel = some ch }

    -- The second try of `connect`, behind the deletion of the queue.
    abbrev redeclared : Conn → Chan → Outcome (Unit {0}) × W → Result
    redeclared c ch (fail e, w) = (fail e, p, b.close c (b.close_channel ch w))
    redeclared c ch (ok _, w) = (ok tt, connected c ch, w)

    reopened : Conn → Outcome Chan × W → Result
    unfolding declare_topology
    reopened c (fail e, w) = (fail ("amqp channel retry: " <> e), p, b.close c w)
    reopened c (ok ch, w) = redeclared c ch (declare_topology ch p.queue w)

    redialled : Outcome Conn × W → Result
    unfolding reopened
    redialled (fail e, w) = (fail ("amqp dial retry: " <> e), p, w)
    redialled (ok c, w) = reopened c (b.open_channel c w)

    -- The deletion of the queue by a connection of its own, whose errors are dropped.
    abbrev deleted : Outcome Chan × W → W
    deleted (fail e, w) = w
    deleted (ok ch, w) = b.close_channel ch (b.queue_delete ch p.queue w)

    abbrev dropped : Outcome Conn × W → W
    dropped (fail e, w) = w
    dropped (ok c, w) = b.close c (deleted (b.open_channel c w))

    declared : Conn → Chan → Outcome (Unit {0}) × W → Result
    unfolding redialled contains
    declared c ch (ok _, w) = (ok tt, connected c ch, w)
    declared c ch (fail e, w) =
        let closed = b.close c (b.close_channel ch w) in
        if is_stale e
        then redialled (b.dial p.url (dropped (b.dial p.url closed)))
        else (fail e, p, closed)

    opened : Conn → Outcome Chan × W → Result
    unfolding declared
    opened c (fail e, w) = (fail ("amqp channel: " <> e), p, b.close c w)
    opened c (ok ch, w) = declared c ch (declare_topology ch p.queue w)

    dialled : Outcome Conn × W → Result
    unfolding opened
    dialled (fail e, w) = (fail ("amqp dial: " <> e), p, w)
    dialled (ok c, w) = opened c (b.open_channel c w)

    -- `connect`
    unfoldable pub connect : W → Result
    unfolding dialled
    connect w = dialled (b.dial p.url w)

    abbrev is_open : Option Conn → Option Chan → W → Bool
    is_open (some c) (some ch) w = not (b.is_closed c w) && not (b.is_channel_closed ch w)
    is_open _ _ w = false

    abbrev close_channel_of : Option Chan → W → W
    close_channel_of none w = w
    close_channel_of (some ch) w = b.close_channel ch w

    abbrev close_conn_of : Option Conn → W → W
    close_conn_of none w = w
    close_conn_of (some c) w = b.close c w

    -- `Close`
    unfoldable pub close : W → W
    close w = close_conn_of p.conn (close_channel_of p.channel w)

    -- `ensure`
    unfoldable pub ensure : W → Result
    unfolding connect close
    ensure w = if is_open p.conn p.channel w then (ok tt, p, w) else connect (close w)

  -- `publish`. Behind `ensure` there is a channel.
  abbrev send_on : Publisher Conn Chan → Option Chan → String → W → Result
  send_on p none body w = (fail "no channel", p, w)
  send_on p (some ch) body w = let (o, v) = b.send ch p.queue body w in (o, p, v)

  -- The second half of `Publish`.
  abbrev resend : String → Result → Result
  resend body (fail e, p, w) = (fail e, p, w)
  resend body (ok _, p, w) = send_on p p.channel body w

  retried : String → Result → Result
  unfolding ensure
  retried body (ok _, p, w) = (ok tt, p, w)
  retried body (fail e, p, w) = resend body (ensure p w)

  ensured : String → Result → Result
  unfolding retried
  ensured body (fail e, p, w) = (fail e, p, w)
  ensured body (ok _, p, w) = retried body (send_on p p.channel body w)

  -- `Publish`, for the JSON text of the payload.
  unfoldable pub publish : Publisher Conn Chan → Outcome String → W → Result
  unfolding ensured
  publish p (fail e) w = (fail e, p, w)
  publish p (ok body) w = ensured body (ensure p w)

  abbrev unconnected : String → String → Publisher Conn Chan
  unconnected url queue = record { url = url; queue = queue; conn = none; channel = none }

  -- `NewPublisher`; the publisher is used only if there is no error.
  unfoldable pub new_publisher : String → String → W → Result
  unfolding connect
  new_publisher url queue w = connect (unconnected url queue) w
