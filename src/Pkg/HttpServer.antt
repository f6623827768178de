-- ===== src/Pkg/HttpServer.antt =====
-- pkg/httpserver/server.go: a server's life. Times are in nanoseconds; `time.ParseDuration` is a
-- parameter.
pub mod Grace
use flowix.Common.{ℕ, ◌*◌, String, ◌<>◌, ltb, Option, none, some, ◌==◌, not, if◌then◌else◌}
use flowix.Common.Int.{ℤ, pos, negsuc}
use flowix.Common.Outcome.{Outcome, ok, fail}
use flowix.Pkg.Env.{Getenv}

abbrev second : ℕ
second = 1000000000

-- `Timeouts`; 0 is "no limit", but for the grace.
pub record Timeouts : Type 0 where
  pub read_header_timeout : ℤ
  pub read_timeout : ℤ
  pub write_timeout : ℤ
  pub idle_timeout : ℤ
  pub shutdown_grace : ℤ

abbrev pub default_shutdown_grace : ℤ
default_shutdown_grace = pos (30 * second)

-- `Defaults`
abbrev pub defaults : Timeouts
defaults = record {
  read_header_timeout = pos (15 * second);
  read_timeout = pos (15 * second);
  write_timeout = pos (60 * second);
  idle_timeout = pos (120 * second);
  shutdown_grace = default_shutdown_grace;
}

-- `Streaming`
abbrev pub streaming : Timeouts
streaming = record defaults { read_timeout = pos 0; write_timeout = pos 0 }

-- A duration if it is above 0, else another.
unfoldable pub positive_or : ℤ → ℤ → ℤ
positive_or d (negsuc n) = d
positive_or d (pos n) = if ltb 0 n then pos n else d

abbrev parsed_or : ℤ → Option ℤ → ℤ
unfolding positive_or
parsed_or d none = d
parsed_or d (some t) = positive_or d t

-- The grace that `Run` gives requests in flight.
unfoldable pub grace_of : (String → Option ℤ) → Getenv → Timeouts → ℤ
unfolding positive_or parsed_or
grace_of parse_duration env t =
    let d = positive_or default_shutdown_grace t.shutdown_grace in
    if not (env "SHUTDOWN_GRACE" == "")
    then parsed_or d (parse_duration (env "SHUTDOWN_GRACE"))
    else d

-- `newServer`, without its handler.
pub record Server : Type 0 where
  pub addr : String
  pub read_header_timeout : ℤ
  pub read_timeout : ℤ
  pub write_timeout : ℤ
  pub idle_timeout : ℤ

abbrev pub new_server : String → Timeouts → Server
new_server addr t = record {
  addr = addr;
  read_header_timeout = t.read_header_timeout;
  read_timeout = t.read_timeout;
  write_timeout = t.write_timeout;
  idle_timeout = t.idle_timeout;
}

-- What `Run` waits for: the server's error, other than that it was closed, or a signal to end.
pub data Event : Type 0 where
  stopped : String → Event
  signal : Event

abbrev shut_down : Outcome (Unit {0}) → Outcome (Unit {0})
shut_down (ok _) = ok tt
shut_down (fail e) = fail ("graceful shutdown: " <> e)

-- `Run`. What `http.Server` does is a parameter: the first event of a running server, and how its
-- `Shutdown` ends within a grace.
unfoldable pub run :
    (String → Option ℤ)
    → Getenv
    → (Server → Event)
    → (Server → ℤ → Outcome (Unit {0}))
    → String
    → Timeouts
    → Outcome (Unit {0})
unfolding grace_of
run parse_duration env listen shutdown addr t = elim (listen (new_server addr t)) [
  | stopped e ↦ fail e
  | signal ↦ shut_down (shutdown (new_server addr t) (grace_of parse_duration env t))
]
