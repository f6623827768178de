-- ===== src/Upload/Queue/Tests.antt =====
-- A broker with one connection: whether it is open, and the texts that were taken.
use flowix.Common.{
  ◌≡◌, inl, inr, refl, String, Bool, true, false, not, some, List, [], ◌∷◌, Bool-cases, arith,
}
use flowix.Upload.{Outcome, ok, fail}
use flowix.Upload.Queue.{Table, Broker, Publisher, publish}
use flowix.Upload.Queue.Held.{IsLawful, Only, publish-Holds}
use flowix.Upload.Queue.Available.{IsUp, publish-ok}

record World : Type 0 where
  is_up : Bool
  taken : List String

abbrev take : String → Bool → List String → Outcome (Unit {0}) × World
take body true ts = (ok tt, record { is_up = true; taken = body ∷ ts })
take body false ts = (fail "channel closed", record { is_up = false; taken = ts })

abbrev broker : Broker World (Unit {0}) (Unit {0})
broker = record {
  dial = λ url w. (ok tt, record w { is_up = true });
  open_channel = λ c w. (ok tt, w);
  close = λ c w. record w { is_up = false };
  close_channel = λ ch w. w;
  is_closed = λ c w. not w.is_up;
  is_channel_closed = λ ch w. not w.is_up;
  exchange_declare = λ ch x k w. (ok tt, w);
  queue_declare = λ ch q t w. (ok tt, w);
  queue_bind = λ ch q k x w. (ok tt, w);
  queue_delete = λ ch q w. w;
  send = λ ch q body w. take body w.is_up w.taken;
}

take-closed :
    (body : String) (b : Bool) (ts : List String)
    → not b ≡ true
    → not (take body b ts).1.is_up ≡ true
take-closed body true ts h = h
take-closed body false ts h = refl

broker-IsLawful : IsLawful broker
broker-IsLawful = record {
  dial-open = λ url d w h. inl refl;
  close-closed = λ c w. refl;
  close-Quiet = λ c w d h. refl;
  open_channel-Quiet = λ c w d h. h;
  close_channel-Quiet = λ ch w d h. h;
  exchange_declare-Quiet = λ ch x k w d h. h;
  queue_declare-Quiet = λ ch q t w d h. h;
  queue_bind-Quiet = λ ch q k x w d h. h;
  queue_delete-Quiet = λ ch q w d h. h;
  send-Quiet = λ ch q body w d h. take-closed body w.is_up w.taken h;
}

-- A publisher whose connection was lost.
abbrev publisher : Publisher (Unit {0}) (Unit {0})
publisher = record {
  url = "amqp://rabbitmq";
  queue = "video.uploaded";
  conn = some tt;
  channel = some tt;
}

abbrev lost : World
lost = record { is_up = false; taken = [] }

publish-Holds_example :
    Only broker
      (publish broker publisher (ok "{}") lost).1.conn
      (publish broker publisher (ok "{}") lost).2
publish-Holds_example =
    publish-Holds broker broker-IsLawful publisher (ok "{}") lost (λ d. inr refl)

-- The laws hold for this broker in every state, and it has no queue with other arguments.
abbrev AnyState : World → Type 0
AnyState w = Unit

abbrev AnyTable : String → Table → Type 0
AnyTable q args = Unit

not_closed : (w : World) → not w.is_up ≡ false → w.is_up ≡ true
not_closed w h = elim (Bool-cases w.is_up) [
  | inl e ↦ e
  | inr e ↦ absurd (ground (arith, rw e at h))
]

broker-IsUp : IsUp broker AnyState AnyTable
broker-IsUp = record {
  dial-Dialled = λ url w up. (refl, tt);
  open_channel-Opened = λ c w up live. (live, tt);
  exchange_declare-Declared = λ ch x k w up live. (live, tt);
  queue_declare-Declared = λ ch q args w up live fits. (live, tt);
  queue_bind-Declared = λ ch q k x w up live. (live, tt);
  send-ok = λ ch q body w up live. rw (not_closed w live) refl;
  close-Up = λ c w up. tt;
  close_channel-Up = λ ch w up. tt;
}

publish-ok_example : (publish broker publisher (ok "{}") lost).0 ≡ ok tt
publish-ok_example =
    publish-ok broker AnyState AnyTable broker-IsUp "{}" publisher
      (tt, tt, tt, (tt, (tt, (tt, tt)))) lost tt
