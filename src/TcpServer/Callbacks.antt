-- ===== src/TcpServer/Callbacks.antt =====
-- The callbacks of mtnet/TcpServer.h and how `newConnection` hands them down to a connection.
use mtnet.Prelude.{
  ℕ, ◌≡◌, refl, sym, ap, ◌∙◌, List, [], ◌∷◌, none, some, Option, err, aborted, arith,
}
use mtnet.TcpConnection.Defs.{
  connected, Effect, sent, shut_write, write_complete, connection_callback, message_callback,
  close_callback, remove_channel, write_error, handle_error,
}
use mtnet.TcpConnection.Callbacks as Connected
use mtnet.TcpConnection.Callbacks.{Callbacks, invoke, and_then, queue_if, user_calls}
use mtnet.TcpServer.Defs.{TcpServer}
use mtnet.TcpServer.Connections.{IsInjective}
use mtnet.TcpServer.Life.Defs.{World, Steps}
use mtnet.TcpServer.Life.Effects.{stage, life}
use mtnet.TcpServer.Life.Phases.{
  Phase, unused, accepted, live, closed, removed, gone, stage_of, history,
}
use mtnet.TcpServer.Life.Safety.{IsFresh, begin, Steps-Lives}

pub record ServerCallbacks : Type 0 where
  pub on_connection : Option ℕ
  pub on_message : Option ℕ
  pub on_write_complete : Option ℕ

-- Those of a new server.
abbrev pub none_set : ServerCallbacks
none_set = record { on_connection = none; on_message = none; on_write_complete = none }

unfoldable pub set_connection_callback : Option ℕ → ServerCallbacks → ServerCallbacks
set_connection_callback cb s = record s { on_connection = cb }

unfoldable pub set_message_callback : Option ℕ → ServerCallbacks → ServerCallbacks
set_message_callback cb s = record s { on_message = cb }

unfoldable pub set_write_complete_callback : Option ℕ → ServerCallbacks → ServerCallbacks
set_write_complete_callback cb s = record s { on_write_complete = cb }

-- `newConnection`, which binds `removeConnection` as the close callback.
unfoldable pub hand_down : ℕ → ServerCallbacks → Callbacks
unfolding Connected.set_connection_callback Connected.set_message_callback
    Connected.set_write_complete_callback Connected.set_close_callback
hand_down remove_connection s =
    let connection = Connected.set_connection_callback s.on_connection Connected.no_callbacks in
    let message = Connected.set_message_callback s.on_message connection in
    let complete = Connected.set_write_complete_callback s.on_write_complete message in
    Connected.set_close_callback (some remove_connection) complete

and_then-aborted : (o : Option ℕ) → and_then (invoke o) (err aborted) ≡ err aborted
and_then-aborted none = refl
and_then-aborted (some f) = refl

queue_if-aborted : (o : Option ℕ) → queue_if o (err aborted) ≡ err aborted
queue_if-aborted none = refl
queue_if-aborted (some f) = refl

-- Without a connection callback, the first effect of a life is not survived.
user_calls-unset :
    (c : Callbacks) (es rest : List Effect)
    → c.on_connection ≡ none
    → life es ≡ connection_callback ∷ rest
    → user_calls c es ≡ err aborted
unfolding user_calls
user_calls-unset c [] rest unset h = cc
user_calls-unset c (connection_callback ∷ es) rest unset h = rw unset refl
user_calls-unset c (message_callback ∷ es) rest unset h =
    rw (user_calls-unset c es rest unset h) (and_then-aborted c.on_message)
user_calls-unset c (close_callback ∷ es) rest unset h = cc
user_calls-unset c (remove_channel ∷ es) rest unset h = cc
user_calls-unset c (write_complete ∷ es) rest unset h =
    rw (user_calls-unset c es rest unset h) (queue_if-aborted c.on_write_complete)
user_calls-unset c (sent m ∷ es) rest unset h = user_calls-unset c es rest unset h
user_calls-unset c (shut_write ∷ es) rest unset h = user_calls-unset c es rest unset h
user_calls-unset c (write_error ∷ es) rest unset h = user_calls-unset c es rest unset h
user_calls-unset c (handle_error ∷ es) rest unset h = user_calls-unset c es rest unset h

history-up :
    (p : Phase) → stage_of p ≡ 1 → (es : List Effect) × (history p ≡ connection_callback ∷ es)
history-up unused h = absurd (omega (arith, h))
history-up accepted h = absurd (omega (arith, h))
history-up live h = ([], refl)
history-up closed h = (close_callback ∷ [], refl)
history-up removed h = (close_callback ∷ [], refl)
history-up gone h = absurd (omega (arith, h))

module _ (format : ℕ → List ℕ) (injective : IsInjective format) (s : TcpServer) (w : World) where
  -- A server starts without connections, and different numbers are printed differently; its loops,
  -- users and channels do what they may in `Steps-Lives`. If its connection callback was not set
  -- when it handed its callbacks down to a connection, then by the time that the connection is
  -- connected, the call of an empty callback has thrown, whatever the other callbacks are.
  pub user_calls-aborted :
      (a remove_connection : ℕ) (callbacks : ServerCallbacks)
      → IsFresh s
      → Steps format (begin s) w
      → (w.connection a).tcp.state ≡ connected
      → callbacks.on_connection ≡ none
      → user_calls (hand_down remove_connection callbacks) (w.connection a).tcp.effects
        ≡ err aborted
  unfolding hand_down Connected.set_connection_callback Connected.set_message_callback
      Connected.set_write_complete_callback Connected.set_close_callback
  user_calls-aborted a remove_connection callbacks f run up unset =
      let (q, lives, sound) = Steps-Lives format injective s w f run in
      let p = (sound.fits a).in_phase in
      let (es, e) = history-up (q a) (sym p.stage_fits ∙ ap stage up) in
      user_calls-unset (hand_down remove_connection callbacks) (w.connection a).tcp.effects es unset
        (p.life_fits ∙ e)
