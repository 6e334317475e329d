-- ===== src/TcpConnection/Callbacks.antt =====
-- The callbacks of mtnet/TcpConnection.h. A callback is a `std::function`, which is empty until it
-- is set; the others are known by numbers. The call of an empty one throws, and nothing catches
-- it.
use mtnet.Prelude.{ℕ, List, [], ◌∷◌, none, some, Option, Result, ok, err, ◌>>=◌, aborted}
use mtnet.TcpConnection.Defs.{
  Effect, write_complete, connection_callback, message_callback, close_callback,
}

pub record Callbacks : Type 0 where
  pub on_connection : Option ℕ
  pub on_message : Option ℕ
  pub on_write_complete : Option ℕ
  pub on_close : Option ℕ

-- Those of a new connection.
abbrev pub no_callbacks : Callbacks
no_callbacks = record {
  on_connection = none;
  on_message = none;
  on_write_complete = none;
  on_close = none;
}

unfoldable pub set_connection_callback : Option ℕ → Callbacks → Callbacks
set_connection_callback cb c = record c { on_connection = cb }

unfoldable pub set_message_callback : Option ℕ → Callbacks → Callbacks
set_message_callback cb c = record c { on_message = cb }

unfoldable pub set_write_complete_callback : Option ℕ → Callbacks → Callbacks
set_write_complete_callback cb c = record c { on_write_complete = cb }

unfoldable pub set_close_callback : Option ℕ → Callbacks → Callbacks
set_close_callback cb c = record c { on_close = cb }

abbrev pub invoke : Option ℕ → Result ℕ
invoke none = err aborted
invoke (some f) = ok f

abbrev pub and_then : Result ℕ → Result (List ℕ) → Result (List ℕ)
and_then r rest = r >>= (λ f. rest >>= (λ fs. ok (f ∷ fs)))

abbrev pub queue_if : Option ℕ → Result (List ℕ) → Result (List ℕ)
queue_if none rest = rest
queue_if (some f) rest = and_then (ok f) rest

-- The callbacks that are called for the effects of a connection. Only `writeCompleteCallback_` is
-- tested before it is called.
unfoldable pub user_calls : Callbacks → List Effect → Result (List ℕ)
user_calls c [] = ok []
user_calls c (connection_callback ∷ es) =
    let rest = user_calls c es in and_then (invoke c.on_connection) rest
user_calls c (message_callback ∷ es) =
    let rest = user_calls c es in and_then (invoke c.on_message) rest
user_calls c (close_callback ∷ es) = let rest = user_calls c es in and_then (invoke c.on_close) rest
user_calls c (write_complete ∷ es) = let rest = user_calls c es in queue_if c.on_write_complete rest
user_calls c (e ∷ es) = user_calls c es
