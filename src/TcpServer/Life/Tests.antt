-- ===== src/TcpServer/Life/Tests.antt =====
-- The whole life of a connection, and the theorems about it on concrete runs.
use mtnet.Prelude.{
  ℕ, ◌≡◌, refl, inr, List, [], ◌∷◌, ◌||◌, ◌⊎◌, none, some, Bool, true, false, ok, err, aborted,
  arith,
}
use mtnet.Prelude.Maps.{update}
use mtnet.Buffer.{Readv}
use mtnet.Channel.{change, enable_reading, disable_all}
use mtnet.EventLoopThreadPool.{EventLoopThreadPool, get_next_loop}
use mtnet.TcpConnection.Defs.{
  TcpConnection, connected, disconnected, connection_callback, close_callback, remove_channel,
  is_connected, is_disconnecting, emit, want, wrote, handle_close,
}
use mtnet.TcpConnection.Defs as Connected
use mtnet.TcpServer.Defs.{
  TcpServer, Connection, connect_established, connect_destroyed, new_connection,
  remove_connection_in_loop, update_name,
}
use mtnet.TcpServer.Connections.{IsInjective}
use mtnet.TcpServer.Life.Defs.{
  World, Steps, accepts, runs, removes, calls, here, next, Polled, Call, happens, run_call, act,
  accept, run_request, without_request, run_removal,
}
use mtnet.TcpServer.Life.Effects.{life}
use mtnet.TcpConnection.Callbacks
use mtnet.TcpConnection.Callbacks.{user_calls}
use mtnet.TcpServer.Callbacks.{
  none_set, set_connection_callback, set_message_callback, hand_down, user_calls-aborted,
}
use mtnet.TcpServer.Life.Phases.{Phase, unused, Lives, IsSound}
use mtnet.TcpServer.Life.Safety.{
  IsFresh, begin, running, perform, whole_life, Steps-Lives, Steps-perform, settled,
}

-- "#" and one byte.
abbrev format : ℕ → List ℕ
format k = 35 ∷ k ∷ []

format-IsInjective : IsInjective format
format-IsInjective a b h = cc

abbrev pool : ℕ → EventLoopThreadPool
pool next_loop = record {
  base_loop = 1;
  started = true;
  num_threads = 2;
  next = next_loop;
  loops = 10 ∷ 20 ∷ [];
}

-- A server named "h", before its first connection.
abbrev ready : TcpServer
ready = record {
  name = 104 ∷ [];
  acceptor = record { listenning = true; events = 3 };
  thread_pool = pool 0;
  started = true;
  next_conn_id = 1;
  connections = λ n. none;
  connection_at = λ p. none;
  requests = [];
  closed = [];
}

ready-IsFresh : IsFresh ready
ready-IsFresh = record {
  ready = inr (record { threads = omega arith; inside = omega arith });
  unregistered = λ n. refl;
  unused_addresses = λ a. refl;
  no_requests = refl;
}

abbrev first : Connection
first = record { name = 104 ∷ 35 ∷ 1 ∷ []; loop = 10; sockfd = 7 }

abbrev fresh_connection : TcpConnection
fresh_connection = Connected.init false

abbrev seen : Bool → TcpConnection → Polled
seen b c = record { tcp = c; polled = b }

-- POLLHUP.
abbrev hang_up : Call
hang_up = happens (Readv.stored []) (wrote 0) 0x10

abbrev up : TcpConnection
up = emit connection_callback (want enable_reading (record fresh_connection { state = connected }))

abbrev hung : TcpConnection
hung = emit close_callback (want disable_all up)

abbrev down : TcpConnection
down =
    emit remove_channel
      (emit connection_callback (want disable_all (record hung { state = disconnected })))

abbrev made : World
made = record {
  server = record ready {
    thread_pool = pool 1;
    next_conn_id = 2;
    connections = update_name ready.connections first.name (some 500);
    connection_at = update ready.connection_at 500 (some first);
    requests = connect_established 10 500 ∷ [];
  };
  connection = update (λ a. seen false fresh_connection) 500 (seen false fresh_connection);
  removals = [];
}

abbrev open_world : World
open_world = record (without_request [] made) {
  connection = update made.connection 500 (seen true up);
}

abbrev hung_world : World
hung_world = record open_world {
  connection = update open_world.connection 500 (seen false hung);
  removals = 500 ∷ [];
}

abbrev removed_world : World
removed_world = record hung_world {
  server = record hung_world.server {
    connections = update_name hung_world.server.connections first.name none;
    requests = connect_destroyed 10 500 ∷ [];
  };
  removals = [];
}

abbrev down_world : World
down_world = record (without_request [] removed_world) {
  connection = update removed_world.connection 500 (seen false down);
}

made_run : Steps format (begin ready) made
unfolding accept new_connection get_next_loop Connected.init
made_run = next here (accepts false 500 7 refl refl)

open_run : Steps format (begin ready) open_world
unfolding run_request Connected.connect_established Connected.init
open_run = next made_run (runs 0 (connect_established 10 500) [] refl refl)

hung_run : Steps format (begin ready) hung_world
unfolding act run_call handle_close Connected.init change
hung_run = next open_run (calls hang_up 500 first hung refl refl refl refl)

removed_run : Steps format (begin ready) removed_world
unfolding run_removal remove_connection_in_loop
removed_run = next hung_run (removes 0 500 [] refl refl)

down_run : Steps format (begin ready) down_world
unfolding run_request Connected.connect_destroyed Connected.init change
down_run = next removed_run (runs 0 (connect_destroyed 10 500) [] refl refl)

Steps-perform_example :
    (v : World) × (perform format made (running 0 (connect_established 10 500) [] refl) ≡ ok v)
Steps-perform_example =
    Steps-perform format format-IsInjective ready made ready-IsFresh made_run
      (running 0 (connect_established 10 500) [] refl)

settled_example :
    (((is_connected (open_world.connection 500).tcp.state
          || is_disconnecting (open_world.connection 500).tcp.state)
        ≡ true)
      × (open_world.server.connections first.name ≡ some 500)
      × (life (open_world.connection 500).tcp.effects ≡ connection_callback ∷ []))
    ⊎ (((open_world.connection 500).tcp.state ≡ disconnected)
        × (life (open_world.connection 500).tcp.effects ≡ whole_life))
settled_example =
    settled format format-IsInjective ready open_world ready-IsFresh open_run refl refl 500 first
      refl

Steps-Lives_example : (q : ℕ → Phase) × Lives (λ a. unused) q × IsSound format down_world q
Steps-Lives_example = Steps-Lives format format-IsInjective ready down_world ready-IsFresh down_run

-- The server's callbacks 11 and 12, and `removeConnection`, called 13.
calls_run :
    user_calls
      (hand_down 13 (set_connection_callback (some 11) (set_message_callback (some 12) none_set)))
      (down_world.connection 500).tcp.effects
    ≡ ok (11 ∷ 13 ∷ 11 ∷ [])
unfolding hand_down user_calls set_connection_callback set_message_callback Connected.init
    mtnet.TcpConnection.Callbacks.set_connection_callback
    mtnet.TcpConnection.Callbacks.set_message_callback
    mtnet.TcpConnection.Callbacks.set_write_complete_callback
    mtnet.TcpConnection.Callbacks.set_close_callback
calls_run = refl

user_calls-aborted_example :
    user_calls (hand_down 13 none_set) (open_world.connection 500).tcp.effects ≡ err aborted
user_calls-aborted_example =
    user_calls-aborted format format-IsInjective ready open_world 500 13 none_set ready-IsFresh
      open_run refl refl
