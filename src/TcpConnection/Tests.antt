-- ===== src/TcpConnection/Tests.antt =====
-- Runs of a connection, and the theorems about it at concrete connections.
use mtnet.Prelude.{
  ℕ, ◌≡◌, length, refl, true, inl, List, [], ◌∷◌, ◌++◌, ok, err, assertion, drop, take, arith,
}
use mtnet.Buffer.{Buffer, stored}
use mtnet.Buffer.Laws.{contents}
use mtnet.TcpConnection.Defs.{
  TcpConnection, connected, disconnecting, disconnected, connection_callback, remove_channel,
  try_write, send_in_loop, sent, shut_write, message_callback, write_complete, wrote, send,
  handle_write, handle_read, shutdown,
}
use mtnet.TcpConnection.Stream.{wire, stream, IsValid}
use mtnet.TcpConnection.Send.{send_lem}
use mtnet.Channel.{write_event}
use mtnet.Channel
use mtnet.Poller.Defs.{Poller}
use mtnet.Poller.Samples.{one, one-IsConsistent}
use mtnet.TcpConnection.Polled.{send_in_loop_polled, connect_destroyed_polled}
use mtnet.TcpConnection.Late.{send_in_loop_late}
use mtnet.TcpConnection.Pipe.{accept, receive, close, Moves}
use mtnet.TcpConnection.Refine.{perform_all, AllAllowed, AllAllowed-next, perform_all_lem}
use mtnet.TcpConnection.Refine.Ops.{Op, sends, writable, readable, pipe, IsUp, perform}
use mtnet.TcpConnection.Threads
use mtnet.TcpConnection.Threads.{
  World, begin, Steps, send_message, tests, pushes, calls_send, pushed-in_order,
}
use mtnet.TcpConnection.Write.{handle_write_lem, after_write}

abbrev empty : Buffer
empty = record {
  buffer = 0 ∷ 0 ∷ 0 ∷ 0 ∷ 0 ∷ 0 ∷ 0 ∷ 0 ∷ 0 ∷ [];
  reader_index = 8;
  write_index = 8;
}

-- Connected, with nothing waiting.
abbrev quiet : TcpConnection
quiet = record {
  state = connected;
  events = 3;
  has_write_complete = true;
  input_buffer = empty;
  output_buffer = empty;
  effects = [];
}

-- The bytes 5 and 6 wait, and the connection is to be half-closed after them.
abbrev closing : TcpConnection
closing = record quiet {
  state = disconnecting;
  events = 7;
  output_buffer = record {
    buffer = 0 ∷ 0 ∷ 0 ∷ 0 ∷ 0 ∷ 0 ∷ 0 ∷ 0 ∷ 5 ∷ 6 ∷ [];
    reader_index = 8;
    write_index = 10;
  };
}

quiet-IsValid : IsValid quiet
quiet-IsValid = record { output = omega arith; reading = true; wants = refl }

closing-IsValid : IsValid closing
closing-IsValid = record { output = omega arith; reading = true; wants = refl }

abbrev partly_sent : TcpConnection
partly_sent = record quiet {
  events = 7;
  output_buffer = record {
    buffer = 0 ∷ 0 ∷ 0 ∷ 0 ∷ 0 ∷ 0 ∷ 0 ∷ 0 ∷ 6 ∷ 7 ∷ [];
    reader_index = 8;
    write_index = 10;
  };
  effects = sent (5 ∷ []) ∷ [];
}

send_partly : send (wrote 1) (5 ∷ 6 ∷ 7 ∷ []) quiet ≡ ok partly_sent
unfolding send mtnet.Buffer.append mtnet.Channel.change
send_partly = refl

write_last_effects :
    handle_write (wrote 2) closing
    ≡ ok (record closing {
      events = 3;
      output_buffer = record closing.output_buffer { reader_index = 10 };
      effects = sent (5 ∷ 6 ∷ []) ∷ write_complete ∷ shut_write ∷ [];
    })
unfolding handle_write mtnet.Buffer.read_at mtnet.Buffer.retrieve mtnet.Channel.change
write_last_effects = refl

send_lem_example :
    (c' : TcpConnection) × (send (wrote 1) (5 ∷ 6 ∷ 7 ∷ []) quiet ≡ ok c')
    × IsValid c'
    × (stream c' ≡ stream quiet ++ (5 ∷ 6 ∷ 7 ∷ []))
    × (c'.state ≡ connected)
send_lem_example =
    send_lem (wrote 1) (5 ∷ 6 ∷ 7 ∷ []) quiet quiet-IsValid (omega arith) (omega arith) refl

handle_write_lem_example :
    (c' : TcpConnection) × (handle_write (wrote 2) closing ≡ ok c')
    × IsValid c'
    × (stream c' ≡ stream closing)
    × (contents c'.output_buffer ≡ drop 2 (contents closing.output_buffer))
    × (c'.effects
        ≡ (closing.effects ++ sent (take 2 (contents closing.output_buffer)) ∷ [])
          ++ after_write (drop 2 (contents closing.output_buffer)) closing)
    × (c'.state ≡ disconnecting)
    × (c'.input_buffer ≡ closing.input_buffer)
handle_write_lem_example = handle_write_lem 2 closing closing-IsValid (omega arith) (omega arith)

-- Three bytes are given to `send` and one is written, two arrive, `shutdown` is called, and POLLOUT lets
-- the rest out.
abbrev flushing : List Op
flushing = writable (wrote 2) ∷ []

abbrev stopping : List Op
stopping = Op.closing ∷ flushing

abbrev reading : List Op
reading = readable (stored (1 ∷ 2 ∷ [])) ∷ stopping

abbrev life : List Op
life = sends (wrote 1) (5 ∷ 6 ∷ 7 ∷ []) ∷ reading

abbrev has_read : TcpConnection
has_read = record partly_sent {
  input_buffer = record {
    buffer = 0 ∷ 0 ∷ 0 ∷ 0 ∷ 0 ∷ 0 ∷ 0 ∷ 0 ∷ 1 ∷ 2 ∷ [];
    reader_index = 8;
    write_index = 10;
  };
  effects = sent (5 ∷ []) ∷ message_callback ∷ [];
}

abbrev stopped : TcpConnection
stopped = record has_read { state = disconnecting }

quiet-IsUp : IsUp quiet
quiet-IsUp = record {
  valid = quiet-IsValid;
  input = omega arith;
  state = inl refl;
  half_closed = inl refl;
}

life-AllAllowed : AllAllowed life quiet
unfolding perform send handle_read handle_write shutdown mtnet.Buffer.append mtnet.Buffer.read_fd
    mtnet.Buffer.read_at mtnet.Buffer.retrieve mtnet.Channel.change
life-AllAllowed =
    let flush : AllAllowed flushing stopped = (omega arith, λ d e. tt) in
    let stop : AllAllowed stopping has_read =
      (tt, AllAllowed-next Op.closing flushing has_read refl flush) in
    let read : AllAllowed reading partly_sent = (
      (omega arith, omega arith),
      AllAllowed-next (readable (stored (1 ∷ 2 ∷ []))) stopping partly_sent refl stop,
    ) in
    (
      (omega arith, omega arith),
      AllAllowed-next (sends (wrote 1) (5 ∷ 6 ∷ 7 ∷ [])) reading quiet refl read,
    )

perform_all_lem_example :
    let asked = accept (5 ∷ 6 ∷ 7 ∷ []) ∷ receive (1 ∷ 2 ∷ []) ∷ close ∷ [] in
    (c' : TcpConnection) × (perform_all life quiet ≡ ok c')
    × IsUp c'
    × Moves (pipe quiet) asked (pipe c')
    × (wire c'.effects ++ contents c'.output_buffer ≡ 5 ∷ 6 ∷ 7 ∷ [])
    × (taken : List ℕ) × (length taken ≡ 0)
    × (taken ++ contents c'.input_buffer ≡ 1 ∷ 2 ∷ [])
perform_all_lem_example = perform_all_lem life quiet quiet-IsUp life-AllAllowed

send_in_loop_late_example :
    ((d : TcpConnection) × (t : Poller) × (send_in_loop_polled
          (wrote 1)
          (5 ∷ 6 ∷ 7 ∷ [])
          0
          (shutdown quiet)
          one
        ≡ ok (d, t))
      × (d.effects ≡ (quiet.effects ++ shut_write ∷ []) ++ sent (take 1 (5 ∷ 6 ∷ 7 ∷ [])) ∷ []))
    × ((gone : TcpConnection) × (u : Poller) × (connect_destroyed_polled 0 quiet one ≡ ok (gone, u))
        × (gone.state ≡ disconnected)
        × ((try_write (wrote 1) (5 ∷ 6 ∷ 7 ∷ []) gone).0.effects
            ≡ ((quiet.effects ++ connection_callback ∷ []) ++ remove_channel ∷ [])
              ++ sent (take 1 (5 ∷ 6 ∷ 7 ∷ [])) ∷ [])
        × (send_in_loop_polled (wrote 1) (5 ∷ 6 ∷ 7 ∷ []) 0 gone u ≡ err assertion))
unfolding Channel.init
send_in_loop_late_example =
    send_in_loop_late 1 (5 ∷ 6 ∷ 7 ∷ []) 0 quiet one quiet-IsValid refl refl (omega arith)
      (omega arith) one-IsConsistent refl

-- Another thread sends 5, 6 and 7, and the loop's thread lets the first out.
abbrev queued_once : World
queued_once = record {
  connection = quiet;
  queue = send_message (5 ∷ 6 ∷ 7 ∷ []) ∷ [];
  senders = [];
  closing = 0;
  stopping = 0;
  pushed = 5 ∷ 6 ∷ 7 ∷ [];
}

abbrev called_once : World
called_once = record queued_once { connection = partly_sent; queue = [] }

sends_once : Steps (begin quiet) called_once
unfolding send_in_loop mtnet.Buffer.append mtnet.Channel.change
sends_once =
    Threads.next
      (Threads.next (Threads.next Threads.here (tests (5 ∷ 6 ∷ 7 ∷ []) refl))
        (pushes [] [] (5 ∷ 6 ∷ 7 ∷ []) refl))
      (calls_send (wrote 1) (5 ∷ 6 ∷ 7 ∷ []) [] partly_sent refl (omega arith) (omega arith) refl)

pushed-in_order_example :
    IsValid partly_sent
    × (wire partly_sent.effects ++ (contents partly_sent.output_buffer ++ []) ≡ 5 ∷ 6 ∷ 7 ∷ [])
pushed-in_order_example = pushed-in_order quiet quiet-IsValid sends_once
