-- ===== src/TcpConnection/Shutdown.antt =====
-- `shutdown` of mtnet/TcpConnection.cc.
use mtnet.Prelude.{
  ◌≡◌, refl, ap, ◌∙◌, [], ◌∷◌, ◌++◌, true, false, not, if◌then◌else◌, Bool-cases, inl, inr,
}
use mtnet.Buffer.Laws.{contents}
use mtnet.TcpConnection.Defs.{
  TcpConnection, connected, disconnecting, is_connected, shut_write, is_writing, shutdown_in_loop,
  shutdown,
}
use mtnet.TcpConnection.Stream.{is_nil, IsValid, is_writing-waiting}

-- `shutdown` of a valid connected connection makes it `kDisconnecting` and touches no byte; it half-closes
-- the socket at once if no byte waits, and otherwise leaves that to `handleWrite`.
pub shutdown_lem :
    (c : TcpConnection)
    → IsValid c
    → c.state ≡ connected
    → ((shutdown c).state ≡ disconnecting)
      × ((shutdown c).events ≡ c.events)
      × ((shutdown c).output_buffer ≡ c.output_buffer)
      × ((shutdown c).input_buffer ≡ c.input_buffer)
      × ((shutdown c).effects
          ≡ (if is_nil (contents c.output_buffer) then c.effects ++ shut_write ∷ [] else c.effects))
unfolding shutdown shutdown_in_loop
shutdown_lem c v up =
    let is_up : is_connected c.state ≡ true = ap is_connected up in
    elim (Bool-cases (is_nil (contents c.output_buffer))) [
      | inl none_wait ↦
          let idle : is_writing c ≡ false = is_writing-waiting c v ∙ ap not none_wait in
          rw (is_up, idle, none_wait) (refl, refl, refl, refl, refl)
      | inr some_wait ↦
          let busy : is_writing c ≡ true = is_writing-waiting c v ∙ ap not some_wait in
          rw (is_up, busy, some_wait) (refl, refl, refl, refl, refl)
    ]
