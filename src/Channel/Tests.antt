-- ===== src/Channel/Tests.antt =====
-- Channels at concrete event bits.
use mtnet.Prelude.{◌≡◌, refl, [], ◌∷◌, some}
use mtnet.Prelude.Int.{pos}
use mtnet.Channel.{Channel, init, change, enable_reading, enable_writing, disable_writing}
use mtnet.Channel.Events.{change_all}
use mtnet.Channel.Dispatch.{calls_for, called}

abbrev writable : Channel
writable = record (init 0 (pos 5)) {
  revents = 0x14;
  write_callback = some 1;
  close_callback = some 2;
  error_callback = some 3;
}

after_disable : change_all (enable_reading ∷ enable_writing ∷ disable_writing ∷ []) 0 ≡ 3
unfolding change
after_disable = refl

hung_up : calls_for writable (pos 9) ≡ called 2 ∷ called 1 ∷ []
unfolding init
hung_up = refl
