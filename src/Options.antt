-- ===== src/Options.antt =====
-- include/zmqmessage/OutOptions.hpp, and the option tests and the stream modes of Sink.hpp.
-- `unsigned` has 32 bits.
use zmqmessage.Base.{ℕ, ◌-◌, ◌^◌, Bool, ◌==◌, not, bit_and, bit_or}

abbrev pub nonblock : ℕ
nonblock = 0x1

abbrev pub cache_on_block : ℕ
cache_on_block = 0x2

abbrev pub drop_on_block : ℕ
drop_on_block = 0x4

abbrev pub copy_incoming : ℕ
copy_incoming = 0x8

abbrev pub emulate_block_sends : ℕ
emulate_block_sends = 0x10

abbrev pub binary_mode : ℕ
binary_mode = 0x20

-- `options_ & flag`, as a condition.
unfoldable pub has_option : ℕ → ℕ → Bool
has_option options flag = not (bit_and options flag == 0)

-- `options_ |= BINARY_MODE`
unfoldable pub with_binary : ℕ → ℕ
with_binary options = bit_or options binary_mode

-- `options_ &= ~BINARY_MODE`
unfoldable pub with_text : ℕ → ℕ
with_text options = bit_and options (2 ^ 32 - 1 - binary_mode)
