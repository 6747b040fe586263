-- ===== src/Constants.antt =====
-- The constants of src/constants.rs that the code uses, and those of src/stream.rs and src/socket.rs.
use async_udx.Prelude.{ℕ}

-- Header types, as bit flags.
abbrev pub udx_header_data : ℕ
udx_header_data = 1

abbrev pub udx_header_end : ℕ
udx_header_end = 2

abbrev pub udx_header_sack : ℕ
udx_header_sack = 4

abbrev pub udx_max_transmits : ℕ
udx_max_transmits = 5

-- Durations are counted in nanoseconds.
abbrev pub millisecond : ℕ
millisecond = 1000000

abbrev pub udx_clock_granularity_ms : ℕ
udx_clock_granularity_ms = 20000000

abbrev pub udx_header_size : ℕ
udx_header_size = 20

abbrev pub udx_max_data_size : ℕ
udx_max_data_size = 1380

abbrev pub udx_magic_byte : ℕ
udx_magic_byte = 255

abbrev pub udx_version : ℕ
udx_version = 1

abbrev pub udx_mtu : ℕ
udx_mtu = 1400

abbrev pub ssthresh : ℕ
ssthresh = 65535

abbrev pub max_segments : ℕ
max_segments = 10

abbrev pub max_loop : ℕ
max_loop = 60

abbrev pub recv_queue_max_len : ℕ
recv_queue_max_len = 1024

-- Times are nanoseconds, and an `Instant` of the standard library holds 64-bit signed seconds on Unix:
-- `checked_add` answers `None` from this limit on.
abbrev pub instant_limit : ℕ
instant_limit = 9223372036854775808000000000
