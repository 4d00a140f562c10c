-- ===== src/HostLink.antt =====
-- wiiu_console/src/net.c: the console's end of the native protocol. This file has its constants,
-- the reassembly buffer and the state of the link.
pub mod Buffer
pub mod Frames
pub mod Events
pub mod Video
pub mod Sound
pub mod Link
mod Tests
use capture2cloud.Base.{
  ℕ, ◌+◌, ◌-◌, List, [], ◌++◌, Bool, true, false, if◌then◌else◌, length, take, drop,
}
use capture2cloud.Wire.{c2s_max_payload}

abbrev pub rx_initial : ℕ
rx_initial = 262144

abbrev pub ping_interval_ms : ℕ
ping_interval_ms = 2000

abbrev pub retry_interval_ms : ℕ
retry_interval_ms = 3000

abbrev pub connect_timeout_ms : ℕ
connect_timeout_ms = 4000

-- `C2S_MAX_PAYLOAD + sizeof(C2sFrameHeader)`: the most that the buffer grows to.
abbrev pub rx_limit : ℕ
rx_limit = 4194312

-- `g_rx` with all its bytes, of which there are `g_rx_cap`, and the part in use.
pub record Rx : Type 0 where
  pub buf : List ℕ
  pub off : ℕ
  pub len : ℕ

-- The bytes in use.
abbrev pub contents : Rx → List ℕ
contents rx = take rx.len (drop rx.off rx.buf)

-- `memcpy(buf + at, bytes, length bytes)` within the buffer.
abbrev pub write_at : List ℕ → ℕ → List ℕ → List ℕ
write_at buf at bytes = take at buf ++ (bytes ++ drop (at + length bytes) buf)
