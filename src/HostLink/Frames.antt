-- ===== src/HostLink/Frames.antt =====
-- `take_frame_direct` in wiiu_console/src/net.c: the next message in the reassembly buffer.
pub mod Whole
use capture2cloud.Base.{
  ℕ, ◌+◌, List, Bool, true, false, not, ◌||◌, ltb, if◌then◌else◌, length, take, drop,
}
use capture2cloud.Wire.{c2s_le32, load32, c2s_max_payload}
use capture2cloud.Native.Messages.{byte_at}
use capture2cloud.HostLink.{Rx, contents}
use capture2cloud.HostLink.Buffer.{consume}

-- Nothing is ready, the stream is out of step, or a type, flags and a payload.
pub data Taken : Type 0 where
  nothing broken : Taken
  frame : ℕ → ℕ → List ℕ → Taken

-- `h.size` of the header in front, on a machine that is big-endian.
abbrev pub header_size : List ℕ → ℕ
header_size bytes =
    c2s_le32 true
      (load32 true (byte_at bytes 4) (byte_at bytes 5) (byte_at bytes 6) (byte_at bytes 7))

-- `up` says whether the stage is LINK_UP. The call of `fail` is left to `broken`.
unfoldable pub take_frame_direct : Bool → Rx → Taken × Rx
take_frame_direct up rx =
    let bytes = contents rx in
    let size = header_size bytes in
    if not up || ltb rx.len 8
    then (nothing, rx)
    else if ltb c2s_max_payload size
    then (broken, rx)
    else if ltb rx.len (8 + size)
    then (nothing, rx)
    else (
      frame (byte_at bytes 0) (byte_at bytes 1) (take size (drop 8 bytes)),
      consume (8 + size) rx,
    )
