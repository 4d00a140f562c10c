-- ===== src/HostLink/Video/Drain/Shape.antt =====
-- `async_drain_rx` in wiiu_console/src/net.c at the message that changes the picture's shape.
use capture2cloud.Base.{◌<◌, List, ◌≡◌}
use capture2cloud.HostLink.Events.{AsyncEvent, AsyncState}

-- What handling a frame leaves of the ring.
record SameRing (s t : AsyncState) : Type 0 where
  events : t.events ≡ s.events
  read : t.read ≡ s.read
  write : t.write ≡ s.write
  count : t.count ≡ s.count

-- A message's type is a byte on the wire.
abbrev pub IsByteType : AsyncEvent → Type 0
IsByteType m = m.type < 256
