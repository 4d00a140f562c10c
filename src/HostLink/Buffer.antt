-- ===== src/HostLink/Buffer.antt =====
-- `fill_rx` and `consume` in wiiu_console/src/net.c: the reassembly buffer. Its numbers are below
-- 2 ^ 32 without a cast, since no capacity is above `rx_limit`.
pub mod Stream
pub mod Queue
use capture2cloud.Base.{
  ℕ, ◌+◌, ◌-◌, ◌*◌, min, List, [], ◌∷◌, ◌++◌, Bool, true, false, ltb, leb, ◌==◌, if◌then◌else◌,
  length, take, drop, replicate,
}
use capture2cloud.HostLink.{Rx, contents, write_at, rx_initial, rx_limit}

-- What `recv` answers when it has no more bytes: EAGAIN, the end of the connection or an errno.
pub data Ending : Type 0 where
  would_block closed : Ending
  failed : ℕ → Ending

-- `memmove` of the bytes in use to the front.
unfoldable pub compact : Rx → Rx
compact rx =
    if ltb 0 rx.off
    then record { buf = write_at rx.buf 0 (contents rx); off = 0; len = rx.len }
    else rx

abbrev pub next_capacity : ℕ → ℕ
next_capacity cap = min (if cap == 0 then rx_initial else cap * 2) rx_limit

-- Whether there is room behind the bytes in use. `memory` says for which sizes `realloc` finds
-- memory; what it does not copy is written as 0.
unfoldable pub make_room : (ℕ → Bool) → Rx → Bool × Rx
make_room memory rx =
    let cap = length rx.buf in
    let moved = compact rx in
    let wider = next_capacity cap in
    if ltb (rx.off + rx.len) cap
    then (true, rx)
    else if ltb moved.len cap
    then (true, moved)
    else if leb wider cap
    then (false, moved)
    else if memory wider
    then (true, record moved { buf = moved.buf ++ replicate (wider - cap) 0 })
    else (false, moved)

-- What `recv` writes behind the bytes in use.
abbrev pub received : Rx → List ℕ → Rx
received rx bytes = record {
  buf = write_at rx.buf (rx.off + rx.len) bytes;
  off = rx.off;
  len = rx.len + length bytes;
}

-- `queued` is what the kernel holds for the socket; each `recv` hands over at most as many of its
-- bytes as the next of `limits` says, and none after the last of them.
abbrev pub answer : Ending → List ℕ → Ending
answer ending queued = if length queued == 0 then ending else would_block

-- How it ends (`would_block` is 0, the others are -1), the buffer, and what the kernel still holds.
unfoldable pub fill_rx : (ℕ → Bool) → Ending → List ℕ → List ℕ → Rx → Ending × Rx × List ℕ
fill_rx memory ending [] queued rx =
    let r = make_room memory rx in
    if r.0 then (answer ending queued, r.1, queued) else (would_block, r.1, queued)
fill_rx memory ending (limit ∷ limits) queued rx =
    let r = make_room memory rx in
    let room = length r.1.buf - (r.1.off + r.1.len) in
    let n = min (min limit (length queued)) room in
    let rest = fill_rx memory ending limits (drop n queued) (received r.1 (take n queued)) in
    if r.0
    then if n == 0 then (answer ending queued, r.1, queued) else rest
    else (would_block, r.1, queued)

unfoldable pub consume : ℕ → Rx → Rx
consume bytes rx =
    let n = min bytes rx.len in
    record rx { off = if rx.len - n == 0 then 0 else rx.off + n; len = rx.len - n }
