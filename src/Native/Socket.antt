-- ===== src/Native/Socket.antt =====
-- Sending in server/switch_stream.c: what cannot be sent at once stays in `pending`.
pub mod Stream
use capture2cloud.Base.{
  ℕ, zero, suc, ◌+◌, ◌-◌, min, List, [], ◌∷◌, ◌++◌, Bool, true, false, ltb, ◌==◌, if◌then◌else◌,
  length, take, drop,
}
use capture2cloud.WsFrame.{ws_binary_header}
use capture2cloud.Native.{SendResult, takes, gone, Descriptor, SsClient, frame_header}

pub data Outcome : Type 0 where
  finished blocked lost : Outcome

-- The loop around `send_some`, with so many bytes to go: how it ends, how many bytes the kernel
-- has taken, and its later answers.
unfoldable pub push : List SendResult → ℕ → Outcome × ℕ × List SendResult
push answers zero = (finished, 0, answers)
push [] (suc left) = (blocked, 0, [])
push (gone ∷ answers) (suc left) = (lost, 0, answers)
push (takes k ∷ answers) (suc left) =
    let n = min k (suc left) in
    let rest = push answers (suc left - n) in
    if n == 0 then (blocked, 0, answers) else (rest.0, n + rest.1, rest.2)

unfoldable pub is_finished : Outcome → Bool
is_finished finished = true
is_finished blocked = false
is_finished lost = false

-- The descriptor after `n` of the bytes are sent.
abbrev pub sent_to : Descriptor → List ℕ → ℕ → List SendResult → Descriptor
sent_to fd bytes n answers = record { wire = fd.wire ++ take n bytes; answers = answers }

-- Whether all was sent; where it was not, a part may have been.
unfoldable pub send_all_now : List ℕ → Descriptor → Bool × Descriptor
send_all_now bytes fd =
    let p = push fd.answers (length bytes) in (is_finished p.0, sent_to fd bytes p.1 p.2)

-- The bytes still to be sent.
abbrev pub unsent : SsClient → List ℕ
unsent c = drop c.pending_sent c.pending

-- How `flush_pending` ends: `false` is -1.
unfoldable pub flushed : SsClient → Outcome × ℕ × List SendResult → Bool × SsClient
flushed c (finished, n, answers) =
    (true, record c { fd = sent_to c.fd (unsent c) n answers; pending = []; pending_sent = 0 })
flushed c (blocked, n, answers) =
    (true, record c { fd = sent_to c.fd (unsent c) n answers; pending_sent = c.pending_sent + n })
flushed c (lost, n, answers) =
    (false, record c { fd = sent_to c.fd (unsent c) n answers; pending_sent = c.pending_sent + n })

unfoldable pub flush_pending : SsClient → Bool × SsClient
flush_pending c = flushed c (push c.fd.answers (length (unsent c)))

-- A message with its header, in a WebSocket frame where the client is a browser.
abbrev pub on_wire : Bool → ℕ → ℕ → List ℕ → List ℕ
on_wire is_ws type flags bytes =
    let message = frame_header type flags (length bytes) ++ bytes in
    (if is_ws then ws_binary_header (length message) else []) ++ message

-- `buf` has room for 256 bytes of payload.
unfoldable pub send_msg_now : SsClient → ℕ → List ℕ → Bool × SsClient
send_msg_now c type bytes =
    let s = send_all_now (on_wire c.is_ws type 0 bytes) c.fd in
    if ltb 256 (length bytes) then (false, c) else (s.0, record c { fd = s.1 })
