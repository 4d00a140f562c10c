-- ===== src/Native/Messages/Parse.antt =====
-- `handle_messages` reads back the messages that a client sends.
use capture2cloud.Base.{
  ℕ, ◌+◌, ◌-◌, ◌%◌, ◌^◌, ◌≤◌, ◌<◌, List, [], ◌++◌, true, false, ◌≡◌, refl, sym, ap, ◌∙◌, ltb,
  lt→ltb, if_cases, if_holds, get_or-take, take, drop, length, length-append, length-take,
  length-drop, take-append, arith,
}
use mathlib.Core.List.{append-nil}
use capture2cloud.Native.{frame_header}
use capture2cloud.Wire.{load32}
use capture2cloud.Native.Messages.{
  Parsed, waiting, oversized, message, next_message, size_field, byte_at,
}

-- A message as a native client sends it.
abbrev pub framed : ℕ → ℕ → List ℕ → List ℕ
framed type flags payload = frame_header type flags (length payload) ++ payload

size_field-frame_header :
    (type flags size : ℕ) (rest : List ℕ)
    → size < 2 ^ 32
    → size_field (frame_header type flags size ++ rest) ≡ size
unfolding load32
size_field-frame_header type flags size rest lt = omega arith

size_field-take : (n : ℕ) (buf : List ℕ) → 8 ≤ n → size_field (take n buf) ≡ size_field buf
size_field-take n buf h =
    rw
      (
        get_or-take n buf 4 0 (omega arith),
        get_or-take n buf 5 0 (omega arith),
        get_or-take n buf 6 0 (omega arith),
        get_or-take n buf 7 0 (omega arith),
      )
      refl

not_less : (a b : ℕ) → b ≤ a → ltb a b ≡ false
not_less a b h = ground arith

room_for : (cap : ℕ) → 8 ≤ cap → cap < 2 ^ 32 → (cap + 2 ^ 64 - 8) % 2 ^ 64 ≡ cap - 8
room_for cap h lt = omega arith

next_message_whole :
    (cap : ℕ) (buf : List ℕ)
    → cap < 2 ^ 32
    → size_field buf + 8 ≤ cap
    → 8 + size_field buf ≤ length buf
    → next_message cap buf ≡ message (byte_at buf 0) (take (size_field buf) (drop 8 buf))
unfolding next_message
next_message_whole cap buf small fits there =
    rw
      (
        not_less (length buf) 8 (omega arith),
        room_for cap (omega arith) small,
        not_less (cap - 8) (size_field buf) (omega arith),
        not_less (length buf) (8 + size_field buf) there,
      )
      refl

next_message_part :
    (cap : ℕ) (buf : List ℕ)
    → cap < 2 ^ 32
    → (8 ≤ length buf → (size_field buf + 8 ≤ cap) × (length buf < 8 + size_field buf))
    → next_message cap buf ≡ waiting
unfolding next_message
next_message_part cap buf small h =
    if_cases (λ (p : Parsed). p ≡ waiting) (ltb (length buf) 8) (λ _. refl)
      (λ e.
        let k = h (ground arith) in
        rw
          (
            room_for cap (omega (arith, k.0)) small,
            not_less (cap - 8) (size_field buf) (omega (arith, k.0)),
            lt→ltb (length buf) (8 + size_field buf) k.1,
          )
          refl)

-- A message that fits is taken with its type and its payload, whatever follows.
pub next_message-framed :
    (cap type flags : ℕ) (payload rest : List ℕ)
    → length payload + 8 ≤ cap
    → cap < 2 ^ 32
    → next_message cap (framed type flags payload ++ rest) ≡ message type payload
next_message-framed cap type flags payload rest fits small =
    let buf = framed type flags payload ++ rest in
    let size : size_field buf ≡ length payload =
      size_field-frame_header type flags (length payload) (payload ++ rest) (omega arith) in
    next_message_whole cap buf small (omega (arith, size))
      (omega (arith, size, length-append payload rest))
    ∙ ap (λ n. message type (take n (payload ++ rest))) size
    ∙ ap (message type) (take-append payload rest)

-- Before its last byte has come, it is waited for.
pub next_message-take-framed :
    (cap type flags n : ℕ) (payload : List ℕ)
    → length payload + 8 ≤ cap
    → cap < 2 ^ 32
    → n < 8 + length payload
    → next_message cap (take n (framed type flags payload)) ≡ waiting
next_message-take-framed cap type flags n payload fits small lt =
    let buf = take n (framed type flags payload) in
    let len : length buf ≡ n = omega (arith, length-take n (framed type flags payload)) in
    next_message_part cap buf small λ eight.
      let size : size_field buf ≡ length payload =
        size_field-take n (framed type flags payload) (omega (arith, len))
        ∙ ap size_field (sym (append-nil (framed type flags payload)))
        ∙ size_field-frame_header type flags (length payload) (payload ++ []) (omega arith) in
      (omega (arith, size), omega (arith, size, len))

-- In a buffer that has grown to what has arrived, a part of a message with its header is taken for
-- one that is too large.
pub next_message_outgrown :
    (type flags n : ℕ) (payload : List ℕ)
    → 8 ≤ n
    → n < 8 + length payload
    → length payload + 8 < 2 ^ 32
    → next_message n (take n (framed type flags payload)) ≡ oversized
unfolding next_message
next_message_outgrown type flags n payload long lt small =
    let buf = take n (framed type flags payload) in
    let len : length buf ≡ n = omega (arith, length-take n (framed type flags payload)) in
    let size : size_field buf ≡ length payload =
      size_field-take n (framed type flags payload) long
      ∙ ap size_field (sym (append-nil (framed type flags payload)))
      ∙ size_field-frame_header type flags (length payload) (payload ++ []) (omega arith) in
    rw
      (
        not_less (length buf) 8 (omega (arith, len)),
        room_for n long (omega arith),
        lt→ltb (n - 8) (size_field buf) (omega (arith, size)),
      )
      refl

carried : Parsed → List ℕ
carried waiting = []
carried oversized = []
carried (message type payload) = payload

-- What is taken lies in the buffer.
pub next_message_within :
    (cap type : ℕ) (buf payload : List ℕ)
    → next_message cap buf ≡ message type payload
    → 8 + length payload ≤ length buf
unfolding next_message carried
next_message_within cap type buf payload =
    let P : Parsed → Type 0 = λ p. p ≡ message type payload → 8 + length payload ≤ length buf in
    let size = size_field buf in
    if_cases P (ltb (length buf) 8)
      (λ (_ : ltb (length buf) 8 ≡ true) (e : waiting ≡ message type payload). ground arith)
      (λ long.
        if_holds P (ltb ((cap + 2 ^ 64 - 8) % 2 ^ 64) size)
          (λ (e : oversized ≡ message type payload). ground arith)
          (if_holds P (ltb (length buf) (8 + size))
            (λ (e : waiting ≡ message type payload). ground arith)
            (λ e.
              let n : length (take size (drop 8 buf)) ≡ length payload =
                ap (λ p. length (carried p)) e in
              let eight : 8 ≤ length buf = ground arith in
              omega (arith, eight, n, length-take size (drop 8 buf), length-drop 8 buf))))
