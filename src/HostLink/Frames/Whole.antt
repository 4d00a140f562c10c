-- ===== src/HostLink/Frames/Whole.antt =====
-- `take_frame_direct` in wiiu_console/src/net.c takes the server's messages whole, one by one.
use capture2cloud.Base.{
  ℕ, ◌+◌, ◌/◌, ◌%◌, ◌^◌, ◌≤◌, ◌<◌, List, [], ◌++◌, Bool, true, false, ◌≡◌, ◌≢◌, ◌⊎◌, inl, inr, refl,
  sym, ap, ◌∙◌, ltb, lt→ltb, ltb→lt, if_cases, All, get_or-take, length, take, drop, length-append,
  length-take, take-append, drop-append, drop-drop, arith,
}
use mathlib.Core.List.{append-nil}
use capture2cloud.Wire.{c2s_max_payload}
use capture2cloud.Wire.Order.{c2s_le32-load32}
use capture2cloud.Native.{frame_header}
use capture2cloud.Native.Messages.{byte_at}
use capture2cloud.Native.Messages.Parse.{framed}
use capture2cloud.HostLink.{Rx, contents, rx_limit}
use capture2cloud.HostLink.Buffer.{Ending, fill_rx, consume}
use capture2cloud.HostLink.Buffer.Stream.{IsWithin, length-contents}
use capture2cloud.HostLink.Buffer.Queue.{fill_rx_progress, consume-IsWithin, contents-consume}
use capture2cloud.HostLink.Frames.{Taken, nothing, frame, header_size, take_frame_direct}

not_less : (a b : ℕ) → b ≤ a → ltb a b ≡ false
not_less a b h = ground arith

ltb-false : (a b : ℕ) → ltb a b ≡ false → b ≤ a
ltb-false a b h = ground arith

header_size-frame_header :
    (type flags size : ℕ) (rest : List ℕ)
    → size < 2 ^ 32
    → header_size (frame_header type flags size ++ rest) ≡ size
header_size-frame_header type flags size rest lt =
    c2s_le32-load32 true (size % 256) (size / 256 % 256) (size / 65536 % 256)
      (size / 16777216 % 256) (omega arith) (omega arith) (omega arith) (omega arith)
    ∙ omega arith

header_size-take : (n : ℕ) (bytes : List ℕ) → 8 ≤ n → header_size (take n bytes) ≡ header_size bytes
header_size-take n bytes h =
    rw
      (
        get_or-take n bytes 4 0 (omega arith),
        get_or-take n bytes 5 0 (omega arith),
        get_or-take n bytes 6 0 (omega arith),
        get_or-take n bytes 7 0 (omega arith),
      )
      refl

-- A whole message in front, with its size.
module _ (rx : Rx) (size : ℕ) (sized : header_size (contents rx) ≡ size) where
  take_frame_direct_whole :
      size ≤ c2s_max_payload
      → 8 + size ≤ rx.len
      → let bytes = contents rx in
        take_frame_direct true rx ≡ (
          frame (byte_at bytes 0) (byte_at bytes 1) (take size (drop 8 bytes)),
          consume (8 + size) rx,
        )
  unfolding take_frame_direct
  take_frame_direct_whole small there =
      rw
        (
          sized,
          not_less rx.len 8 (omega arith),
          not_less c2s_max_payload size small,
          not_less rx.len (8 + size) there,
        )
        refl

  take_frame_direct_part :
      size ≤ c2s_max_payload → rx.len < 8 + size → take_frame_direct true rx ≡ (nothing, rx)
  unfolding take_frame_direct
  take_frame_direct_part small short =
      if_cases (λ (r : Taken × Rx). r ≡ (nothing, rx)) (ltb rx.len 8) (λ _. refl)
        (λ _. rw (sized, not_less c2s_max_payload size small, lt→ltb rx.len (8 + size) short) refl)

take_frame_direct_short : (rx : Rx) → rx.len < 8 → take_frame_direct true rx ≡ (nothing, rx)
unfolding take_frame_direct
take_frame_direct_short rx h = rw (lt→ltb rx.len 8 h) refl

-- A message that the server frames is taken with its type, its flags and its payload, and what
-- follows it is in front next.
pub take_frame_direct-framed :
    (rx : Rx) (type flags : ℕ) (payload rest : List ℕ)
    → IsWithin rx
    → contents rx ≡ framed type flags payload ++ rest
    → length payload ≤ c2s_max_payload
    → let r = take_frame_direct true rx in
      (r.0 ≡ frame type flags payload) × (contents r.1 ≡ rest) × IsWithin r.1
take_frame_direct-framed rx type flags payload rest w e small =
    let n = length payload in
    let all : rx.len ≡ 8 + n + length rest =
      sym (length-contents rx w) ∙ ap length e ∙ omega (arith, length-append payload rest) in
    let sized : header_size (contents rx) ≡ n =
      ap header_size e ∙ header_size-frame_header type flags n (payload ++ rest) (omega arith) in
    let whole = take_frame_direct_whole rx n sized small (omega (arith, all)) in
    (
      ap (λ r. r.0) whole
          ∙ ap (λ b. frame (byte_at b 0) (byte_at b 1) (take n (drop 8 b))) e
          ∙ ap (frame type flags) (take-append payload rest),
      ap (λ r. contents r.1) whole
          ∙ contents-consume (8 + n) rx (omega (arith, all))
          ∙ ap (drop (8 + n)) e
          ∙ drop-drop 8 n (framed type flags payload ++ rest)
          ∙ drop-append payload rest,
      rw whole (consume-IsWithin (8 + n) rx w),
    )

-- A part of it is waited for.
pub take_frame_direct-take-framed :
    (rx : Rx) (type flags n : ℕ) (payload : List ℕ)
    → IsWithin rx
    → contents rx ≡ take n (framed type flags payload)
    → length payload ≤ c2s_max_payload
    → n < 8 + length payload
    → take_frame_direct true rx ≡ (nothing, rx)
take_frame_direct-take-framed rx type flags n payload w e small lt =
    let all : rx.len ≡ n =
      sym (length-contents rx w)
      ∙ ap length e
      ∙ omega (arith, length-take n (framed type flags payload)) in
    if_cases {A = Bool} (λ _. take_frame_direct true rx ≡ (nothing, rx)) {a = true} {b = true}
      (ltb n 8) (λ s. take_frame_direct_short rx (omega (arith, all, ltb→lt n 8 s)))
      (λ l.
        take_frame_direct_part rx (length payload)
          (ap header_size e
            ∙ header_size-take n (framed type flags payload) (ltb-false n 8 l)
            ∙ ap header_size (sym (append-nil (framed type flags payload)))
            ∙ header_size-frame_header type flags (length payload) (payload ++ []) (omega arith))
          small (omega (arith, all)))

-- Of a buffer that is as large as it may be and full, something is made: a message or an error.
take_frame_direct_full : (rx : Rx) → rx.len ≡ rx_limit → (take_frame_direct true rx).0 ≢ nothing
unfolding take_frame_direct
take_frame_direct_full rx full e = ground arith

-- The receiver is never stuck: where there is memory, and as many answers of the kernel as there
-- are bytes, none of them empty, `fill_rx` reads all and reports how the stream ends, or
-- `take_frame_direct` has a message or an error to report.
pub fill_rx-take_frame_direct :
    (memory : ℕ → Bool) (ending : Ending) (limits queued : List ℕ) (rx : Rx)
    → IsWithin rx
    → ((n : ℕ) → memory n ≡ true)
    → All (λ n. 0 < n) limits
    → length queued ≤ length limits
    → let r = fill_rx memory ending limits queued rx in
      ((r.2 ≡ []) × (r.0 ≡ ending)) ⊎ ((take_frame_direct true r.1).0 ≢ nothing)
fill_rx-take_frame_direct memory ending limits queued rx w plenty pos long =
    let r = fill_rx memory ending limits queued rx in
    elim (fill_rx_progress memory ending limits queued rx w plenty pos long) [
      | inl done ↦ inl done
      | inr full ↦ inr (take_frame_direct_full r.1 full)
    ]
