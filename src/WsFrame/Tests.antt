-- ===== src/WsFrame/Tests.antt =====
-- Frames and handshakes at concrete bytes.
use capture2cloud.Base.{
  ℕ, ◌+◌, List, [], ◌∷◌, ◌++◌, ◌≡◌, refl, Option, some, true, not, arith, ltb, if◌then◌else◌, ◌==◌,
  bit_and, codes,
}
use capture2cloud.WsFrame.{byte, Frame, incomplete, taken, ws_take_frame, unmask}
use capture2cloud.WsFrame.Length.{header_size, length_code, length_bytes}
use capture2cloud.WsFrame.RoundTrip.{client_frame, frame_head, ws_take_frame-client_frame}
use capture2cloud.WsFrame.Bounds.{IsWithin, ws_take_frame-IsWithin}

abbrev key : List ℕ
key = 0x37 ∷ 0xfa ∷ 0x21 ∷ 0x3d ∷ []

-- The masked text frame of the protocol's own examples.
abbrev hello : List ℕ
hello = 0x81 ∷ 0x85 ∷ 0x37 ∷ 0xfa ∷ 0x21 ∷ 0x3d ∷ 0x7f ∷ 0x9f ∷ 0x4d ∷ 0x51 ∷ 0x58 ∷ []

hello_frame : client_frame 1 key (codes "Hello") ≡ hello
unfolding client_frame length_code length_bytes
hello_frame = refl

abbrev taken_hello : Frame
taken_hello = record {
  opcode = 1;
  payload = 6;
  payload_len = 5;
  consumed = 11;
  buf = 0x81 ∷ 0x85 ∷ 0x37 ∷ 0xfa ∷ 0x21 ∷ 0x3d ∷ codes "Hello";
}

hello_taken : ws_take_frame hello 11 ≡ taken taken_hello
unfolding ws_take_frame unmask
hello_taken = refl

hello_early : ws_take_frame hello 10 ≡ incomplete
unfolding ws_take_frame
hello_early = refl

ws_take_frame-client_frame_example :
    ws_take_frame (client_frame 1 key (codes "Hello") ++ (7 ∷ [])) 12 ≡ (
      if ltb 12 (header_size 5 + 4 + 5)
      then incomplete
      else taken (record {
        opcode = 1;
        payload = header_size 5 + 4;
        payload_len = 5;
        consumed = header_size 5 + 4 + 5;
        buf = frame_head 1 key 5 ++ (codes "Hello" ++ (7 ∷ []));
      }))
ws_take_frame-client_frame_example =
    ws_take_frame-client_frame 1 12 key (codes "Hello") (7 ∷ []) (omega arith) refl (omega arith)

ws_take_frame-IsWithin_example :
    (not (bit_and (byte hello 1) 0x80 == 0) ≡ true) × IsWithin hello 11 taken_hello
ws_take_frame-IsWithin_example = ws_take_frame-IsWithin hello 11 hello_taken

-- Any functions serve for the hash and the encoding: the identity and a fixed text.
abbrev same : List ℕ → Option (List ℕ)
same text = some text

abbrev fixed : List ℕ → Option (List ℕ)
fixed text = some (codes "s3pPLMBiTxaQ9kYGzzhZRbK+xOo=")
