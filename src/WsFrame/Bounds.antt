-- ===== src/WsFrame/Bounds.antt =====
-- What `ws_take_frame` may touch: bounds on every frame it takes from any bytes.
use capture2cloud.Base.{
  ℕ, ◌+◌, ◌≤◌, ◌<◌, List, ◌≡◌, refl, ◌⊎◌, arith, Bool, true, false, not, length, ◌==◌, bit_and,
  Option-cases, inl, inr,
}
use capture2cloud.WsFrame.{
  byte, max_payload, Frame, taken, take_payload, ws_take_frame, length_field,
}
use capture2cloud.WsFrame.Masking.{length-unmask, unmask_outside}

-- A frame that lies within the bytes received and changes nothing outside its payload.
pub record IsWithin (buf : List ℕ) (len : ℕ) (f : Frame) : Type 0 where
  pub ends : f.payload + f.payload_len ≡ f.consumed
  pub received : f.consumed ≤ len
  pub bounded : f.payload_len ≤ max_payload
  pub same_length : length f.buf ≡ length buf
  pub untouched : (j : ℕ) → (j < f.payload) ⊎ (f.consumed ≤ j) → byte f.buf j ≡ byte buf j

take_payload-IsWithin :
    (buf : List ℕ) (len op : ℕ) (masked : Bool) (plen at : ℕ) {f : Frame}
    → take_payload buf len op masked plen at ≡ taken f
    → (masked ≡ true) × IsWithin buf len f
unfolding take_payload
take_payload-IsWithin buf len op false plen at h = ground arith
take_payload-IsWithin buf len op true plen at {f} h = (
  refl,
  record {
    ends = ground arith;
    received = ground arith;
    bounded = ground arith;
    same_length = ground (arith, length-unmask plen 0 at (at + 4) buf);
    untouched = λ j p. ground (arith, unmask_outside plen 0 at (at + 4) j buf);
  },
)

-- Whatever the bytes: a frame is taken only if its mask bit is set; it lies within the bytes
-- received, its payload has at most 16 MiB, and no byte outside the payload is changed.
pub ws_take_frame-IsWithin :
    (buf : List ℕ) (len : ℕ) {f : Frame}
    → ws_take_frame buf len ≡ taken f
    → (not (bit_and (byte buf 1) 0x80 == 0) ≡ true) × IsWithin buf len f
unfolding ws_take_frame
ws_take_frame-IsWithin buf len {f} h = elim (Option-cases (length_field buf len)) [
  | inl e ↦ ground arith
  | inr (field, e) ↦
      take_payload-IsWithin buf len (bit_and (byte buf 0) 0x0f) _ field.0 field.1
        (ground (arith, e))
]
