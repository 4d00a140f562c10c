-- ===== src/Native/Websocket/Unwrap.antt =====
-- `unwrap_ws` puts a browser's messages together out of the frames that it sent them in.
use capture2cloud.Base.{
  ℕ, zero, suc, ◌+◌, ◌≤◌, List, [], ◌∷◌, ◌++◌, Bool, true, false, ◌==◌, ◌≡◌, refl, sym, ap, ap₂,
  ◌∙◌, if_cases, if_holds, All, length, length-append, take, drop, take-append, drop-append, ltb,
  arith,
}
use mathlib.Core.Path.{subst}
use mathlib.Core.List.{append_assoc, append-nil}
use capture2cloud.WsFrame.{max_payload, ws_take_frame, Frame, Taken, incomplete, taken, op_binary}
use capture2cloud.WsFrame.Length.{header_size}
use capture2cloud.WsFrame.Masking.{masked_from, length-masked_from}
use capture2cloud.WsFrame.RoundTrip.{
  client_frame-append, frame_head, client_frame, length-frame_head, ws_take_frame-client_frame,
}
use capture2cloud.Native.{SsClient}
use capture2cloud.Native.Socket.Stream.{drop-drop}
use capture2cloud.Native.Websocket.{
  collect, on_frame, went_on, take_one, unwrap_from, unwrap_ws, payload_of, after_frame,
}

-- The bytes of messages sent as binary frames, each with its key, and their payloads.
unfoldable pub frames : List (List ℕ × List ℕ) → List ℕ
frames [] = []
frames ((key, p) ∷ fs) = client_frame op_binary key p ++ frames fs

unfoldable pub payloads : List (List ℕ × List ℕ) → List ℕ
payloads [] = []
payloads ((key, p) ∷ fs) = p ++ payloads fs

abbrev pub IsSendable : List ℕ × List ℕ → Type 0
IsSendable f = (length f.0 ≡ 4) × (length f.1 ≤ max_payload)

abbrev in_clear : List ℕ → List ℕ → List ℕ → Frame
in_clear key p rest = record {
  opcode = op_binary;
  payload = header_size (length p) + 4;
  payload_len = length p;
  consumed = header_size (length p) + 4 + length p;
  buf = frame_head op_binary key (length p) ++ (p ++ rest);
}

behind_head :
    (key p rest : List ℕ)
    → length key ≡ 4
    → drop (header_size (length p) + 4) (frame_head op_binary key (length p) ++ (p ++ rest))
      ≡ p ++ rest
behind_head key p rest four =
    let head = frame_head op_binary key (length p) in
    let n : header_size (length p) + 4 ≡ length head =
      omega (arith, length-frame_head op_binary key (length p)) in
    ap (λ k. drop k (head ++ (p ++ rest))) n ∙ drop-append head (p ++ rest)

payload_of-in_clear : (key p rest : List ℕ) → length key ≡ 4 → payload_of (in_clear key p rest) ≡ p
payload_of-in_clear key p rest four =
    ap (take (length p)) (behind_head key p rest four) ∙ take-append p rest

after_frame-in_clear :
    (key p rest : List ℕ) → length key ≡ 4 → after_frame (in_clear key p rest) ≡ rest
after_frame-in_clear key p rest four =
    drop-drop (header_size (length p) + 4) (length p)
      (frame_head op_binary key (length p) ++ (p ++ rest))
    ∙ ap (drop (length p)) (behind_head key p rest four)
    ∙ drop-append p rest

pub length-client_frame :
    (key p rest : List ℕ)
    → length key ≡ 4
    → length (client_frame op_binary key p ++ rest)
      ≡ header_size (length p) + 4 + length p + length rest
length-client_frame key p rest four =
    let head = frame_head op_binary key (length p) in
    let body = masked_from 0 key p in
    ap length (client_frame-append op_binary key p rest)
    ∙ omega (
      arith,
      length-append head (body ++ rest),
      length-append body rest,
      length-masked_from 0 key p,
      length-frame_head op_binary key (length p),
    )

take_whole :
    (key p rest : List ℕ)
    → IsSendable (key, p)
    → ws_take_frame
        (client_frame op_binary key p ++ rest)
        (length (client_frame op_binary key p ++ rest))
      ≡ taken (in_clear key p rest)
take_whole key p rest (four, fits) =
    let n = length (client_frame op_binary key p ++ rest) in
    ws_take_frame-client_frame op_binary n key p rest (omega arith) four fits
    ∙ if_cases (λ (t : Taken). t ≡ taken (in_clear key p rest))
        (ltb n (header_size (length p) + 4 + length p))
        (λ e. absurd (ground (arith, length-client_frame key p rest four))) (λ _. refl)

-- One whole frame in front: its payload goes behind what was collected.
pub unwrap_from_step :
    (fuel : ℕ) (c : SsClient) (key p rest : List ℕ)
    → IsSendable (key, p)
    → unwrap_from (suc fuel) true c (client_frame op_binary key p ++ rest)
      ≡ went_on (unwrap_from fuel true) rest (collect true c p)
unfolding unwrap_from take_one on_frame
unwrap_from_step fuel c key p rest (four, fits) =
    let loop = unwrap_from fuel true in
    if_cases (λ (r : Bool × SsClient). r ≡ went_on loop rest (collect true c p))
      (length (client_frame op_binary key p ++ rest) == 0)
      (λ e. absurd (ground (arith, length-client_frame key p rest four)))
      (λ _.
        ap (take_one loop true c (client_frame op_binary key p ++ rest))
          (take_whole key p rest (four, fits))
        ∙ ap₂ (λ more body. went_on loop more (collect true c body))
            (after_frame-in_clear key p rest four) (payload_of-in_clear key p rest four))

collected :
    (c : SsClient) (p : List ℕ)
    → ((collect true c p).0 ≡ true) × ((collect true c p).1.ws_rx ≡ c.ws_rx ++ p)
unfolding collect
collected c p =
    if_holds (λ (r : Bool × SsClient). (r.0 ≡ true) × (r.1.ws_rx ≡ c.ws_rx ++ p))
      (ltb c.ws_rx_cap (length c.ws_rx + length p)) (refl, refl) (refl, refl)

-- What is to hold when the loop ends.
abbrev IsUnwrapped : List ℕ → List ℕ → Bool × SsClient → Type 0
IsUnwrapped got tail r = (r.0 ≡ true) × ((r.1.ws_rx ≡ got) × (r.1.rx ≡ tail))

went_on_holds :
    (got rest tail : List ℕ) (loop : SsClient → List ℕ → Bool × SsClient) (r : Bool × SsClient)
    → r.0 ≡ true
    → IsUnwrapped got tail (loop r.1 rest)
    → IsUnwrapped got tail (went_on loop rest r)
unfolding went_on
went_on_holds got rest tail loop (true, c) e h = h
went_on_holds got rest tail loop (false, c) e h = ground arith

unwrap_from-tail :
    (fuel : ℕ) (c : SsClient) (tail : List ℕ)
    → ws_take_frame tail (length tail) ≡ incomplete
    → IsUnwrapped c.ws_rx tail (unwrap_from (suc fuel) true c tail)
unfolding unwrap_from take_one
unwrap_from-tail fuel c tail e =
    if_holds (IsUnwrapped c.ws_rx tail) (length tail == 0) (refl, (refl, refl))
      (rw e (refl, (refl, refl)))

unwrap_from-frames :
    (fs : List (List ℕ × List ℕ)) (fuel : ℕ) (c : SsClient) (tail : List ℕ)
    → All IsSendable fs
    → ws_take_frame tail (length tail) ≡ incomplete
    → length fs ≤ fuel
    → IsUnwrapped (c.ws_rx ++ payloads fs) tail (unwrap_from (suc fuel) true c (frames fs ++ tail))
unfolding frames payloads
unwrap_from-frames [] fuel c tail ok e le = rw (append-nil c.ws_rx) (unwrap_from-tail fuel c tail e)
unwrap_from-frames ((key, p) ∷ fs) zero c tail ok e le = absurd (omega arith)
unwrap_from-frames ((key, p) ∷ fs) (suc fuel) c tail ok e le =
    let got = collected c p in
    let next = unwrap_from-frames fs fuel (collect true c p).1 tail ok.1 e (omega arith) in
    rw
      (
        append_assoc (client_frame op_binary key p) (frames fs) tail,
        unwrap_from_step (suc fuel) c key p (frames fs ++ tail) ok.0,
      )
      (went_on_holds (c.ws_rx ++ (p ++ payloads fs)) (frames fs ++ tail) tail
        (unwrap_from (suc fuel) true) (collect true c p) got.0
        (rw (← append_assoc c.ws_rx p (payloads fs), ← got.1) next))

length-frames :
    (fs : List (List ℕ × List ℕ)) (tail : List ℕ)
    → All IsSendable fs
    → length fs ≤ length (frames fs ++ tail)
unfolding frames
length-frames [] tail ok = omega arith
length-frames ((key, p) ∷ fs) tail ok =
    rw (append_assoc (client_frame op_binary key p) (frames fs) tail) (
      omega
        (arith, length-frames fs tail ok.1, length-client_frame key p (frames fs ++ tail) ok.0.0))

-- Where memory does not run out, `unwrap_ws` goes on after any number of binary frames: it has
-- their payloads in order behind what it had, and leaves in `rx` what is not yet a whole frame.
pub unwrap_ws-frames :
    (c : SsClient) (fs : List (List ℕ × List ℕ)) (tail : List ℕ)
    → c.rx ≡ frames fs ++ tail
    → All IsSendable fs
    → ws_take_frame tail (length tail) ≡ incomplete
    → let r = unwrap_ws true c in
      (r.0 ≡ true) × ((r.1.ws_rx ≡ c.ws_rx ++ payloads fs) × (r.1.rx ≡ tail))
unfolding unwrap_ws
unwrap_ws-frames c fs tail e ok part =
    subst
      (λ rx. IsUnwrapped (c.ws_rx ++ payloads fs) tail (unwrap_from (suc (length rx)) true c rx))
      (sym e)
      (unwrap_from-frames fs (length (frames fs ++ tail)) c tail ok part (length-frames fs tail ok))
