-- ===== src/Native/Broadcast.antt =====
-- `broadcast_filtered` in server/switch_stream.c: one message for every client on a stream.
pub mod Announce
pub mod Effect
pub mod Rounds
pub mod Sound
use capture2cloud.Base.{
  ℕ, zero, suc, ◌+◌, ◌-◌, ◌*◌, ◌/◌, ◌^◌, min, max, List, [], ◌∷◌, ◌++◌, Bool, true, false, not,
  ◌&&◌, ◌||◌, ◌==◌, ltb, leb, if◌then◌else◌, Option, none, some, get_or, set, length, drop, bit_and,
  bit_or, u32,
}
use capture2cloud.Wire.{
  msg_video, msg_audio, msg_stream_info, msg_shared, flag_keyframe, flag_mpeg4, flag_mpeg1,
  flag_mpeg2, codec_mpeg1, codec_mpeg2, codec_mpeg4, c2s_old3ds_predictive_codec, c2s_max_payload,
}
use capture2cloud.Native.{
  SsClient, Shared, SwitchStream, client, Event, request_keyframe, client_slot, slot_codec,
  stream_old3ds, stream_count, max_clients, audio_pending_max_bytes, keyframe_min_interval_ms,
}
use capture2cloud.Native.Socket.{flush_pending, on_wire, unsent}
use capture2cloud.Native.Table.{put, drop_client, stream_info, shared_bytes}

-- `pcm_filter`: -1, 0, 1 and 2.
pub data AudioFilter : Type 0 where
  any_audio opus_only pcm_all pcm_tcp : AudioFilter

pub record Message : Type 0 where
  pub slot : Option ℕ
  pub filter : AudioFilter
  pub type : ℕ
  pub flags : ℕ
  pub data_bytes : List ℕ

-- What the host answers to each client's `ioctl(TIOCOUTQ)` (`none` where it fails), and whether
-- its `realloc` succeeds.
pub record Host : Type 0 where
  pub queued : ℕ → Option ℕ
  pub room : ℕ → Bool

-- The sizes of the largest recent frame and of the backlogs that are allowed after it.
pub record Allowance : Type 0 where
  pub largest : ℕ
  pub common : ℕ

unfoldable pub clamp : ℕ → ℕ → ℕ → ℕ
clamp low high n =
    let raised = if ltb n low then low else n in if ltb high raised then high else raised

unfoldable pub allowance : ℕ → Allowance
allowance largest = record {
  largest = largest;
  common = clamp 65536 524288 (u32 (u32 (largest * 2) + 32768));
}

unfoldable pub client_allowance : Allowance → SsClient → Bool → ℕ
client_allowance a c predictive =
    if c.on_old3ds_port
    then (if predictive
        then clamp 49152 131072 (u32 (u32 (a.largest * 2) + 8192))
        else clamp 24576 65536 (u32 (a.largest + 8192)))
    else a.common

unfoldable pub passes : AudioFilter → SsClient → Bool
passes any_audio c = true
passes opus_only c = not (c.pcm_audio || (c.opus_udp || c.adpcm_udp))
passes pcm_all c = c.pcm_audio
passes pcm_tcp c = not (not c.pcm_audio || c.pcm_udp)

unfoldable pub on_slot : Option ℕ → SsClient → Bool
on_slot none c = true
on_slot (some slot) c = client_slot c == slot

unfoldable pub addressed : Message → SsClient → Bool
addressed m c = c.in_use && c.handshake_done && on_slot m.slot c && passes m.filter c

unfoldable pub predictive_old3ds : Message → SsClient → Bool
predictive_old3ds m c =
    (m.type == msg_video) && c.on_old3ds_port && c2s_old3ds_predictive_codec c.codec

abbrev pub is_keyframe : Message → Bool
is_keyframe m = not (bit_and m.flags flag_keyframe == 0)

-- What becomes of a client: it goes on, it goes on with `skipped` set, or it is dropped.
pub data Delivery : Type 0 where
  keeps skips : SsClient → Delivery
  drops : Delivery

-- After a skipped frame a predictive stream is of no use up to the next keyframe.
unfoldable pub skipped : Message → SsClient → Delivery
skipped m c = skips (record c { waiting_keyframe = predictive_old3ds m c || c.waiting_keyframe })

unfoldable pub sent : Message → Bool × SsClient → Delivery
sent m (false, c) = drops
sent m (true, c) = keeps (record c {
  waiting_keyframe = not (predictive_old3ds m c && is_keyframe m) && c.waiting_keyframe;
})

-- The message behind what is in `pending`.
unfoldable pub enqueue : Bool → Message → SsClient → Delivery
enqueue room m c =
    let frame = on_wire c.is_ws m.type m.flags m.data_bytes in
    let needed = length c.pending + length frame in
    if (m.type == msg_audio) && ltb audio_pending_max_bytes needed
    then drops
    else if ltb c.pending_cap needed && not room
    then keeps c
    else sent m (
        flush_pending (record c {
          pending = c.pending ++ frame;
          pending_sent = 0;
          pending_cap = max c.pending_cap needed;
        }))

-- Audio goes behind a message that is partly sent; everything else gives way to it.
unfoldable pub behind_pending : Bool → Message → SsClient → Delivery
behind_pending room m c =
    if length c.pending == 0
    then enqueue room m c
    else if not (m.type == msg_audio)
    then skipped m c
    else enqueue room m (record c { pending = unsent c; pending_sent = 0 })

unfoldable pub is_behind : Option ℕ → ℕ → Bool
is_behind none limit = false
is_behind (some n) limit = ltb limit n

unfoldable pub offer : Option ℕ → Bool → Allowance → Message → SsClient → Delivery
offer queued room a m c =
    let predictive = predictive_old3ds m c in
    if predictive && c.waiting_keyframe && not (is_keyframe m)
    then skips c
    else if (m.type == msg_video) && is_behind queued (client_allowance a c predictive)
    then skipped m c
    else behind_pending room m c

unfoldable pub flushed_first : Option ℕ → Bool → Allowance → Message → Bool × SsClient → Delivery
flushed_first queued room a m (false, c) = drops
flushed_first queued room a m (true, c) = offer queued room a m c

-- The loop's body.
unfoldable pub deliver : Option ℕ → Bool → Allowance → Message → SsClient → Delivery
deliver queued room a m c =
    if not (addressed m c) then keeps c else flushed_first queued room a m (flush_pending c)

-- The server after one client, whether a message was skipped, and the events.
unfoldable pub settle : SwitchStream → ℕ → Delivery → Bool × SwitchStream × List Event
settle s i (keeps c) = (false, put s i c, [])
settle s i (skips c) = (true, put s i c, [])
settle s i drops = (false, (drop_client s i).0, (drop_client s i).1)

unfoldable pub broadcast_from :
    Host → Allowance → Message → ℕ → ℕ → SwitchStream → Bool × SwitchStream × List Event
broadcast_from h a m zero i s = (false, s, [])
broadcast_from h a m (suc left) i s =
    let here = settle s i (deliver (h.queued i) (h.room i) a m (client s i)) in
    let rest = broadcast_from h a m left (i + 1) here.1 in
    (here.0 || rest.0, rest.1, here.2 ++ rest.2)

-- The allowance follows the stream's largest frames, which decay by a sixteenth per frame.
unfoldable pub note_frame_of : Option ℕ → Message → SwitchStream → SwitchStream
note_frame_of none m s = s
note_frame_of (some slot) m s =
    let old = get_or s.max_frame_bytes_by_slot slot 0 in
    let decayed = old - old / 16 in
    let largest = if ltb decayed (length m.data_bytes) then length m.data_bytes else decayed in
    if m.type == msg_video
    then record s {
      max_frame_bytes_by_slot = set s.max_frame_bytes_by_slot slot largest;
      max_frame_bytes = largest;
    }
    else s

unfoldable pub note_frame : Message → SwitchStream → SwitchStream
note_frame m s = note_frame_of m.slot m s

-- A difference of two times in milliseconds, on uint32_t.
abbrev pub since : ℕ → ℕ → ℕ
since now before = u32 (now + 2 ^ 32 - before)

unfoldable pub may_predict : Option ℕ → SwitchStream → Bool
may_predict none s = true
may_predict (some slot) s =
    not (slot == stream_old3ds) || c2s_old3ds_predictive_codec s.old3ds_codec

-- After the loop: a skipped frame asks for a keyframe, at most once a second.
unfoldable pub after_skip : ℕ → Message → SwitchStream → SwitchStream × List Event
after_skip now m s =
    let noted : SwitchStream = record s { skipped_frames = u32 (s.skipped_frames + 1) } in
    if may_predict m.slot s && leb keyframe_min_interval_ms (since now s.last_keyframe_ms)
    then (record noted { last_keyframe_ms = now }, request_keyframe ∷ [])
    else (noted, [])

unfoldable pub broadcast_filtered : Host → ℕ → Message → SwitchStream → SwitchStream × List Event
broadcast_filtered h now m s =
    let noted = note_frame m s in
    let round = broadcast_from h (allowance noted.max_frame_bytes) m max_clients 0 noted in
    let after = after_skip now m round.1 in
    if ltb c2s_max_payload (length m.data_bytes)
    then (s, [])
    else if round.0 && (m.type == msg_video)
    then (after.0, round.2 ++ after.1)
    else (round.1, round.2)
