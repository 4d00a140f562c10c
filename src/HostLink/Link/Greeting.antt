-- ===== src/HostLink/Link/Greeting.antt =====
-- The greeting between the console (wiiu_console/src/net.c) and its host (server/switch_stream.c).
pub mod Agreed
use capture2cloud.Base.{
  ℕ, ◌+◌, ◌/◌, ◌%◌, ◌≤◌, ◌<◌, List, [], ◌∷◌, ◌++◌, Bool, true, false, not, ◌&&◌, ◌||◌, ◌≡◌, refl,
  ap, ◌∙◌, ◌==◌, ltb, if◌then◌else◌, if_holds, Bool-cases, inl, inr, length, take, drop, min,
  bit_and, bit_or, arith,
}
use capture2cloud.Wire.{
  store16, store32, load16, load32, c2s_le16, c2s_le32, c2s_magic, c2s_version, cap_pcm_s16le,
  cap_pcm_udp, codec_pcm_s16le, codec_adpcm, codec_opus, codec_drc_h264,
}
use capture2cloud.Wire.Order.{c2s_le16-load16, c2s_le32-load32}
use capture2cloud.Native.{SsClient, SwitchStream, client, client_slot}
use capture2cloud.Native.Messages.{byte_at}
use capture2cloud.Native.Hello.{
  Hello, HelloAck, read_hello, ack_bytes, acceptance, negotiated, slot_width, slot_height, flag_if,
  client_consume, accept_hello, handle_hello, has_cap,
}
use capture2cloud.HostLink.{contents}
use capture2cloud.HostLink.Buffer.{consume}
use capture2cloud.HostLink.Buffer.Stream.{IsWithin, length-contents}
use capture2cloud.HostLink.Buffer.Queue.{contents-consume}
use capture2cloud.HostLink.Link.{Link, link_up, net_connected}
use capture2cloud.HostLink.Link.Poll.{
  ack16, ack_magic, hello_bytes, handle_handshake_reply, accepted_link,
}

-- The fields of an answer fit their places.
pub record Fits (a : HelloAck) : Type 0 where
  pub wide : a.width < 65536
  pub high : a.height < 65536
  pub rated : a.audio_rate < 65536

field16 : (v : ℕ) → v < 65536 → c2s_le16 true (load16 true (v % 256) (v / 256 % 256)) ≡ v
field16 v h =
    c2s_le16-load16 true (v % 256) (v / 256 % 256) (omega arith) (omega arith) ∙ omega arith

-- What the console makes of an answer.
pub record Greeted (l : Link) (a : HelloAck) (rest : List ℕ) : Type 0 where
  pub stage : l.stage ≡ link_up
  pub state : l.info.state ≡ net_connected
  pub may_control : l.info.may_control ≡ a.may_control
  pub width : l.info.width ≡ a.width
  pub height : l.info.height ≡ a.height
  pub video_codec : l.info.video_codec ≡ a.video_codec
  pub audio_codec : l.info.audio_codec ≡ a.audio_codec
  pub audio_rate : l.info.audio_rate ≡ a.audio_rate
  pub audio_udp :
      l.info.audio_udp ≡ (a.audio_codec == codec_pcm_s16le) && not (bit_and a.udp_flags 1 == 0)
  pub left : contents l.rx ≡ rest

magic_read : (a : HelloAck) (rest : List ℕ) → ack_magic (ack_bytes a ++ rest) ≡ c2s_magic
unfolding ack_bytes
magic_read a rest =
    c2s_le32-load32 true 67 50 83 87 (omega arith) (omega arith) (omega arith) (omega arith)

not_less : (a b : ℕ) → b ≤ a → ltb a b ≡ false
not_less a b h = ground arith

take_all : (xs : List ℕ) → take (length xs) xs ≡ xs
take_all [] = refl
take_all (x ∷ xs) = ap (λ t. x ∷ t) (take_all xs)

-- A buffer with an acceptance in front.
module _ (now : ℕ) (l : Link) (a : HelloAck) (rest : List ℕ) (w : IsWithin l.rx)
    (e : contents l.rx ≡ ack_bytes a ++ rest) where
  abbrev read_on : Link
  read_on = record l { rx = consume 20 l.rx }

  long_enough : 20 ≤ l.rx.len
  unfolding ack_bytes
  long_enough = omega (arith, length-contents l.rx w, ap length e)

  accepted_link-Greeted : Fits a → Greeted (accepted_link now (contents l.rx) read_on) a rest
  unfolding accepted_link ack_bytes
  accepted_link-Greeted f = record {
    stage = refl;
    state = refl;
    may_control = ap (λ b. byte_at b 6) e;
    width = ap (λ b. ack16 b 8) e ∙ field16 a.width f.wide;
    height = ap (λ b. ack16 b 10) e ∙ field16 a.height f.high;
    video_codec = ap (λ b. byte_at b 12) e;
    audio_codec = ap (λ b. byte_at b 13) e;
    audio_rate = ap (λ b. ack16 b 14) e ∙ field16 a.audio_rate f.rated;
    audio_udp = ap (λ b. (byte_at b 13 == codec_pcm_s16le) && not (bit_and (byte_at b 7) 1 == 0)) e;
    left = contents-consume 20 l.rx long_enough ∙ ap (drop 20) e;
  }

  reply_accepted :
      (a.accepted == 0) ≡ false
      → handle_handshake_reply now l ≡ accepted_link now (contents l.rx) read_on
  unfolding handle_handshake_reply ack_bytes
  reply_accepted taken =
      rw
        (
          not_less l.rx.len 20 long_enough,
          ap ack_magic e ∙ magic_read a rest,
          ap (λ b. byte_at b 4) e,
          ap (λ b. byte_at b 5) e,
          taken,
        )
        refl

-- An answer that accepts, with whatever follows it, makes the link up, with the answer's fields.
pub handle_handshake_reply-ack_bytes :
    (now : ℕ) (l : Link) (a : HelloAck) (rest : List ℕ)
    → IsWithin l.rx
    → contents l.rx ≡ ack_bytes a ++ rest
    → Fits a
    → (a.accepted == 0) ≡ false
    → Greeted (handle_handshake_reply now l) a rest
handle_handshake_reply-ack_bytes now l a rest w e f taken =
    rw (reply_accepted now l a rest w e taken) (accepted_link-Greeted now l a rest w e f)

least : (n : ℕ) → n ≤ 64 → min n 64 ≡ n
least n h = omega arith

-- The console's hello, as the host reads it.
pub console_hello : Bool → ℕ → Hello
console_hello audio_open n = record {
  magic = c2s_magic;
  version = c2s_version;
  token_len = n;
  caps = bit_or cap_pcm_s16le (if audio_open then cap_pcm_udp else 0);
}

read_hello-hello_bytes :
    (audio_open : Bool) (n : ℕ) (token : List ℕ)
    → read_hello (hello_bytes audio_open n ++ token) ≡ console_hello audio_open n
unfolding read_hello hello_bytes console_hello store32 c2s_le32 store16 c2s_le16 load32 load16
read_hello-hello_bytes true n token = refl
read_hello-hello_bytes false n token = refl

length-hello_bytes :
    (audio_open : Bool) (n : ℕ) (token : List ℕ)
    → length (hello_bytes audio_open n ++ token) ≡ 8 + length token
unfolding hello_bytes store32 store16
length-hello_bytes audio_open n token = omega arith

token-hello_bytes :
    (audio_open : Bool) (n : ℕ) (token : List ℕ)
    → drop 8 (hello_bytes audio_open n ++ token) ≡ token
unfolding hello_bytes store32 store16
token-hello_bytes audio_open n token = refl

-- The host accepts what the console says of itself on any port but the Old 3DS's, and asks about
-- the token that the console has.
pub handle_hello-hello_bytes :
    (may : List ℕ → Bool) (s : SwitchStream) (i : ℕ) (audio_open : Bool) (token : List ℕ)
    → (client s i).rx ≡ hello_bytes audio_open (length token) ++ token
    → length token ≤ 64
    → (client s i).on_old3ds_port ≡ false
    → let c = client s i in
      handle_hello may s i
      ≡ accept_hello s i
          (console_hello audio_open (length token))
          (client_consume c (8 + length token))
          ((c.codec == codec_drc_h264) || may token)
unfolding handle_hello console_hello
handle_hello-hello_bytes may s i audio_open token e short port =
    let n = length token in
    let h = ap read_hello e ∙ read_hello-hello_bytes audio_open n token in
    let len = ap length e ∙ length-hello_bytes audio_open n token in
    let token_read : take n (drop 8 (client s i).rx) ≡ token =
      ap (λ b. take n (drop 8 b)) e
      ∙ ap (take n) (token-hello_bytes audio_open n token)
      ∙ take_all token in
    rw
      (
        len,
        h,
        least n short,
        token_read,
        not_less (8 + n) 8 (omega arith),
        not_less (8 + n) (8 + n) (omega arith),
        port,
      )
      refl
