-- ===== src/HostLink/Link/Greeting/Agreed.antt =====
-- What the console of wiiu_console/src/net.c learns is what its host (server/switch_stream.c)
-- negotiated.
use capture2cloud.Base.{
  ℕ, ◌<◌, List, ◌++◌, Bool, true, false, not, ◌&&◌, ◌≡◌, refl, ap, ◌∙◌, ◌==◌, if◌then◌else◌,
  if_holds, Bool-cases, inl, inr, bit_and, bit_or, arith,
}
use capture2cloud.Wire.{cap_pcm_udp, codec_pcm_s16le, codec_adpcm, codec_opus}
use capture2cloud.Native.{SsClient, SwitchStream, client_slot}
use capture2cloud.Native.Hello.{
  Hello, ack_bytes, acceptance, negotiated, slot_width, slot_height, flag_if, has_cap,
}
use capture2cloud.HostLink.{contents}
use capture2cloud.HostLink.Buffer.Stream.{IsWithin}
use capture2cloud.HostLink.Link.{Link, link_up}
use capture2cloud.HostLink.Link.Poll.{handle_handshake_reply}
use capture2cloud.HostLink.Link.Greeting.{Fits, handle_handshake_reply-ack_bytes}

module _ (s : SwitchStream) (n : SsClient) (control : Bool) where
  acceptance-Fits :
      slot_width s (client_slot n) < 65536
      → slot_height s (client_slot n) < 65536
      → Fits (acceptance s n control)
  unfolding acceptance
  acceptance-Fits wide high = record {
    wide = wide;
    high = high;
    rated = if_holds (λ (r : ℕ). r < 65536) n.adpcm_udp (omega arith) (omega arith);
  }

  acceptance_accepts : ((acceptance s n control).accepted == 0) ≡ false
  unfolding acceptance
  acceptance_accepts = refl

  shown_width : (acceptance s n control).width ≡ slot_width s (client_slot n)
  unfolding acceptance
  shown_width = refl

  shown_height : (acceptance s n control).height ≡ slot_height s (client_slot n)
  unfolding acceptance
  shown_height = refl

  shown_codec : (acceptance s n control).video_codec ≡ n.codec
  unfolding acceptance
  shown_codec = refl

  control_shown : ((acceptance s n control).may_control == 0) ≡ not control
  unfolding acceptance
  control_shown = elim (Bool-cases control) [ inl e ↦ rw e refl | inr e ↦ rw e refl ]

-- The flag of PCM over UDP among those of the answer.
pcm_flag :
    (p o a : Bool)
    → not (bit_and (bit_or (bit_or (flag_if p 1) (flag_if o 2)) (flag_if a 4)) 1 == 0) ≡ p
pcm_flag true true true = refl
pcm_flag true true false = refl
pcm_flag true false true = refl
pcm_flag true false false = refl
pcm_flag false true true = refl
pcm_flag false true false = refl
pcm_flag false false true = refl
pcm_flag false false false = refl

-- The codec of sound in the answer.
pcm_codec :
    (p a : Bool)
    → ((if p then codec_pcm_s16le else if a then codec_adpcm else codec_opus) == codec_pcm_s16le)
      ≡ p
pcm_codec true a = refl
pcm_codec false true = refl
pcm_codec false false = refl

and_same : (p q r : Bool) → p && (p && q && r) ≡ p && q && r
and_same true q r = refl
and_same false q r = refl

udp_agrees :
    (s : SwitchStream) (h : Hello) (c : SsClient) (control : Bool)
    → let n = negotiated s h c in
      let a = acceptance s n control in
      (a.audio_codec == codec_pcm_s16le) && not (bit_and a.udp_flags 1 == 0) ≡ n.pcm_udp
unfolding acceptance negotiated
udp_agrees s h c control =
    let n = negotiated s h c in
    rw (pcm_codec n.pcm_audio n.adpcm_udp, pcm_flag n.pcm_udp n.opus_udp n.adpcm_udp)
      (and_same n.pcm_audio s.audio_udp (has_cap h cap_pcm_udp))

-- With a host that answers by what it negotiated, the console waits for PCM on its UDP socket
-- exactly where the host sends it there, may control exactly where the host lets it, and shows
-- the stream's size and codec.
pub handle_handshake_reply-negotiated :
    (now : ℕ) (l : Link) (s : SwitchStream) (h : Hello) (c : SsClient) (control : Bool)
    (rest : List ℕ)
    → IsWithin l.rx
    → (let n = negotiated s h c in contents l.rx ≡ ack_bytes (acceptance s n control) ++ rest)
    → slot_width s (client_slot (negotiated s h c)) < 65536
    → slot_height s (client_slot (negotiated s h c)) < 65536
    → let n = negotiated s h c in
      let r = handle_handshake_reply now l in
      (r.stage ≡ link_up)
      × (r.info.audio_udp ≡ n.pcm_udp)
      × ((r.info.may_control == 0) ≡ not control)
      × (r.info.width ≡ slot_width s (client_slot n))
      × (r.info.height ≡ slot_height s (client_slot n))
      × (r.info.video_codec ≡ n.codec)
      × (contents r.rx ≡ rest)
handle_handshake_reply-negotiated now l s h c control rest w e wide high =
    let n = negotiated s h c in
    let a = acceptance s n control in
    let g =
      handle_handshake_reply-ack_bytes now l a rest w e (acceptance-Fits s n control wide high)
        (acceptance_accepts s n control) in
    (
      g.stage,
      g.audio_udp ∙ udp_agrees s h c control,
      ap (λ m. m == 0) g.may_control ∙ control_shown s n control,
      g.width ∙ shown_width s n control,
      g.height ∙ shown_height s n control,
      g.video_codec ∙ shown_codec s n control,
      g.left,
    )
