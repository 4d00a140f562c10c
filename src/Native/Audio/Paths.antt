-- ===== src/Native/Audio/Paths.antt =====
-- Each greeted client hears the sound in one way, but for one kind of client that hears nothing.
use capture2cloud.Base.{ℕ, ◌+◌, Bool, true, false, not, ◌&&◌, ◌||◌, ◌==◌, ◌≡◌, if◌then◌else◌, arith}
use capture2cloud.Native.{SsClient, SwitchStream, client_slot, codec_slot, stream_wiiu}
use capture2cloud.Native.Broadcast.{passes, opus_only, pcm_tcp}
use capture2cloud.Native.Hello.{Hello, negotiated, welcomed}
use capture2cloud.Native.Audio.{wants_opus_udp, wants_adpcm_udp, wants_pcm_udp}

abbrev one_if : Bool → ℕ
one_if b = if b then 1 else 0

-- In how many ways a client is sent the sound.
unfoldable pub ways : SsClient → ℕ
ways c =
    one_if (passes opus_only c)
    + one_if (wants_opus_udp c)
    + one_if (wants_adpcm_udp c)
    + one_if (wants_pcm_udp c)
    + one_if ((client_slot c == stream_wiiu) && passes pcm_tcp c)

-- A client whose hello is accepted, which came in through the host's main port or through that of
-- the GamePad, of the Wii U or of the Old 3DS, with an IPv4 address and no WebSocket, is sent the
-- sound in exactly one way, but that an Old 3DS which asked for PCM and has no PCM over UDP gets
-- none.
pub negotiated-ways :
    (s : SwitchStream) (h : Hello) (c : SsClient) (control : Bool)
    → c.in_use ≡ true
    → (c.peer_ipv4 == 0) ≡ false
    → c.is_ws ≡ false
    → (c.on_drc_port && (c.on_wiiu_port || c.on_old3ds_port)) ≡ false
    → (c.on_wiiu_port && c.on_old3ds_port) ≡ false
    → let n = negotiated s h c in
      ways (welcomed s n control)
      ≡ (if n.pcm_audio && not n.pcm_udp && c.on_old3ds_port then 0 else 1)
unfolding ways negotiated welcomed passes wants_opus_udp wants_adpcm_udp wants_pcm_udp client_slot
    codec_slot
negotiated-ways s h c control l p w d o = ground arith
