-- ===== src/H265/RoundTrip.antt =====
-- An H.265 frame, from its bytes to a receiver.
use obs_rtspserver.Prelude.{ℕ, ◌≤◌, ◌<◌, ◌^◌, arith, Bool, List, length}
use obs_rtspserver.Rtp.{max_payload, RtpPacket}
use obs_rtspserver.Nal.StartCode.{AllBytes}
use obs_rtspserver.Nal.Split.{annexb, AllUnits}
use obs_rtspserver.Packetizer.{handle_units}
use obs_rtspserver.Packetizer.Input.{bare, length-bare, with_units-annexb}
use obs_rtspserver.Packetizer.Receiver.{AllCarried}
use obs_rtspserver.Packetizer.Frames.{IsDelivered, handle_units-IsDelivered}
use obs_rtspserver.H265.{h265, handle_frame}
use obs_rtspserver.H265.Carried.{h265-IsCodec, receiver, IsCarried, h265-Compatible}

-- For any callback, and at any address: when a frame is framed by start codes from at least one and
-- fewer than 2^32 units of bytes, none of which holds a start code or ends in zero, and each of them
-- is one that RFC 7798 sends as it is, then `HandleFrame`, with room for 1420 bytes of payload in its
-- packet, sends packets of the sizes that they declare, stopping at the first refusal, with payloads
-- of at most 1420 bytes, from which a receiver that takes the RFC's packets apart gets the units back,
-- in order.
pub h265_frame-IsDelivered :
    {S : Type 0} (send : S → RtpPacket → S × Bool) (us : List (Bool × List ℕ)) (addr timestamp : ℕ)
    (s : S) (buf : List ℕ)
    → 0 < length us
    → length us < 2 ^ 32
    → AllUnits us
    → AllBytes (annexb us)
    → AllCarried IsCarried (bare us)
    → max_payload ≤ length buf
    → IsDelivered h265 receiver send
        (bare us)
        s
        buf
        (handle_frame send (annexb us) addr timestamp s buf)
unfolding handle_frame
h265_frame-IsDelivered send us addr timestamp s buf pos few v b a room =
    rw (with_units-annexb us addr (λ us. handle_units h265 send timestamp us s buf) v b few) (
      handle_units-IsDelivered h265 h265-IsCodec receiver h265-Compatible send timestamp (bare us) s
        buf (omega (arith, length-bare us)) a room)
