-- ===== src/Packetizer/Frames.antt =====
-- A framed frame, handled by a codec: what is sent, and what a receiver makes of it.
use obs_rtspserver.Prelude.{ℕ, suc, ◌≤◌, ◌<◌, ◌≡◌, arith, Bool, List, [], ◌∷◌, length, none}
use obs_rtspserver.Rtp.{max_payload, RtpPacket}
use obs_rtspserver.Packetizer.{Codec, Outcome, handle_units}
use obs_rtspserver.Packetizer.Packets.{IsCodec, packets}
use obs_rtspserver.Packetizer.Sends.{Sends}
use obs_rtspserver.Packetizer.Frame.{handle_units-Sends}
use obs_rtspserver.Packetizer.Receiver.{Receiver, depacketize, Compatible, AllCarried}
use obs_rtspserver.Packetizer.Bounds.{AllSized, packets-AllSized}
use obs_rtspserver.Packetizer.RoundTrip.{received-packets}

-- The outcome `o` is that of calls of the callback, in order and up to the first refusal, with
-- packets that each declare the size they have, of at most the maximum, and that give the receiver
-- the units back.
abbrev pub IsDelivered :
    {M S : Type 0}
    → Codec M
    → Receiver
    → (S → RtpPacket → S × Bool)
    → List (List ℕ)
    → S
    → List ℕ
    → Outcome S
    → Type 0
IsDelivered c r send us s buf o =
    (ps : List RtpPacket) × Sends send (length buf) ps s o
    × AllSized ps
    × (depacketize c.header_size r none ps ≡ us)

pub handle_units-IsDelivered :
    {M : Type 0} (c : Codec M) (v : IsCodec c) (r : Receiver) {IsCarried : List ℕ → Type 0}
    (k : Compatible c r IsCarried) {S : Type 0} (send : S → RtpPacket → S × Bool) (timestamp : ℕ)
    (us : List (List ℕ)) (s : S) (buf : List ℕ)
    → 0 < length us
    → AllCarried IsCarried us
    → max_payload ≤ length buf
    → IsDelivered c r send us s buf (handle_units c send timestamp us s buf)
handle_units-IsDelivered c v r k send timestamp [] s buf h a room = absurd (omega arith)
handle_units-IsDelivered c v r k send timestamp (u ∷ us) s buf h a room = (
  packets c timestamp (suc (length (u ∷ us))) (u ∷ us),
  handle_units-Sends c v send timestamp u us s buf room,
  packets-AllSized c v timestamp (suc (length (u ∷ us))) (u ∷ us),
  received-packets c v r k timestamp (suc (length (u ∷ us))) (u ∷ us) (omega arith) a,
)
