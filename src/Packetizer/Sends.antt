-- ===== src/Packetizer/Sends.antt =====
-- What it means that a part of `HandleFrame` sends certain packets: it makes the calls of the
-- callback in order, stops at the first refusal, and keeps within the packet's buffer.
use obs_rtspserver.Prelude.{
  ℕ, ◌+◌, ◌-◌, ◌≡◌, refl, inl, inr, Bool, List, [], ◌∷◌, ◌++◌, arith, length, take-length-append,
  if◌then◌else◌, Bool-cases,
}
use obs_rtspserver.Rtp.{RtpPacket, FrameType, head_size}
use obs_rtspserver.Packetizer.{Codec, Outcome, sent, refused, and_then, send_packet}
use obs_rtspserver.Packetizer.Packets.{packet}

module _ {S : Type 0} (send : S → RtpPacket → S × Bool) where
  -- The calls for a list of packets; `buf` is the buffer at the end.
  abbrev pub run : List RtpPacket → S → List ℕ → Outcome S
  run [] s buf = sent s buf
  run (p ∷ ps) s buf = if (send s p).1 then run ps (send s p).0 buf else refused (send s p).0

  abbrev pub Sends : ℕ → List RtpPacket → S → Outcome S → Type 0
  Sends n ps s o = (buf : List ℕ) × (length buf ≡ n) × (o ≡ run ps s buf)

  pub Sends-and_then :
      (n : ℕ) (ps qs : List RtpPacket) (s : S) (buf : List ℕ) (k : S → List ℕ → Outcome S)
      → length buf ≡ n
      → ((s' : S) → Sends n qs s' (k s' buf))
      → Sends n (ps ++ qs) s (and_then (run ps s buf) k)
  Sends-and_then n [] qs s buf k l h = h s
  Sends-and_then n (p ∷ ps) qs s buf k l h = elim (Bool-cases (send s p).1) [
    | inl t ↦ let (b, m, e) = Sends-and_then n ps qs (send s p).0 buf k l h in (b, m, rw t e)
    | inr t ↦ (buf, l, rw t refl)
  ]

-- A packet whose payload is the known front of the buffer.
pub send_packet-run :
    {M : Type 0} (c : Codec M) {S : Type 0} (send : S → RtpPacket → S × Bool) (timestamp : ℕ)
    (s : S) (pre rest : List ℕ) (size : ℕ) (type : FrameType) (last : ℕ)
    → size ≡ head_size + length pre
    → send_packet c send timestamp s (pre ++ rest) size type last
      ≡ run send (packet c timestamp pre type last ∷ []) s (pre ++ rest)
unfolding send_packet
send_packet-run c send timestamp s pre rest size type last e =
    let cut : head_size + length pre - head_size ≡ length pre = omega arith in
    rw (e, cut, take-length-append pre rest) refl
