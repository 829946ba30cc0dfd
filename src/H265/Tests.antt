-- ===== src/H265/Tests.antt =====
-- A frame of two H.265 units, handled.
use obs_rtspserver.Prelude.{ℕ, suc, arith, Bool, true, List, [], ◌∷◌, replicate, length-replicate}
use obs_rtspserver.Rtp.{RtpPacket}
use obs_rtspserver.Nal.Split.{annexb}
use obs_rtspserver.Nal.Tests.{
  h265_parameter_set, h265_slice, h265_units, h265_units-AllUnits, h265_units-AllBytes,
}
use obs_rtspserver.Packetizer.Receiver.{AllCarried}
use obs_rtspserver.Packetizer.Frames.{IsDelivered}
use obs_rtspserver.H265.{h265, handle_frame}
use obs_rtspserver.H265.Carried.{receiver, IsCarried}
use obs_rtspserver.H265.RoundTrip.{h265_frame-IsDelivered}

abbrev buffer : List ℕ
buffer = replicate 1584 0

-- A callback that counts its calls and never refuses.
abbrev count : ℕ → RtpPacket → ℕ × Bool
count n p = (suc n, true)

carried : AllCarried IsCarried (h265_parameter_set ∷ h265_slice ∷ [])
carried = (
  record { two_bytes = omega arith; is_byte = omega arith; plain_type = ground arith },
  (record { two_bytes = omega arith; is_byte = omega arith; plain_type = ground arith }, tt),
)

h265_frame-IsDelivered_example :
    IsDelivered h265 receiver count
      (h265_parameter_set ∷ h265_slice ∷ [])
      0
      buffer
      (handle_frame count (annexb h265_units) 3 90000 0 buffer)
h265_frame-IsDelivered_example =
    h265_frame-IsDelivered count h265_units 3 90000 0 buffer (omega arith) (omega arith)
      h265_units-AllUnits h265_units-AllBytes carried
      (omega (arith, length-replicate {A = ℕ} 1584 0))
