-- ===== src/H264/Tests.antt =====
-- A frame of two H.264 units, handled.
use obs_rtspserver.Prelude.{ℕ, suc, arith, Bool, true, List, [], ◌∷◌, replicate, length-replicate}
use obs_rtspserver.Rtp.{RtpPacket}
use obs_rtspserver.Nal.Split.{annexb}
use obs_rtspserver.Nal.Tests.{
  parameter_set, slice_unit, two_units, two_units-AllUnits, two_units-AllBytes,
}
use obs_rtspserver.Packetizer.Receiver.{AllCarried}
use obs_rtspserver.Packetizer.Frames.{IsDelivered}
use obs_rtspserver.H264.{h264, handle_frame}
use obs_rtspserver.H264.Carried.{receiver, IsCarried}
use obs_rtspserver.H264.RoundTrip.{h264_frame-IsDelivered}

abbrev buffer : List ℕ
buffer = replicate 1584 0

-- A callback that counts its calls and never refuses.
abbrev count : ℕ → RtpPacket → ℕ × Bool
count n p = (suc n, true)

carried : AllCarried IsCarried (parameter_set ∷ slice_unit ∷ [])
carried = (
  record { some_byte = omega arith; is_byte = omega arith; plain_type = ground arith },
  (record { some_byte = omega arith; is_byte = omega arith; plain_type = ground arith }, tt),
)

h264_frame-IsDelivered_example :
    IsDelivered h264 receiver count
      (parameter_set ∷ slice_unit ∷ [])
      0
      buffer
      (handle_frame count (annexb two_units) 3 90000 0 buffer)
h264_frame-IsDelivered_example =
    h264_frame-IsDelivered count two_units 3 90000 0 buffer (omega arith) (omega arith)
      two_units-AllUnits two_units-AllBytes carried (omega (arith, length-replicate {A = ℕ} 1584 0))
