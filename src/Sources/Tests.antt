-- ===== src/Sources/Tests.antt =====
-- Frames of the audio and VP8 sources.
use obs_rtspserver.Prelude.{
  ℕ, suc, ◌≤◌, ◌<◌, ◌-◌, ◌+◌, ◌≡◌, ◌⊎◌, arith, Bool, true, false, List, [], ◌∷◌, length, drop,
}
use obs_rtspserver.Rtp.{RtpPacket, head_size}
use obs_rtspserver.Sources.{vp8_handle_frame, aac_handle_frame}
use obs_rtspserver.Sources.Payloads.{
  frame_of, AllDeclared, run, vp8_handle_frame-run, adts_size, au_size, aac_handle_frame-cases,
}

abbrev count : ℕ → RtpPacket → ℕ × Bool
count n p = (suc n, true)

abbrev frame : List ℕ
frame = 1 ∷ 2 ∷ 3 ∷ 4 ∷ 5 ∷ 6 ∷ 7 ∷ 8 ∷ 9 ∷ []

vp8_handle_frame-run_example :
    (ps : List RtpPacket) × (frame_of ps ≡ frame)
    × AllDeclared ps
    × (vp8_handle_frame count 5 frame 0 0 ≡ run count ps 0)
vp8_handle_frame-run_example = vp8_handle_frame-run count 5 frame 0 0

aac_handle_frame-cases_example :
    ((1416 < 9) × (aac_handle_frame count true frame 3 0 ≡ (0, false)))
    ⊎ ((9 ≤ 1416)
        × ((p : RtpPacket) × (aac_handle_frame count true frame 3 0 ≡ count 0 p)
            × (p.size ≡ head_size + length p.payload)
            × (drop 4 p.payload ≡ drop (adts_size true) frame)
            × (au_size p.payload ≡ length frame - adts_size true)))
aac_handle_frame-cases_example = aac_handle_frame-cases count true frame 3 0 (omega arith)
