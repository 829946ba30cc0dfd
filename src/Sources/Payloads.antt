-- ===== src/Sources/Payloads.antt =====
-- The payloads bring a frame back.
use obs_rtspserver.Prelude.{
  ℕ, zero, suc, ◌+◌, ◌-◌, ◌*◌, ◌/◌, ◌≤◌, ◌<◌, ◌≡◌, refl, ap, ◌∙◌, ◌⊎◌, inl, inr, Bool, true, false,
  List, [], ◌∷◌, ◌++◌, arith, bit_and, ltb, ltb→lt, ◌==◌, get_or, if◌then◌else◌, length,
  length-take, length-drop, drop, take-append-drop, drop-past, append-nil, Bool-cases,
}
use obs_rtspserver.Prelude.Bits.{all_below, all_below_sound}
use obs_rtspserver.Rtp.{max_payload, head_size, RtpPacket}
use obs_rtspserver.Sources.{
  Handled, done, vp8_packet, vp8_loop, vp8_handle_frame, aac_packet, aac_handle_frame,
}

-- What a VP8 receiver makes of packets: the bytes behind each descriptor.
abbrev pub frame_of : List RtpPacket → List ℕ
frame_of [] = []
frame_of (p ∷ ps) = drop 1 p.payload ++ frame_of ps

-- Each packet declares the size that it has, at most a payload and its descriptor.
abbrev pub AllDeclared : List RtpPacket → Type 0
AllDeclared [] = Unit {0}
AllDeclared (p ∷ ps) =
    (p.size ≡ head_size + length p.payload) × (length p.payload ≤ max_payload + 1) × AllDeclared ps

ltb-false : (a b : ℕ) → ltb a b ≡ false → b ≤ a
ltb-false a b h = ground arith

vp8_packet-parts :
    (timestamp descriptor x : ℕ) (xs : List ℕ)
    → ((vp8_packet timestamp descriptor (x ∷ xs)).size
        ≡ head_size + length (vp8_packet timestamp descriptor (x ∷ xs)).payload)
      × (length (vp8_packet timestamp descriptor (x ∷ xs)).payload ≤ max_payload + 1)
      × (drop 1 (vp8_packet timestamp descriptor (x ∷ xs)).payload ++ drop max_payload (x ∷ xs)
          ≡ x ∷ xs)
unfolding vp8_packet
vp8_packet-parts timestamp descriptor x xs = elim (Bool-cases (ltb (length (x ∷ xs)) max_payload)) [
  | inl t ↦ rw t (
    (omega (arith, ltb→lt (length (x ∷ xs)) max_payload t)),
    omega (arith, ltb→lt (length (x ∷ xs)) max_payload t),
    ap (◌∷◌ x) (
        ap (◌++◌ xs) (drop-past 1419 xs (omega (arith, ltb→lt (length (x ∷ xs)) max_payload t)))
        ∙ append-nil xs),
  )
  | inr t ↦ rw t (
    omega (arith, length-take {0} 1419 xs, ltb-false (length (x ∷ xs)) max_payload t),
    omega (arith, length-take {0} 1419 xs),
    ap (◌∷◌ x) (take-append-drop 1419 xs),
  )
]

-- The calls of the callback for a list of packets, up to a refusal.
module _ {S : Type 0} (send : S → RtpPacket → S × Bool) where
  abbrev pub run : List RtpPacket → S → Handled S
  run [] s = done s true
  run (p ∷ ps) s = if (send s p).1 then run ps (send s p).0 else done (send s p).0 false

  vp8_loop-run :
      (fuel timestamp descriptor : ℕ) (rest : List ℕ) (s : S)
      → length rest < fuel
      → (ps : List RtpPacket) × (frame_of ps ≡ rest)
        × AllDeclared ps
        × (vp8_loop send fuel timestamp descriptor rest s ≡ run ps s)
  unfolding vp8_loop
  vp8_loop-run zero timestamp descriptor rest s h = absurd (omega arith)
  vp8_loop-run (suc fuel) timestamp descriptor [] s h = ([], refl, tt, refl)
  vp8_loop-run (suc fuel) timestamp descriptor (x ∷ xs) s h =
      let p = vp8_packet timestamp descriptor (x ∷ xs) in
      let (a, b, e) = vp8_packet-parts timestamp descriptor x xs in
      let (ps, f, d, q) =
        vp8_loop-run fuel timestamp 0x00 (drop max_payload (x ∷ xs)) (send s p).0
          (omega (arith, h, length-drop {0} max_payload (x ∷ xs))) in
      (
        p ∷ ps,
        ap (◌++◌ (drop 1 p.payload)) f ∙ e,
        (a, b, d),
        ap (λ o. if (send s p).1 then o else done (send s p).0 false) q,
      )

  -- For any callback: `HandleFrame` of VP8 ends, having sent, up to the first refusal, packets of the
  -- sizes that they declare, with at most 1420 bytes behind the descriptor, which together are the
  -- frame's bytes.
  pub vp8_handle_frame-run :
      (now : ℕ) (frame : List ℕ) (timestamp : ℕ) (s : S)
      → (ps : List RtpPacket) × (frame_of ps ≡ frame)
        × AllDeclared ps
        × (vp8_handle_frame send now frame timestamp s ≡ run ps s)
  unfolding vp8_handle_frame
  vp8_handle_frame-run now frame timestamp s =
      vp8_loop-run (suc (length frame)) _ 0x10 frame s (omega arith)

-- The size of the access unit, from the AU header section of a payload.
abbrev pub au_size : List ℕ → ℕ
au_size payload = get_or payload 2 0 * 32 + get_or payload 3 0 / 8

au_table : all_below 2048 (λ n. bit_and n 0x1fe0 / 32 * 32 + bit_and n 0x1f * 8 / 8 == n) ≡ true
unfolding all_below
au_table = refl

abbrev pub adts_size : Bool → ℕ
adts_size true = 7
adts_size false = 0

aac_packet-parts :
    (has_adts : Bool) (frame : List ℕ) (timestamp : ℕ)
    → adts_size has_adts ≤ length frame
    → length frame ≤ 1416
    → ((aac_packet has_adts frame timestamp).size
        ≡ head_size + length (aac_packet has_adts frame timestamp).payload)
      × (drop 4 (aac_packet has_adts frame timestamp).payload ≡ drop (adts_size has_adts) frame)
      × (au_size (aac_packet has_adts frame timestamp).payload ≡ length frame - adts_size has_adts)
unfolding aac_packet
aac_packet-parts true frame timestamp h l =
    let size = length-drop {0} 7 frame in
    (
      omega (arith, size, l),
      refl,
      ground (
        arith,
        size,
        all_below_sound 2048 _ (length (drop 7 frame)) au_table (omega (arith, size, l)),
      ),
    )
aac_packet-parts false frame timestamp h l = (
  omega (arith, l),
  refl,
  ground (arith, all_below_sound 2048 _ (length frame) au_table (omega (arith, l))),
)

-- For a frame that holds its ADTS header, where it has one: `HandleFrame` of AAC refuses, sending
-- nothing, just when the frame is larger than 1416 bytes. Otherwise it sends one packet of the size
-- that it declares, which brings the frame without that header, behind an AU header with its size.
pub aac_handle_frame-cases :
    {S : Type 0} (send : S → RtpPacket → S × Bool) (has_adts : Bool) (frame : List ℕ)
    (timestamp : ℕ) (s : S)
    → adts_size has_adts ≤ length frame
    → ((1416 < length frame) × (aac_handle_frame send has_adts frame timestamp s ≡ (s, false)))
      ⊎ ((length frame ≤ 1416)
          × ((p : RtpPacket) × (aac_handle_frame send has_adts frame timestamp s ≡ send s p)
              × (p.size ≡ head_size + length p.payload)
              × (drop 4 p.payload ≡ drop (adts_size has_adts) frame)
              × (au_size p.payload ≡ length frame - adts_size has_adts)))
unfolding aac_handle_frame
aac_handle_frame-cases send has_adts frame timestamp s h =
    elim (Bool-cases (ltb (max_payload - 4) (length frame))) [
      | inl t ↦ rw t (inl (ltb→lt _ _ t, refl))
      | inr t ↦
          let (a, b, c) = aac_packet-parts has_adts frame timestamp h (ltb-false _ _ t) in
          rw t (inr (ltb-false _ _ t, (aac_packet has_adts frame timestamp, refl, a, b, c)))
    ]
