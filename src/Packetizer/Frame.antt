-- ===== src/Packetizer/Frame.antt =====
-- `HandleFrame` as a whole: the loop over the units ends, and sends the packets of the frame.
use obs_rtspserver.Prelude.{
  ℕ, zero, suc, ◌+◌, ◌≤◌, ◌<◌, ◌≡◌, refl, sym, subst, inl, inr, Bool, List, [], ◌∷◌, ◌++◌, arith,
  length, length-append, length-drop, drop, ltb, leb, ltb→lt, leb→le, Bool-cases,
}
use obs_rtspserver.Rtp.{max_payload, RtpPacket}
use obs_rtspserver.Packetizer.{
  Codec, Outcome, and_then, send_fragments, window, frame_loop, handle_units,
}
use obs_rtspserver.Packetizer.Packets.{IsCodec, fragments, packets}
use obs_rtspserver.Packetizer.Window.{Fits, window-Fits}
use obs_rtspserver.Packetizer.Buffer.{split_at}
use obs_rtspserver.Packetizer.Sends.{Sends, Sends-and_then}
use obs_rtspserver.Packetizer.Aggregate.{send_aggregate-Sends, send_single-Sends}
use obs_rtspserver.Packetizer.Fragment.{send_fragments-split}

module _ {M : Type 0} (c : Codec M) (v : IsCodec c) {S : Type 0} (send : S → RtpPacket → S × Bool)
    (timestamp : ℕ) where
  Sends-then :
      (n : ℕ) (ps qs : List RtpPacket) (s : S) (o : Outcome S) (k : S → List ℕ → Outcome S)
      → Sends send n ps s o
      → ((s' : S) (b : List ℕ) → length b ≡ n → Sends send n qs s' (k s' b))
      → Sends send n (ps ++ qs) s (and_then o k)
  Sends-then n ps qs s o k (b, l, e) h = rw e (Sends-and_then send n ps qs s b k l (λ s'. h s' b l))

  send_fragments-Sends :
      (u : List ℕ) (s : S) (buf : List ℕ)
      → max_payload < length u
      → max_payload ≤ length buf
      → Sends send
          (length buf)
          (fragments c timestamp u)
          s
          (send_fragments c send timestamp u s buf)
  send_fragments-Sends u s buf long room =
      let (old, rest, q, o) = split_at c.header_size buf (omega (arith, v.header_small)) in
      subst
        (λ b.
          Sends send (length b) (fragments c timestamp u) s (send_fragments c send timestamp u s b))
        (sym q) (go old rest o (rw q at room))
    where
      go :
          (old rest : List ℕ)
          → length old ≡ c.header_size
          → max_payload ≤ length (old ++ rest)
          → Sends send
              (length (old ++ rest))
              (fragments c timestamp u)
              s
              (send_fragments c send timestamp u s (old ++ rest))
      go old [] o r = absurd (omega (arith, length-append {0} old [], v.header_small))
      go old (x ∷ rest) o r =
          let e : length (old ++ x ∷ rest) ≡ c.header_size + 1 + length rest =
            omega (arith, length-append {0} old (x ∷ rest)) in
          rw e (
            send_fragments-split c v send timestamp u (omega (arith, v.header_small)) s old rest x
              long o (omega (arith, e)))

  frame_loop-Sends :
      (fuel : ℕ) (us : List (List ℕ)) (s : S) (buf : List ℕ)
      → length us < fuel
      → max_payload ≤ length buf
      → Sends send
          (length buf)
          (packets c timestamp fuel us)
          s
          (frame_loop c send timestamp fuel us s buf)
  unfolding frame_loop packets
  frame_loop-Sends zero us s buf h room = absurd (omega arith)
  frame_loop-Sends (suc fuel) [] s buf h room = (buf, refl, refl)
  frame_loop-Sends (suc fuel) (u ∷ us) s buf h room =
      elim (Bool-cases (ltb 1 (window c (u ∷ us)).1)) [
        | inl t ↦ rw t (
            Sends-then _ (_ ∷ []) _ s _ _
              (send_aggregate-Sends c v send timestamp (u ∷ us) (window c (u ∷ us)).0
                (window c (u ∷ us)).1 s buf (fits.total (ltb→lt _ _ t)) (fits.fits (ltb→lt _ _ t))
                room)
              λ s' b l. rw l at (
                frame_loop-Sends fuel (drop (window c (u ∷ us)).1 (u ∷ us)) s' b
                  (omega (arith, length-drop {0} (window c (u ∷ us)).1 (u ∷ us), fits.one))
                  (omega arith)))
        | inr t ↦ elim (Bool-cases (leb (length u) max_payload)) [
          | inl f ↦
              rw (t, f)
                (Sends-then _ (_ ∷ []) _ s _ _
                  (send_single-Sends c v send timestamp u s buf (leb→le _ _ f) room)
                  λ s' b l. rw l at (frame_loop-Sends fuel us s' b (omega arith) (omega arith)))
          | inr f ↦
              rw (t, f)
                (Sends-then _ (fragments c timestamp u) _ s _ _
                  (send_fragments-Sends u s buf (ground arith) room)
                  λ s' b l. rw l at (frame_loop-Sends fuel us s' b (omega arith) (omega arith)))
        ]
      ]
    where
      fits : Fits c (u ∷ us) (window c (u ∷ us))
      fits = window-Fits c u us (omega (arith, v.header_small))

  -- On a frame with at least one unit, `HandleFrame` returns, having called back with the packets
  -- of the frame in order up to the first refusal, and has written within the packet's buffer, whose
  -- room for a payload is at least the maximum.
  pub handle_units-Sends :
      (u : List ℕ) (us : List (List ℕ)) (s : S) (buf : List ℕ)
      → max_payload ≤ length buf
      → Sends send
          (length buf)
          (packets c timestamp (suc (length (u ∷ us))) (u ∷ us))
          s
          (handle_units c send timestamp (u ∷ us) s buf)
  unfolding handle_units
  handle_units-Sends u us s buf room =
      frame_loop-Sends (suc (length (u ∷ us))) (u ∷ us) s buf (omega arith) room
