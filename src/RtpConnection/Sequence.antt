-- ===== src/RtpConnection/Sequence.antt =====
-- Runs of packets over the channels of a connection: the sequence numbers of what is sent.
use obs_rtspserver.Prelude.{
  ℕ, ◌+◌, ◌%◌, ◌<◌, ◌≤◌, ◌≡◌, refl, sym, ap, ◌∙◌, ◌⊎◌, inl, inr, Bool, true, false, not, ◌&&◌,
  Option, subst, List, [], ◌∷◌, ◌++◌, arith, length, get_or-set_other, if◌then◌else◌, ℕ_discrete,
  Bool-cases,
}
use obs_rtspserver.Rtp.{RtpPacket}
use obs_rtspserver.RtpConnection.{
  RtpConnection, blank, new_channel, channel_at, is_live, Link, Output, output_of, is_datagram,
  on_packet, teardown, run_events,
}
use obs_rtspserver.RtpConnection.Events.{
  stamped, opened, after, after-at, on_packet-idle, on_packet-live, teardown-seq, live-lt,
}
use obs_rtspserver.RtpConnection.Marks.{
  number_on, numbers, IsNumbered, losses, is_carried, failure, failures, losses-append, HasNumber,
  numbers-output, marked-same, marked-other,
}

-- What an event with this output does to channel `i`, where it may lose `n` packets.
abbrev IsCounted : ℕ → ℕ → RtpConnection → RtpConnection × Output → Type 0
unfolding new_channel
IsCounted i n c (c', o) =
    (c'.transport_mode ≡ c.transport_mode)
    × (losses (number_on i o) ≤ n)
    × (((number_on i o ≡ []) × ((channel_at c' i).packet_seq ≡ (channel_at c i).packet_seq))
        ⊎ (HasNumber (channel_at c i).packet_seq (number_on i o)
            × ((channel_at c' i).packet_seq ≡ ((channel_at c i).packet_seq + 1) % 65536)))

teardown-IsCounted :
    (stop : Bool) (i n : ℕ) (c c' : RtpConnection) (o : Output)
    → IsCounted i n c (c', o)
    → IsCounted i n c (if stop then teardown c' else c', o)
unfolding IsCounted
teardown-IsCounted true i n c c' o (m, l, inl (a, b)) =
    ((teardown-seq c' i).1 ∙ m, l, inl (a, (teardown-seq c' i).0 ∙ b))
teardown-IsCounted true i n c c' o (m, l, inr (a, b)) =
    ((teardown-seq c' i).1 ∙ m, l, inr (a, (teardown-seq c' i).0 ∙ b))
teardown-IsCounted false i n c c' o x = x

on_packet-IsCounted :
    (link : Link) (i j : ℕ) (p : RtpPacket) (c : RtpConnection)
    → ((k : ℕ) → (channel_at c k).packet_seq < 65536)
    → IsCounted i (failure i j (is_carried c.transport_mode link p)) c (on_packet link j p c)
unfolding new_channel IsCounted
on_packet-IsCounted link i j p c b = elim (Bool-cases (is_live (opened p c) j)) [
  | inr t ↦ rw (on_packet-idle link j p c t) (refl, omega arith, inl (refl, refl))
  | inl t ↦ rw (on_packet-live link j p c t) (
      teardown-IsCounted (is_datagram c.transport_mode && not link.is_sent) i
        (failure i j (is_carried c.transport_mode link p)) c (after j p c)
        (output_of link j p (after j p c) c.transport_mode)
        (counted (live-lt (opened p c) j t) (ℕ_discrete j i)))
]
  where
    ns : List (Option ℕ)
    ns = number_on i (output_of link j p (after j p c) c.transport_mode)

    counted :
        j < length c.channels
        → Dec (j ≡ i)
        → IsCounted i
            (failure i j (is_carried c.transport_mode link p))
            c
            (after j p c, output_of link j p (after j p c) c.transport_mode)
    counted l (yes e) =
        let (a, k) =
          marked-same i j (channel_at c j).packet_seq _ ns e
            (numbers-output i j link p c c.transport_mode l (b j)) in
        (
          refl,
          k,
          inr (
            subst (λ k. HasNumber (channel_at c k).packet_seq ns) e a,
            ap (λ k. (channel_at (after j p c) k).packet_seq) (sym e)
                ∙ ap (λ ch. ch.packet_seq) (after-at j p c l)
                ∙ ap (λ k. ((channel_at c k).packet_seq + 1) % 65536) e,
          ),
        )
    counted l (no e) =
        let a =
          marked-other i j (channel_at c j).packet_seq _ ns e
            (numbers-output i j link p c c.transport_mode l (b j)) in
        (
          refl,
          omega (arith, ap losses a),
          inl (
            a,
            ap (λ ch. ch.packet_seq)
                (get_or-set_other c.channels j i (stamped p (channel_at c j)) blank e),
          ),
        )

-- One event's numbers, and those of the events behind it.
joined :
    (xs ns : List (Option ℕ)) (s s' end : ℕ)
    → ((xs ≡ []) × (s' ≡ s)) ⊎ (HasNumber s xs × (s' ≡ (s + 1) % 65536))
    → IsNumbered s' ns
    → end ≡ (s' + length ns) % 65536
    → IsNumbered s (xs ++ ns) × (end ≡ (s + length (xs ++ ns)) % 65536)
joined xs ns s s' end (inl (a, e)) f g =
    rw a (subst (λ z. IsNumbered z ns) e f, omega (arith, e, g))
joined xs ns s s' end (inr (inl a, e)) f g =
    rw a ((refl, subst (λ z. IsNumbered z ns) e f), omega (arith, e, g))
joined xs ns s s' end (inr (inr a, e)) f g =
    rw a (subst (λ z. IsNumbered z ns) e f, omega (arith, e, g))

counter-lt :
    (i n : ℕ) (c : RtpConnection) (o : RtpConnection × Output)
    → IsCounted i n c o
    → (channel_at c i).packet_seq < 65536
    → (channel_at o.0 i).packet_seq < 65536
unfolding IsCounted new_channel
counter-lt i n c o (m, l, inl (a, e)) h = omega (arith, e, h)
counter-lt i n c o (m, l, inr (a, e)) h = omega (arith, e)

-- For counters of 16 bits, whatever packets come for whatever channels, in any order, over any
-- transport: the packets that are sent on a channel are numbered in order from the channel's counter on,
-- modulo 2^16. A packet of the channel that is given a header and is lost leaves a gap of one number, and
-- there is no other gap. The counter ends behind the numbers that were sent or lost. No more are lost
-- than packets of the channel that find no transport, no RTSP connection that is there and open and has
-- room in its queue, or no `sendto` that succeeds, or that are empty over TCP.
pub run_events-numbers :
    (i : ℕ) (events : List (Link × ℕ × RtpPacket)) (c : RtpConnection)
    → ((k : ℕ) → (channel_at c k).packet_seq < 65536)
    → IsNumbered (channel_at c i).packet_seq (numbers i (run_events events c).1)
      × ((channel_at (run_events events c).0 i).packet_seq
          ≡ ((channel_at c i).packet_seq + length (numbers i (run_events events c).1)) % 65536)
      × (losses (numbers i (run_events events c).1) ≤ failures i c.transport_mode events)
unfolding run_events new_channel IsCounted
run_events-numbers i [] c b = (tt, omega (arith, b i), omega arith)
run_events-numbers i ((link, j, p) ∷ events) c b =
    let (mode, few, moved) = step i in
    let (f, g, l) =
      run_events-numbers i events (on_packet link j p c).0
        (λ k. counter-lt k _ c (on_packet link j p c) (step k) (b k)) in
    let (f', g') = joined (number_on i (on_packet link j p c).1) _ _ _ _ moved f g in
    (
      f',
      g',
      omega (
        arith,
        losses-append (number_on i (on_packet link j p c).1)
            (numbers i (run_events events (on_packet link j p c).0).1),
        few,
        l,
        ap (λ m. failures i m events) mode,
      ),
    )
  where
    step :
        (k : ℕ)
        → IsCounted k (failure k j (is_carried c.transport_mode link p)) c (on_packet link j p c)
    step k = on_packet-IsCounted link k j p c b
