-- ===== src/RtpConnection/Marks.antt =====
-- The sequence numbers that packets take, sent or lost.
use obs_rtspserver.Prelude.{
  ℕ, ◌+◌, ◌*◌, ◌/◌, ◌%◌, ◌<◌, ◌≤◌, ltb, ◌≡◌, ◌≢◌, refl, sym, ap, ◌∙◌, ◌⊎◌, inl, inr, Bool, true,
  false, ◌&&◌, Option, none, some, List, [], ◌∷◌, ◌++◌, arith, ◌==◌, length, drop, get_or,
  if◌then◌else◌, Bool-cases,
}
use obs_rtspserver.Rtp.{RtpPacket}
use obs_rtspserver.RtpConnection.Frames.{is_open, tcp_send-is_open}
use obs_rtspserver.RtpConnection.{
  TransportMode, no_transport, rtp_over_tcp, rtp_over_udp, rtp_over_multicast, RtpConnection,
  new_channel, channel_at, TcpConnection, tcp_send, Link, Output, tcp, udp, lost, nothing,
  interleaved_bytes, send_rtp_over_tcp, datagram, output_of,
}
use obs_rtspserver.RtpConnection.Events.{after, after-at}

-- The bytes of an output's RTP packet, and its sequence number.
abbrev number : List ℕ → ℕ
number bytes = get_or bytes 2 0 * 256 + get_or bytes 3 0

-- What becomes of a sequence number of channel `i`: it is sent, or its packet is lost. Over TCP there
-- are four bytes before the header.
abbrev pub number_on : ℕ → Output → List (Option ℕ)
number_on i nothing = []
number_on i (lost j) = if j == i then none ∷ [] else []
number_on i (tcp j bytes) = if j == i then some (number (drop 4 bytes)) ∷ [] else []
number_on i (udp j bytes) = if j == i then some (number bytes) ∷ [] else []

abbrev pub numbers : ℕ → List Output → List (Option ℕ)
numbers i [] = []
numbers i (o ∷ os) = number_on i o ++ numbers i os

-- The numbers from `s` on, as 16-bit integers, but for those that are lost.
abbrev pub IsNumbered : ℕ → List (Option ℕ) → Type 0
IsNumbered s [] = Unit {0}
IsNumbered s (none ∷ ns) = IsNumbered ((s + 1) % 65536) ns
IsNumbered s (some n ∷ ns) = (n ≡ s) × IsNumbered ((s + 1) % 65536) ns

-- How many numbers are lost.
abbrev pub losses : List (Option ℕ) → ℕ
losses [] = 0
losses (none ∷ ns) = losses ns + 1
losses (some n ∷ ns) = losses ns

-- Whether an event's packet, if it is sent, is taken where the transport hands it over.
abbrev pub is_carried : TransportMode → Link → RtpPacket → Bool
is_carried no_transport link p = false
is_carried rtp_over_tcp link p = is_open link.conn && ltb 0 p.size
is_carried rtp_over_udp link p = link.is_sent
is_carried rtp_over_multicast link p = link.is_sent

abbrev pub failure : ℕ → ℕ → Bool → ℕ
failure i j carried = if j == i then (if carried then 0 else 1) else 0

-- How many packets of channel `i` would not be taken.
abbrev pub failures : ℕ → TransportMode → List (Link × ℕ × RtpPacket) → ℕ
failures i m [] = 0
failures i m ((link, j, p) ∷ events) = failure i j (is_carried m link p) + failures i m events

pub losses-append : (xs ys : List (Option ℕ)) → losses (xs ++ ys) ≡ losses xs + losses ys
losses-append [] ys = omega arith
losses-append (none ∷ xs) ys = omega (arith, losses-append xs ys)
losses-append (some n ∷ xs) ys = losses-append xs ys

read_back : (s : ℕ) → s < 65536 → s / 256 % 256 * 256 + s % 256 ≡ s
read_back s h = omega arith

-- The number `s`, sent or lost.
abbrev pub HasNumber : ℕ → List (Option ℕ) → Type 0
HasNumber s ns = (ns ≡ some s ∷ []) ⊎ (ns ≡ none ∷ [])

-- A packet that is live on a channel uses up its counter, and no other channel's; it is lost only if it
-- is not carried.
abbrev HasMark : ℕ → ℕ → ℕ → Bool → List (Option ℕ) → Type 0
HasMark i j s carried ns =
    (ns ≡ (if j == i then some s ∷ [] else []))
    ⊎ ((carried ≡ false) × (ns ≡ (if j == i then none ∷ [] else [])))

numbers-tcp :
    (i j : ℕ) (conn : Option TcpConnection) (p : RtpPacket) (c : RtpConnection)
    → j < length c.channels
    → (channel_at c j).packet_seq < 65536
    → HasMark i j
        (channel_at c j).packet_seq
        (is_open conn && ltb 0 p.size)
        (number_on i (send_rtp_over_tcp conn j p (after j p c)))
unfolding send_rtp_over_tcp new_channel
numbers-tcp i j none p c h b = inr (refl, refl)
numbers-tcp i j (some t) p c h b =
    elim (Bool-cases (tcp_send (interleaved_bytes j p (after j p c)) p.size t).1) [
      | inl q ↦ inl (
          rw (q, send_rtp_over_tcp)
            (rw (after-at j p c h, read_back (channel_at c j).packet_seq b) refl))
      | inr q ↦ inr (
        sym (tcp_send-is_open (interleaved_bytes j p (after j p c)) p.size t) ∙ q,
        rw (q, send_rtp_over_tcp) refl,
      )
    ]

numbers-udp :
    (i j : ℕ) (is_sent : Bool) (p : RtpPacket) (c : RtpConnection)
    → j < length c.channels
    → (channel_at c j).packet_seq < 65536
    → HasMark i j
        (channel_at c j).packet_seq
        is_sent
        (number_on i (datagram is_sent j p (after j p c)))
unfolding datagram new_channel
numbers-udp i j false p c h b = inr (refl, refl)
numbers-udp i j true p c h b =
    inl (rw (after-at j p c h, read_back (channel_at c j).packet_seq b) refl)

pub numbers-output :
    (i j : ℕ) (link : Link) (p : RtpPacket) (c : RtpConnection) (m : TransportMode)
    → j < length c.channels
    → (channel_at c j).packet_seq < 65536
    → HasMark i j
        (channel_at c j).packet_seq
        (is_carried m link p)
        (number_on i (output_of link j p (after j p c) m))
unfolding output_of
numbers-output i j link p c no_transport h b = inr (refl, refl)
numbers-output i j link p c rtp_over_tcp h b = numbers-tcp i j link.conn p c h b
numbers-output i j link p c rtp_over_udp h b = numbers-udp i j link.is_sent p c h b
numbers-output i j link p c rtp_over_multicast h b = numbers-udp i j link.is_sent p c h b

pub marked-same :
    (i j s : ℕ) (carried : Bool) (ns : List (Option ℕ))
    → j ≡ i
    → HasMark i j s carried ns
    → HasNumber s ns × (losses ns ≤ failure i j carried)
marked-same i j s carried ns e (inl h) =
    let t : (j == i) ≡ true = ground (arith, e) in
    let k : ns ≡ some s ∷ [] = rw t at h in (inl k, ground (arith, ap losses k))
marked-same i j s carried ns e (inr (f, h)) =
    let t : (j == i) ≡ true = ground (arith, e) in
    let k : ns ≡ none ∷ [] = rw t at h in (inr k, ground (arith, t, f, ap losses k))

pub marked-other :
    (i j s : ℕ) (carried : Bool) (ns : List (Option ℕ)) → j ≢ i → HasMark i j s carried ns → ns ≡ []
marked-other i j s carried ns e (inl h) = let t : (j == i) ≡ false = ground (arith, e) in rw t at h
marked-other i j s carried ns e (inr (f, h)) =
    let t : (j == i) ≡ false = ground (arith, e) in rw t at h
