-- ===== src/RtpConnection/Events.antt =====
-- What one event does to a connection: nothing, or a header for a live channel.
use obs_rtspserver.Prelude.{
  ℕ, zero, suc, ◌+◌, ◌%◌, ◌<◌, ◌≡◌, refl, ap, ◌∙◌, inl, inr, true, false, not, ◌&&◌, ◌||◌, List, [],
  ◌∷◌, map, arith, length, get_or, get_or-past, get_or-set, if◌then◌else◌, dec_lt, Bool-cases,
}
use obs_rtspserver.Rtp.{RtpPacket}
use obs_rtspserver.RtpConnection.{
  Channel, RtpConnection, blank, new_channel, channel_at, with_channel, opens, set_frame_type,
  set_rtp_header, is_live, Link, nothing, output_of, is_datagram, on_packet, teardown,
  is_over_multicast, stopped,
}

pub get_or-map-stopped :
    (chs : List Channel) (i : ℕ) → get_or (map stopped chs) i blank ≡ stopped (get_or chs i blank)
unfolding new_channel
get_or-map-stopped [] i = refl
get_or-map-stopped (ch ∷ chs) zero = refl
get_or-map-stopped (ch ∷ chs) (suc i) = get_or-map-stopped chs i

-- `Teardown` leaves every sequence counter and the transport.
pub teardown-seq :
    (c : RtpConnection) (i : ℕ)
    → ((channel_at (teardown c) i).packet_seq ≡ (channel_at c i).packet_seq)
      × ((teardown c).transport_mode ≡ c.transport_mode)
unfolding teardown new_channel
teardown-seq c i = elim (Bool-cases (not c.is_closed && not (is_over_multicast c.transport_mode))) [
  | inl t ↦ rw t (ap (λ ch. ch.packet_seq) (get_or-map-stopped c.channels i), refl)
  | inr t ↦ rw t (refl, refl)
]

-- A live channel is one of the connection's.
pub live-lt : (c : RtpConnection) (i : ℕ) → is_live c i ≡ true → i < length c.channels
unfolding new_channel
live-lt c i h = elim (dec_lt i (length c.channels)) [
  | yes l ↦ l
  | no n ↦ absurd (ground (arith, rw (get_or-past c.channels i blank (omega arith)) at h))
]

-- The connection after `SetRtpHeader` on a live channel.
abbrev pub stamped : RtpPacket → Channel → Channel
stamped p ch = record ch {
  marker = p.last % 2;
  ts = p.timestamp;
  seq = ch.packet_seq;
  packet_seq = (ch.packet_seq + 1) % 65536;
}

abbrev pub opened : RtpPacket → RtpConnection → RtpConnection
opened p c = record c { frame_type = p.type; has_key_frame = c.has_key_frame || opens p.type }

abbrev pub after : ℕ → RtpPacket → RtpConnection → RtpConnection
unfolding new_channel
after i p c = with_channel (opened p c) i (stamped p (channel_at c i))

pub after-at :
    (i : ℕ) (p : RtpPacket) (c : RtpConnection)
    → i < length c.channels
    → channel_at (after i p c) i ≡ stamped p (channel_at c i)
unfolding new_channel
after-at i p c h = get_or-set c.channels i (stamped p (channel_at c i)) blank h

pub on_packet-idle :
    (link : Link) (i : ℕ) (p : RtpPacket) (c : RtpConnection)
    → is_live (opened p c) i ≡ false
    → on_packet link i p c ≡ (opened p c, nothing)
unfolding on_packet set_rtp_header set_frame_type
on_packet-idle link i p c h = rw (h, set_rtp_header) (rw h refl)

pub on_packet-live :
    (link : Link) (i : ℕ) (p : RtpPacket) (c : RtpConnection)
    → is_live (opened p c) i ≡ true
    → on_packet link i p c ≡ (
      if is_datagram c.transport_mode && not link.is_sent
          then teardown (after i p c)
          else after i p c,
      output_of link i p (after i p c) c.transport_mode,
    )
unfolding on_packet set_rtp_header set_frame_type
on_packet-live link i p c h = rw (h, set_rtp_header) (rw still refl)
  where
    still : is_live (after i p c) i ≡ true
    still =
        ap (λ ch. (ch.is_play || ch.is_record) && (c.has_key_frame || opens p.type))
          (after-at i p c (live-lt (opened p c) i h))
        ∙ h
