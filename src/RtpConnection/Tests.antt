-- ===== src/RtpConnection/Tests.antt =====
-- Runs over a connection of two channels.
use obs_rtspserver.Prelude.{
  ℕ, zero, suc, ◌<◌, ◌≤◌, ◌≡◌, refl, arith, true, false, none, some, if◌then◌else◌, List, [], ◌∷◌,
  ◌++◌, ◌+◌, ◌%◌, length,
}
use obs_rtspserver.Rtp.{RtpPacket, video_frame_idr, video_frame_notidr}
use obs_rtspserver.RtpConnection.{
  RtpConnection, channel_at, new_channel, rtp_connection_new, setup_rtp_over_tcp, play, on_packet,
  run_events, send_rtp_packet, send_rtp_over_tcp, teardown, Link, tcp, lost, header_bytes,
}
use obs_rtspserver.RtpConnection.Frames.{IsInterleaved, is_open, send_rtp_over_tcp-IsInterleaved}
use obs_rtspserver.RtpConnection.Marks.{numbers, losses, failures, IsNumbered}
use obs_rtspserver.RtpConnection.Sequence.{run_events-numbers}
use obs_rtspserver.RtpConnection.Gate.{
  AllNothing, run_events-waits, teardown-quiet, setup-play-sends,
}

abbrev key_packet : RtpPacket
key_packet = record {
  payload = 0x65 ∷ 1 ∷ 2 ∷ [];
  size = 19;
  timestamp = 90000;
  type = video_frame_idr;
  last = 1;
}

abbrev other_packet : RtpPacket
other_packet = record {
  payload = 0x41 ∷ 7 ∷ [];
  size = 18;
  timestamp = 93000;
  type = video_frame_notidr;
  last = 1;
}

abbrev fresh : RtpConnection
unfolding rtp_connection_new
fresh = rtp_connection_new ((65535, 1, 2) ∷ (7, 3, 4) ∷ [])

abbrev playing : RtpConnection
unfolding rtp_connection_new setup_rtp_over_tcp play
playing = play (setup_rtp_over_tcp true 0 8 9 fresh).0

-- The RTSP connection, with a queue that is empty, and with one that is full.
abbrev ready : Link
ready = record {
  conn =
      some (record {
        is_closed = false;
        write_buffer = record { buffer = []; max_queue_length = 500 };
      });
  is_sent = true;
}

abbrev full : Link
full = record {
  conn =
      some
        (record { is_closed = false; write_buffer = record { buffer = []; max_queue_length = 0 } });
  is_sent = true;
}

abbrev events : List (Link × ℕ × RtpPacket)
events =
    (ready, 0, key_packet)
    ∷ (ready, 1, other_packet)
    ∷ (full, 0, other_packet)
    ∷ (ready, 0, other_packet)
    ∷ []

-- The counter wraps around, and the number of the lost packet is used up.
three_numbers : numbers 0 (run_events events playing).1 ≡ some 65535 ∷ none ∷ some 1 ∷ []
unfolding run_events playing
three_numbers = refl

playing-counters : (k : ℕ) → (channel_at playing k).packet_seq < 65536
unfolding playing new_channel
playing-counters zero = omega arith
playing-counters (suc zero) = omega arith
playing-counters (suc (suc k)) = omega arith

run_events-numbers_example :
    IsNumbered (channel_at playing 0).packet_seq (numbers 0 (run_events events playing).1)
    × ((channel_at (run_events events playing).0 0).packet_seq
        ≡ ((channel_at playing 0).packet_seq + length (numbers 0 (run_events events playing).1))
          % 65536)
    × (losses (numbers 0 (run_events events playing).1) ≤ failures 0 playing.transport_mode events)
run_events-numbers_example = run_events-numbers 0 events playing playing-counters

send_rtp_over_tcp-IsInterleaved_example :
    (frame : List ℕ) × (send_rtp_over_tcp ready.conn 0 key_packet playing
      ≡ (if is_open ready.conn then tcp 0 frame else lost 0))
    × IsInterleaved frame
        (channel_at playing 0).rtp_channel
        (header_bytes (channel_at playing 0) ++ key_packet.payload)
send_rtp_over_tcp-IsInterleaved_example =
    send_rtp_over_tcp-IsInterleaved ready.conn 0 key_packet playing (omega arith) (omega arith)

run_events-waits_example :
    AllNothing (run_events ((ready, 0, other_packet) ∷ []) playing).1
    × ((run_events ((ready, 0, other_packet) ∷ []) playing).0.has_key_frame ≡ false)
unfolding playing
run_events-waits_example = run_events-waits ((ready, 0, other_packet) ∷ []) playing refl (refl, tt)

teardown-quiet_example :
    (send_rtp_packet true 0 key_packet (teardown playing) ≡ (none, false))
    × AllNothing (run_events events (teardown playing)).1
unfolding playing
teardown-quiet_example = teardown-quiet playing true 0 key_packet events refl refl

setup-play-sends_example :
    (send_rtp_packet true 0 key_packet (play (setup_rtp_over_tcp true 0 8 9 fresh).0)
      ≡ (some (0, key_packet), true))
    × (frame header : List ℕ) × ((on_packet ready 0 key_packet
          (play (setup_rtp_over_tcp true 0 8 9 fresh).0)).1
        ≡ tcp 0 frame)
    × IsInterleaved frame 8 (header ++ key_packet.payload)
    × (length header ≡ 12)
unfolding fresh
setup-play-sends_example =
    setup-play-sends fresh ready 0 8 9 key_packet refl refl (omega arith) refl (omega arith)
      (omega arith)
