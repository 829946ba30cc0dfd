-- ===== src/Lib.antt =====
-- The RTSP server of obs-rtspserver: how a client's requests are parsed and answered, how encoded frames
-- become packets, how packets reach a client's sockets, and how the bytes of a connection are buffered.
--
-- A client's bytes come into a `BufferReader`. `ParseRequest` takes a request from it, in as many reads
-- as it takes, and the `RtspConnection` runs the command: it authenticates the client, finds the session
-- in the server by the suffix of the URL, sets up and starts the channels of the client's
-- `RtpConnection`, and sends one response.
--
-- A media source gets a frame from the encoder. `Nal` cuts it into units at its start codes, and
-- `HandleFrame` sends the units in RTP packets through a callback. Each client of the session has an
-- `RtpConnection`, whose event sends a packet of a channel when that channel plays and a key frame has
-- been seen. Over TCP it goes into the send queue of the RTSP connection, a `BufferWriter`.
--
-- Files, and the code that each is about:
--   Nal: rtsp-server/xop/Nal.cpp and Nal.h. A frame is its bytes and the address of the first one;
--     pointers into it are indices. `head_scan`, `word_scan` and `tail_scan` are the three loops of
--     `FFmpegFindStartcodeInternal`, `unit_loop` is that of `NalUnitWhile`, `nal_new` the constructor.
--   NalUnit: rtsp-server/xop/NalUnit.cpp, H264NalUnit.cpp and H265NalUnit.cpp. A unit is its bytes.
--   Rtp: the packet and its sizes, of rtsp-server/xop/rtp.h and media.h.
--   Packetizer: the body that `HandleFrame` of rtsp-server/xop/H264Source.cpp and H265Source.cpp share.
--     The state is that of the callback and the packet's buffer, which the code reuses from packet to
--     packet. `Codec` holds what differs; H264 and H265 fill it in.
--     Packetizer/Packets says which packets a frame has to give, and Packetizer/Receiver what a
--     receiver makes of them; neither is part of the program.
--   ByteOrder, BufferReader, BufferWriter: rtsp-server/net/BufferReader.cpp, BufferReader.h,
--     BufferWriter.cpp and BufferWriter.h. `recv` and `send` are parameters.
--   RtpConnection: rtsp-server/xop/RtpConnection.cpp. An event is the lambda of `SendRtpPacket`; the
--     scheduler's order of events is the order of a list. An event comes with a `Link`: the RTSP connection
--     as it then is, with its queue, and whether `sendto` succeeds. `tcp_send` is `Send` of
--     rtsp-server/net/TcpConnection.cpp, up to the queue.
--   Sources: `HandleFrame` of rtsp-server/xop/VP8Source.cpp, G711ASource.cpp and AACSource.cpp.
--   MemoryPool: rtsp-server/net/MemoryManager.cpp. A block is its id, and the list is that from `head_`.
--   RingBuffer: rtsp-server/net/RingBuffer.h.
--   MediaSession: the clients of rtsp-server/xop/MediaSession.cpp, by their sockets.
--   Text: byte strings, printed numbers and `sscanf`, as far as the messages use them. A place in a
--     string is kept as the bytes from there on; `sscanf` has no result where it writes past an array.
--   RtspRequest, RtspResponse: rtsp-server/xop/RtspMessage.h and RtspMessage.cpp. Headers, Parse and
--     Respond are the header lines, `ParseRequest` and the responses. An `Outcome` says how a call ends.
--     The two unordered maps are association lists.
--   RtspServer: rtsp-server/xop/RtspServer.cpp, and what a session of xop/MediaSession.h tells.
--   DigestAuthentication: rtsp-server/xop/DigestAuthentication.cpp; the hash is a parameter.
--   RtspConnection: rtsp-server/xop/RtspConnection.cpp. Commands has the six commands, Read what is done
--     with received bytes, Push the messages of a pusher. The `Environment` is what a call takes from
--     outside, among it the description of a session and the connection of its multicast.
--   Rtsp: class Rtsp of rtsp-server/xop/rtsp.h, and rtsp-server/xop/RtspPusher.cpp, but for its waiting.
--   TimerQueue: rtsp-server/net/Timer.cpp and Timer.h. The fuel of the loop is the number of events and
--     one more; a callback that stays gets a later time, so no event is due twice.
--   ThreadsafeQueue: threadsafe_queue.h.
--   TaskScheduler: the trigger events of rtsp-server/net/TaskScheduler.cpp, over the ring buffer.
--   Prelude: the names that all modules share, and lemmas on lists and binary digits.
--
-- Numbers are natural numbers; where the source assigns to 8, 16 or 32 bits, the remainder is written.
-- The word that the start code search loads is the one of a little-endian machine. Fuel: the scans have
-- as much as the frame is long, and the loops of `HandleFrame` one step for each unit and for each byte
-- of a unit or frame, which the theorems stated of them show to be enough. The remaining loops are
-- recursions on lists.
--
-- Numbers that are printed have at most 20 digits, which is enough for 64 bits; `strtoul` and `strtol`
-- are those of 64-bit machines.
--
-- Not modelled: SDP texts and clocks of the sources, and the description of a session; descriptors and
-- addresses of sockets; the RTCP sockets, but for their channels; a multicast RTP connection as an object
-- that several clients share; the pusher's connecting and closing; the fan-out of a frame to the clients; the
-- hash and the random numbers; the schedulers; the host application's glue and dialogs.
pub mod Prelude
pub mod Nal
pub mod NalUnit
pub mod Rtp
pub mod Packetizer
pub mod H264
pub mod H265
pub mod ByteOrder
pub mod BufferReader
pub mod BufferWriter
pub mod RtpConnection
pub mod Sources
pub mod MemoryPool
pub mod RingBuffer
pub mod MediaSession
pub mod Text
pub mod RtspRequest
pub mod RtspResponse
pub mod RtspServer
pub mod DigestAuthentication
pub mod RtspConnection
pub mod ThreadsafeQueue
pub mod TimerQueue
pub mod Rtsp
pub mod TaskScheduler
