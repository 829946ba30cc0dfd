-- ===== src/RtspRequest/Respond.antt =====
-- rtsp-server/xop/RtspMessage.cpp: the responses to a request. An argument `const char *` is the bytes
-- in front of its NUL; the result is the bytes in front of the NUL that `strlen` finds in `buf`.
use obs_rtspserver.Prelude.{ℕ, ◌-◌, Option, none, some, List, ◌++◌, length, take}
use obs_rtspserver.Text.{codes}
use obs_rtspserver.Text.Decimal.{print_number, print_signed}
use obs_rtspserver.RtspRequest.{RtspRequest, get_cseq, get_host, get_rtp_port, get_rtcp_port}

-- `memset` and `snprintf` into a buffer of `size` bytes, of which the last one stays 0.
abbrev pub snprintf : ℕ → List ℕ → List ℕ
snprintf size t = take (size - 1) t

-- A further `snprintf` behind what stands in the buffer.
abbrev pub snprintf_behind : ℕ → List ℕ → List ℕ → List ℕ
snprintf_behind size t more = t ++ take (size - length t - 1) more

unfoldable pub build_option_res : ℕ → RtspRequest → List ℕ
unfolding get_cseq print_number
build_option_res size r = snprintf size (
    codes "RTSP/1.0 200 OK\r\nCSeq: "
    ++ (print_number (get_cseq r)
        ++ codes "\r\nPublic: OPTIONS, DESCRIBE, SETUP, TEARDOWN, PLAY\r\n\r\n"))

unfoldable pub build_describe_res : ℕ → List ℕ → RtspRequest → List ℕ
unfolding get_cseq print_number
build_describe_res size sdp r = snprintf size (
    codes "RTSP/1.0 200 OK\r\nCSeq: "
    ++ (print_number (get_cseq r)
        ++ (codes "\r\nContent-Length: "
            ++ (print_number (length sdp)
                ++ (codes "\r\nContent-Type: application/sdp\r\n\r\n" ++ sdp)))))

unfoldable pub build_setup_multicast_res : ℕ → List ℕ → ℕ → ℕ → RtspRequest → List ℕ
unfolding get_cseq get_host print_number
build_setup_multicast_res size multicast_ip port session_id r = snprintf size (
    codes "RTSP/1.0 200 OK\r\nCSeq: "
    ++ (print_number (get_cseq r)
        ++ (codes "\r\nTransport: RTP/AVP;multicast;destination="
            ++ (multicast_ip
                ++ (codes ";source="
                    ++ (get_host r
                        ++ (codes ";port="
                            ++ (print_number port
                                ++ (codes "-0;ttl=255\r\nSession: "
                                    ++ (print_number session_id ++ codes "\r\n\r\n"))))))))))

unfoldable pub build_setup_udp_res : ℕ → ℕ → ℕ → ℕ → RtspRequest → List ℕ
unfolding get_cseq get_rtp_port get_rtcp_port print_number
build_setup_udp_res size rtp_chn rtcp_chn session_id r = snprintf size (
    codes "RTSP/1.0 200 OK\r\nCSeq: "
    ++ (print_number (get_cseq r)
        ++ (codes "\r\nTransport: RTP/AVP;unicast;client_port="
            ++ (print_number (get_rtp_port r)
                ++ (codes "-"
                    ++ (print_number (get_rtcp_port r)
                        ++ (codes ";server_port="
                            ++ (print_number rtp_chn
                                ++ (codes "-"
                                    ++ (print_number rtcp_chn
                                        ++ (codes "\r\nSession: "
                                            ++ (print_number session_id
                                                ++ codes "\r\n\r\n"))))))))))))

unfoldable pub build_setup_tcp_res : ℕ → ℕ → ℕ → ℕ → RtspRequest → List ℕ
unfolding get_cseq print_number
build_setup_tcp_res size rtp_chn rtcp_chn session_id r = snprintf size (
    codes "RTSP/1.0 200 OK\r\nCSeq: "
    ++ (print_number (get_cseq r)
        ++ (codes "\r\nTransport: RTP/AVP/TCP;unicast;interleaved="
            ++ (print_number rtp_chn
                ++ (codes "-"
                    ++ (print_number rtcp_chn
                        ++ (codes "\r\nSession: "
                            ++ (print_number session_id ++ codes "\r\n\r\n"))))))))

-- `rtp_info` is `none` where the pointer is null.
unfoldable pub build_play_res : ℕ → Option (List ℕ) → ℕ → RtspRequest → List ℕ
unfolding get_cseq print_number print_signed
build_play_res size rtp_info session_id r =
    let start = snprintf size (
      codes "RTSP/1.0 200 OK\r\nCSeq: "
      ++ (print_signed (get_cseq r)
          ++ (codes "\r\nRange: npt=0.000-\r\nSession: "
              ++ (print_number session_id ++ codes "; timeout=60\r\n")))) in
    let middle : List ℕ = elim rtp_info [
      | none ↦ start
      | some info ↦ snprintf_behind size start (info ++ codes "\r\n")
    ] in
    snprintf_behind size middle (codes "\r\n")

unfoldable pub build_teardown_res : ℕ → ℕ → RtspRequest → List ℕ
unfolding get_cseq print_number print_signed
build_teardown_res size session_id r = snprintf size (
    codes "RTSP/1.0 200 OK\r\nCSeq: "
    ++ (print_signed (get_cseq r)
        ++ (codes "\r\nSession: " ++ (print_number session_id ++ codes "\r\n\r\n"))))

unfoldable pub build_get_paramter_res : ℕ → ℕ → RtspRequest → List ℕ
unfolding get_cseq print_number print_signed
build_get_paramter_res size session_id r = snprintf size (
    codes "RTSP/1.0 200 OK\r\nCSeq: "
    ++ (print_signed (get_cseq r)
        ++ (codes "\r\nSession: " ++ (print_number session_id ++ codes "\r\n\r\n"))))

unfoldable pub build_not_found_res : ℕ → RtspRequest → List ℕ
unfolding get_cseq print_number
build_not_found_res size r =
    snprintf size
      (codes "RTSP/1.0 404 Not Found\r\nCSeq: " ++ (print_number (get_cseq r) ++ codes "\r\n\r\n"))

unfoldable pub build_server_error_res : ℕ → RtspRequest → List ℕ
unfolding get_cseq print_number
build_server_error_res size r = snprintf size (
    codes "RTSP/1.0 500 Internal Server Error\r\nCSeq: "
    ++ (print_number (get_cseq r) ++ codes "\r\n\r\n"))

unfoldable pub build_unsupported_res : ℕ → RtspRequest → List ℕ
unfolding get_cseq print_signed
build_unsupported_res size r = snprintf size (
    codes "RTSP/1.0 461 Unsupported transport\r\nCSeq: "
    ++ (print_signed (get_cseq r) ++ codes "\r\n\r\n"))

unfoldable pub build_unauthorized_res : ℕ → List ℕ → List ℕ → RtspRequest → List ℕ
unfolding get_cseq print_signed
build_unauthorized_res size realm nonce r = snprintf size (
    codes "RTSP/1.0 401 Unauthorized\r\nCSeq: "
    ++ (print_signed (get_cseq r)
        ++ (codes "\r\nWWW-Authenticate: Digest realm=\""
            ++ (realm ++ (codes "\", nonce=\"" ++ (nonce ++ codes "\"\r\n\r\n"))))))
