-- ===== src/Rtsp/Tests.antt =====
-- A pusher's URL, and the witness.
use obs_rtspserver.Prelude.{ℕ, ◌≡◌, refl, true, false, List, [], arith, drop}
use obs_rtspserver.Text.{codes}
use obs_rtspserver.Text.Decimal.{print_number}
use obs_rtspserver.RtspRequest.{returned, parse_url}
use obs_rtspserver.Rtsp.{Rtsp, parse_pusher_url, parse_rtsp_url}
use obs_rtspserver.Rtsp.Url.{parse_rtsp_url-parse_url}

abbrev blank_rtsp : Rtsp
blank_rtsp = record {
  has_auth_info = false;
  realm = [];
  username = [];
  password = [];
  version = [];
  url = [];
  ip = [];
  port = 0;
  suffix = [];
}

abbrev live_url : List ℕ
live_url = codes "rtsp://10.0.0.1:8554/live"

parse_rtsp_url-parse_url_example :
    (parse_pusher_url (drop 7 live_url) ≡ parse_url (drop 7 live_url))
    × (parse_rtsp_url live_url blank_rtsp
        ≡ returned (
          record blank_rtsp {
            url = live_url;
            ip = codes "10.0.0.1";
            port = 8554;
            suffix = codes "live";
          },
          true,
        ))
unfolding print_number
parse_rtsp_url-parse_url_example =
    parse_rtsp_url-parse_url (codes "10.0.0.1") 8554 b'l' (codes "ive") blank_rtsp refl
      (omega arith) refl
