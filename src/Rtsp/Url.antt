-- ===== src/Rtsp/Url.antt =====
-- The pusher and the server read the same parts from a URL.
use obs_rtspserver.Prelude.{
  ℕ, ◌<◌, ◌≡◌, refl, sym, ap, ◌∙◌, true, none, some, List, [], ◌∷◌, ◌++◌, arith, drop, ◌==◌,
}
use obs_rtspserver.Text.Decimal.{print_number}
use obs_rtspserver.RtspRequest.{returned, try_format, host_format, without_port, parse_url}
use obs_rtspserver.RtspRequest.Urls.{
  is_host, is_suffix, print_url, print_url-word, formats-print_url, parse_url-print_url,
}
use obs_rtspserver.RtspRequest.RoundTrip.{c_str-visible}
use obs_rtspserver.Rtsp.{Rtsp, parse_pusher_url, store_parts_of, parse_rtsp_url}

parse_pusher_url-print_url :
    (host : List ℕ) (port c : ℕ) (cs : List ℕ)
    → is_host host ≡ true
    → port < 65536
    → is_suffix (c ∷ cs) ≡ true
    → parse_pusher_url (host ++ (b':' ∷ (print_number port ++ (b'/' ∷ c ∷ cs))))
      ≡ returned (some (host, port, c ∷ cs))
unfolding parse_pusher_url
parse_pusher_url-print_url [] port c cs p q s = absurd (ground (arith, p))
parse_pusher_url-print_url (h ∷ hs) port c cs p q s =
    formats-print_url 100 h hs port (c ∷ cs) (λ n. n == 3) (λ n. n == 2) (λ n. n == 3)
      (try_format (host_format 100) (λ n. n == 2) without_port (returned none)
        (h ∷ (hs ++ (b':' ∷ (print_number port ++ (b'/' ∷ c ∷ cs))))))
      (omega arith) p q s refl refl refl

-- For a URL `rtsp://host:port/suffix` with a suffix that is not empty: `ParseRtspUrl` of the pusher and
-- the tests of `ParseRequestLine` of the server read the same parts, and the pusher keeps them. The
-- host is not empty, is not in brackets and has no colon; host and suffix have at most 63 bytes and
-- neither white space nor control characters.
pub parse_rtsp_url-parse_url :
    (host : List ℕ) (port c : ℕ) (cs : List ℕ) (r : Rtsp)
    → is_host host ≡ true
    → port < 65536
    → is_suffix (c ∷ cs) ≡ true
    → (parse_pusher_url (drop 7 (print_url host port (c ∷ cs)))
        ≡ parse_url (drop 7 (print_url host port (c ∷ cs))))
      × (parse_rtsp_url (print_url host port (c ∷ cs)) r
          ≡ returned (
            record r {
              url = print_url host port (c ∷ cs);
              ip = host;
              port = port;
              suffix = c ∷ cs;
            },
            true,
          ))
unfolding parse_rtsp_url store_parts_of
parse_rtsp_url-parse_url host port c cs r p q s = (
  parse_pusher_url-print_url host port c cs p q s
      ∙ sym (parse_url-print_url host port (c ∷ cs) p q s),
  ap (λ t. store_parts_of (print_url host port (c ∷ cs)) r (parse_pusher_url (drop 7 t)))
        (c_str-visible (print_url host port (c ∷ cs)) (print_url-word host port (c ∷ cs) p s).0)
      ∙ ap (store_parts_of (print_url host port (c ∷ cs)) r)
          (parse_pusher_url-print_url host port c cs p q s),
)
