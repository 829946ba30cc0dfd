-- ===== src/RtspResponse/RoundTrip.antt =====
-- A request as the pusher builds it is what the server's parser reads.
use obs_rtspserver.Prelude.{
  ℕ, zero, suc, ◌+◌, ◌-◌, ◌<◌, ◌≡◌, refl, sym, ap, ◌∙◌, Bool, true, false, some, List, [], ◌∷◌,
  ◌++◌, append_assoc, arith, length, length-append, ◌==◌, drop, drop-add, take, take-past,
  take-length-append, drop-length-append, get_or,
}
use obs_rtspserver.BufferReader.{
  BufferReader, readable, retrieve, search, find_end, find_first_crlf, find_last_crlf,
}
use obs_rtspserver.BufferReader.Queue.{IsValid, readable-retrieve}
use obs_rtspserver.Text.{codes, c_str}
use obs_rtspserver.Text.Facts.{all_bytes, not_cr, search-line, find_end-append}
use obs_rtspserver.Text.Params.{text_param}
use obs_rtspserver.RtspRequest.{
  options, method_text, RtspRequest, parse_request_line_state, parse_headers_line_state, returned,
  parse_request_line, get_rtsp_url, get_rtsp_url_suffix, get_cseq, got_all,
}
use obs_rtspserver.RtspRequest.Urls.{
  is_host, is_suffix, print_url, print_url-word, length-print_number,
}
use obs_rtspserver.RtspRequest.Lines.{length-c_str}
use obs_rtspserver.Text.Words.{is_visible}
use obs_rtspserver.Text.Decimal.{print_number}
use obs_rtspserver.RtspRequest.RoundTrip.{
  print_line-not_cr, c_str-visible, parse_request_line-print_line,
}
use obs_rtspserver.RtspRequest.Cseq.{cseq_line, is_simple, parse_headers_line-cseq_line}
use obs_rtspserver.RtspResponse.{RtspResponse, build_option_req, next_cseq}
use obs_rtspserver.RtspRequest.Headers.{parse_headers_line}
use obs_rtspserver.RtspRequest.Parse.{
  parse_request, parse_rounds, parse_line_round, parse_headers_round, after_line, next_round,
  after_headers,
}

-- The first readable byte is the one that `Peek()` points to.
get_or-first :
    (xs : List ℕ) (r n c : ℕ) (cs : List ℕ) → take n (drop r xs) ≡ c ∷ cs → get_or xs r 0 ≡ c
get_or-first xs r zero c cs h = absurd (grind (arith, h))
get_or-first [] zero (suc n) c cs h = absurd (grind (arith, h))
get_or-first [] (suc r) (suc n) c cs h = absurd (grind (arith, h))
get_or-first (x ∷ xs) zero (suc n) c cs h = grind (arith, h)
get_or-first (x ∷ xs) (suc r) (suc n) c cs h = get_or-first xs r (suc n) c cs h

-- A line is cut off the buffer.
cut_line :
    (b : BufferReader) (line rest : List ℕ)
    → IsValid b
    → readable b ≡ line ++ (13 ∷ 10 ∷ rest)
    → (take (length line) (readable b) ≡ line)
      × (readable (retrieve (length line + 2) b) ≡ rest)
      × IsValid (retrieve (length line + 2) b)
cut_line b line rest v e =
    let (v', f) = readable-retrieve (length line + 2) b v in
    (
      ap (take (length line)) e ∙ take-length-append line (13 ∷ 10 ∷ rest),
      f
          ∙ (sym (drop-add (length line) 2 (readable b))
              ∙ ap (drop 2) (ap (drop (length line)) e ∙ drop-length-append line (13 ∷ 10 ∷ rest))),
      v',
    )

headers_round-lines :
    (b : BufferReader) (headers : List ℕ) (r r' : RtspRequest) (ret : Bool)
    → IsValid b
    → readable b ≡ headers ++ (13 ∷ 10 ∷ [])
    → parse_headers_line headers r ≡ returned (r', true)
    → (b' : BufferReader) × (parse_headers_round b r ret ≡ returned (b', r', true))
      × (readable b' ≡ [])
      × IsValid b'
unfolding parse_headers_round find_last_crlf
headers_round-lines b headers r r' ret v rd ph =
    let (taken, left, v') = cut_line b headers [] v rd in
    let found : find_end (readable b) ≡ some (length headers) =
      ap find_end rd ∙ find_end-append headers in
    (
      retrieve (length headers + 2) b,
      rw (found, parse_headers_round)
          (ap (λ t. after_headers (retrieve (length headers + 2) b) (parse_headers_line t r)) taken
            ∙ ap (after_headers (retrieve (length headers + 2) b)) ph),
      left,
      v',
    )

line_round-lines :
    (b : BufferReader) (line rest : List ℕ) (r r' : RtspRequest)
    → readable b ≡ line ++ (13 ∷ 10 ∷ rest)
    → IsValid b
    → all_bytes not_cr line ≡ true
    → parse_request_line line r ≡ returned (r', true)
    → r'.state ≡ parse_headers_line_state
    → parse_line_round b r ≡ parse_headers_round (retrieve (length line + 2) b) r' true
unfolding parse_line_round find_first_crlf after_line next_round
line_round-lines b line rest r r' rd v nc pl st =
    let (taken, left, v') = cut_line b line rest v rd in
    let found : search (readable b) ≡ some (length line) =
      ap search rd ∙ search-line line rest nc in
    rw (found, parse_line_round)
      (ap (λ t. after_line (retrieve (length line + 2) b) (parse_request_line t r)) taken
        ∙ (ap (after_line (retrieve (length line + 2) b)) pl
            ∙ ap (λ s. next_round s (retrieve (length line + 2) b) r' true) st))

parse_request-line_round :
    (b : BufferReader) (c : ℕ) (cs : List ℕ) (r : RtspRequest)
    → readable b ≡ c ∷ cs
    → (c == b'$') ≡ false
    → r.state ≡ parse_request_line_state
    → parse_request b r ≡ parse_line_round b r
unfolding parse_request parse_rounds
parse_request-line_round b c cs r rd nd st =
    rw (get_or-first b.buffer b.reader_index (b.writer_index - b.reader_index) c cs rd, nd)
      (ap (λ s. parse_rounds s b r) st)

-- A line, and header lines that end in a CRLF, are taken from the buffer at once.
pub parse_request-lines :
    (b : BufferReader) (c : ℕ) (line headers : List ℕ) (r r' r'' : RtspRequest)
    → IsValid b
    → readable b ≡ (c ∷ line) ++ (13 ∷ 10 ∷ (headers ++ (13 ∷ 10 ∷ [])))
    → (c == b'$') ≡ false
    → all_bytes not_cr (c ∷ line) ≡ true
    → r.state ≡ parse_request_line_state
    → parse_request_line (c ∷ line) r ≡ returned (r', true)
    → r'.state ≡ parse_headers_line_state
    → parse_headers_line headers r' ≡ returned (r'', true)
    → (b' : BufferReader) × (parse_request b r ≡ returned (b', r'', true))
      × (readable b' ≡ [])
      × IsValid b'
parse_request-lines b c line headers r r' r'' v rd nd nc st pl st' ph =
    let (taken, left, v1) = cut_line b (c ∷ line) (headers ++ (13 ∷ 10 ∷ [])) v rd in
    let (b', e, done, v2) =
      headers_round-lines (retrieve (length (c ∷ line) + 2) b) headers r' r'' true v1 left ph in
    (
      b',
      parse_request-line_round b c (line ++ (13 ∷ 10 ∷ (headers ++ (13 ∷ 10 ∷ [])))) r rd nd st
          ∙ (line_round-lines b (c ∷ line) (headers ++ (13 ∷ 10 ∷ [])) r r' rd v nc pl st' ∙ e),
      done,
      v2,
    )

-- The line behind the number.
abbrev agent_line : List ℕ → List ℕ
agent_line agent = codes "\r\nUser-Agent: " ++ (c_str agent ++ codes "\r\n")

-- The request line without its first byte.
abbrev option_line : List ℕ → List ℕ
option_line url = codes "PTIONS " ++ (url ++ codes " RTSP/1.0")

lines-text :
    (url number agent : List ℕ)
    → option_line url
        ++ (13
            ∷ 10
            ∷ ((codes "CSeq: " ++ (number ++ (codes "\r\nUser-Agent: " ++ (agent ++ codes "\r\n"))))
                ++ codes "\r\n"))
      ≡ codes "PTIONS "
        ++ (url
            ++ (codes " RTSP/1.0\r\nCSeq: "
                ++ (number ++ (codes "\r\nUser-Agent: " ++ (agent ++ codes "\r\n\r\n")))))
lines-text url number agent =
    ap (λ z. codes "PTIONS " ++ z)
      (append_assoc url (codes " RTSP/1.0") (
          13
          ∷ 10
          ∷ ((codes "CSeq: " ++ (number ++ (codes "\r\nUser-Agent: " ++ (agent ++ codes "\r\n"))))
              ++ codes "\r\n"))
        ∙ ap (λ z. url ++ (codes " RTSP/1.0\r\nCSeq: " ++ z))
            (append_assoc number (codes "\r\nUser-Agent: " ++ (agent ++ codes "\r\n"))
                (codes "\r\n")
              ∙ ap (λ z. number ++ (codes "\r\nUser-Agent: " ++ z))
                  (append_assoc agent (codes "\r\n") (codes "\r\n"))))

-- The built request fits its buffer.
build_option_req-lines :
    (p : RtspResponse) (url : List ℕ)
    → p.rtsp_url ≡ url
    → all_bytes is_visible url ≡ true
    → length url < 200
    → length p.user_agent < 1025
    → (build_option_req 2048 p).1
      ≡ (79 ∷ option_line url)
        ++ (13 ∷ 10 ∷ (cseq_line (next_cseq p) (agent_line p.user_agent) ++ (13 ∷ 10 ∷ [])))
unfolding build_option_req
build_option_req-lines p url e visible short ua =
    ap (λ z. take 2047 (79 ∷ (codes "PTIONS " ++ (z ++ behind))))
      (ap c_str e ∙ c_str-visible url visible)
    ∙ (take-past 2047 (79 ∷ (codes "PTIONS " ++ (url ++ behind))) (
          omega (
            arith,
            short,
            ua,
            length-append {0} url behind,
            length-append {0} (print_number (next_cseq p))
                (codes "\r\nUser-Agent: " ++ (c_str p.user_agent ++ codes "\r\n\r\n")),
            length-append {0} (c_str p.user_agent) (codes "\r\n\r\n"),
            length-print_number (next_cseq p),
            length-c_str p.user_agent,
          ))
        ∙ ap (◌∷◌ 79) (sym (lines-text url (print_number (next_cseq p)) (c_str p.user_agent))))
  where
    behind : List ℕ
    behind =
        codes " RTSP/1.0\r\nCSeq: "
        ++ (print_number (next_cseq p)
            ++ (codes "\r\nUser-Agent: " ++ (c_str p.user_agent ++ codes "\r\n\r\n")))

-- What a server with a new request knows after it has read `BuildOptionReq` of the pusher.
pub record IsRead (n : ℕ) (url suffix : List ℕ) (r : RtspRequest) : Type 0 where
  pub has_method : r.method ≡ options
  pub has_url : get_rtsp_url r ≡ url
  pub has_suffix : get_rtsp_url_suffix r ≡ suffix
  pub has_cseq : get_cseq r ≡ n
  pub is_complete : got_all r ≡ true

-- A buffer that holds exactly the request which `BuildOptionReq` builds for a URL
-- `rtsp://host:port/suffix` is read to the end by `ParseRequest` of a new request. The request is then
-- complete: its method is OPTIONS, it has that URL and that suffix, and its number is the one behind
-- that of the pusher's last response. Host and suffix have at most 63 bytes, none of them white space
-- or a control character; the host is not empty, is not in brackets and has no colon; the user agent
-- has at most 1024 bytes.
pub parse_request-build_option_req :
    (p : RtspResponse) (host suffix : List ℕ) (port : ℕ) (b : BufferReader) (r : RtspRequest)
    → is_host host ≡ true
    → port < 65536
    → is_suffix suffix ≡ true
    → p.rtsp_url ≡ print_url host port suffix
    → length p.user_agent < 1025
    → IsValid b
    → readable b ≡ (build_option_req 2048 p).1
    → r.state ≡ parse_request_line_state
    → r.request_line_param ≡ []
    → r.header_line_param ≡ []
    → (b' : BufferReader) × (r' : RtspRequest) × (parse_request b r ≡ returned (b', r', true))
      × (readable b' ≡ [])
      × IsRead (next_cseq p) p.rtsp_url suffix r'
unfolding build_option_req method_text get_rtsp_url get_rtsp_url_suffix
parse_request-build_option_req p host suffix port b r ih ip is url ua v rd st rp hp =
    let (visible, short) = print_url-word host port suffix ih is in
    let (r1, e1, l1) =
      parse_request_line-print_line options host suffix (codes "RTSP/1.0") port r refl ih ip is refl
        rp in
    let (r2, e2, l2) =
      parse_headers_line-cseq_line (next_cseq p) (agent_line p.user_agent) r1 (omega arith) refl
        (ap is_simple l1.has_method) (l1.same_headers ∙ hp) in
    let (b', e3, done, v') =
      parse_request-lines b 79 (option_line (print_url host port suffix))
        (cseq_line (next_cseq p) (agent_line p.user_agent)) r r1 r2 v
        (rd ∙ build_option_req-lines p (print_url host port suffix) url visible short ua) refl
        (print_line-not_cr options (print_url host port suffix) (codes "RTSP/1.0") refl visible
          refl)
        st e1 l1.has_state e2 in
    (
      b',
      r2,
      e3,
      done,
      record {
        has_method = l2.same_method ∙ l1.has_method;
        has_url = ap (text_param "url") l2.same_line ∙ (l1.has_url ∙ sym url);
        has_suffix = ap (text_param "url_suffix") l2.same_line ∙ l1.has_suffix;
        has_cseq = l2.numbered;
        is_complete = l2.complete;
      },
    )
