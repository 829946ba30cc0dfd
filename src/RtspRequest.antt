-- ===== src/RtspRequest.antt =====
-- rtsp-server/xop/RtspMessage.h and RtspMessage.cpp, class RtspRequest: its state, its getters and the
-- request line. The child modules have the header lines, `ParseRequest` and the responses.
use Prim.Native.String.{String}
mod Tests
pub mod Headers
pub mod Parse
pub mod Respond
pub mod Replies
pub mod Outcomes
pub mod Cseq
pub mod RoundTrip
pub mod Urls
pub mod Lines
use obs_rtspserver.Prelude.{
  ℕ, ◌%◌, Bool, true, false, Option, none, some, List, [], ◌∷◌, drop, leb, ◌==◌, if◌then◌else◌,
  length,
}
use obs_rtspserver.Text.{codes, c_str, equal_text, starts_with}
use obs_rtspserver.Text.Params.{Params, find_param, emplace, text_param, number_param}
use obs_rtspserver.Text.Scan.{
  Directive, literal, until, space, word, unsigned_word, Value, sscanf, text_at, number_at,
}
use obs_rtspserver.RtpConnection.{TransportMode}

-- `Method`
pub data Method : Type 0 where
  options describe setup play teardown get_parameter rtcp no_method : Method

-- `RtspRequestParseState`
pub data ParseState : Type 0 where
  parse_request_line_state parse_headers_line_state got_all_state : ParseState

-- `method_`, `channel_id_` and `transport_` have no initial value.
pub record RtspRequest : Type 0 where
  pub method : Method
  pub channel_id : ℕ
  pub transport : TransportMode
  pub auth_response : List ℕ
  pub request_line_param : Params
  pub header_line_param : Params
  pub state : ParseState

-- How a call ends: it returns, an array on the stack is written past its end, or it throws
-- `std::out_of_range`.
pub data Outcome {ℓ} (A : Type ℓ) : Type ℓ where
  returned : A → Outcome A
  stack_overrun out_of_range : Outcome A

-- `MethodToString`
unfoldable pub method_text : Method → List ℕ
method_text options = codes "OPTIONS"
method_text describe = codes "DESCRIBE"
method_text setup = codes "SETUP"
method_text play = codes "PLAY"
method_text teardown = codes "TEARDOWN"
method_text get_parameter = codes "GET_PARAMETER"
method_text rtcp = codes "RTCP"
method_text no_method = codes "NONE"

abbrev pub is_got_all : ParseState → Bool
is_got_all got_all_state = true
is_got_all s = false

-- `GotAll`
unfoldable pub got_all : RtspRequest → Bool
got_all r = is_got_all r.state

unfoldable pub reset : RtspRequest → RtspRequest
reset r = record r {
  state = parse_request_line_state;
  request_line_param = [];
  header_line_param = [];
}

unfoldable pub get_cseq : RtspRequest → ℕ
get_cseq r = number_param "cseq" r.header_line_param

-- `GetHost` looks up a name that nothing stores.
unfoldable pub get_host : RtspRequest → List ℕ
get_host r = text_param "url_ip" r.request_line_param

unfoldable pub get_rtsp_url : RtspRequest → List ℕ
get_rtsp_url r = text_param "url" r.request_line_param

unfoldable pub get_rtsp_url_suffix : RtspRequest → List ℕ
get_rtsp_url_suffix r = text_param "url_suffix" r.request_line_param

unfoldable pub get_rtp_channel : RtspRequest → ℕ
get_rtp_channel r = number_param "rtp_channel" r.header_line_param % 256

unfoldable pub get_rtcp_channel : RtspRequest → ℕ
get_rtcp_channel r = number_param "rtcp_channel" r.header_line_param % 256

unfoldable pub get_rtp_port : RtspRequest → ℕ
get_rtp_port r = number_param "rtp_port" r.header_line_param % 65536

unfoldable pub get_rtcp_port : RtspRequest → ℕ
get_rtcp_port r = number_param "rtcp_port" r.header_line_param % 65536

-- The comparisons of `method_str`.
unfoldable pub method_of : List ℕ → Option Method
method_of t =
    if equal_text t (codes "OPTIONS")
    then some options
    else if equal_text t (codes "DESCRIBE")
    then some describe
    else if equal_text t (codes "SETUP")
    then some setup
    else if equal_text t (codes "PLAY")
    then some play
    else if equal_text t (codes "TEARDOWN")
    then some teardown
    else if equal_text t (codes "GET_PARAMETER")
    then some get_parameter
    else none

-- A host, a port and a suffix, if any of the formats fits.
abbrev pub UrlParts : Type 0
UrlParts = Option (List ℕ × ℕ × List ℕ)

-- One of the tests `sscanf(url, ...) >= n`, with what is kept if it holds and the tests behind it.
abbrev pub try_format :
    List Directive
    → (ℕ → Bool)
    → (List Value → List ℕ × ℕ × List ℕ)
    → Outcome UrlParts
    → List ℕ
    → Outcome UrlParts
try_format format enough keep others url = elim (sscanf format url) [
  | none ↦ stack_overrun
  | some vs ↦ if enough (length vs) then returned (some (keep vs)) else others
]

-- The formats of a URL behind `rtsp://`, for arrays of `size` bytes.
abbrev pub ipv6_port_format : ℕ → List Directive
ipv6_port_format size =
    literal b'['
    ∷ until b']' size
    ∷ literal b']'
    ∷ literal b':'
    ∷ unsigned_word 16
    ∷ literal b'/'
    ∷ word size
    ∷ []

abbrev pub ipv6_format : ℕ → List Directive
ipv6_format size = literal b'[' ∷ until b']' size ∷ literal b']' ∷ literal b'/' ∷ word size ∷ []

abbrev pub host_port_format : ℕ → List Directive
host_port_format size =
    until b':' size ∷ literal b':' ∷ unsigned_word 16 ∷ literal b'/' ∷ word size ∷ []

abbrev pub host_format : ℕ → List Directive
host_format size = until b'/' size ∷ literal b'/' ∷ word size ∷ []

abbrev pub with_port : List Value → List ℕ × ℕ × List ℕ
with_port vs = (text_at 0 vs, number_at 1 vs, text_at 2 vs)

abbrev pub without_port : List Value → List ℕ × ℕ × List ℕ
without_port vs = (text_at 0 vs, 554, text_at 1 vs)

-- The four tests of the URL behind `rtsp://`.
unfoldable pub parse_url : List ℕ → Outcome UrlParts
parse_url url =
    try_format (ipv6_port_format 64) (leb 2) with_port
      (try_format (ipv6_format 64) (leb 1) without_port
        (try_format (host_port_format 64) (leb 2) with_port
          (try_format (host_format 64) (leb 1) without_port (returned none) url) url)
        url)
      url

abbrev pub store_parts :
    List ℕ → List ℕ → List ℕ → RtspRequest → Outcome UrlParts → Outcome (RtspRequest × Bool)
store_parts method url version r stack_overrun = stack_overrun
store_parts method url version r out_of_range = out_of_range
store_parts method url version r (returned none) = returned (r, false)
store_parts method url version r (returned (some (host, port, suffix))) = returned (
  record r {
    request_line_param =
        emplace "method" (method, 0)
          (emplace "version" (version, 0)
            (emplace "url_suffix" (suffix, 0)
              (emplace "url_port" ([], port)
                (emplace "url_host" (host, 0) (emplace "url" (url, 0) r.request_line_param)))));
    state = parse_headers_line_state;
  },
  true,
)

-- The end of `ParseRequestLine`, for a known method.
unfoldable pub store_url : List ℕ → List ℕ → List ℕ → RtspRequest → Outcome (RtspRequest × Bool)
unfolding parse_url
store_url method url version r =
    if starts_with (codes "rtsp://") url
    then store_parts method url version r (parse_url (drop 7 url))
    else returned (r, false)

abbrev pub request_line_format : List Directive
request_line_format = word 64 ∷ space ∷ word 512 ∷ space ∷ word 64 ∷ []

-- The three words, and the method that the first one names.
unfoldable pub store_words : List Value → Option Method → RtspRequest → Outcome (RtspRequest × Bool)
unfolding store_url
store_words vs none r = returned (record r { method = no_method }, false)
store_words vs (some m) r =
    store_url (text_at 0 vs) (text_at 1 vs) (text_at 2 vs) (record r { method = m })

unfoldable pub parse_request_line : List ℕ → RtspRequest → Outcome (RtspRequest × Bool)
unfolding method_of store_words
parse_request_line message r = elim (sscanf request_line_format (c_str message)) [
  | none ↦ stack_overrun
  | some vs ↦
      if length vs == 3 then store_words vs (method_of (text_at 0 vs)) r else returned (r, true)
]
