-- ===== src/RtspRequest/RoundTrip.antt =====
-- A printed request line is parsed back.
use obs_rtspserver.Prelude.{
  ℕ, ◌<◌, ◌≡◌, refl, sym, ap, ◌∙◌, Bool, true, false, some, List, [], ◌∷◌, ◌++◌, append-nil, arith,
  length, leb, ltb, lt→ltb,
}
use obs_rtspserver.Text.{c_str}
use obs_rtspserver.Text.Facts.{
  all_bytes, all_bytes-append, all_bytes-weaken, and-left, c_str-append, not_cr,
}
use obs_rtspserver.Text.Words.{is_visible, is_word, sscanf-three_words}
use obs_rtspserver.Text.Scan.{text, sscanf}
use obs_rtspserver.RtspRequest.{
  Method, options, describe, setup, play, teardown, get_parameter, rtcp, no_method, RtspRequest,
  parse_headers_line_state, returned, method_of, method_text, request_line_format, store_parts,
  store_url, store_words, parse_request_line, get_rtsp_url, get_rtsp_url_suffix,
}
use obs_rtspserver.RtspRequest.Urls.{
  is_host, is_suffix, print_url, print_url-word, parse_url-print_url,
}

-- The methods that a request line can name.
abbrev pub is_request : Method → Bool
is_request rtcp = false
is_request no_method = false
is_request m = true

method_text-word : (m : Method) → is_request m ≡ true → is_word 64 (method_text m) ≡ true
unfolding method_text
method_text-word options h = refl
method_text-word describe h = refl
method_text-word setup h = refl
method_text-word play h = refl
method_text-word teardown h = refl
method_text-word get_parameter h = refl
method_text-word rtcp h = absurd (ground (arith, h))
method_text-word no_method h = absurd (ground (arith, h))

method_of-method_text : (m : Method) → is_request m ≡ true → method_of (method_text m) ≡ some m
unfolding method_text method_of
method_of-method_text options h = refl
method_of-method_text describe h = refl
method_of-method_text setup h = refl
method_of-method_text play h = refl
method_of-method_text teardown h = refl
method_of-method_text get_parameter h = refl
method_of-method_text rtcp h = absurd (ground (arith, h))
method_of-method_text no_method h = absurd (ground (arith, h))

word-visible : (size : ℕ) (t : List ℕ) → is_word size t ≡ true → all_bytes is_visible t ≡ true
word-visible size [] h = absurd (ground (arith, h))
word-visible size (c ∷ cs) h =
    and-left (all_bytes is_visible (c ∷ cs)) (ltb (length (c ∷ cs)) size) h

visible-not_nul : (c : ℕ) → is_visible c ≡ true → leb 1 c ≡ true
visible-not_nul c h = ground (arith, h)

c_str-word : (t rest : List ℕ) → all_bytes is_visible t ≡ true → c_str (t ++ rest) ≡ t ++ c_str rest
c_str-word t rest h = c_str-append t rest (all_bytes-weaken is_visible (leb 1) visible-not_nul t h)

-- `METHOD rtsp://host:port/suffix VERSION`
abbrev pub print_line : Method → List ℕ → List ℕ → List ℕ
print_line m url version = method_text m ++ (32 ∷ (url ++ (32 ∷ version)))

pub c_str-visible : (t : List ℕ) → all_bytes is_visible t ≡ true → c_str t ≡ t
c_str-visible t h = ap c_str (sym (append-nil t)) ∙ (c_str-word t [] h ∙ append-nil t)

c_str-line :
    (t u v : List ℕ)
    → all_bytes is_visible t ≡ true
    → all_bytes is_visible u ≡ true
    → all_bytes is_visible v ≡ true
    → c_str (t ++ (32 ∷ (u ++ (32 ∷ v)))) ≡ t ++ (32 ∷ (u ++ (32 ∷ v)))
c_str-line t u v h k l =
    c_str-word t (32 ∷ (u ++ (32 ∷ v))) h
    ∙ ap (λ z. t ++ (32 ∷ z))
        (c_str-word u (32 ∷ v) k ∙ ap (λ z. u ++ (32 ∷ z)) (c_str-visible v l))

visible-not_cr : (c : ℕ) → is_visible c ≡ true → not_cr c ≡ true
visible-not_cr c h = ground (arith, h)

words-not_cr :
    (t u v : List ℕ)
    → all_bytes is_visible t ≡ true
    → all_bytes is_visible u ≡ true
    → all_bytes is_visible v ≡ true
    → all_bytes not_cr (t ++ (32 ∷ (u ++ (32 ∷ v)))) ≡ true
words-not_cr t u v h k l =
    all_bytes-append not_cr t (32 ∷ (u ++ (32 ∷ v))) (weak t h)
      (all_bytes-append not_cr u (32 ∷ v) (weak u k) (weak v l))
  where
    weak : (t : List ℕ) → all_bytes is_visible t ≡ true → all_bytes not_cr t ≡ true
    weak t h = all_bytes-weaken is_visible not_cr visible-not_cr t h

-- No line break is in a printed line.
pub print_line-not_cr :
    (m : Method) (url version : List ℕ)
    → is_request m ≡ true
    → all_bytes is_visible url ≡ true
    → all_bytes is_visible version ≡ true
    → all_bytes not_cr (print_line m url version) ≡ true
print_line-not_cr m url version im h k =
    words-not_cr (method_text m) url version
      (word-visible 64 (method_text m) (method_text-word m im)) h k

-- The request after its line: the method, the URL and its suffix are kept, the header lines come next.
pub record HasLine (m : Method) (url suffix : List ℕ) (r r' : RtspRequest) : Type 0 where
  pub has_method : r'.method ≡ m
  pub has_url : get_rtsp_url r' ≡ url
  pub has_suffix : get_rtsp_url_suffix r' ≡ suffix
  pub has_state : r'.state ≡ parse_headers_line_state
  pub same_headers : r'.header_line_param ≡ r.header_line_param

store_parts-HasLine :
    (m : Method) (method url version host suffix : List ℕ) (port : ℕ) (r : RtspRequest)
    → r.request_line_param ≡ []
    → (r' : RtspRequest) × (store_parts method url version
          (record r { method = m })
          (returned (some (host, port, suffix)))
        ≡ returned (r', true))
      × HasLine m url suffix r r'
unfolding get_rtsp_url get_rtsp_url_suffix
store_parts-HasLine m method url version host suffix port r h = (
  _,
  refl,
  rw h (record {
    has_method = refl;
    has_url = refl;
    has_suffix = refl;
    has_state = refl;
    same_headers = refl;
  }),
)

-- The words of a printed line are stored as they are.
store_words-printed :
    (m : Method) (host suffix version : List ℕ) (port : ℕ) (r : RtspRequest)
    → is_request m ≡ true
    → is_host host ≡ true
    → port < 65536
    → is_suffix suffix ≡ true
    → r.request_line_param ≡ []
    → (r' : RtspRequest) × (store_words
          (text (method_text m) ∷ text (print_url host port suffix) ∷ text version ∷ [])
          (method_of (method_text m))
          r
        ≡ returned (r', true))
      × HasLine m (print_url host port suffix) suffix r r'
unfolding store_words store_url
store_words-printed m host suffix version port r im ih ip is h =
    let url = print_url host port suffix in
    let (r', e, l) = store_parts-HasLine m (method_text m) url version host suffix port r h in
    (
      r',
      ap (λ o. store_words (text (method_text m) ∷ text url ∷ text version ∷ []) o r)
            (method_of-method_text m im)
          ∙ (ap (store_parts (method_text m) url version (record r { method = m }))
                (parse_url-print_url host port suffix ih ip is)
              ∙ e),
      l,
    )

-- On a request without parameters yet: a line made of one of the six methods, the URL
-- `rtsp://host:port/suffix` and a version, with one space between them, is parsed to that method, that
-- URL and that suffix, and the header lines come next. The host is not empty, is not in brackets and
-- has no colon; host, suffix and version have at most 63 bytes and neither white space nor control
-- characters.
pub parse_request_line-print_line :
    (m : Method) (host suffix version : List ℕ) (port : ℕ) (r : RtspRequest)
    → is_request m ≡ true
    → is_host host ≡ true
    → port < 65536
    → is_suffix suffix ≡ true
    → is_word 64 version ≡ true
    → r.request_line_param ≡ []
    → (r' : RtspRequest) × (parse_request_line (print_line m (print_url host port suffix) version) r
        ≡ returned (r', true))
      × HasLine m (print_url host port suffix) suffix r r'
unfolding parse_request_line
parse_request_line-print_line m host suffix version port r im ih ip is iv h =
    let url = print_url host port suffix in
    let (visible, short) = print_url-word host port suffix ih is in
    let word : is_word 512 url ≡ true =
      rw (lt→ltb (length url) 512 (omega (arith, short)), visible) refl in
    let values =
      ap (sscanf request_line_format) (
        c_str-line (method_text m) url version
          (word-visible 64 (method_text m) (method_text-word m im)) visible
          (word-visible 64 version iv))
      ∙ sscanf-three_words 64 512 64 (method_text m) url version (method_text-word m im) word iv in
    let (r', e, l) = store_words-printed m host suffix version port r im ih ip is h in
    (r', rw (values, parse_request_line) e, l)
