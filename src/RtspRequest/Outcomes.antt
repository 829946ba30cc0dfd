-- ===== src/RtspRequest/Outcomes.antt =====
-- `ParseRequestLine`: all its outcomes, and the lines that it copies past the end of an array.
use obs_rtspserver.Prelude.{
  ℕ, ◌≤◌, ◌≡◌, refl, ap, ◌∙◌, ◌⊎◌, inl, inr, Bool, true, false, not, Option, none, some, List, [],
  ◌∷◌, ◌++◌, ◌&&◌, arith, length, length-append, ltb, leb, ◌==◌, drop, Bool-cases, Option-cases,
}
use obs_rtspserver.Text.{codes, c_str, starts_with, is_space}
use obs_rtspserver.Text.Facts.{all_bytes, all_bytes-weaken, and-left, and-right, c_str-append}
use obs_rtspserver.Text.Scan.{
  Directive, Value, scan_rest, space, sscanf, text_at, span, skip_spaces, store_text, word, overrun,
  scan_step,
}
use obs_rtspserver.RtspRequest.{
  Method, RtspRequest, parse_headers_line_state, Outcome, returned, stack_overrun, out_of_range,
  UrlParts, try_format, ipv6_port_format, ipv6_format, host_port_format, host_format, with_port,
  without_port, parse_url, method_of, store_parts, store_url, store_words, parse_request_line,
  request_line_format,
}

-- What the outcome means for the request `r` that was there: the fields that are not named are as they
-- were.
abbrev pub IsLineResult : RtspRequest → Outcome (RtspRequest × Bool) → Type 0
IsLineResult r (returned (r', true)) =
    (r' ≡ r)
    ⊎ (r' ≡ record r {
      method = r'.method;
      request_line_param = r'.request_line_param;
      state = parse_headers_line_state;
    })
IsLineResult r (returned (r', false)) = r' ≡ record r { method = r'.method }
IsLineResult r stack_overrun = Unit {0}
IsLineResult r out_of_range = ⊥

-- A URL is parsed without an exception.
abbrev NoThrow {ℓ} : {A : Type ℓ} → Outcome A → Type 0
NoThrow (returned a) = 0 ≤ 0
NoThrow stack_overrun = 0 ≤ 0
NoThrow out_of_range = ⊥

store_parts-IsLineResult :
    (method url version : List ℕ) (m : Method) (r : RtspRequest) (o : Outcome UrlParts)
    → NoThrow o
    → IsLineResult r (store_parts method url version (record r { method = m }) o)
store_parts-IsLineResult method url version m r stack_overrun n = tt
store_parts-IsLineResult method url version m r out_of_range n = n
store_parts-IsLineResult method url version m r (returned none) n = refl
store_parts-IsLineResult method url version m r (returned (some (host, port, suffix))) n = inr refl

try_format-NoThrow :
    (format : List Directive) (enough : ℕ → Bool) (keep : List Value → List ℕ × ℕ × List ℕ)
    (others : Outcome UrlParts) (url : List ℕ)
    → NoThrow others
    → NoThrow (try_format format enough keep others url)
try_format-NoThrow format enough keep others url n = elim (Option-cases (sscanf format url)) [
  | inl e ↦ rw (e, try_format) (omega arith)
  | inr (vs, e) ↦ elim (Bool-cases (enough (length vs))) [
    | inl t ↦ rw (e, try_format, t) (omega arith)
    | inr t ↦ rw (e, try_format, t) n
  ]
]

parse_url-NoThrow : (url : List ℕ) → NoThrow (parse_url url)
unfolding parse_url
parse_url-NoThrow url = try_format-NoThrow (ipv6_port_format 64) (leb 2) with_port (ipv6 url) url (
    try_format-NoThrow (ipv6_format 64) (leb 1) without_port (hosts url) url (
      try_format-NoThrow (host_port_format 64) (leb 2) with_port (host url) url (
        try_format-NoThrow (host_format 64) (leb 1) without_port (returned none) url
          (omega arith))))
  where
    host : List ℕ → Outcome UrlParts
    host t = try_format (host_format 64) (leb 1) without_port (returned none) t

    hosts : List ℕ → Outcome UrlParts
    hosts t = try_format (host_port_format 64) (leb 2) with_port (host t) t

    ipv6 : List ℕ → Outcome UrlParts
    ipv6 t = try_format (ipv6_format 64) (leb 1) without_port (hosts t) t

store_words-IsLineResult :
    (vs : List Value) (o : Option Method) (r : RtspRequest) → IsLineResult r (store_words vs o r)
unfolding store_words store_url
store_words-IsLineResult vs none r = refl
store_words-IsLineResult vs (some m) r =
    elim (Bool-cases (starts_with (codes "rtsp://") (text_at 1 vs))) [
      | inl t ↦ rw t (
          store_parts-IsLineResult (text_at 0 vs) (text_at 1 vs) (text_at 2 vs) m r
            (parse_url (drop 7 (text_at 1 vs))) (parse_url-NoThrow (drop 7 (text_at 1 vs))))
      | inr t ↦ rw t refl
    ]

-- Whatever the line is: `ParseRequestLine` never throws. When it returns true, it has changed nothing,
-- or only the method, the map of the request line and the state, and the header lines come next. When it
-- returns false, it has changed nothing but the method.
pub parse_request_line-IsLineResult :
    (message : List ℕ) (r : RtspRequest) → IsLineResult r (parse_request_line message r)
unfolding parse_request_line
parse_request_line-IsLineResult message r =
    elim (Option-cases (sscanf request_line_format (c_str message))) [
      | inl e ↦ rw (e, parse_request_line) tt
      | inr (vs, e) ↦ elim (Bool-cases (length vs == 3)) [
        | inl t ↦
            rw (e, parse_request_line, t) (store_words-IsLineResult vs (method_of (text_at 0 vs)) r)
        | inr t ↦ rw (e, parse_request_line, t) (inl refl)
      ]
    ]

-- A byte of a word of `%s`.
abbrev pub is_word_byte : ℕ → Bool
is_word_byte c = leb 1 c && not (is_space c)

space-not_nul : (c : ℕ) → is_space c ≡ true → leb 1 c ≡ true
space-not_nul c h = ground (arith, h)

word_byte-not_nul : (c : ℕ) → is_word_byte c ≡ true → leb 1 c ≡ true
word_byte-not_nul c h = and-left (leb 1 c) (not (is_space c)) h

word_byte-not_space : (c : ℕ) → is_word_byte c ≡ true → not (is_space c) ≡ true
word_byte-not_space c h = and-right (leb 1 c) (not (is_space c)) h

skip_spaces-append :
    (spaces rest : List ℕ)
    → all_bytes is_space spaces ≡ true
    → skip_spaces (spaces ++ rest) ≡ skip_spaces rest
skip_spaces-append [] rest h = refl
skip_spaces-append (c ∷ cs) rest h =
    rw (and-left (is_space c) (all_bytes is_space cs) h)
      (skip_spaces-append cs rest (and-right (is_space c) (all_bytes is_space cs) h))

skip_spaces-word :
    (c : ℕ) (rest : List ℕ) → is_word_byte c ≡ true → skip_spaces (c ∷ rest) ≡ c ∷ rest
skip_spaces-word c rest h = let e : is_space c ≡ false = ground (arith, h) in rw e refl

-- The part in front goes on behind bytes that all pass.
span-append :
    (p : ℕ → Bool) (xs rest : List ℕ)
    → all_bytes p xs ≡ true
    → span p (xs ++ rest) ≡ (xs ++ (span p rest).0, (span p rest).1)
span-append p [] rest h = refl
span-append p (x ∷ xs) rest h =
    rw
      (
        and-left (p x) (all_bytes p xs) h,
        span-append p xs rest (and-right (p x) (all_bytes p xs) h),
      )
      refl

store_text-long :
    (c : ℕ) (cs more rest : List ℕ)
    → 64 ≤ length (c ∷ cs)
    → store_text 64 (c ∷ (cs ++ more), rest) ≡ overrun
store_text-long c cs more rest h = rw long refl
  where
    long : ltb (length (c ∷ (cs ++ more))) 64 ≡ false
    long = ground (arith, h, length-append cs more)

scan_word-long :
    (spaces : List ℕ) (c : ℕ) (cs rest : List ℕ)
    → all_bytes is_space spaces ≡ true
    → all_bytes is_word_byte (c ∷ cs) ≡ true
    → 64 ≤ length (c ∷ cs)
    → scan_step (word 64) (spaces ++ (c ∷ (cs ++ rest))) ≡ overrun
scan_word-long spaces c cs rest b v l =
    let not_space : ℕ → Bool = λ x. not (is_space x) in
    ap (λ z. store_text 64 (span not_space z))
      (skip_spaces-append spaces (c ∷ (cs ++ rest)) b
        ∙ skip_spaces-word c (cs ++ rest) (and-left (is_word_byte c) (all_bytes is_word_byte cs) v))
    ∙ (ap (store_text 64) (
          span-append not_space (c ∷ cs) rest
            (all_bytes-weaken is_word_byte not_space word_byte-not_space (c ∷ cs) v))
        ∙ store_text-long c cs (span not_space rest).0 (span not_space rest).1 l)

-- A line whose first word, behind any white space, has 64 bytes or more, whatever comes behind them:
-- that word is copied past the end of `method`, which has room for 63 bytes and the NUL.
pub parse_request_line-overrun :
    (spaces : List ℕ) (c : ℕ) (cs rest : List ℕ) (r : RtspRequest)
    → all_bytes is_space spaces ≡ true
    → all_bytes is_word_byte (c ∷ cs) ≡ true
    → 64 ≤ length (c ∷ cs)
    → parse_request_line (spaces ++ (c ∷ (cs ++ rest))) r ≡ stack_overrun
unfolding parse_request_line
parse_request_line-overrun spaces c cs rest r b v l =
    let whole : c_str (spaces ++ (c ∷ (cs ++ rest))) ≡ spaces ++ (c ∷ (cs ++ c_str rest)) =
      c_str-append spaces (c ∷ (cs ++ rest))
        (all_bytes-weaken is_space (leb 1) space-not_nul spaces b)
      ∙ ap (λ z. spaces ++ z)
          (c_str-append (c ∷ cs) rest
            (all_bytes-weaken is_word_byte (leb 1) word_byte-not_nul (c ∷ cs) v)) in
    let all : sscanf request_line_format (c_str (spaces ++ (c ∷ (cs ++ rest)))) ≡ none =
      ap (sscanf request_line_format) whole
      ∙ ap (λ s. scan_rest s (sscanf (space ∷ word 512 ∷ space ∷ word 64 ∷ [])))
          (scan_word-long spaces c cs (c_str rest) b v l) in
    rw (all, parse_request_line) refl
