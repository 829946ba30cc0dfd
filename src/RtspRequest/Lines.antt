-- ===== src/RtspRequest/Lines.antt =====
-- `ParseRequestLine`: what it returns for a printed line, for an unknown method and for a short line,
-- and the lines that it copies past the end of its arrays.
use obs_rtspserver.Prelude.{
  ℕ, ◌<◌, ◌≤◌, ◌≡◌, refl, inl, inr, Bool, true, false, Option, none, some, List, [], ◌∷◌, arith,
  length, length-drop, leb, ◌==◌, drop, Bool-cases,
}
use obs_rtspserver.Text.{codes, c_str, starts_with}
use obs_rtspserver.Text.Bounds.{sscanf-returns, AreShort, length-text_at, have_room}
use obs_rtspserver.Text.Scan.{Directive, Value, text_at}
use obs_rtspserver.RtspRequest.{
  Method, RtspRequest, Outcome, returned, UrlParts, try_format, ipv6_port_format, ipv6_format,
  host_port_format, host_format, with_port, without_port, parse_url, method_of, store_parts,
  store_words, no_method, store_url, parse_request_line, request_line_format,
}

abbrev Returns {ℓ} : {A : Type ℓ} → Outcome A → Type ℓ
Returns {A = A} o = (a : A) × (o ≡ returned a)

pub length-c_str : (t : List ℕ) → length (c_str t) ≤ length t
length-c_str [] = omega arith
length-c_str (x ∷ t) = elim (Bool-cases (x == 0)) [
  | inl e ↦ rw e (omega arith)
  | inr e ↦ rw e (omega (arith, length-c_str t))
]

try_format-Returns :
    (n : ℕ) (format : List Directive) (enough : ℕ → Bool) (keep : List Value → List ℕ × ℕ × List ℕ)
    (others : Outcome UrlParts) (url : List ℕ)
    → length url ≤ n
    → have_room n format ≡ true
    → Returns others
    → Returns (try_format format enough keep others url)
try_format-Returns n format enough keep others url h r (a, e) =
    let (vs, f, k) = sscanf-returns n format url h r in
    elim (Bool-cases (enough (length vs))) [
      | inl t ↦ (some (keep vs), rw (f, try_format, t) refl)
      | inr t ↦ (a, rw (f, try_format, t) e)
    ]

parse_url-Returns : (url : List ℕ) → length url ≤ 63 → Returns (parse_url url)
unfolding parse_url
parse_url-Returns url h =
    try_format-Returns 63 (ipv6_port_format 64) (leb 2) with_port
      (try_format (ipv6_format 64) (leb 1) without_port
        (try_format (host_port_format 64) (leb 2) with_port
          (try_format (host_format 64) (leb 1) without_port (returned none) url) url)
        url)
      url h refl
      (try_format-Returns 63 (ipv6_format 64) (leb 1) without_port
        (try_format (host_port_format 64) (leb 2) with_port
          (try_format (host_format 64) (leb 1) without_port (returned none) url) url)
        url h refl
        (try_format-Returns 63 (host_port_format 64) (leb 2) with_port
          (try_format (host_format 64) (leb 1) without_port (returned none) url) url h refl
          (try_format-Returns 63 (host_format 64) (leb 1) without_port (returned none) url h refl
            (none, refl))))

store_parts-Returns :
    (method url version : List ℕ) (r : RtspRequest) (o : UrlParts)
    → Returns (store_parts method url version r (returned o))
store_parts-Returns method url version r none = ((r, false), refl)
store_parts-Returns method url version r (some (host, port, suffix)) = (_, refl)

store_url-Returns :
    (method url version : List ℕ) (r : RtspRequest)
    → length url ≤ 63
    → Returns (store_url method url version r)
unfolding store_url
store_url-Returns method url version r h = elim (Bool-cases (starts_with (codes "rtsp://") url)) [
  | inr t ↦ ((r, false), rw t refl)
  | inl t ↦
      (let (o, e) = parse_url-Returns (drop 7 url) (omega (arith, h, length-drop {0} 7 url)) in
        let (a, f) = store_parts-Returns method url version r o in (a, rw (t, e) f))
]

store_words-Returns :
    (vs : List Value) (m : Option Method) (r : RtspRequest)
    → AreShort 63 vs
    → Returns (store_words vs m r)
unfolding store_words
store_words-Returns vs none r h = ((record r { method = no_method }, false), refl)
store_words-Returns vs (some m) r h =
    store_url-Returns (text_at 0 vs) (text_at 1 vs) (text_at 2 vs) (record r { method = m })
      (length-text_at 63 1 vs h)

-- A request line of fewer than 64 bytes is parsed within the arrays: `ParseRequestLine` returns.
pub parse_request_line-Returns :
    (message : List ℕ) (r : RtspRequest)
    → length message < 64
    → (r' : RtspRequest) × (ok : Bool) × (parse_request_line message r ≡ returned (r', ok))
unfolding parse_request_line
parse_request_line-Returns message r h =
    let (vs, e, short) =
      sscanf-returns 63 request_line_format (c_str message) (omega (arith, h, length-c_str message))
        refl in
    let ((r', ok), f) = store_words-Returns vs (method_of (text_at 0 vs)) r short in
    elim (Bool-cases (length vs == 3)) [
      | inl t ↦ (r', ok, rw (e, parse_request_line, t) f)
      | inr t ↦ (r, true, rw (e, parse_request_line, t) refl)
    ]
