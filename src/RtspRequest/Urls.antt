-- ===== src/RtspRequest/Urls.antt =====
-- `rtsp://host:port/suffix`: a printed URL is parsed into its parts.
use obs_rtspserver.Prelude.{
  ℕ, zero, suc, ◌+◌, ◌/◌, ◌%◌, ◌<◌, ◌≤◌, ◌≡◌, refl, ap, ap₂, ◌∙◌, inl, inr, Bool, true, false, not,
  ◌&&◌, none, some, List, [], ◌∷◌, ◌++◌, arith, length, length-append, leb, ltb, ltb→lt, lt→ltb,
  ◌==◌, Bool-cases,
}
use obs_rtspserver.Text.{codes}
use obs_rtspserver.Text.Decimal.{print_digits, print_number}
use obs_rtspserver.Text.Facts.{
  all_bytes, all_bytes-append, all_bytes-weaken, and-left, and-right, span-stop,
}
use obs_rtspserver.Text.Numbers.{scan_step-print_number}
use obs_rtspserver.Text.Words.{is_visible, is_word, scan_word-end, sscanf-stored, sscanf-passed}
use obs_rtspserver.Text.Scan.{
  Directive, literal, word, until, unsigned_word, Value, text, number, stored, passed, store_text,
  scan_step, sscanf,
}
use obs_rtspserver.RtspRequest.{
  Outcome, returned, UrlParts, try_format, ipv6_port_format, ipv6_format, host_port_format,
  host_format, with_port, without_port, parse_url,
}

abbrev pub is_host_byte : ℕ → Bool
is_host_byte c = is_visible c && not (c == b':')

-- A host that is not an IPv6 address, with at most 63 bytes.
abbrev pub is_host : List ℕ → Bool
is_host [] = false
is_host (h ∷ hs) = not (h == b'[') && (all_bytes is_host_byte (h ∷ hs) && ltb (length (h ∷ hs)) 64)

abbrev pub is_suffix : List ℕ → Bool
is_suffix t = all_bytes is_visible t && ltb (length t) 64

-- `rtsp://host:port/suffix`
abbrev pub print_url : List ℕ → ℕ → List ℕ → List ℕ
print_url host port suffix =
    codes "rtsp://" ++ (host ++ (b':' ∷ (print_number port ++ (b'/' ∷ suffix))))

scan_until-stop :
    (size c h : ℕ) (hs rest : List ℕ)
    → all_bytes (λ x. not (x == c)) (h ∷ hs) ≡ true
    → ltb (length (h ∷ hs)) size ≡ true
    → scan_step (until c size) (h ∷ (hs ++ (c ∷ rest))) ≡ stored (text (h ∷ hs)) (c ∷ rest)
scan_until-stop size c h hs rest a l =
    ap (store_text size) (span-stop (λ x. not (x == c)) (h ∷ hs) c rest a (ground arith))
    ∙ rw l refl

scan_literal : (c : ℕ) (rest : List ℕ) → scan_step (literal c) (c ∷ rest) ≡ passed rest
scan_literal c rest = rw (same c) refl
  where
    same : (c : ℕ) → (c == c) ≡ true
    same c = ground arith

-- The suffix is kept, also when it is empty.
abbrev pub suffix_values : List ℕ → List Value
suffix_values [] = []
suffix_values (c ∷ cs) = text (c ∷ cs) ∷ []

ltb-weaken : (n a b : ℕ) → ltb n a ≡ true → a ≤ b → ltb n b ≡ true
ltb-weaken n a b h k = lt→ltb n b (omega (arith, k, ltb→lt n a h))

sscanf-suffix :
    (size : ℕ) (t : List ℕ)
    → 64 ≤ size
    → is_suffix t ≡ true
    → sscanf (word size ∷ []) t ≡ some (suffix_values t)
sscanf-suffix size [] room h = refl
sscanf-suffix size (c ∷ cs) room h =
    let visible = and-left (all_bytes is_visible (c ∷ cs)) (ltb (length (c ∷ cs)) 64) h in
    let short = and-right (all_bytes is_visible (c ∷ cs)) (ltb (length (c ∷ cs)) 64) h in
    let word_ok : is_word size (c ∷ cs) ≡ true =
      ap₂ (λ a b. a && b) visible (ltb-weaken (length (c ∷ cs)) 64 size short room) in
    sscanf-stored (word size) [] (c ∷ cs) [] (text (c ∷ cs)) []
      (scan_word-end size (c ∷ cs) word_ok) refl

with_port-suffix :
    (host : List ℕ) (port : ℕ) (t : List ℕ)
    → (leb 2 (length (text host ∷ number port ∷ suffix_values t)) ≡ true)
      × (with_port (text host ∷ number port ∷ suffix_values t) ≡ (host, port, t))
with_port-suffix host port [] = (refl, refl)
with_port-suffix host port (c ∷ cs) = (refl, refl)

not_colon : (c : ℕ) → is_host_byte c ≡ true → not (c == b':') ≡ true
not_colon c h = and-right (is_visible c) (not (c == b':')) h

pub host_byte-visible : (c : ℕ) → is_host_byte c ≡ true → is_visible c ≡ true
host_byte-visible c h = and-left (is_visible c) (not (c == b':')) h

pub host-parts :
    (h : ℕ) (hs : List ℕ)
    → is_host (h ∷ hs) ≡ true
    → ((h == b'[') ≡ false)
      × (all_bytes is_host_byte (h ∷ hs) ≡ true)
      × (ltb (length (h ∷ hs)) 64 ≡ true)
host-parts h hs p =
    let bytes = all_bytes is_host_byte (h ∷ hs) in
    let short = ltb (length (h ∷ hs)) 64 in
    let rest = and-right (not (h == b'[')) (bytes && short) p in
    (
      not-true (h == b'[') (and-left (not (h == b'[')) (bytes && short) p),
      and-left bytes short rest,
      and-right bytes short rest,
    )
  where
    not-true : (b : Bool) → not b ≡ true → b ≡ false
    not-true b h = ground (arith, h)

try_format-past :
    (format : List Directive) (enough : ℕ → Bool) (keep : List Value → List ℕ × ℕ × List ℕ)
    (others : Outcome UrlParts) (url : List ℕ) (vs : List Value)
    → sscanf format url ≡ some vs
    → enough (length vs) ≡ false
    → try_format format enough keep others url ≡ others
try_format-past format enough keep others url vs h k = rw (h, try_format, k) refl

try_format-kept :
    (format : List Directive) (enough : ℕ → Bool) (keep : List Value → List ℕ × ℕ × List ℕ)
    (others : Outcome UrlParts) (url : List ℕ) (vs : List Value)
    → sscanf format url ≡ some vs
    → enough (length vs) ≡ true
    → try_format format enough keep others url ≡ returned (some (keep vs))
try_format-kept format enough keep others url vs h k = rw (h, try_format, k) refl

-- A format that begins with a bracket stores nothing from another text.
sscanf-no_bracket :
    (ds : List Directive) (h : ℕ) (xs : List ℕ)
    → (h == b'[') ≡ false
    → sscanf (literal b'[' ∷ ds) (h ∷ xs) ≡ some []
sscanf-no_bracket ds h xs e = rw e refl

-- What `"%[^:]:%hu/%s"` stores from a printed URL, in arrays of 64 bytes or more.
pub host_port-values :
    (size h : ℕ) (hs : List ℕ) (port : ℕ) (suffix : List ℕ)
    → 64 ≤ size
    → is_host (h ∷ hs) ≡ true
    → port < 65536
    → is_suffix suffix ≡ true
    → sscanf (host_port_format size) (h ∷ (hs ++ (b':' ∷ (print_number port ++ (b'/' ∷ suffix)))))
      ≡ some (text (h ∷ hs) ∷ number port ∷ suffix_values suffix)
host_port-values size h hs port suffix room p q s =
    let (no_bracket, bytes, short) = host-parts h hs p in
    sscanf-stored (until b':' size)
      (literal b':' ∷ unsigned_word 16 ∷ literal b'/' ∷ word size ∷ [])
      (h ∷ (hs ++ (b':' ∷ (print_number port ++ (b'/' ∷ suffix)))))
      (b':' ∷ (print_number port ++ (b'/' ∷ suffix))) (text (h ∷ hs))
      (number port ∷ suffix_values suffix)
      (scan_until-stop size b':' h hs (print_number port ++ (b'/' ∷ suffix))
        (all_bytes-weaken is_host_byte (λ x. not (x == b':')) not_colon (h ∷ hs) bytes)
        (ltb-weaken (length (h ∷ hs)) 64 size short room))
      (sscanf-passed (literal b':') (unsigned_word 16 ∷ literal b'/' ∷ word size ∷ [])
        (b':' ∷ (print_number port ++ (b'/' ∷ suffix))) (print_number port ++ (b'/' ∷ suffix))
        (number port ∷ suffix_values suffix)
        (scan_literal b':' (print_number port ++ (b'/' ∷ suffix)))
        (sscanf-stored (unsigned_word 16) (literal b'/' ∷ word size ∷ [])
          (print_number port ++ (b'/' ∷ suffix)) (b'/' ∷ suffix) (number port)
          (suffix_values suffix)
          (scan_step-print_number 16 port (b'/' ∷ suffix) q (omega (arith, q)) refl)
          (sscanf-passed (literal b'/') (word size ∷ []) (b'/' ∷ suffix) suffix
            (suffix_values suffix) (scan_literal b'/' suffix) (sscanf-suffix size suffix room s))))

-- Tests for `[host]:port/suffix`, `[host]/suffix` and `host:port/suffix`, in this order, of which those
-- with a bracket fail on this URL.
pub formats-print_url :
    (size h : ℕ) (hs : List ℕ) (port : ℕ) (suffix : List ℕ) (enough enough' enough'' : ℕ → Bool)
    (others : Outcome UrlParts)
    → 64 ≤ size
    → is_host (h ∷ hs) ≡ true
    → port < 65536
    → is_suffix suffix ≡ true
    → enough 0 ≡ false
    → enough' 0 ≡ false
    → enough'' (length (text (h ∷ hs) ∷ number port ∷ suffix_values suffix)) ≡ true
    → try_format
        (ipv6_port_format size)
        enough
        with_port
        (try_format
          (ipv6_format size)
          enough'
          without_port
          (try_format
            (host_port_format size)
            enough''
            with_port
            others
            (h ∷ (hs ++ (b':' ∷ (print_number port ++ (b'/' ∷ suffix))))))
          (h ∷ (hs ++ (b':' ∷ (print_number port ++ (b'/' ∷ suffix))))))
        (h ∷ (hs ++ (b':' ∷ (print_number port ++ (b'/' ∷ suffix)))))
      ≡ returned (some (h ∷ hs, port, suffix))
formats-print_url size h hs port suffix enough enough' enough'' others room p q s f f' t =
    let (no_bracket, bytes, short) = host-parts h hs p in
    let (two, kept) = with_port-suffix (h ∷ hs) port suffix in
    try_format-past (ipv6_port_format size) enough with_port
      (try_format (ipv6_format size) enough' without_port host url) url []
      (sscanf-no_bracket
        (until b']' size
          ∷ literal b']'
          ∷ literal b':'
          ∷ unsigned_word 16
          ∷ literal b'/'
          ∷ word size
          ∷ [])
        h (hs ++ rest) no_bracket)
      f
    ∙ (try_format-past (ipv6_format size) enough' without_port host url []
          (sscanf-no_bracket (until b']' size ∷ literal b']' ∷ literal b'/' ∷ word size ∷ []) h
            (hs ++ rest) no_bracket)
          f'
        ∙ (try_format-kept (host_port_format size) enough'' with_port others url
              (text (h ∷ hs) ∷ number port ∷ suffix_values suffix)
              (host_port-values size h hs port suffix room p q s) t
            ∙ ap (λ z. returned (some z)) kept))
  where
    rest : List ℕ
    rest = b':' ∷ (print_number port ++ (b'/' ∷ suffix))

    url : List ℕ
    url = h ∷ (hs ++ rest)

    host : Outcome UrlParts
    host = try_format (host_port_format size) enough'' with_port others url

-- The server's tests give the parts of a printed URL.
pub parse_url-print_url :
    (host : List ℕ) (port : ℕ) (suffix : List ℕ)
    → is_host host ≡ true
    → port < 65536
    → is_suffix suffix ≡ true
    → parse_url (host ++ (b':' ∷ (print_number port ++ (b'/' ∷ suffix))))
      ≡ returned (some (host, port, suffix))
unfolding parse_url
parse_url-print_url [] port suffix p q s = absurd (ground (arith, p))
parse_url-print_url (h ∷ hs) port suffix p q s =
    formats-print_url 64 h hs port suffix (leb 2) (leb 1) (leb 2)
      (try_format (host_format 64) (leb 1) without_port (returned none)
        (h ∷ (hs ++ (b':' ∷ (print_number port ++ (b'/' ∷ suffix))))))
      (omega arith) p q s refl refl (with_port-suffix (h ∷ hs) port suffix).0

digits-visible : (k n : ℕ) → all_bytes is_visible (print_digits k n) ≡ true
digits-visible zero n = refl
digits-visible (suc k) n = elim (Bool-cases (ltb n 10)) [
  | inl t ↦ rw (t, visible n) refl
  | inr t ↦ rw t (
      all_bytes-append is_visible (print_digits k (n / 10)) ((48 + n % 10) ∷ [])
        (digits-visible k (n / 10)) (rw (visible (n % 10)) refl))
]
  where
    visible : (d : ℕ) → is_visible (48 + d) ≡ true
    visible d = ground arith

length-print_digits : (k n : ℕ) → length (print_digits k n) ≤ k
length-print_digits zero n = omega arith
length-print_digits (suc k) n = elim (Bool-cases (ltb n 10)) [
  | inl t ↦ rw t (omega arith)
  | inr t ↦ rw t (
      omega (
        arith,
        length-print_digits k (n / 10),
        length-append {0} (print_digits k (n / 10)) ((48 + n % 10) ∷ []),
      ))
]

pub length-print_number : (n : ℕ) → length (print_number n) ≤ 20
unfolding print_number
length-print_number n = length-print_digits 20 n

-- Behind `rtsp://`.
visible-rest :
    (host : List ℕ) (port : ℕ) (suffix : List ℕ)
    → all_bytes is_visible host ≡ true
    → all_bytes is_visible suffix ≡ true
    → all_bytes is_visible (host ++ (b':' ∷ (print_number port ++ (b'/' ∷ suffix)))) ≡ true
unfolding print_number
visible-rest host port suffix h s =
    all_bytes-append is_visible host (b':' ∷ (print_number port ++ (b'/' ∷ suffix))) h
      (all_bytes-append is_visible (print_number port) (b'/' ∷ suffix) (digits-visible 20 port) s)

short-rest :
    (host : List ℕ) (port : ℕ) (suffix : List ℕ)
    → length host < 64
    → length suffix < 64
    → length (host ++ (b':' ∷ (print_number port ++ (b'/' ∷ suffix)))) < 160
unfolding print_number
short-rest host port suffix h s = omega (
  arith,
  h,
  s,
  length-print_digits 20 port,
  length-append {0} host (b':' ∷ (print_number port ++ (b'/' ∷ suffix))),
  length-append {0} (print_number port) (b'/' ∷ suffix),
)

host-word :
    (host : List ℕ) → is_host host ≡ true → (all_bytes is_visible host ≡ true) × (length host < 64)
host-word [] p = absurd (ground (arith, p))
host-word (h ∷ hs) p =
    let (no_bracket, bytes, short) = host-parts h hs p in
    (
      all_bytes-weaken is_host_byte is_visible host_byte-visible (h ∷ hs) bytes,
      ltb→lt (length (h ∷ hs)) 64 short,
    )

-- A printed URL is a word of fewer than 200 bytes.
pub print_url-word :
    (host : List ℕ) (port : ℕ) (suffix : List ℕ)
    → is_host host ≡ true
    → is_suffix suffix ≡ true
    → (all_bytes is_visible (print_url host port suffix) ≡ true)
      × (length (print_url host port suffix) < 200)
print_url-word host port suffix p s =
    let (v, l) = host-word host p in
    let sv = and-left (all_bytes is_visible suffix) (ltb (length suffix) 64) s in
    let sl =
      ltb→lt (length suffix) 64
        (and-right (all_bytes is_visible suffix) (ltb (length suffix) 64) s) in
    (visible-rest host port suffix v sv, omega (arith, short-rest host port suffix l sl))
