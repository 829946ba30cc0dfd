-- ===== src/RtspRequest/Cseq.antt =====
-- The `CSeq` line: what is printed is read.
use obs_rtspserver.Prelude.{
  ℕ, ◌<◌, ◌^◌, ◌≡◌, refl, ap, ◌∙◌, Bool, true, false, none, some, List, [], ◌∷◌, ◌++◌, arith,
}
use obs_rtspserver.Text.{codes, c_str}
use obs_rtspserver.Text.Decimal.{print_number}
use obs_rtspserver.Text.Numbers.{
  ends_number, skip_spaces-print_number, print_number-not_nul, scan_step-print_number,
}
use obs_rtspserver.Text.Words.{sscanf-stored, sscanf-passed}
use obs_rtspserver.Text.Scan.{unsigned_word, literal, skip_until, space, number, number_at, passed}
use obs_rtspserver.Text.Facts.{c_str-append}
use obs_rtspserver.Text.Params.{emplace}
use obs_rtspserver.RtspRequest.{
  Method, options, describe, setup, play, teardown, get_parameter, rtcp, no_method, RtspRequest,
  returned, got_all, get_cseq,
}
use obs_rtspserver.RtspRequest.Headers.{
  scan_numbers, header_number_format, parse_cseq, parse_headers_line, after_cseq,
  after_authorization, finish_headers, finished, needs_authorization,
}

-- The number of a line `CSeq: n` is read from a text that begins with this line.
pub scan-cseq :
    (n : ℕ) (rest : List ℕ)
    → n < 2 ^ 32
    → ends_number rest ≡ true
    → scan_numbers header_number_format (codes "CSeq: " ++ (print_number n ++ rest)) ≡ number n ∷ []
scan-cseq n rest h e =
    ap (λ o. elim o [ none ↦ [] | some vs ↦ vs ])
      (sscanf-passed (skip_until b':') (literal b':' ∷ space ∷ unsigned_word 32 ∷ [])
        (codes "CSeq: " ++ (print_number n ++ rest)) (codes ": " ++ (print_number n ++ rest))
        (number n ∷ []) refl
        (sscanf-passed (literal b':') (space ∷ unsigned_word 32 ∷ [])
          (codes ": " ++ (print_number n ++ rest)) (codes " " ++ (print_number n ++ rest))
          (number n ∷ []) refl
          (sscanf-passed space (unsigned_word 32 ∷ []) (codes " " ++ (print_number n ++ rest))
            (print_number n ++ rest) (number n ∷ [])
            (ap passed (skip_spaces-print_number n rest (omega (arith, h))))
            (sscanf-stored (unsigned_word 32) [] (print_number n ++ rest) rest (number n) []
              (scan_step-print_number 32 n rest h (omega (arith, h)) e) refl))))

-- `CSeq: n`, a text that does not begin with a digit, and nothing of it is behind a NUL.
abbrev pub cseq_line : ℕ → List ℕ → List ℕ
cseq_line n rest = codes "CSeq: " ++ (print_number n ++ rest)

c_str-cseq_line : (n : ℕ) (rest : List ℕ) → c_str (cseq_line n rest) ≡ cseq_line n (c_str rest)
c_str-cseq_line n rest =
    ap (λ z. codes "CSeq: " ++ z) (c_str-append (print_number n) rest (print_number-not_nul n))

-- What `ParseCSeq` does with header lines that begin with `CSeq: n`.
pub parse_cseq-cseq_line :
    (n : ℕ) (rest : List ℕ) (r : RtspRequest)
    → n < 2 ^ 32
    → ends_number (c_str rest) ≡ true
    → parse_cseq (cseq_line n rest) r
      ≡ (record r { header_line_param = emplace "cseq" ([], n) r.header_line_param }, true)
unfolding parse_cseq
parse_cseq-cseq_line n rest r h e =
    ap
      (λ vs. (
        record r { header_line_param = emplace "cseq" ([], number_at 0 vs) r.header_line_param },
        true,
      ))
      (ap (scan_numbers header_number_format) (c_str-cseq_line n rest)
        ∙ scan-cseq n (c_str rest) h e)

-- The methods whose headers are read no further than the `CSeq` line.
abbrev pub is_simple : Method → Bool
is_simple options = true
is_simple teardown = true
is_simple get_parameter = true
is_simple m = false

-- The request after its header lines: it is complete and has that number; all else is kept.
pub record IsComplete (n : ℕ) (r r' : RtspRequest) : Type 0 where
  pub complete : got_all r' ≡ true
  pub numbered : get_cseq r' ≡ n
  pub same_method : r'.method ≡ r.method
  pub same_line : r'.request_line_param ≡ r.request_line_param

finish_headers-simple :
    (m : Method) (message : List ℕ) (r : RtspRequest)
    → is_simple m ≡ true
    → (needs_authorization m ≡ false) × (finish_headers m message r ≡ finished r)
unfolding finish_headers
finish_headers-simple options message r h = (refl, refl)
finish_headers-simple teardown message r h = (refl, refl)
finish_headers-simple get_parameter message r h = (refl, refl)
finish_headers-simple describe message r h = absurd (ground (arith, h))
finish_headers-simple setup message r h = absurd (ground (arith, h))
finish_headers-simple play message r h = absurd (ground (arith, h))
finish_headers-simple rtcp message r h = absurd (ground (arith, h))
finish_headers-simple no_method message r h = absurd (ground (arith, h))

-- On a request without header lines yet, for a method that needs no more: header lines that begin
-- with `CSeq: n`, a 32-bit number, complete the request and give it the number.
pub parse_headers_line-cseq_line :
    (n : ℕ) (rest : List ℕ) (r : RtspRequest)
    → n < 2 ^ 32
    → ends_number (c_str rest) ≡ true
    → is_simple r.method ≡ true
    → r.header_line_param ≡ []
    → (r' : RtspRequest) × (parse_headers_line (cseq_line n rest) r ≡ returned (r', true))
      × IsComplete n r r'
unfolding parse_headers_line after_cseq after_authorization got_all get_cseq
parse_headers_line-cseq_line n rest r h e s empty =
    let r1 = record r { header_line_param = emplace "cseq" ([], n) r.header_line_param } in
    let (na, fin) = finish_headers-simple r.method (cseq_line n rest) r1 s in
    (
      finished r1,
      ap (after_cseq (cseq_line n rest)) (parse_cseq-cseq_line n rest r h e)
          ∙ rw (na, after_cseq, fin, after_authorization) refl,
      rw empty (record { complete = refl; numbered = refl; same_method = refl; same_line = refl }),
    )
