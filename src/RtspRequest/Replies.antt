-- ===== src/RtspRequest/Replies.antt =====
-- The responses carry the number of the request.
use obs_rtspserver.Prelude.{
  ℕ, zero, suc, ◌+◌, ◌-◌, ◌<◌, ◌≤◌, ◌^◌, ◌≡◌, refl, sym, ap, ◌∙◌, Option, none, some, List, [], ◌∷◌,
  ◌++◌, arith, append-nil, append_assoc, length, length-append, take, lt→ltb,
}
use obs_rtspserver.Text.{codes, c_str, find_text}
use obs_rtspserver.Text.Decimal.{print_number, print_signed}
use obs_rtspserver.Text.Numbers.{print_number-not_nul}
use obs_rtspserver.Text.Facts.{c_str-append}
use obs_rtspserver.Text.Scan.{Value, number}
use obs_rtspserver.RtspRequest.{RtspRequest, get_cseq}
use obs_rtspserver.RtspRequest.Headers.{scan_numbers, header_number_format}
use obs_rtspserver.RtspRequest.Cseq.{scan-cseq}
use obs_rtspserver.RtspRequest.Urls.{length-print_number}
use obs_rtspserver.RtspRequest.Respond.{
  snprintf, build_option_res, build_describe_res, build_setup_multicast_res, build_setup_udp_res,
  build_setup_tcp_res, build_play_res, build_teardown_res, build_get_paramter_res,
  build_not_found_res, build_server_error_res, build_unsupported_res, build_unauthorized_res,
}

-- The number that a reader like `ParseCSeq` finds in a message.
abbrev pub read_cseq : List ℕ → List Value
read_cseq t = elim (find_text (codes "CSeq") t) [
  | none ↦ []
  | some rest ↦ scan_numbers header_number_format (c_str rest)
]

abbrev pub Echoes : ℕ → List ℕ → Type 0
Echoes n t = read_cseq t ≡ number n ∷ []

-- The place of the number is not cut off, and what follows it is not a digit.
take-front :
    (m : ℕ) (front : List ℕ) (c : ℕ) (rest : List ℕ)
    → length front < m
    → take m (front ++ (c ∷ rest)) ≡ front ++ (c ∷ take (m - (length front + 1)) rest)
take-front zero [] c rest h = absurd (omega (arith, h))
take-front zero (x ∷ front) c rest h = absurd (omega (arith, h))
take-front (suc m) [] c rest h = ap (λ k. c ∷ take k rest) (omega arith)
take-front (suc m) (x ∷ front) c rest h = ap (◌∷◌ x) (
    take-front m front c rest (omega (arith, h))
    ∙ ap (λ k. front ++ (c ∷ take k rest)) (omega arith))

-- Three parts in front, and more behind.
cut-parts :
    (m : ℕ) (xs ys zs : List ℕ) (c : ℕ) (rest more : List ℕ)
    → length xs + (length ys + length zs) < m
    → (cut : List ℕ) × (take m (xs ++ (ys ++ (zs ++ (c ∷ rest)))) ++ more
        ≡ xs ++ (ys ++ (zs ++ (c ∷ (cut ++ more)))))
cut-parts m xs ys zs c rest more h =
    let front = xs ++ (ys ++ zs) in
    (
      take (m - (length front + 1)) rest,
      ap (λ t. take m t ++ more) (sym (together (c ∷ rest)))
          ∙ (ap (λ t. t ++ more)
                (take-front m front c rest
                  (omega (arith, h, length-append {0} xs (ys ++ zs), length-append {0} ys zs)))
              ∙ (append_assoc front (c ∷ take (m - (length front + 1)) rest) more
                  ∙ together (c ∷ (take (m - (length front + 1)) rest ++ more)))),
    )
  where
    together : (t : List ℕ) → (xs ++ (ys ++ zs)) ++ t ≡ xs ++ (ys ++ (zs ++ t))
    together t = append_assoc xs (ys ++ zs) t ∙ ap (λ z. xs ++ z) (append_assoc ys zs t)

-- A message that has a number line behind its status line, in a buffer with room for both.
echo :
    (status : List ℕ) (n size : ℕ) (rest more : List ℕ)
    → ((ys : List ℕ)
        → find_text (codes "CSeq") (status ++ (codes "CSeq: " ++ ys)) ≡ some (codes "CSeq: " ++ ys))
    → length status + 30 < size
    → n < 2 ^ 32
    → Echoes n
        (snprintf size (status ++ (codes "CSeq: " ++ (print_number n ++ (13 ∷ rest)))) ++ more)
echo status n size rest more found room small =
    let (cut, e) =
      cut-parts (size - 1) status (codes "CSeq: ") (print_number n) 13 rest more
        (omega (arith, room, length-print_number n)) in
    ap read_cseq e
    ∙ (ap (λ o. elim o [ none ↦ [] | some t ↦ scan_numbers header_number_format (c_str t) ])
          (found (print_number n ++ (13 ∷ (cut ++ more))))
        ∙ (ap (λ t. scan_numbers header_number_format (codes "CSeq: " ++ t))
              (c_str-append (print_number n) (13 ∷ (cut ++ more)) (print_number-not_nul n))
            ∙ scan-cseq n (13 ∷ c_str (cut ++ more)) small refl))

echo-whole :
    (status : List ℕ) (n size : ℕ) (rest : List ℕ)
    → ((ys : List ℕ)
        → find_text (codes "CSeq") (status ++ (codes "CSeq: " ++ ys)) ≡ some (codes "CSeq: " ++ ys))
    → length status + 30 < size
    → n < 2 ^ 32
    → Echoes n (snprintf size (status ++ (codes "CSeq: " ++ (print_number n ++ (13 ∷ rest)))))
echo-whole status n size rest found room small =
    ap read_cseq (
      sym (
        append-nil (snprintf size (status ++ (codes "CSeq: " ++ (print_number n ++ (13 ∷ rest)))))))
    ∙ echo status n size rest [] found room small

print_signed-small : (n : ℕ) → n < 2147483648 → print_signed n ≡ print_number n
unfolding print_signed
print_signed-small n h = rw (lt→ltb n 2147483648 h) refl

-- The same for a number that is printed as a signed one.
echo-signed :
    (status : List ℕ) (n size : ℕ) (rest more : List ℕ)
    → ((ys : List ℕ)
        → find_text (codes "CSeq") (status ++ (codes "CSeq: " ++ ys)) ≡ some (codes "CSeq: " ++ ys))
    → length status + 30 < size
    → n < 2147483648
    → Echoes n
        (snprintf size (status ++ (codes "CSeq: " ++ (print_signed n ++ (13 ∷ rest)))) ++ more)
echo-signed status n size rest more found room small =
    ap (λ t. read_cseq (snprintf size (status ++ (codes "CSeq: " ++ (t ++ (13 ∷ rest)))) ++ more))
      (print_signed-small n small)
    ∙ echo status n size rest more found room (omega (arith, small))

abbrev ok_status : List ℕ
ok_status = codes "RTSP/1.0 200 OK\r\n"

build_play_res-Echoes :
    (r : RtspRequest) (size : ℕ) (info : Option (List ℕ)) (c : ℕ)
    → 60 < size
    → get_cseq r < 2147483648
    → Echoes (get_cseq r) (build_play_res size info c r)
unfolding build_play_res
build_play_res-Echoes r size none c h k =
    echo-signed ok_status (get_cseq r) size (after c) _ (λ ys. refl) (omega (arith, h)) k
  where
    after : ℕ → List ℕ
    after c =
        codes "\nRange: npt=0.000-\r\nSession: " ++ (print_number c ++ codes "; timeout=60\r\n")
build_play_res-Echoes r size (some info) c h k =
    ap read_cseq (append_assoc start _ _)
    ∙ echo-signed ok_status (get_cseq r) size (after c) _ (λ ys. refl) (omega (arith, h)) k
  where
    after : ℕ → List ℕ
    after c =
        codes "\nRange: npt=0.000-\r\nSession: " ++ (print_number c ++ codes "; timeout=60\r\n")

    start : List ℕ
    start =
        snprintf size
          (ok_status ++ (codes "CSeq: " ++ (print_signed (get_cseq r) ++ (13 ∷ after c))))

-- For a request whose number is below 2^31, in a buffer of 80 bytes or more, and whatever the
-- arguments are: each of the twelve responses carries the number of the request, in the form in which
-- `ParseCSeq` reads it.
pub responses-Echoes :
    (r : RtspRequest) (size : ℕ) (sdp ip realm nonce : List ℕ) (info : Option (List ℕ)) (a b c : ℕ)
    → 80 ≤ size
    → get_cseq r < 2147483648
    → Echoes (get_cseq r) (build_option_res size r)
      × Echoes (get_cseq r) (build_describe_res size sdp r)
      × Echoes (get_cseq r) (build_setup_multicast_res size ip a c r)
      × Echoes (get_cseq r) (build_setup_udp_res size a b c r)
      × Echoes (get_cseq r) (build_setup_tcp_res size a b c r)
      × Echoes (get_cseq r) (build_play_res size info c r)
      × Echoes (get_cseq r) (build_teardown_res size c r)
      × Echoes (get_cseq r) (build_get_paramter_res size c r)
      × Echoes (get_cseq r) (build_not_found_res size r)
      × Echoes (get_cseq r) (build_server_error_res size r)
      × Echoes (get_cseq r) (build_unsupported_res size r)
      × Echoes (get_cseq r) (build_unauthorized_res size realm nonce r)
unfolding build_option_res build_describe_res build_setup_multicast_res build_setup_udp_res
    build_setup_tcp_res build_play_res build_teardown_res build_get_paramter_res build_not_found_res
    build_server_error_res build_unsupported_res build_unauthorized_res
responses-Echoes r size sdp ip realm nonce info a b c h k = (
  echo-whole ok_status n size _ (λ ys. refl) (omega (arith, h)) (omega (arith, k)),
  echo-whole ok_status n size _ (λ ys. refl) (omega (arith, h)) (omega (arith, k)),
  echo-whole ok_status n size _ (λ ys. refl) (omega (arith, h)) (omega (arith, k)),
  echo-whole ok_status n size _ (λ ys. refl) (omega (arith, h)) (omega (arith, k)),
  echo-whole ok_status n size _ (λ ys. refl) (omega (arith, h)) (omega (arith, k)),
  build_play_res-Echoes r size info c (omega (arith, h)) k,
  signed ok_status _ (λ ys. refl) (omega arith),
  signed ok_status _ (λ ys. refl) (omega arith),
  echo-whole (codes "RTSP/1.0 404 Not Found\r\n") n size _ (λ ys. refl) (omega (arith, h))
      (omega (arith, k)),
  echo-whole (codes "RTSP/1.0 500 Internal Server Error\r\n") n size _ (λ ys. refl)
      (omega (arith, h)) (omega (arith, k)),
  signed (codes "RTSP/1.0 461 Unsupported transport\r\n") _ (λ ys. refl) (omega arith),
  signed (codes "RTSP/1.0 401 Unauthorized\r\n") _ (λ ys. refl) (omega arith),
)
  where
    n : ℕ
    n = get_cseq r

    signed :
        (status rest : List ℕ)
        → ((ys : List ℕ)
            → find_text (codes "CSeq") (status ++ (codes "CSeq: " ++ ys))
              ≡ some (codes "CSeq: " ++ ys))
        → length status < 45
        → Echoes n (snprintf size (status ++ (codes "CSeq: " ++ (print_signed n ++ (13 ∷ rest)))))
    signed status rest found short =
        ap read_cseq (
          sym (
            append-nil
              (snprintf size (status ++ (codes "CSeq: " ++ (print_signed n ++ (13 ∷ rest)))))))
        ∙ echo-signed status n size rest [] found (omega (arith, h, short)) k
