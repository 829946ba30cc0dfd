-- ===== src/Packetizer/Fragment.antt =====
-- The fragments of a unit that is too large for one packet.
use obs_rtspserver.Prelude.{
  ℕ, zero, suc, ◌+◌, ◌-◌, ◌≤◌, ◌<◌, ◌≡◌, refl, sym, ap, ◌∙◌, inl, inr, Bool, true, false, List, [],
  ◌∷◌, ◌++◌, append_assoc, arith, bit_and, bit_or, length, length-append, length-take, length-drop,
  length-set, get_or, set, get_or-append_left, take, drop, drop-add, take-past, ltb, ltb→lt,
  Bool-cases,
}
use obs_rtspserver.Rtp.{max_payload, head_size, RtpPacket, u16, write}
use obs_rtspserver.Packetizer.{
  Codec, and_then, send_packet, send_middle, fragment_start, send_fragments, get_rtp_frame_type,
}
use obs_rtspserver.Packetizer.Packets.{
  IsCodec, piece, fragment, fragment_header, first_flags, middle_flags, last_flags, middle_packets,
  fragments,
}
use obs_rtspserver.Packetizer.Buffer.{
  write-append, write-front, set-length-append, get_or-length-append,
}
use obs_rtspserver.Packetizer.Sends.{run, Sends, Sends-and_then, send_packet-run}

set-append_left {ℓ} :
    {A : Type ℓ} (xs ys : List A) (i : ℕ) (v : A)
    → i < length xs
    → set (xs ++ ys) i v ≡ set xs i v ++ ys
set-append_left [] ys i v h = absurd (omega arith)
set-append_left (x ∷ xs) ys zero v h = refl
set-append_left (x ∷ xs) ys (suc i) v h = ap (◌∷◌ x) (set-append_left xs ys i v (omega arith))

get_or-take {ℓ} :
    {A : Type ℓ} (n : ℕ) (xs : List A) (d : A) → 0 < n → get_or (take n xs) 0 d ≡ get_or xs 0 d
get_or-take zero xs d h = absurd (omega arith)
get_or-take (suc n) [] d h = refl
get_or-take (suc n) (x ∷ xs) d h = refl

-- A write behind the byte after `pre`.
write-behind :
    (pre rest bytes : List ℕ) (x off : ℕ)
    → off ≡ length pre + 1
    → write (pre ++ x ∷ rest) off bytes ≡ (pre ++ x ∷ bytes) ++ drop (length bytes) rest
write-behind pre rest bytes x off e = rw (← append_assoc pre (x ∷ []) rest) (
    write-append (pre ++ x ∷ []) rest bytes off (omega (arith, length-append {0} pre (x ∷ [])))
    ∙ ap (λ p. p ++ drop (length bytes) rest) (append_assoc pre (x ∷ []) bytes))

module _ {M : Type 0} (c : Codec M) (v : IsCodec c) where
  hs : ℕ
  hs = c.header_size

  length-fragment_header :
      (u : List ℕ) → c.header_size ≤ length u → length (fragment_header c u) ≡ c.header_size
  length-fragment_header u h = omega (
    arith,
    length-set {0} (take c.header_size u) 0 (c.mark_fragment (get_or u 0 0)),
    length-take {0} c.header_size u,
  )

  fragment_start_lem :
      (u a rest : List ℕ) (x : ℕ)
      → c.header_size ≤ length u
      → length a ≡ c.header_size
      → fragment_start c u (a ++ x ∷ rest) ≡ fragment_header c u ++ first_flags c u ∷ rest
  unfolding fragment_start
  fragment_start_lem u a rest x h l =
      rw
        (
          headed,
          marked,
          typed,
          get_or-length-append (fragment_header c u) rest (bit_and (c.get_type u) c.type_mask) 0
              c.header_size (sym len),
        )
        (set-length-append (fragment_header c u) rest _ _ c.header_size (sym len))
    where
      len : length (fragment_header c u) ≡ c.header_size
      len = length-fragment_header u h

      start : List ℕ
      start = take c.header_size u

      start-len : length start ≡ c.header_size
      start-len = omega (arith, length-take {0} c.header_size u)

      headed : write (a ++ x ∷ rest) 0 (c.copy_header u c.header_size) ≡ start ++ x ∷ rest
      headed = rw (v.copied_header u) (write-front a (x ∷ rest) start (start-len ∙ sym l))

      marked :
          set (start ++ x ∷ rest) 0 (c.mark_fragment (get_or (start ++ x ∷ rest) 0 0))
          ≡ fragment_header c u ++ x ∷ rest
      marked =
          rw
            (
              get_or-append_left start (x ∷ rest) 0 0 (omega (arith, start-len, v.header_pos)),
              get_or-take c.header_size u 0 v.header_pos,
            )
            (set-append_left start (x ∷ rest) 0 _ (omega (arith, start-len, v.header_pos)))

      typed :
          set (fragment_header c u ++ x ∷ rest) c.header_size (bit_and (c.get_type u) c.type_mask)
          ≡ fragment_header c u ++ bit_and (c.get_type u) c.type_mask ∷ rest
      typed = set-length-append (fragment_header c u) rest x _ c.header_size (sym len)

  module _ {S : Type 0} (send : S → RtpPacket → S × Bool) (timestamp : ℕ) (u : List ℕ)
      (large : c.header_size ≤ length u) where
    len : length (fragment_header c u) ≡ c.header_size
    len = length-fragment_header u large

    -- One fragment, written behind the flags in the buffer.
    fragment-run :
        (s : S) (flags : ℕ) (rest bytes : List ℕ) (size last : ℕ)
        → size ≡ head_size + c.header_size + 1 + length bytes
        → send_packet c send timestamp s
            (write (fragment_header c u ++ flags ∷ rest) (c.header_size + 1) bytes)
            size
            (get_rtp_frame_type c u)
            last
          ≡ run send
              (fragment c timestamp u flags bytes last ∷ [])
              s
              ((fragment_header c u ++ flags ∷ bytes) ++ drop (length bytes) rest)
    fragment-run s flags rest bytes size last e =
        rw
          (write-behind (fragment_header c u) rest bytes flags (c.header_size + 1)
            (omega (arith, len)))
          (send_packet-run c send timestamp s (fragment_header c u ++ flags ∷ bytes)
            (drop (length bytes) rest) size (get_rtp_frame_type c u) last
            (omega (arith, len, length-append {0} (fragment_header c u) (flags ∷ bytes))))

    -- The buffer keeps its length, and its front up to the flags.
    after-write :
        (flags : ℕ) (rest bytes : List ℕ)
        → (fragment_header c u ++ flags ∷ bytes) ++ drop (length bytes) rest
          ≡ fragment_header c u ++ flags ∷ (bytes ++ drop (length bytes) rest)
    after-write flags rest bytes =
        append_assoc (fragment_header c u) (flags ∷ bytes) (drop (length bytes) rest)

    room-after :
        (rest bytes : List ℕ)
        → length bytes ≤ length rest
        → length (bytes ++ drop (length bytes) rest) ≡ length rest
    room-after rest bytes h = omega (
      arith,
      length-append {0} bytes (drop (length bytes) rest),
      length-drop {0} (length bytes) rest,
    )

    total :
        (flags : ℕ) (rest : List ℕ)
        → length (fragment_header c u ++ flags ∷ rest) ≡ c.header_size + 1 + length rest
    total flags rest = omega (arith, len, length-append {0} (fragment_header c u) (flags ∷ rest))

    send_middle-Sends :
        (fuel skip : ℕ) (bytes rest : List ℕ) (s : S)
        → bytes ≡ drop (skip + c.header_size) u
        → length bytes < fuel
        → piece c ≤ length rest
        → Sends send (c.header_size + 1 + length rest) (middle_packets c timestamp fuel u bytes) s (
            send_middle c send timestamp fuel u
              (length u - c.header_size)
              skip
              s
              (fragment_header c u ++ middle_flags c u ∷ rest))
    unfolding send_middle middle_packets
    send_middle-Sends zero skip bytes rest s e h room = absurd (omega arith)
    send_middle-Sends (suc fuel) skip bytes rest s e h room =
        elim (Bool-cases (ltb (piece c) (length bytes))) [
          | inl t ↦ rw (same, t) (middle t (send_middle-Sends fuel))
          | inr t ↦ rw (same, t) (final t)
        ]
      where
        n : ℕ
        n = c.header_size + 1 + length rest

        same : length u - c.header_size - skip ≡ length bytes
        same = omega (arith, ap length e, length-drop {0} (skip + c.header_size) u)

        part : List ℕ
        part = take (piece c) bytes

        copied : c.copy_body u (piece c) skip ≡ part
        copied = v.copied_body u (piece c) skip ∙ ap (take (piece c)) (sym e)

        rest' : List ℕ
        rest' = part ++ drop (length part) rest

        middle :
            ltb (piece c) (length bytes) ≡ true
            → ((skip : ℕ) (bytes rest : List ℕ) (s : S)
                → bytes ≡ drop (skip + c.header_size) u
                → length bytes < fuel
                → piece c ≤ length rest
                → Sends send
                    (c.header_size + 1 + length rest)
                    (middle_packets c timestamp fuel u bytes)
                    s
                    (send_middle c send timestamp fuel u
                      (length u - c.header_size)
                      skip
                      s
                      (fragment_header c u ++ middle_flags c u ∷ rest)))
            → Sends send n
                (fragment c timestamp u (middle_flags c u) part 0
                  ∷ middle_packets c timestamp fuel u (drop (piece c) bytes))
                s
                (and_then
                  (send_packet c send timestamp s
                    (write
                      (fragment_header c u ++ middle_flags c u ∷ rest)
                      (c.header_size + 1)
                      (c.copy_body u (piece c) skip))
                    (head_size + max_payload)
                    (get_rtp_frame_type c u)
                    0)
                  (λ s' b.
                    send_middle c send timestamp fuel u
                      (length u - c.header_size)
                      (skip + length (c.copy_body u (piece c) skip))
                      s'
                      b))
        middle t ih =
            rw
              (
                copied,
                fragment-run s (middle_flags c u) rest part (head_size + max_payload) 0
                    (omega (arith, full, v.header_small)),
                after-write (middle_flags c u) rest part,
              )
              (Sends-and_then send n (fragment c timestamp u (middle_flags c u) part 0 ∷ []) _ s _ _
                (total (middle_flags c u) rest' ∙ ap (λ k. c.header_size + 1 + k) kept)
                λ s'. rw kept at (
                  ih (skip + length part) (drop (piece c) bytes) rest' s' next
                    (omega (
                      arith,
                      length-drop {0} (piece c) bytes,
                      ltb→lt (piece c) (length bytes) t,
                      v.header_small,
                    ))
                    (omega (arith, kept))))
          where
            full : length part ≡ piece c
            full = omega (arith, length-take {0} (piece c) bytes, ltb→lt (piece c) (length bytes) t)

            kept : length rest' ≡ length rest
            kept = room-after rest part (omega (arith, full))

            next : drop (piece c) bytes ≡ drop (skip + length part + c.header_size) u
            next =
                ap (drop (piece c)) e
                ∙ drop-add (skip + c.header_size) (piece c) u
                ∙ ap (λ k. drop k u) (omega (arith, full))

        final :
            ltb (piece c) (length bytes) ≡ false
            → Sends send n (fragment c timestamp u (last_flags c u) bytes 1 ∷ []) s (
                send_packet c send timestamp s
                  (write
                    (set (fragment_header c u ++ middle_flags c u ∷ rest) c.header_size (
                      bit_or
                        (get_or (fragment_header c u ++ middle_flags c u ∷ rest) c.header_size 0)
                        0x40))
                    (c.header_size + 1)
                    (c.copy_body u (piece c) skip))
                  (u16
                    (head_size + u16 (length (c.copy_body u (piece c) skip)) + c.header_size + 1))
                  (get_rtp_frame_type c u)
                  1)
        final t =
            let all : part ≡ bytes = take-past (piece c) bytes (ground arith) in
            let short : length bytes ≤ piece c = ground arith in
            rw
              (
                copied,
                all,
                get_or-length-append (fragment_header c u) rest (middle_flags c u) 0 c.header_size
                    (sym len),
                set-length-append (fragment_header c u) rest (middle_flags c u) (last_flags c u)
                    c.header_size (sym len),
                fragment-run s (last_flags c u) rest bytes
                    (u16 (head_size + u16 (length bytes) + c.header_size + 1)) 1
                    (omega (arith, v.header_small)),
              )
              (
                (fragment_header c u ++ last_flags c u ∷ bytes) ++ drop (length bytes) rest,
                ap length (after-write (last_flags c u) rest bytes)
                    ∙ total (last_flags c u) _
                    ∙ ap (λ k. c.header_size + 1 + k) (room-after rest bytes (omega arith)),
                refl,
              )

    pub send_fragments-split :
        (s : S) (a rest : List ℕ) (x : ℕ)
        → max_payload < length u
        → length a ≡ c.header_size
        → piece c ≤ length rest
        → Sends send
            (c.header_size + 1 + length rest)
            (fragments c timestamp u)
            s
            (send_fragments c send timestamp u s (a ++ x ∷ rest))
    unfolding send_fragments fragments
    send_fragments-split s a rest x long l room =
        rw
          (
            copied,
            fragment_start_lem u a rest x large l,
            fragment-run s (first_flags c u) rest part (head_size + max_payload) 0
                (omega (arith, full, v.header_small)),
            after-write (first_flags c u) rest part,
            v.body_size u,
          )
          (Sends-and_then send n (fragment c timestamp u (first_flags c u) part 0 ∷ []) _ s _ _
            (total (first_flags c u) rest' ∙ ap (λ k. c.header_size + 1 + k) kept) onward)
      where
        n : ℕ
        n = c.header_size + 1 + length rest

        part : List ℕ
        part = take (piece c) (drop c.header_size u)

        copied : c.copy_body u (piece c) 0 ≡ part
        copied = v.copied_body u (piece c) 0 ∙ ap (λ k. take (piece c) (drop k u)) (omega arith)

        full : length part ≡ piece c
        full = omega (
          arith,
          length-take {0} (piece c) (drop c.header_size u),
          length-drop {0} c.header_size u,
          v.header_small,
        )

        rest' : List ℕ
        rest' = part ++ drop (length part) rest

        kept : length rest' ≡ length rest
        kept = room-after rest part (omega (arith, full))

        onward :
            (s' : S)
            → Sends send n
                (middle_packets c timestamp (length u) u (drop (piece c) (drop c.header_size u)))
                s'
                (send_middle c send timestamp
                  (length u)
                  u
                  (length u - c.header_size)
                  (length part)
                  s'
                  (set (fragment_header c u ++ first_flags c u ∷ rest') c.header_size (
                    bit_and
                      (get_or (fragment_header c u ++ first_flags c u ∷ rest') c.header_size 0)
                      c.type_mask)))
        onward s' =
            rw
              (
                get_or-length-append (fragment_header c u) rest' (first_flags c u) 0 c.header_size
                    (sym len),
                set-length-append (fragment_header c u) rest' (first_flags c u) (middle_flags c u)
                    c.header_size (sym len),
              )
              (rw kept at (
                send_middle-Sends (length u) (length part) (drop (piece c) (drop c.header_size u))
                  rest' s' next
                  (omega (
                    arith,
                    length-drop {0} (piece c) (drop c.header_size u),
                    length-drop {0} c.header_size u,
                    v.header_pos,
                  ))
                  (omega (arith, kept))))
          where
            next : drop (piece c) (drop c.header_size u) ≡ drop (length part + c.header_size) u
            next = drop-add c.header_size (piece c) u ∙ ap (λ k. drop k u) (omega (arith, full))
