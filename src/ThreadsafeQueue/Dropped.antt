-- ===== src/ThreadsafeQueue/Dropped.antt =====
-- What a queue holds after a number of pushes.
use obs_rtspserver.Prelude.{
  ℕ, zero, suc, ◌+◌, ◌-◌, ◌≤◌, ◌<◌, ◌≡◌, refl, sym, ap, ◌∙◌, inl, inr, false, List, [], ◌∷◌, ◌++◌,
  append_assoc, append-nil, arith, ltb, ltb→lt, length, length-append, length-drop, drop, drop-add,
  Bool-cases,
}
use obs_rtspserver.ThreadsafeQueue.{ThreadsafeQueue, behind_front, move_push}

module _ {ℓ} {A : Type ℓ} where
  -- The pushes of one producer, in order.
  abbrev pub push_all : List A → ThreadsafeQueue A → ThreadsafeQueue A
  push_all [] q = q
  push_all (x ∷ xs) q = push_all xs (move_push x q)

  behind_front-drop : (xs : List A) → behind_front xs ≡ drop 1 xs
  behind_front-drop [] = refl
  behind_front-drop (x ∷ xs) = refl

  drop-append_front : (n : ℕ) (xs ys : List A) → n ≤ length xs → drop n xs ++ ys ≡ drop n (xs ++ ys)
  drop-append_front zero xs ys h = refl
  drop-append_front (suc n) [] ys h = absurd (omega (arith, h))
  drop-append_front (suc n) (x ∷ xs) ys h = drop-append_front n xs ys (omega (arith, h))

  -- What does not fit any more.
  abbrev pub excess : ℕ → ThreadsafeQueue A → ℕ
  excess n q = length q.data_queue + n - q.size_limit

  -- The queue after pushes: what does not fit is gone from its front, and is counted.
  pub record IsPushed (xs : List A) (q q' : ThreadsafeQueue A) : Type ℓ where
    pub kept : q'.data_queue ≡ drop (excess (length xs) q) (q.data_queue ++ xs)
    pub counted : q'.dropped ≡ q.dropped + excess (length xs) q
    pub bounded : length q'.data_queue ≤ q.size_limit
    pub same_limit : q'.size_limit ≡ q.size_limit
    pub still_open : q'.is_terminated ≡ false

  move_push-IsPushed :
      (x : A) (q : ThreadsafeQueue A)
      → q.is_terminated ≡ false
      → length q.data_queue ≤ q.size_limit
      → IsPushed (x ∷ []) q (move_push x q)
  unfolding move_push
  move_push-IsPushed x q alive h =
      elim (Bool-cases (ltb q.size_limit (length (q.data_queue ++ (x ∷ []))))) [
        | inl t ↦
            rw (alive, t)
              (record {
                kept =
                    behind_front-drop (q.data_queue ++ (x ∷ []))
                    ∙ ap (λ n. drop n (q.data_queue ++ (x ∷ [])))
                        (one h (ltb→lt q.size_limit (length (q.data_queue ++ (x ∷ []))) t));
                counted =
                    ap (λ n. q.dropped + n)
                      (one h (ltb→lt q.size_limit (length (q.data_queue ++ (x ∷ []))) t));
                bounded = omega (
                  arith,
                  h,
                  grown,
                  length-drop {ℓ} 1 (q.data_queue ++ (x ∷ [])),
                  ap length (behind_front-drop (q.data_queue ++ (x ∷ []))),
                );
                same_limit = refl;
                still_open = refl;
              })
        | inr t ↦
            rw (alive, t)
              (record {
                kept = ap (λ n. drop n (q.data_queue ++ (x ∷ []))) (none_over (fits t));
                counted = omega (arith, none_over (fits t));
                bounded = fits t;
                same_limit = refl;
                still_open = refl;
              })
      ]
    where
      grown : length (q.data_queue ++ (x ∷ [])) ≡ length q.data_queue + 1
      grown = omega (arith, length-append {ℓ} q.data_queue (x ∷ []))

      one :
          length q.data_queue ≤ q.size_limit
          → q.size_limit < length (q.data_queue ++ (x ∷ []))
          → 1 ≡ length q.data_queue + 1 - q.size_limit
      one h t = omega (arith, h, t, grown)

      fits :
          ltb q.size_limit (length (q.data_queue ++ (x ∷ []))) ≡ false
          → length (q.data_queue ++ (x ∷ [])) ≤ q.size_limit
      fits t = ground (arith, t)

      none_over :
          length (q.data_queue ++ (x ∷ [])) ≤ q.size_limit
          → 0 ≡ length q.data_queue + 1 - q.size_limit
      none_over f = omega (arith, f, grown)

  -- On a queue that has not been terminated and holds at most its limit, which may be 0: after any
  -- pushes it holds the last elements of all that it had and was given, as many as the limit allows, and
  -- the count of dropped elements has grown by the number of the others.
  pub push_all-IsPushed :
      (xs : List A) (q : ThreadsafeQueue A)
      → q.is_terminated ≡ false
      → length q.data_queue ≤ q.size_limit
      → IsPushed xs q (push_all xs q)
  push_all-IsPushed [] q alive h = record {
    kept = nothing (omega (arith, h));
    counted = omega (arith, h);
    bounded = h;
    same_limit = refl;
    still_open = alive;
  }
    where
      nothing : 0 ≡ excess 0 q → q.data_queue ≡ drop (excess 0 q) (q.data_queue ++ [])
      nothing e = sym (append-nil q.data_queue) ∙ ap (λ n. drop n (q.data_queue ++ [])) e
  push_all-IsPushed (x ∷ xs) q alive h =
      let a = move_push-IsPushed x q alive h in
      let b =
        push_all-IsPushed xs (move_push x q) a.still_open
          (omega (arith, a.bounded, a.same_limit)) in
      let e = excess 1 q in
      let sizes : length (move_push x q).data_queue ≡ length q.data_queue + 1 - e = omega (
        arith,
        ap length a.kept,
        length-drop {ℓ} e (q.data_queue ++ (x ∷ [])),
        length-append {ℓ} q.data_queue (x ∷ []),
      ) in
      record {
        kept =
            b.kept
            ∙ (ap (λ z. drop (excess (length xs) (move_push x q)) (z ++ xs)) a.kept
                ∙ (ap (drop (excess (length xs) (move_push x q))) (
                      drop-append_front e (q.data_queue ++ (x ∷ [])) xs
                        (omega (arith, h, length-append {ℓ} q.data_queue (x ∷ [])))
                      ∙ ap (drop e) (append_assoc q.data_queue (x ∷ []) xs))
                    ∙ (drop-add e (excess (length xs) (move_push x q)) (q.data_queue ++ (x ∷ xs))
                        ∙ ap (λ n. drop n (q.data_queue ++ (x ∷ xs)))
                            (omega (arith, h, sizes, a.same_limit)))));
        counted = omega (arith, h, b.counted, a.counted, sizes, a.same_limit);
        bounded = omega (arith, b.bounded, a.same_limit);
        same_limit = b.same_limit ∙ a.same_limit;
        still_open = b.still_open;
      }
