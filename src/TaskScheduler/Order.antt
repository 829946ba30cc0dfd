-- ===== src/TaskScheduler/Order.antt =====
-- The trigger events are called in the order in which they were added, each once.
use obs_rtspserver.Prelude.{
  ℕ, zero, suc, ◌-◌, ◌<◌, ◌≡◌, refl, sym, ap, ◌∙◌, inl, inr, Bool, true, false, List, ◌∷◌, arith,
  ltb, ltb→lt, get_or, subst, Bool-cases,
}
use obs_rtspserver.RingBuffer.{RingBuffer, add, pop}
use obs_rtspserver.RingBuffer.Refine.{elements, after, contents}
use obs_rtspserver.TaskScheduler.{trigger_round, handle_trigger_event}

module _ {ℓ} {A : Type ℓ} where
  -- A callback that does not add events.
  abbrev pub quiet : A → RingBuffer A → RingBuffer A
  quiet event r = r

  -- All events of `r` have been called in their order, each once, and none is left.
  abbrev pub IsRun : A → RingBuffer A → RingBuffer A × List A × Bool → Type ℓ
  IsRun d r (left, called, done) = (called ≡ contents d r) × (done ≡ true) × (left.num_datas ≡ 0)

  -- The ring without its first event.
  abbrev popped : RingBuffer A → RingBuffer A
  popped r = record r { get_pos = after r.capacity r.get_pos; num_datas = r.num_datas - 1 }

  none_left : (r : RingBuffer A) → ltb 0 r.num_datas ≡ false → r.num_datas ≡ 0
  none_left r t = ground (arith, t)

  pop-first :
      (d : A) (r : RingBuffer A)
      → ltb 0 r.num_datas ≡ true
      → (pop d r ≡ (popped r, get_or r.buffer r.get_pos d, true))
        × (contents d r ≡ get_or r.buffer r.get_pos d ∷ contents d (popped r))
  unfolding pop add
  pop-first d r t = (rw t refl, ap (elements d r.capacity r.buffer r.get_pos) (positive t))
    where
      positive : ltb 0 r.num_datas ≡ true → r.num_datas ≡ suc (r.num_datas - 1)
      positive t = ground (arith, t)

  pop-none : (d : A) (r : RingBuffer A) → ltb 0 r.num_datas ≡ false → pop d r ≡ (r, d, false)
  unfolding pop
  pop-none d r t = rw t refl

  trigger_round-IsRun :
      (d x : A) (r p : RingBuffer A) (others : RingBuffer A → RingBuffer A × List A × Bool)
      → contents d r ≡ x ∷ contents d p
      → IsRun d p (others p)
      → IsRun d r (trigger_round quiet others (p, x, true))
  unfolding trigger_round
  trigger_round-IsRun d x r p others e (called, done, empty) =
      elim (Bool-cases (ltb 0 p.num_datas)) [
        | inl t ↦ rw t (ap (λ z. x ∷ z) called ∙ sym e, done, empty)
        | inr t ↦ rw t (
          sym (e ∙ ap (λ n. x ∷ elements d p.capacity p.buffer p.get_pos n) (none_left p t)),
          refl,
          none_left p t,
        )
      ]

  trigger_round-none :
      (d : A) (r : RingBuffer A) (others : RingBuffer A → RingBuffer A × List A × Bool)
      → ltb 0 r.num_datas ≡ false
      → IsRun d r (trigger_round quiet others (r, d, false))
  unfolding trigger_round
  trigger_round-none d r others t =
      rw t
        (sym (ap (elements d r.capacity r.buffer r.get_pos) (none_left r t)), refl, none_left r t)

  -- When no callback adds an event, and with one round more than there are events: the loop of
  -- `HandleTriggerEvent` ends, all events have been called in their order, each once, and none is left.
  pub handle_trigger_event-IsRun :
      (d : A) (fuel : ℕ) (r : RingBuffer A)
      → r.num_datas < fuel
      → IsRun d r (handle_trigger_event d quiet fuel r)
  unfolding handle_trigger_event
  handle_trigger_event-IsRun d zero r h = absurd (omega (arith, h))
  handle_trigger_event-IsRun d (suc fuel) r h = elim (Bool-cases (ltb 0 r.num_datas)) [
    | inr t ↦
        subst (λ z. IsRun d r (trigger_round quiet (handle_trigger_event d quiet fuel) z))
          (sym (pop-none d r t)) (trigger_round-none d r (handle_trigger_event d quiet fuel) t)
    | inl t ↦
        (let (e, c) = pop-first d r t in
          subst (λ z. IsRun d r (trigger_round quiet (handle_trigger_event d quiet fuel) z)) (sym e)
            (trigger_round-IsRun d (get_or r.buffer r.get_pos d) r (popped r)
              (handle_trigger_event d quiet fuel) c
              (handle_trigger_event-IsRun d fuel (popped r)
                (omega (arith, h, ltb→lt 0 r.num_datas t)))))
  ]
