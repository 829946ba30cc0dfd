-- ===== src/BufferWriter/Tests.antt =====
-- Runs of the send queue, over a socket that takes at most three bytes.
use obs_rtspserver.Prelude.{ℕ, ◌≡◌, refl, ap, arith, min, List, [], ◌∷◌, ◌++◌, length}
use obs_rtspserver.BufferWriter.{
  BufferWriter, Sent, took, would_block, failed, append_shared, append_copy, send_all,
}
use obs_rtspserver.BufferWriter.Stream.{
  IsValid, IsSocket, IsAppended, logged, stream, send_all-IsSent, append-IsAppended,
}

abbrev three : ℕ → List ℕ → ℕ × Sent
three s xs = (s, took (min 3 (length xs)))

number : Sent → ℕ
number (took n) = n
number would_block = 0
number failed = 0

took-injective : (m n : ℕ) → took m ≡ took n → m ≡ n
unfolding number
took-injective m n e = ap number e

three-IsSocket : IsSocket three
three-IsSocket s xs n e = omega (arith, took-injective _ n e)

abbrev queue : BufferWriter
queue = record {
  buffer =
      record { contents = 1 ∷ 2 ∷ 3 ∷ []; size = 3; write_index = 1 }
      ∷ record { contents = 4 ∷ 5 ∷ 6 ∷ 7 ∷ []; size = 4; write_index = 0 }
      ∷ [];
  max_queue_length = 3;
}

queue-IsValid : IsValid queue
queue-IsValid = record {
  pending = (
    record { index_lt = omega arith; size_le = omega arith; size_lt = omega arith },
    (record { index_lt = omega arith; size_le = omega arith; size_lt = omega arith }, tt),
  );
  length_le = omega arith;
}

-- The first packet goes whole, and the second one in part.
sends_five : (send_all (logged three) (0, []) queue).0.1 ≡ 2 ∷ 3 ∷ 4 ∷ 5 ∷ 6 ∷ []
unfolding send_all logged
sends_five = refl

send_all-IsSent_example :
    IsValid (send_all (logged three) (0, []) queue).1
    × ((send_all (logged three) (0, []) queue).0.1
          ++ stream (send_all (logged three) (0, []) queue).1.buffer
        ≡ [] ++ stream queue.buffer)
send_all-IsSent_example = send_all-IsSent three three-IsSocket queue 0 [] queue-IsValid

append-IsAppended_example :
    IsAppended queue (8 ∷ 9 ∷ []) 2 1 (append_shared queue (8 ∷ 9 ∷ []) 2 1)
    × IsAppended queue (8 ∷ 9 ∷ []) 2 1 (append_copy queue (8 ∷ 9 ∷ []) 2 1)
append-IsAppended_example =
    append-IsAppended queue (8 ∷ 9 ∷ []) 2 1 queue-IsValid (omega arith) (omega arith)
