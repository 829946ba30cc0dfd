-- ===== src/BufferWriter.antt =====
-- rtsp-server/net/BufferWriter.h and BufferWriter.cpp: the queue of packets that wait to be sent.
mod Tests
pub mod Stream
use obs_rtspserver.Prelude.{
  ℕ, ◌+◌, ◌-◌, ◌%◌, ◌^◌, Bool, true, false, List, [], ◌∷◌, ◌++◌, ltb, leb, ◌==◌, if◌then◌else◌,
  length, take, drop,
}

-- `Packet`; `contents` are the bytes behind `data`.
pub record Packet : Type 0 where
  pub contents : List ℕ
  pub size : ℕ
  pub write_index : ℕ

-- `buffer_` and `max_queue_length_`
pub record BufferWriter : Type 0 where
  pub buffer : List Packet
  pub max_queue_length : ℕ

unfoldable pub is_empty : BufferWriter → Bool
is_empty w = length w.buffer == 0

unfoldable pub is_full : BufferWriter → Bool
is_full w = leb w.max_queue_length (length w.buffer)

-- `Append`, of shared bytes.
unfoldable pub append_shared : BufferWriter → List ℕ → ℕ → ℕ → BufferWriter × Bool
append_shared w contents size index =
    if leb size index
    then (w, false)
    else if leb w.max_queue_length (length w.buffer)
    then (w, false)
    else (
      record {
        buffer = w.buffer ++ record { contents = contents; size = size; write_index = index } ∷ [];
        max_queue_length = w.max_queue_length;
      },
      true,
    )

-- `Append`, of a copy. The 512 bytes behind the copy are never read.
unfoldable pub append_copy : BufferWriter → List ℕ → ℕ → ℕ → BufferWriter × Bool
append_copy w contents size index =
    if leb size index
    then (w, false)
    else if leb w.max_queue_length (length w.buffer)
    then (w, false)
    else (
      record {
        buffer =
            w.buffer
            ++ record { contents = take size contents; size = size; write_index = index } ∷ [];
        max_queue_length = w.max_queue_length;
      },
      true,
    )

-- What `send` does: it takes a number of bytes, it would block or was interrupted, or it fails.
pub data Sent : Type 0 where
  took : ℕ → Sent
  would_block failed : Sent

-- The result of `Send`: `ret`, or a negative number.
pub data Result : Type 0 where
  ret : ℕ → Result
  error : Result

-- The bytes that are handed to `send`; both numbers are `uint32_t` there.
abbrev pub unsent : Packet → List ℕ
unsent p =
    take ((p.size % 2 ^ 32 + 2 ^ 32 - p.write_index) % 2 ^ 32) (drop p.write_index p.contents)

abbrev pub advanced : Packet → ℕ → Packet
advanced p n = record {
  contents = p.contents;
  size = p.size;
  write_index = (p.write_index + n) % 2 ^ 32;
}

module _ {S : Type 0} (send : S → List ℕ → S × Sent) where
  -- The loop of `Send`: `count` is positive at its end just when the front packet was sent whole.
  unfoldable pub send_loop : S → List Packet → S × List Packet × Result
  send_loop s [] = (s, [], ret 0)
  send_loop s (p ∷ ps) =
      let (s', r) = send s (unsent p) in
      let rest = send_loop s' ps in
      elim r [
        | took n ↦
            if ltb 0 n
            then (if p.size == (advanced p n).write_index
                then rest
                else (s', advanced p n ∷ ps, ret n))
            else (s', p ∷ ps, ret n)
        | would_block ↦ (s', p ∷ ps, ret 0)
        | failed ↦ (s', p ∷ ps, error)
      ]

  -- `Send`. The socket's mode is set before and after; that is the socket's state.
  unfoldable pub send_all : S → BufferWriter → S × BufferWriter × Result
  unfolding send_loop
  send_all s w =
      let (s', ps, r) = send_loop s w.buffer in
      (s', record { buffer = ps; max_queue_length = w.max_queue_length }, r)
