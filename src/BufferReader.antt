-- ===== src/BufferReader.antt =====
-- rtsp-server/net/BufferReader.h and BufferReader.cpp: the received bytes that are not yet handled.
mod Tests
pub mod Queue
pub mod Lines
use obs_rtspserver.Prelude.{
  ℕ, zero, suc, ◌+◌, ◌-◌, ◌*◌, ◌≤◌, Bool, true, false, ◌&&◌, Option, none, some, List, [], ◌∷◌,
  ◌++◌, ltb, leb, ◌==◌, if◌then◌else◌, length, replicate, take, drop,
}

abbrev pub max_bytes_per_read : ℕ
max_bytes_per_read = 4096

abbrev pub max_buffer_size : ℕ
max_buffer_size = 1024 * 100000

-- `buffer_`, `reader_index_` and `writer_index_`
pub record BufferReader : Type 0 where
  pub buffer : List ℕ
  pub reader_index : ℕ
  pub writer_index : ℕ

-- What `recv` does: it stores bytes and returns their number, or returns 0 or a negative number.
pub data Received : Type 0 where
  bytes : List ℕ → Received
  closed failed : Received

unfoldable pub buffer_reader_new : ℕ → BufferReader
buffer_reader_new size = record { buffer = replicate size 0; reader_index = 0; writer_index = 0 }

unfoldable pub readable_bytes : BufferReader → ℕ
readable_bytes b = b.writer_index - b.reader_index

unfoldable pub writable_bytes : BufferReader → ℕ
writable_bytes b = length b.buffer - b.writer_index

-- The bytes from `Peek()` to `BeginWrite()`.
abbrev pub readable : BufferReader → List ℕ
readable b = take (b.writer_index - b.reader_index) (drop b.reader_index b.buffer)

unfoldable pub retrieve_all : BufferReader → BufferReader
retrieve_all b = record { buffer = b.buffer; reader_index = 0; writer_index = 0 }

unfoldable pub retrieve : ℕ → BufferReader → BufferReader
unfolding readable_bytes retrieve_all
retrieve len b =
    if leb len (readable_bytes b)
    then (if b.reader_index + len == b.writer_index
        then record { buffer = b.buffer; reader_index = 0; writer_index = 0 }
        else record {
          buffer = b.buffer;
          reader_index = b.reader_index + len;
          writer_index = b.writer_index;
        })
    else retrieve_all b

-- The result of `recv` at `beginWrite()`: the new buffer's content, and the result of `Read`.
unfoldable pub store : Received → BufferReader → BufferReader × Received
store (bytes new) b = (
  record {
    buffer = take b.writer_index b.buffer ++ (new ++ drop (b.writer_index + length new) b.buffer);
    reader_index = b.reader_index;
    writer_index = b.writer_index + length new;
  },
  bytes new,
)
store closed b = (b, closed)
store failed b = (b, failed)

-- `Read`: room for `max_bytes_per_read` bytes is made first. `closed` stands for the result 0.
unfoldable pub read : Received → BufferReader → BufferReader × Received
unfolding writable_bytes store
read recv b =
    if ltb (writable_bytes b) max_bytes_per_read
    then (if ltb max_buffer_size (length b.buffer)
        then (b, closed)
        else store recv (record {
          buffer = b.buffer ++ replicate max_bytes_per_read 0;
          reader_index = b.reader_index;
          writer_index = b.writer_index;
        }))
    else store recv b

-- `ReadAll`: the buffer, `data`, and the result.
unfoldable pub read_all : BufferReader → List ℕ → BufferReader × List ℕ × ℕ
unfolding readable_bytes
read_all b old =
    if ltb 0 (readable_bytes b)
    then (
      record { buffer = b.buffer; reader_index = 0; writer_index = 0 },
      readable b,
      readable_bytes b,
    )
    else (b, old, readable_bytes b)

-- `kCRLF` at the front of these bytes.
unfoldable pub starts_crlf : List ℕ → Bool
starts_crlf (x ∷ y ∷ xs) = x == 13 && y == 10
starts_crlf xs = false

-- `std::search` and `std::find_end` for `kCRLF`, as offsets from `Peek()`.
unfoldable pub search : List ℕ → Option ℕ
unfolding starts_crlf
search [] = none
search (x ∷ xs) =
    if starts_crlf (x ∷ xs)
    then some 0
    else elim (search xs) [ none ↦ none | some i ↦ some (suc i) ]

unfoldable pub find_end : List ℕ → Option ℕ
unfolding starts_crlf
find_end [] = none
find_end (x ∷ xs) = elim (find_end xs) [
  | some i ↦ some (suc i)
  | none ↦ if starts_crlf (x ∷ xs) then some 0 else none
]

unfoldable pub find_first_crlf : BufferReader → Option ℕ
unfolding search
find_first_crlf b = search (readable b)

unfoldable pub find_last_crlf : BufferReader → Option ℕ
unfolding find_end
find_last_crlf b = find_end (readable b)

-- `ReadUntilCrlf`: the buffer, `data`, and the result.
unfoldable pub read_until_crlf : BufferReader → List ℕ → BufferReader × List ℕ × ℕ
unfolding find_last_crlf retrieve
read_until_crlf b old = elim (find_last_crlf b) [
  | none ↦ (b, old, 0)
  | some i ↦ (retrieve (i + 2) b, take (i + 2) (readable b), i + 2)
]
