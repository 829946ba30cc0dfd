-- ===== src/BufferReader/Tests.antt =====
-- Runs of the receive buffer.
use obs_rtspserver.Prelude.{◌≡◌, refl, arith, [], ◌∷◌, drop}
use obs_rtspserver.BufferReader.{
  BufferReader, bytes, readable, retrieve, read, read_until_crlf, find_first_crlf, find_last_crlf,
}
use obs_rtspserver.BufferReader.Queue.{IsValid, IsRead, readable-retrieve, read-IsRead}
use obs_rtspserver.BufferReader.Lines.{
  IsCut, IsFirst, IsLast, find_crlf-places, read_until_crlf-IsCut,
}

-- One byte is handled, and `a`, CR, LF, `b` are readable.
abbrev held : BufferReader
held = record { buffer = 1 ∷ 97 ∷ 13 ∷ 10 ∷ 98 ∷ 0 ∷ 0 ∷ []; reader_index = 1; writer_index = 5 }

held-IsValid : IsValid held
held-IsValid = record { reader_le = omega arith; writer_le = omega arith }

cut_behind_line : (read_until_crlf held []).1 ≡ 97 ∷ 13 ∷ 10 ∷ []
unfolding read_until_crlf
cut_behind_line = refl

readable-retrieve_example :
    IsValid (retrieve 3 held) × (readable (retrieve 3 held) ≡ drop 3 (readable held))
readable-retrieve_example = readable-retrieve 3 held held-IsValid

read-IsRead_example : IsRead held (read (bytes (5 ∷ 6 ∷ [])) held)
read-IsRead_example = read-IsRead (bytes (5 ∷ 6 ∷ [])) held held-IsValid (omega arith)

find_crlf-places_example :
    IsFirst (readable held) (find_first_crlf held) × IsLast (readable held) (find_last_crlf held)
find_crlf-places_example = find_crlf-places held

read_until_crlf-IsCut_example : IsCut held [] (read_until_crlf held [])
read_until_crlf-IsCut_example = read_until_crlf-IsCut held [] held-IsValid
