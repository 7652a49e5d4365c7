-- ===== src/Tests/Files.antt =====
-- A remote file of five bytes.
use neural_swarm_ai.Common.{◌+◌, ◌-◌, ◌^◌, ◌≡◌, refl, String, [], ◌∷◌, some, ok, err, arith}
use neural_swarm_ai.Protocol.{Bytes}
use neural_swarm_ai.Remote.Reader.{
  Http, before_start, HttpRangeReader, end, current, seek, fetch_end, fill, fetch, copy_out,
  is_buffered, ensure_buffered, read,
}
use neural_swarm_ai.Remote.Window.{slice, IsRead}
use neural_swarm_ai.Remote.Reads.{Serves, read-slice}

abbrev file : Bytes
file = 10 ∷ 11 ∷ 12 ∷ 13 ∷ 14 ∷ []

abbrev server : Http String
server = record {
  head = λ url. ok (some 5);
  get_range = λ url first last. ok (slice file first (last + 1 - first));
}

server-Serves : Serves server "m" file
server-Serves first last body h k e = cc

abbrev at_two : HttpRangeReader
at_two = record { url = "m"; pos = 2; len = 5; buf = []; buf_start = 0; fetched_bytes = 0 }

abbrev after_two : HttpRangeReader
after_two = record {
  url = "m";
  pos = 4;
  len = 5;
  buf = 12 ∷ 13 ∷ 14 ∷ [];
  buf_start = 2;
  fetched_bytes = 3;
}

two_read : read server at_two 2 ≡ (after_two, ok (12 ∷ 13 ∷ []))
unfolding read ensure_buffered is_buffered fetch fetch_end fill copy_out
two_read = refl

-- Three bytes before the end, and one before the start.
seek_end : seek {E = String} at_two (end (2 ^ 64 - 3)) ≡ (at_two, ok 2)
unfolding seek
seek_end = refl

seek_before : seek {E = String} at_two (current (2 ^ 64 - 3)) ≡ (at_two, err before_start)
unfolding seek
seek_before = refl

read-slice_example : IsRead file at_two 2 after_two (12 ∷ 13 ∷ [])
read-slice_example =
    read-slice file server at_two after_two 2 (12 ∷ 13 ∷ []) server-Serves
      (record {
        len_of = refl;
        window = refl;
        position = omega arith;
        size = omega arith;
        inside = omega arith;
      })
      (omega arith) (omega arith) (omega arith) (omega arith) two_read
