-- ===== src/Remote/Reader.antt =====
-- `HttpRangeReader` of `src/remote.rs`. What `ureq` does is an interface; a method that takes
-- `&mut self` returns the new reader beside its result, and `read` the bytes that it copies out.
use neural_swarm_ai.Common.{
  ℕ, ◌+◌, ◌-◌, ◌*◌, ◌%◌, ◌^◌, min, max, Bool, ◌&&◌, ◌||◌, ltb, leb, ◌==◌, if◌then◌else◌, String,
  Option, none, some, [], length, take, drop, Result, ok, err,
}
use neural_swarm_ai.Protocol.{Bytes}

-- A HEAD request gives the header Content-Length where it parses as a `u64`; a GET request the body
-- for the range from the first to the last byte.
pub record Http (E : Type 0) : Type 0 where
  pub head : String → Result E (Option ℕ)
  pub get_range : String → ℕ → ℕ → Result E Bytes

pub data ReadError (E : Type 0) : Type 0 where
  http_error : E → ReadError E
  no_content_length before_start : ReadError E

pub record HttpRangeReader : Type 0 where
  pub url : String
  pub pos : ℕ  -- u64
  pub len : ℕ  -- u64
  pub buf : Bytes
  pub buf_start : ℕ  -- u64
  pub fetched_bytes : ℕ  -- u64

abbrev pub small_readahead : ℕ
small_readahead = 256 * 1024

-- An offset is the bit pattern of its `i64`.
pub data SeekFrom : Type 0 where
  start end current : ℕ → SeekFrom

abbrev target_of : HttpRangeReader → SeekFrom → ℕ
target_of r (start s) = s % 2 ^ 64
target_of r (end e) = (r.len + e) % 2 ^ 64
target_of r (current c) = (r.pos + c) % 2 ^ 64

-- Negative patterns are those with the highest bit.
unfoldable pub seek :
    {E : Type 0} → HttpRangeReader → SeekFrom → HttpRangeReader × Result (ReadError E) ℕ
seek r from =
    let new = target_of r from in
    if leb (2 ^ 63) new then (r, err before_start) else (record r { pos = new }, ok new)

-- Where a fetch of `want` bytes from `first` on ends, exclusive.
unfoldable pub fetch_end : HttpRangeReader → ℕ → ℕ → ℕ
fetch_end r first want =
    let span = max want (min small_readahead (r.len - first)) in min ((first + span) % 2 ^ 64) r.len

-- Copy from the buffer, which starts at or before the position.
unfoldable pub copy_out : HttpRangeReader → ℕ → HttpRangeReader × Bytes
copy_out r out_len =
    let offset = r.pos - r.buf_start in
    if leb (length r.buf) offset
    then (r, [])
    else let n = min (length r.buf - offset) out_len in
      (record r { pos = r.pos + n }, take n (drop offset r.buf))

unfoldable pub is_buffered : HttpRangeReader → Bool
is_buffered r = leb r.buf_start r.pos && ltb r.pos ((r.buf_start + length r.buf) % 2 ^ 64)

-- The reader with what a request returned.
unfoldable pub fill :
    {E : Type 0}
    → HttpRangeReader
    → ℕ
    → Result E Bytes
    → HttpRangeReader × Result (ReadError E) (Unit {0})
fill r first (err e) = (r, err (http_error e))
fill r first (ok bytes) = (
  record r {
    fetched_bytes = (r.fetched_bytes + length bytes) % 2 ^ 64;
    buf = bytes;
    buf_start = first;
  },
  ok tt,
)

module _ {E : Type 0} (http : Http E) where
  unfoldable pub open_remote : String → Result (ReadError E) HttpRangeReader
  open_remote url = elim (http.head url) [
    | err e ↦ err (http_error e)
    | ok none ↦ err no_content_length
    | ok (some len) ↦
        ok (record { url = url; pos = 0; len = len; buf = []; buf_start = 0; fetched_bytes = 0 })
  ]

  unfoldable pub fetch : HttpRangeReader → ℕ → ℕ → HttpRangeReader × Result (ReadError E) (Unit {0})
  unfolding fill
  fetch r first want =
      let last = fetch_end r first want in
      if leb last first
      then (record r { buf = []; buf_start = first }, ok tt)
      else fill r first (http.get_range r.url first (last - 1))

  unfoldable pub prefetch :
      HttpRangeReader → ℕ → ℕ → HttpRangeReader × Result (ReadError E) (Unit {0})
  unfolding fetch
  prefetch = fetch

  -- Fetch where the position is not in the buffer.
  unfoldable pub ensure_buffered :
      HttpRangeReader → ℕ → HttpRangeReader × Result (ReadError E) (Unit {0})
  unfolding fetch is_buffered
  ensure_buffered r out_len = if is_buffered r then (r, ok tt) else fetch r r.pos out_len

  unfoldable pub read : HttpRangeReader → ℕ → HttpRangeReader × Result (ReadError E) Bytes
  unfolding ensure_buffered copy_out
  read r out_len =
      if leb r.len r.pos || out_len == 0
      then (r, ok [])
      else let (r₁, fetched) = ensure_buffered r out_len in
        elim fetched [
          | err e ↦ (r₁, err e)
          | ok _ ↦ let (r₂, out) = copy_out r₁ out_len in (r₂, ok out)
        ]
