-- ===== src/Remote/Window.antt =====
-- The window of the reader as a part of the file.
use neural_swarm_ai.Common.{
  ℕ, ◌+◌, ◌-◌, ◌%◌, ◌^◌, ◌≤◌, ◌<◌, ◌≡◌, refl, sym, subst, ap, ◌∙◌, zero, suc, ◌∷◌, min, false, leb,
  [], length, take, drop, length-take, length-drop, arith,
}
use neural_swarm_ai.Protocol.{Bytes}
use neural_swarm_ai.Remote.Reader.{HttpRangeReader, fetch_end, copy_out}
use neural_swarm_ai.Remote.Slices.{slice_of_slice}

-- The bytes of a file from `start` on.
abbrev pub slice : Bytes → ℕ → ℕ → Bytes
slice file start n = take n (drop start file)

-- The reader knows the length of the file, and its buffer is a part of the file.
pub record IsCoherent (file : Bytes) (r : HttpRangeReader) : Type 0 where
  pub len_of : r.len ≡ length file
  pub window : r.buf ≡ slice file r.buf_start (length r.buf)
  pub position : r.pos < 2 ^ 64
  pub size : length file < 2 ^ 64
  pub inside : r.buf_start + length r.buf < 2 ^ 64

-- `b` is a reader of the same file as `a`, at the same position, whose buffer covers it.
pub record IsReady (file : Bytes) (a b : HttpRangeReader) : Type 0 where
  pub coherent : IsCoherent file b
  pub same_url : b.url ≡ a.url
  pub same_pos : b.pos ≡ a.pos
  pub from : b.buf_start ≤ b.pos
  pub to : b.pos < b.buf_start + length b.buf

pub fetch_end_bounds :
    (r : HttpRangeReader) (want : ℕ)
    → r.pos < r.len
    → 0 < want
    → want < 2 ^ 63
    → r.len < 2 ^ 63
    → (r.pos < fetch_end r r.pos want) × (fetch_end r r.pos want ≤ r.len)
unfolding fetch_end
fetch_end_bounds r want h w a b = ground arith

length-take-whole : (n : ℕ) (xs : Bytes) → length (take n xs) ≤ length xs
length-take-whole zero xs = omega arith
length-take-whole (suc n) [] = omega arith
length-take-whole (suc n) (x ∷ xs) = omega (arith, length-take-whole n xs)

-- A window within the file ends within it.
take-length :
    (base n : ℕ) (file part : Bytes) → part ≡ slice file base n → (length part ≤ length file - base)
take-length base n file part h =
    let short = length-take-whole n (drop base file) in
    omega (arith, short, ap length h, length-drop base file)

module _ (file : Bytes) where
  copy_out-slice :
      (a r : HttpRangeReader) (out_len : ℕ)
      → IsReady file a r
      → let n = min (length r.buf - (r.pos - r.buf_start)) out_len in
        copy_out r out_len ≡ (record r { pos = r.pos + n }, slice file r.pos n)
  unfolding copy_out
  copy_out-slice a r out_len h =
      let offset = r.pos - r.buf_start in
      let n = min (length r.buf - offset) out_len in
      let inside : leb (length r.buf) offset ≡ false = ground (arith, h.to, h.from) in
      let at : r.buf_start + offset ≡ r.pos = omega (arith, h.from) in
      let part =
        slice_of_slice n offset (length r.buf) r.buf_start file (omega (arith, h.to, h.from)) in
      let whole : take n (drop offset r.buf) ≡ slice file r.pos n =
        subst (λ b. take n (drop offset b) ≡ slice file r.pos n) (sym h.coherent.window)
          (subst
            (λ p. take n (drop offset (slice file r.buf_start (length r.buf))) ≡ slice file p n) at
            part) in
      subst (λ part. copy_out r out_len ≡ (record r { pos = r.pos + n }, part)) whole
        (rw (inside, copy_out))

  -- What a successful read of `want` bytes from `a` on gives.
  abbrev pub IsRead : HttpRangeReader → ℕ → HttpRangeReader → Bytes → Type 0
  IsRead a want r' out =
      (0 < length out)
      × (length out ≤ want)
      × (out ≡ slice file a.pos (length out))
      × (r'.pos ≡ a.pos + length out)
      × IsCoherent file r'

  pub copy_out-IsRead :
      (a r : HttpRangeReader) (want : ℕ)
      → IsReady file a r
      → 0 < want
      → want < 2 ^ 63
      → a.len < 2 ^ 63
      → a.len ≡ length file
      → IsRead a want (copy_out r want).0 (copy_out r want).1
  copy_out-IsRead a r want h some_want w63 l63 l =
      let n = min (length r.buf - (r.pos - r.buf_start)) want in
      let kept = take-length r.buf_start (length r.buf) file r.buf h.coherent.window in
      let room : n ≤ length (drop r.pos file) =
        omega (arith, length-drop r.pos file, kept, h.from, h.to) in
      let got : length (slice file r.pos n) ≡ n = length-take n (drop r.pos file) room in
      subst (λ q. IsRead a want q.0 q.1) (sym (copy_out-slice a r want h))
        (subst
          (λ at.
            IsRead (record a { pos = at }) want (record r { pos = r.pos + n }) (slice file r.pos n))
          h.same_pos
          (
            omega (arith, got, h.from, h.to),
            omega (arith, got),
            ap (slice file r.pos) (sym got),
            omega (arith, got),
            record {
              len_of = h.coherent.len_of;
              window = h.coherent.window;
              position = omega (arith, kept, h.from, h.to, l, l63);
              size = h.coherent.size;
              inside = h.coherent.inside;
            },
          ))

  pub filled-IsReady :
      (r : HttpRangeReader) (body : Bytes) (last : ℕ)
      → IsCoherent file r
      → r.pos < last
      → last ≤ r.len
      → body ≡ slice file r.pos (last - 1 + 1 - r.pos)
      → IsReady file r (record r {
        fetched_bytes = (r.fetched_bytes + length body) % 2 ^ 64;
        buf = body;
        buf_start = r.pos;
      })
  filled-IsReady r body last c below within part =
      let n = last - 1 + 1 - r.pos in
      let room : n ≤ length (drop r.pos file) = omega (arith, length-drop r.pos file, c.len_of) in
      let whole : length body ≡ n = ap length part ∙ length-take n (drop r.pos file) room in
      record {
        coherent = record {
          len_of = c.len_of;
          window = subst (λ k. body ≡ slice file r.pos k) (sym whole) part;
          position = c.position;
          size = c.size;
          inside = omega (arith, whole, within, below, c.len_of, c.size);
        };
        same_url = refl;
        same_pos = refl;
        from = omega arith;
        to = omega (arith, whole, below);
      }
