-- ===== src/Remote/Reads.antt =====
-- Reads give the bytes of the file, wherever the window of the reader stands.
use neural_swarm_ai.Common.{
  ℕ, ◌+◌, ◌-◌, ◌%◌, ◌^◌, ◌≤◌, ◌<◌, ◌≡◌, refl, sym, subst, ap, false, Bool-cases, Result-cases, inl,
  inr, ◌||◌, leb, ◌==◌, String, length, Result, ok, err, arith,
}
use mathlib.Core.Path.{subst₂}
use neural_swarm_ai.Protocol.{Bytes}
use neural_swarm_ai.Remote.Reader.{
  Http, HttpRangeReader, fetch_end, fill, fetch, copy_out, is_buffered, ensure_buffered, read,
}
use neural_swarm_ai.Remote.Window.{
  slice, IsCoherent, IsReady, fetch_end_bounds, IsRead, copy_out-IsRead, filled-IsReady,
}

-- A request that succeeds for a range within the file gives the bytes of the range.
abbrev pub Serves : {E : Type 0} → Http E → String → Bytes → Type 0
Serves http url file =
    (first last : ℕ) (body : Bytes)
    → first ≤ last
    → last < length file
    → http.get_range url first last ≡ ok body
    → body ≡ slice file first (last + 1 - first)

ok-injective : {E A : Type 0} (r : Result E A) {x y : A} → r ≡ ok x → r ≡ ok y → x ≡ y
ok-injective r e h = cc

module _ (file : Bytes) where
  module _ {E : Type 0} (http : Http E) where
    fill_inversion :
        (r r' : HttpRangeReader) (first : ℕ) (got : Result E Bytes)
        → fill r first got ≡ (r', ok tt)
        → (body : Bytes) × (got ≡ ok body)
          × (r' ≡ record r {
            fetched_bytes = (r.fetched_bytes + length body) % 2 ^ 64;
            buf = body;
            buf_start = first;
          })
    unfolding fill
    fill_inversion r r' first (err x) e = cc (ap (λ p. p.1) e)
    fill_inversion r r' first (ok body) e = (body, refl, sym (ap (λ p. p.0) e))

    fetch-IsReady :
        (r r' : HttpRangeReader) (want : ℕ)
        → Serves http r.url file
        → IsCoherent file r
        → r.pos < r.len
        → 0 < want
        → want < 2 ^ 63
        → r.len < 2 ^ 63
        → fetch http r r.pos want ≡ (r', ok tt)
        → IsReady file r r'
    unfolding fetch
    fetch-IsReady r r' want serves c within some_want w63 l63 e =
        let last = fetch_end r r.pos want in
        let bounds = fetch_end_bounds r want within some_want w63 l63 in
        let later : leb last r.pos ≡ false = ground (arith, bounds) in
        let (body, got, shape) =
          fill_inversion r r' r.pos (http.get_range r.url r.pos (last - 1)) (rw (later) at e) in
        let part =
          serves r.pos (last - 1) body (omega (arith, bounds)) (omega (arith, bounds, c.len_of))
            got in
        subst (IsReady file r) (sym shape)
          (filled-IsReady file r body last c bounds.0 bounds.1 part)

    ensure_buffered-IsReady :
        (r r' : HttpRangeReader) (want : ℕ)
        → Serves http r.url file
        → IsCoherent file r
        → r.pos < r.len
        → 0 < want
        → want < 2 ^ 63
        → r.len < 2 ^ 63
        → ensure_buffered http r want ≡ (r', ok tt)
        → IsReady file r r'
    unfolding ensure_buffered is_buffered
    ensure_buffered-IsReady r r' want serves c within some_want w63 l63 e =
        elim (Bool-cases (is_buffered r)) [
          | inr t ↦ fetch-IsReady r r' want serves c within some_want w63 l63 (rw (t) at e)
          | inl t ↦ subst (IsReady file r) (ap (λ p. p.0) (rw (t) at e)) (record {
            coherent = c;
            same_url = refl;
            same_pos = refl;
            from = ground (arith, t);
            to = ground (arith, t, c.inside);
          })
        ]

    -- For a server that answers a range request, where it answers it, with the bytes of the range,
    -- and for a reader whose buffer is a part of the file: a read at a position within the file that
    -- succeeds gives at least one byte and at most as many as it was asked for, they are the bytes
    -- of the file from the position on, the position moves by as many, and the buffer is again a
    -- part of the file. The file and the read are smaller than 2 ^ 63 bytes.
    pub read-slice :
        (r r' : HttpRangeReader) (want : ℕ) (out : Bytes)
        → Serves http r.url file
        → IsCoherent file r
        → r.pos < r.len
        → 0 < want
        → want < 2 ^ 63
        → r.len < 2 ^ 63
        → read http r want ≡ (r', ok out)
        → IsRead file r want r' out
    unfolding read
    read-slice r r' want out serves c within some_want w63 l63 e =
        let open_end : leb r.len r.pos || want == 0 ≡ false = ground arith in
        elim (Result-cases (ensure_buffered http r want).1) [
          | inr (x, t) ↦ cc (ap (λ p. p.1) (rw (open_end, read, t) at e))
          | inl (x, t) ↦
              let m = (ensure_buffered http r want).0 in
              let ready =
                ensure_buffered-IsReady r m want serves c within some_want w63 l63
                  (ap (λ q. (m, q)) t) in
              let whole = copy_out-IsRead file r m want ready some_want w63 l63 c.len_of in
              let ended : ((copy_out m want).0, ok (copy_out m want).1) ≡ (r', ok out) =
                rw (open_end, read, t) at e in
              subst₂ (IsRead file r want) (ap (λ q. q.0) ended)
                (ok-injective _ refl (ap (λ q. q.1) ended)) whole
        ]
