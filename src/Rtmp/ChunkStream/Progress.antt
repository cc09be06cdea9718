-- ===== src/Rtmp/ChunkStream/Progress.antt =====
-- `readChunk` reads on from where its reader is.
use yoshiera_huang_livego.Prelude.{ℕ, ◌≤◌, ◌≡◌, refl, inl, inr}
use yoshiera_huang_livego.Prelude.{
  Bool, true, false, not, ◌&&◌, ◌||◌, Option, none, some, Option-cases, ◌>>=◌, List, length,
  if◌then◌else◌, ◌==◌,
}
use yoshiera_huang_livego.Pool
use yoshiera_huang_livego.Pool.{Pool}
use yoshiera_huang_livego.Rtmp.ReadWriter.{Error, ReadWriter, peek, discard, read}
use yoshiera_huang_livego.Rtmp.ReadWriter.Progress.{
  IsLater, IsLater-refl, IsLater-trans, read_uint_be-IsLater, read_uint_le-IsLater, discard-IsLater,
  read-IsLater,
}
use yoshiera_huang_livego.Rtmp.ChunkStream.{
  ChunkStream, add32, new, get_be, get_le, Reading, Read, read_csid, read_extended, with_new,
  read_full, read_delta_length, read_delta, read_repeat, be32, read_continue, read_message_header,
  slice, read_size, after_read, read_body, then_body, read_chunk,
}

-- Where nothing failed, the reader is a later one.
abbrev Ends : ReadWriter → Read → Type 0
Ends r none = Unit
Ends r (some (some e, st)) = Unit
Ends r (some (none, st)) = IsLater r st.r

Ends-if :
    (r : ReadWriter) (b : Bool) (x y : Read) → Ends r x → Ends r y → Ends r (if b then x else y)
Ends-if r true x y h k = h
Ends-if r false x y h k = k

get_be-IsLater : (n : ℕ) (r : ReadWriter) → IsLater r (get_be n r).1
unfolding get_be
get_be-IsLater n r = read_uint_be-IsLater n r

get_le-IsLater : (n : ℕ) (r : ReadWriter) → IsLater r (get_le n r).1
unfolding get_le
get_le-IsLater n r = read_uint_le-IsLater n r

-- Reads one after the other.
then_be : {r s : ReadWriter} (n : ℕ) → IsLater r s → IsLater r (get_be n s).1
then_be n h = IsLater-trans h (get_be-IsLater n _)

then_le : {r s : ReadWriter} (n : ℕ) → IsLater r s → IsLater r (get_le n s).1
then_le n h = IsLater-trans h (get_le-IsLater n _)

if_IsLater :
    {A : Type 0} {r : ReadWriter} (b : Bool) (x y : A × ReadWriter)
    → IsLater r x.1
    → IsLater r y.1
    → IsLater r (if b then x else y).1
if_IsLater true x y h k = h
if_IsLater false x y h k = k

then_extended : {r s : ReadWriter} (ts : ℕ) → IsLater r s → IsLater r (read_extended ts s).1
unfolding read_extended
then_extended ts h = if_IsLater (ts == 0xffffff) _ _ (then_be 4 h) h

read_csid-IsLater : (cs : ChunkStream) (r : ReadWriter) → IsLater r (read_csid cs r).1
unfolding read_csid
read_csid-IsLater cs r =
    let id = IsLater-refl r in
    if_IsLater (cs.csid == 0) _ _ (then_le 1 id) (if_IsLater (cs.csid == 1) _ _ (then_le 2 id) id)

with_new-Ends :
    {r s : ReadWriter} (cs : ChunkStream) (pool : Pool) → IsLater r s → Ends r (with_new cs s pool)
unfolding with_new new
with_new-Ends cs pool h = elim (Option-cases (Pool.get cs.length pool)) [
  | inl e ↦ rw e tt
  | inr (x, e) ↦ rw e h
]

read_full-Ends :
    (r s : ReadWriter) (cs : ChunkStream) (pool : Pool) → IsLater r s → Ends r (read_full cs s pool)
unfolding read_full
read_full-Ends r s cs pool h =
    with_new-Ends _ pool (then_extended _ (then_le 4 (then_be 1 (then_be 3 (then_be 3 h)))))

read_delta_length-Ends :
    (r s : ReadWriter) (cs : ChunkStream) (pool : Pool)
    → IsLater r s
    → Ends r (read_delta_length cs s pool)
unfolding read_delta_length
read_delta_length-Ends r s cs pool h =
    with_new-Ends _ pool (then_extended _ (then_be 1 (then_be 3 (then_be 3 h))))

read_delta-Ends :
    (r s : ReadWriter) (cs : ChunkStream) (pool : Pool)
    → IsLater r s
    → Ends r (read_delta cs s pool)
unfolding read_delta
read_delta-Ends r s cs pool h = with_new-Ends _ pool (then_extended _ (then_be 3 h))

read_repeat-Ends :
    (r s : ReadWriter) (cs : ChunkStream) (pool : Pool)
    → IsLater r s
    → Ends r (read_repeat cs s pool)
unfolding read_repeat
read_repeat-Ends r s cs pool h =
    Ends-if r (cs.format == 0) _ _
      (Ends-if r cs.exted _ _ (with_new-Ends _ pool (then_be 4 h)) (with_new-Ends cs pool h))
      (Ends-if r ((cs.format == 1) || (cs.format == 2)) _ _
        (Ends-if r cs.exted _ _ (with_new-Ends _ pool (then_be 4 h)) (with_new-Ends _ pool h))
        (with_new-Ends cs pool h))

skip-IsLater :
    (r s : ReadWriter) (b : Bool) → IsLater r s → IsLater r (if b then discard 4 s else s)
skip-IsLater r s true h = IsLater-trans h (discard-IsLater 4 s)
skip-IsLater r s false h = h

read_continue-Ends :
    (r s : ReadWriter) (cs : ChunkStream) (pool : Pool)
    → IsLater r s
    → Ends r (read_continue cs s pool)
unfolding read_continue
read_continue-Ends r s cs pool h = Ends-if r cs.exted _ _ peeked h
  where
    peeked : Ends r (elim (peek 4 s).1 [
      | some e ↦ some (some e, record { cs = cs; r = s; pool = pool })
      | none ↦ do
        tmpts ← be32 (peek 4 s).0
        some (
          none,
          record { cs = cs; r = if tmpts == cs.timestamp then discard 4 s else s; pool = pool },
        )
    ])
    peeked = elim (Option-cases (peek 4 s).1) [
      | inr (e, k) ↦ rw k tt
      | inl k ↦ elim (Option-cases (be32 (peek 4 s).0)) [
        | inl k' ↦ rw (k, k') tt
        | inr (t, k') ↦ rw (k, k') (skip-IsLater r s (t == cs.timestamp) h)
      ]
    ]

read_message_header-Ends :
    (r s : ReadWriter) (cs : ChunkStream) (pool : Pool)
    → IsLater r s
    → Ends r (read_message_header cs s pool)
unfolding read_message_header
read_message_header-Ends r s cs pool h =
    Ends-if r (cs.tmp_format == 0) _ _ (read_full-Ends r s cs pool h) (
      Ends-if r (cs.tmp_format == 1) _ _ (read_delta_length-Ends r s cs pool h) (
        Ends-if r (cs.tmp_format == 2) _ _ (read_delta-Ends r s cs pool h) (
          Ends-if r (cs.tmp_format == 3) _ _
            (Ends-if r (cs.remain == 0) _ _ (read_repeat-Ends r s cs pool h)
              (read_continue-Ends r s cs pool h))
            tt)))

-- Where `readChunk` returns nil, no read failed, and the input is not longer.
abbrev pub GoesOn : ReadWriter → Read → Type 0
GoesOn r none = Unit
GoesOn r (some (some e, st)) = Unit
GoesOn r (some (none, st)) = (r.read_error ≡ none) × (length st.r.input ≤ length r.input)

returns :
    (r : ReadWriter) (e : Option Error) (st : Reading)
    → (e ≡ none → r.read_error ≡ none)
    → length st.r.input ≤ length r.input
    → GoesOn r (some (e, st))
returns r none st h k = (h refl, k)
returns r (some e) st h k = tt

after_read-GoesOn :
    (r : ReadWriter) (size : ℕ) (st : Reading) (result : (List ℕ × Option Error) × ReadWriter)
    → IsLater r result.1
    → GoesOn r (after_read size st result)
unfolding after_read
after_read-GoesOn r size st ((p, some e), s) h = tt
after_read-GoesOn r size st ((p, none), s) h = returns r s.read_error _ h.sticky h.shorter

read_body-GoesOn :
    (r : ReadWriter) (chunk_size : ℕ) (st : Reading)
    → IsLater r st.r
    → GoesOn r (read_body chunk_size st)
unfolding read_body
read_body-GoesOn r chunk_size st h =
    let size = read_size chunk_size st.cs in
    elim (Option-cases (slice st.cs.payload st.cs.index (add32 st.cs.index size))) [
      | inl e ↦ rw e tt
      | inr (buf, e) ↦
          rw e (
            after_read-GoesOn r size st (read size st.r) (IsLater-trans h (read-IsLater size st.r)))
    ]

then_body-GoesOn :
    (r : ReadWriter) (chunk_size : ℕ) (header : Read)
    → Ends r header
    → GoesOn r (header >>= then_body chunk_size)
unfolding then_body
then_body-GoesOn r chunk_size none h = tt
then_body-GoesOn r chunk_size (some (some e, st)) h = tt
then_body-GoesOn r chunk_size (some (none, st)) h = read_body-GoesOn r chunk_size st h

GoesOn-if :
    (r : ReadWriter) (b : Bool) (x y : Read)
    → GoesOn r x
    → GoesOn r y
    → GoesOn r (if b then x else y)
GoesOn-if r true x y h k = h
GoesOn-if r false x y h k = k

pub read_chunk-GoesOn :
    (cs : ChunkStream) (r : ReadWriter) (chunk_size : ℕ) (pool : Pool)
    → GoesOn r (read_chunk cs r chunk_size pool)
unfolding read_chunk
read_chunk-GoesOn cs r chunk_size pool =
    let (cs', s) = read_csid cs r in
    GoesOn-if r (not (cs.remain == 0) && not (cs.tmp_format == 3)) _ _ tt (
      then_body-GoesOn r chunk_size (read_message_header cs' s pool)
        (read_message_header-Ends r s cs' pool (read_csid-IsLater cs r)))
