-- ===== src/Rtmp/ChunkStream/Parsing.antt =====
-- `readChunk` on the bytes of one chunk.
use yoshiera_huang_livego.Prelude.{ℕ, ◌+◌, ◌*◌, ◌/◌, ◌^◌, ◌≤◌, ◌<◌, min}
use yoshiera_huang_livego.Prelude.{◌≡◌, refl, sym, ap, ◌∙◌, Bool, none, some, arith, true, false}
use yoshiera_huang_livego.Prelude.{
  List, [], ◌∷◌, ◌++◌, length, drop, replicate, length-append, append_assoc, take-length_append,
  drop-length_append, length-replicate, drop-drop,
}
use yoshiera_huang_livego.Prelude.{ltb, leb, ◌==◌, if◌then◌else◌, le→not_ltb}
use yoshiera_huang_livego.Pio.{u32be, byte}
use yoshiera_huang_livego.Pio.RoundTrip.{u32be-bytes}
use yoshiera_huang_livego.Pool
use yoshiera_huang_livego.Pool.{Pool, Slice, max_pool_size}
use yoshiera_huang_livego.Rtmp.ReadWriter.{ReadWriter, read, read_at_least, peek, discard}
use yoshiera_huang_livego.Rtmp.ReadWriter.Emit.{be_bytes, le_bytes}
use yoshiera_huang_livego.Rtmp.ReadWriter.Integers.{feed, read_uint_be_lem, read_uint_le_lem}
use yoshiera_huang_livego.Rtmp.ChunkStream.{
  ChunkStream, add32, sub32, get_be, get_le, new, read_extended, with_new, read_full, read_continue,
  be32, read_message_header, splice, read_size, after_read, read_body, then_body, read_csid,
  read_chunk,
}
use yoshiera_huang_livego.Rtmp.ChunkStream.Writing.{slice_at}
use yoshiera_huang_livego.Rtmp.ChunkStream.Wire.{
  IsHeader, extension, short_timestamp, header_fields,
}

-- Read of as many bytes as stand in front.
pub read_lem :
    (p rest : List ℕ) (r : ReadWriter)
    → read (length p) (feed (p ++ rest) r) ≡ ((p, none), feed rest r)
unfolding read read_at_least
read_lem [] rest r = refl
read_lem (x ∷ p) rest r = rw (
  le→not_ltb (length (x ∷ p ++ rest)) (length (x ∷ p)) (omega (arith, length-append p rest)),
  take-length_append p rest,
  drop-length_append p rest,
)

module _ (n v : ℕ) (rest : List ℕ) (r : ReadWriter) (small : n ≤ 4) (fits : v < 2 ^ (n * 8)) where
  pub get_be_lem : get_be n (feed (be_bytes n v ++ rest) r) ≡ (v, feed rest r)
  unfolding get_be
  get_be_lem = ap (λ p. (p.0.0, p.1)) (read_uint_be_lem n v rest r small fits)

  pub get_le_lem : get_le n (feed (le_bytes n v ++ rest) r) ≡ (v, feed rest r)
  unfolding get_le
  get_le_lem = ap (λ p. (p.0.0, p.1)) (read_uint_le_lem n v rest r small fits)

be32_lem : (v : ℕ) (rest : List ℕ) → v < 2 ^ 32 → be32 (be_bytes 4 v ++ rest) ≡ some v
unfolding be32
be32_lem v rest h =
    ap (λ (t : ℕ). u32be (byte (v / 2 ^ 24) ∷ byte (v / 2 ^ 16) ∷ byte (v / 2 ^ 8) ∷ byte t ∷ rest))
      (let z : v / 1 ≡ v = omega arith in z)
    ∙ u32be-bytes v rest h

peek_lem :
    (v : ℕ) (rest : List ℕ) (r : ReadWriter)
    → peek 4 (feed (be_bytes 4 v ++ rest) r) ≡ (be_bytes 4 v, none)
unfolding peek
peek_lem v rest r = ground arith

-- The fields that the first header of `m` sets.
abbrev pub with_header : ChunkStream → ChunkStream → ChunkStream
with_header m cs = record cs {
  format = cs.tmp_format;
  timestamp = m.timestamp;
  length = m.length;
  type_id = m.type_id;
  stream_id = m.stream_id;
  exted = leb 0xffffff m.timestamp;
}

module _ (m : ChunkStream) (ok : IsHeader m) (rest : List ℕ) (r : ReadWriter) where
  read_extended_lem :
      read_extended (short_timestamp m) (feed (extension m ++ rest) r)
      ≡ ((m.timestamp, leb 0xffffff m.timestamp), feed rest r)
  unfolding read_extended
  read_extended_lem = ground (arith, get_be_lem 4 m.timestamp rest r)

  pub read_full_lem :
      (cs : ChunkStream) (pool : Pool)
      → read_full cs
          (feed
            (be_bytes 3 (short_timestamp m)
              ++ (be_bytes 3 m.length
                  ++ (be_bytes 1 m.type_id ++ (le_bytes 4 m.stream_id ++ (extension m ++ rest)))))
            r)
          pool
        ≡ with_new (with_header m cs) (feed rest r) pool
  unfolding read_full
  read_full_lem cs pool =
      let r4 = extension m ++ rest in
      let r3 = le_bytes 4 m.stream_id ++ r4 in
      let r2 = be_bytes 1 m.type_id ++ r3 in
      let r1 = be_bytes 3 m.length ++ r2 in
      rw (
        get_be_lem 3 (short_timestamp m) r1 r (omega arith) (ground arith),
        get_be_lem 3 m.length r2 r (omega arith) (omega arith),
        get_be_lem 1 m.type_id r3 r (omega arith) (omega arith),
        get_le_lem 4 m.stream_id r4 r (omega arith) (omega arith),
        read_extended_lem,
      )

  read_continue_lem :
      (cs : ChunkStream) (pool : Pool)
      → cs.timestamp ≡ m.timestamp
      → cs.exted ≡ leb 0xffffff m.timestamp
      → read_continue cs (feed (extension m ++ rest) r) pool
        ≡ some (none, record { cs = cs; r = feed rest r; pool = pool })
  unfolding read_continue discard
  read_continue_lem cs pool same ext =
      ground (arith, peek_lem m.timestamp rest r, be32_lem m.timestamp [])

-- The pool after a Get that it can serve.
abbrev pub pool_after : ℕ → Pool → Pool
pool_after size pool =
    if ltb max_pool_size (pool.pos + size)
    then record { pos = size; array = pool.array + 1 }
    else record pool { pos = pool.pos + size }

with_new_lem :
    (cs : ChunkStream) (r : ReadWriter) (pool : Pool)
    → cs.length ≤ max_pool_size
    → with_new cs r pool
      ≡ some (
        none,
        record {
          cs = record cs {
            got = false;
            index = 0;
            remain = cs.length;
            payload = replicate cs.length 0;
          };
          r = r;
          pool = pool_after cs.length pool;
        },
      )
unfolding with_new new Pool.get Pool.carve
with_new_lem cs r pool h = ground arith

-- The chunk stream with `done` of its payload read and `rest` still to come.
abbrev pub midway : ChunkStream → List ℕ → List ℕ → Bool → ChunkStream
midway cs done rest got = record cs {
  index = length done;
  remain = length rest;
  got = got;
  payload = done ++ replicate (length rest) 0;
}

drop-replicate :
    (p rest : List ℕ)
    → drop {A = ℕ} (length p) (replicate (length (p ++ rest)) 0) ≡ replicate (length rest) 0
drop-replicate [] rest = refl
drop-replicate (x ∷ p) rest = drop-replicate p rest

splice_lem :
    (done p rest : List ℕ)
    → splice (done ++ replicate (length (p ++ rest)) 0) (length done) p
      ≡ (done ++ p) ++ replicate (length rest) 0
unfolding splice
splice_lem done p rest =
    let zeros : List ℕ = replicate (length (p ++ rest)) 0 in
    rw
      (
        take-length_append done zeros,
        ← drop-drop (length p) (length done) (done ++ zeros),
        drop-length_append done zeros,
        drop-replicate p rest,
      )
      (sym (append_assoc done p (replicate (length rest) 0)))

-- One chunk body: the next `size` bytes of the payload, or what is left of it.
read_body_lem :
    (cs : ChunkStream) (r : ReadWriter) (pool : Pool) (size : ℕ) (done p rest more : List ℕ)
    → length (done ++ (p ++ rest)) < 2 ^ 24
    → length p ≡ min size (length (p ++ rest))
    → read_body size
        (record { cs = midway cs done (p ++ rest) false; r = feed (p ++ more) r; pool = pool })
      ≡ some (
        none,
        record {
          cs = midway cs (done ++ p) rest (if length rest == 0 then true else false);
          r = feed more r;
          pool = pool;
        },
      )
unfolding read_body after_read
read_body_lem cs r pool size done p rest more short clip =
    let n = length (p ++ rest) in
    let sizes = length-append p rest in
    let sizes' = length-append done (p ++ rest) in
    let payload : List ℕ = done ++ replicate n 0 in
    let whole : length payload ≡ length done + n =
      length-append done (replicate n 0) ∙ ap (λ k. length done + k) (length-replicate n 0) in
    let part : read_size size (midway cs done (p ++ rest) false) ≡ length p =
      unfold read_size in ground arith in
    let end : add32 (length done) (length p) ≡ length done + length p = omega arith in
    let end' : length done + length p ≡ length (done ++ p) = sym (length-append done p) in
    let left : sub32 n (length p) ≡ length rest = omega arith in
    let room = slice_at payload (length done) (length p) (omega arith) in
    rw (part, end, room, read_lem p more r, left, splice_lem done p rest, end, end')

pub read_csid_lem : (cs : ChunkStream) (r : ReadWriter) → 2 ≤ cs.csid → read_csid cs r ≡ (cs, r)
unfolding read_csid
read_csid_lem cs r h = ground arith

-- The first chunk of `m`, behind its basic header, on an idle chunk stream.
module _ (m cs : ChunkStream) (r : ReadWriter) (pool : Pool) (id size : ℕ) (p rest more : List ℕ)
    (ok : IsHeader m) (clip : length p ≡ min size (length (p ++ rest))) (csid : 2 ≤ id) where
  abbrev zeroth : ChunkStream
  zeroth = record cs { tmp_format = 0; csid = id }

  pub read_chunk-first :
      m.length ≡ length (p ++ rest)
      → m.length ≤ max_pool_size
      → cs.remain ≡ 0
      → read_chunk zeroth (feed (header_fields m ++ (p ++ more)) r) size pool
        ≡ some (
          none,
          record {
            cs = midway (with_header m zeroth) p rest (if length rest == 0 then true else false);
            r = feed more r;
            pool = pool_after m.length pool;
          },
        )
  unfolding read_chunk read_message_header then_body
  read_chunk-first whole served idle =
      let fresh = with_new_lem (with_header m zeroth) (feed (p ++ more) r) pool served in
      let body =
        read_body_lem (with_header m zeroth) r (pool_after m.length pool) size [] p rest more
          (omega (arith, ok.length_fits)) clip in
      let zero : (cs.remain == 0) ≡ true = ground arith in
      rw
        (
          zero,
          read_csid_lem zeroth (feed (header_fields m ++ (p ++ more)) r) csid,
          read_full_lem m ok (p ++ more) r zeroth pool,
          fresh,
          then_body,
        )
        ((λ k. read_body size (record {
          cs = record (with_header m zeroth) {
            index = 0;
            remain = whole k;
            got = false;
            payload = replicate (whole k) 0;
          };
          r = feed (p ++ more) r;
          pool = pool_after m.length pool;
        }))
          ∙ body)

  -- A further chunk of `m`, with `done` read before.
  pub read_chunk-next :
      (done : List ℕ)
      → cs.timestamp ≡ m.timestamp
      → cs.exted ≡ leb 0xffffff m.timestamp
      → length (done ++ (p ++ rest)) < 2 ^ 24
      → 0 < length (p ++ rest)
      → let cs' = record (midway cs done (p ++ rest) false) { tmp_format = 3; csid = id } in
        read_chunk cs' (feed (extension m ++ (p ++ more)) r) size pool
        ≡ some (
          none,
          record {
            cs = midway cs' (done ++ p) rest (if length rest == 0 then true else false);
            r = feed more r;
            pool = pool;
          },
        )
  unfolding read_chunk read_message_header then_body
  read_chunk-next done same ext short more_left =
      let cs' = record (midway cs done (p ++ rest) false) { tmp_format = 3; csid = id } in
      let some_left : (length (p ++ rest) == 0) ≡ false = ground arith in
      rw
        (
          some_left,
          read_csid_lem cs' (feed (extension m ++ (p ++ more)) r) csid,
          some_left,
          read_continue_lem m ok (p ++ more) r cs' pool same ext,
          then_body,
        )
        (read_body_lem cs' r pool size done p rest more short clip)
