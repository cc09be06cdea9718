-- ===== src/Rtmp/Conn/Receive.antt =====
-- Read of a connection gives back the message whose chunks stand in the input.
use yoshiera_huang_livego.Prelude.{ℕ, zero, suc, ◌+◌, ◌*◌, ◌/◌, ◌%◌, ◌^◌, ◌≤◌, ◌<◌, min, bit_and}
use yoshiera_huang_livego.Prelude.{
  ◌≡◌, ◌≢◌, refl, sym, ap, ◌∙◌, Bool, Option, none, some, arith, true, false,
}
use yoshiera_huang_livego.Prelude.{
  List, [], ◌∷◌, ◌++◌, length, take, drop, length-append, length-take, length-drop, append_assoc,
  append-nil, take-append-drop,
}
use yoshiera_huang_livego.Prelude.{leb, ◌==◌, if◌then◌else◌}
use yoshiera_huang_livego.Prelude.Bits.{bit_and-mod}
use native.Mathlib.Nat.{div-add-mod, mod-lt, div-le_self}
use yoshiera_huang_livego.Pool.{max_pool_size}
use yoshiera_huang_livego.Rtmp.ReadWriter.{ReadWriter}
use yoshiera_huang_livego.Rtmp.ReadWriter.Integers.{feed}
use yoshiera_huang_livego.Rtmp.ChunkStream.{ChunkStream, full}
use yoshiera_huang_livego.Rtmp.ChunkStream.Wire.{
  IsHeader, first_header, next_header, header_fields, extension,
}
use yoshiera_huang_livego.Rtmp.ChunkStream.Writing.{next_chunks, chunks_of}
use yoshiera_huang_livego.Rtmp.ChunkStream.Parsing.{
  get_be_lem, with_header, midway, pool_after, read_chunk-first, read_chunk-next,
}
use yoshiera_huang_livego.Rtmp.Conn.{
  Conn, put, or_empty, with_entry, store_chunk, read_step, finish, after_step, read_loop, read,
}

pub put_self : (m : ℕ → Option ChunkStream) (k : ℕ) (v : ChunkStream) → put m k v k ≡ some v
unfolding put
put_self m k v = ground arith

pub put_ne : (m : ℕ → Option ChunkStream) (k j : ℕ) (v : ChunkStream) → j ≢ k → put m k v j ≡ m j
unfolding put
put_ne m k j v h = ground arith

-- The two fields of a basic header.
pub basic_fields :
    (format csid h : ℕ)
    → csid < 64
    → h ≡ format * 64 + csid
    → (h / 2 ^ 6 ≡ format) × (bit_and h 0x3f ≡ csid)
basic_fields format csid h small e =
    (omega arith, bit_and-mod 6 h ∙ (let z : h % 64 ≡ csid = omega arith in z))

-- The flag that ends a message.
abbrev is_last : List ℕ → Bool
is_last rest = if length rest == 0 then true else false

module _ (m : ChunkStream) (conn : Conn) (r : ReadWriter) (p rest more : List ℕ) (ok : IsHeader m)
    (clip : length p ≡ min conn.remote_chunk_size (length (p ++ rest))) where
  abbrev first_read : ChunkStream
  first_read =
      midway
        (with_header m (record (or_empty (conn.chunks m.csid)) { tmp_format = 0; csid = m.csid })) p
        rest (is_last rest)

  -- The round that reads the first chunk of `m`.
  read_step-first :
      m.length ≡ length (p ++ rest)
      → m.length ≤ max_pool_size
      → (or_empty (conn.chunks m.csid)).remain ≡ 0
      → read_step (record conn { rw = feed (first_header m ++ (p ++ more)) r })
        ≡ some (
          none,
          first_read,
          record conn {
            rw = feed more r;
            pool = pool_after m.length conn.pool;
            chunks = put (with_entry conn.chunks m.csid (conn.chunks m.csid)) m.csid first_read;
          },
        )
  unfolding read_step store_chunk
  read_step-first whole served idle =
      let (format, csid) = basic_fields 0 m.csid m.csid ok.csid_high (omega arith) in
      let after = header_fields m ++ (p ++ more) in
      let header = get_be_lem 1 m.csid after r (omega arith) (omega (arith, ok.csid_high)) in
      let chunk =
        read_chunk-first m (or_empty (conn.chunks m.csid)) r conn.pool m.csid conn.remote_chunk_size
          p rest more ok clip ok.csid_low whole served idle in
      rw (header, format, csid, chunk)

  -- The round that reads a further chunk, with `done` of the payload read before.
  read_step-next :
      (base : ChunkStream) (done : List ℕ)
      → conn.chunks m.csid ≡ some (midway base done (p ++ rest) false)
      → base.timestamp ≡ m.timestamp
      → base.exted ≡ leb 0xffffff m.timestamp
      → length (done ++ (p ++ rest)) < 2 ^ 24
      → 0 < length (p ++ rest)
      → let cs =
          midway (record base { tmp_format = 3; csid = m.csid }) (done ++ p) rest (is_last rest) in
        read_step (record conn { rw = feed (next_header m ++ (p ++ more)) r })
        ≡ some (none, cs, record conn { rw = feed more r; chunks = put conn.chunks m.csid cs })
  unfolding read_step store_chunk with_entry
  read_step-next base done entry same ext short some_left =
      let (format, csid) = basic_fields 3 m.csid (192 + m.csid) ok.csid_high (omega arith) in
      let after = extension m ++ (p ++ more) in
      let header =
        get_be_lem 1 (192 + m.csid) after r (omega arith) (omega (arith, ok.csid_high)) in
      let chunk =
        read_chunk-next m base r conn.pool m.csid conn.remote_chunk_size p rest more ok clip
          ok.csid_low done same ext short some_left in
      rw (header, format, csid, entry, chunk)

-- The chunk stream that a message ends with.
abbrev pub ended : ChunkStream → ChunkStream → ℕ → List ℕ → ChunkStream
ended m base t payload = midway (record base { tmp_format = t; csid = m.csid }) payload [] true

pub read_loop_step :
    (fuel : ℕ) (conn : Conn)
    → read_loop (suc fuel) conn ≡ after_step (read_loop fuel) (read_step conn)
unfolding read_loop
read_loop_step fuel conn = refl

-- The rounds that are left after one has read up to `rest`.
resume :
    (m base : ChunkStream) (r : ReadWriter) (more : List ℕ) (n fuel t : ℕ) (done rest : List ℕ)
    (conn : Conn)
    → IsHeader m
    → base.timestamp ≡ m.timestamp
    → base.exted ≡ leb 0xffffff m.timestamp
    → length (done ++ rest) < 2 ^ 24
    → 0 < conn.remote_chunk_size
    → length rest ≤ n * conn.remote_chunk_size
    → n ≤ fuel
    → let cs = midway (record base { tmp_format = t; csid = m.csid }) done rest (is_last rest) in
      conn.chunks m.csid ≡ some cs
      → (t' : ℕ) × (chunks : ℕ → Option ChunkStream) × (after_step (read_loop fuel) (
            some (
              none,
              cs,
              record conn {
                rw = feed (next_chunks (next_header m) n conn.remote_chunk_size rest ++ more) r;
              },
            ))
          ≡ finish
              (ended m base t' (done ++ rest))
              (record conn { rw = feed more r; chunks = chunks }))
unfolding after_step full next_chunks
resume m base r more zero fuel t done [] conn ok same ext short hs enough hf entry = (
  t,
  conn.chunks,
  ap (λ l. finish (ended m base t l) (record conn { rw = feed more r })) (sym (append-nil done)),
)
resume m base r more (suc n) fuel t done [] conn ok same ext short hs enough hf entry = (
  t,
  conn.chunks,
  ap (λ l. finish (ended m base t l) (record conn { rw = feed more r })) (sym (append-nil done)),
)
resume m base r more zero fuel t done (x ∷ rest) conn ok same ext short hs enough hf entry =
    absurd (omega arith)
resume m base r more (suc n) zero t done (x ∷ rest) conn ok same ext short hs enough hf entry =
    absurd (omega arith)
resume m base r more (suc n) (suc fuel) t done (x ∷ rest) conn ok same ext short hs enough hf
      entry =
    let size = conn.remote_chunk_size in
    let l : List ℕ = x ∷ rest in
    let p = take size l in
    let rest' = drop size l in
    let whole : p ++ rest' ≡ l = take-append-drop size l in
    let header = next_header m in
    let behind = next_chunks header n size rest' in
    let base' = record base { tmp_format = t; csid = m.csid } in
    let conn' = record conn {
      chunks = put conn.chunks m.csid (
          midway (record base { tmp_format = 3; csid = m.csid }) (done ++ p) rest' (is_last rest'));
    } in
    let input : (header ++ (p ++ behind)) ++ more ≡ header ++ (p ++ (behind ++ more)) =
      append_assoc header (p ++ behind) more ∙ ap (λ b. header ++ b) (append_assoc p behind more) in
    let open_flag : is_last l ≡ false = ground arith in
    let entry' : conn.chunks m.csid ≡ some (midway base' done (p ++ rest') false) =
      entry
      ∙ ap (λ b. some (midway base' done l b)) open_flag
      ∙ ap (λ b. some (midway base' done b false)) (sym whole) in
    let fits : length (done ++ (p ++ rest')) < 2 ^ 24 = rw whole short in
    let clip : length p ≡ min size (length (p ++ rest')) = rw whole (length-take size l) in
    let some_left : 0 < length (p ++ rest') = rw whole (omega arith) in
    let step =
      read_step-next m conn r p rest' (behind ++ more) ok clip base' done entry' same ext fits
        some_left in
    let shorter : length rest' ≤ n * size = omega (arith, length-drop size l) in
    let (t', chunks, e) =
      resume m base r more n fuel 3 (done ++ p) rest' conn' ok same ext (rw append_assoc fits) hs
        shorter (omega arith) (put_self conn.chunks m.csid _) in
    let payload : (done ++ p) ++ rest' ≡ done ++ l =
      append_assoc done p rest' ∙ ap (λ b. done ++ b) whole in
    (
      t',
      chunks,
      rw open_flag (
          ap (λ b. read_loop (suc fuel) (record conn { rw = feed b r })) input
          ∙ read_loop_step fuel (record conn { rw = feed (header ++ (p ++ (behind ++ more))) r })
          ∙ ap (after_step (read_loop fuel)) step
          ∙ e
          ∙ ap (λ b. finish (ended m base t' b) (record conn { rw = feed more r; chunks = chunks }))
              payload),
    )

length-next_chunks :
    (header : List ℕ) (n size : ℕ) (rest : List ℕ)
    → length rest ≤ n * size
    → length rest ≤ length (next_chunks header n size rest)
unfolding next_chunks
length-next_chunks header zero size rest h = omega arith
length-next_chunks header (suc n) size [] h = omega arith
length-next_chunks header (suc n) size (x ∷ rest) h =
    let l : List ℕ = x ∷ rest in
    let behind = next_chunks header n size (drop size l) in
    omega (
      arith,
      length-append header (take size l ++ behind),
      length-append (take size l) behind,
      length-take size l,
      length-drop size l,
      length-next_chunks header n size (drop size l) (omega (arith, length-drop size l)),
    )

-- What the connection reads from the chunks of `m`.
module _ (m : ChunkStream) (conn : Conn) (r : ReadWriter) (more : List ℕ) (ok : IsHeader m)
    (whole : length m.payload ≡ m.length) (some_bytes : 0 < m.length)
    (served : m.length ≤ max_pool_size) (size_pos : 0 < conn.remote_chunk_size)
    (idle : (or_empty (conn.chunks m.csid)).remain ≡ 0) where
  abbrev pub base : ChunkStream
  base = with_header m (record (or_empty (conn.chunks m.csid)) { tmp_format = 0; csid = m.csid })

  enough_rounds :
      length (drop conn.remote_chunk_size m.payload)
      ≤ m.length / conn.remote_chunk_size * conn.remote_chunk_size
  enough_rounds =
      let size = conn.remote_chunk_size in
      omega (arith, length-drop size m.payload, div-add-mod m.length size, mod-lt m.length size_pos)

  pub read-chunks_of :
      (t : ℕ) × (chunks : ℕ → Option ChunkStream) × (read
          (record conn { rw = feed (chunks_of m conn.remote_chunk_size ++ more) r })
        ≡ finish (ended m base t m.payload) (record conn {
          rw = feed more r;
          pool = pool_after m.length conn.pool;
          chunks = chunks;
        }))
  unfolding read chunks_of
  read-chunks_of =
      let size = conn.remote_chunk_size in
      let n = m.length / size in
      let p = take size m.payload in
      let rest = drop size m.payload in
      let header = next_header m in
      let behind = next_chunks header n size rest in
      let split = take-append-drop size m.payload in
      let input = first_header m ++ (p ++ (behind ++ more)) in
      let regroup : (first_header m ++ (p ++ behind)) ++ more ≡ input =
        append_assoc (first_header m) (p ++ behind) more
        ∙ ap (λ b. first_header m ++ b) (append_assoc p behind more) in
      let clip : length p ≡ min size (length (p ++ rest)) = rw split (length-take size m.payload) in
      let whole' : m.length ≡ length (p ++ rest) = rw split (sym whole) in
      let entries = put (with_entry conn.chunks m.csid (conn.chunks m.csid)) in
      let cs = midway base p rest (is_last rest) in
      let conn' = record conn {
        pool = pool_after m.length conn.pool;
        chunks = entries m.csid cs;
      } in
      let step = read_step-first m conn r p rest (behind ++ more) ok clip whole' served idle in
      let fuel = length input in
      let rounds : n ≤ fuel = omega (
        arith,
        length-append (first_header m) (p ++ (behind ++ more)),
        length-append p (behind ++ more),
        length-append behind more,
        length-next_chunks header n size rest enough_rounds,
        length-take size m.payload,
        length-drop size m.payload,
        div-le_self m.length size,
      ) in
      let short : length (p ++ rest) < 2 ^ 24 = rw split (omega (arith, ok.length_fits)) in
      let (t, chunks, e) =
        resume m base r more n fuel 0 p rest conn' ok refl refl short size_pos enough_rounds rounds
          (put_self (with_entry conn.chunks m.csid (conn.chunks m.csid)) m.csid cs) in
      (
        t,
        chunks,
        ap (λ b. read (record conn { rw = feed b r })) regroup
            ∙ ap (λ k. read_loop k (record conn { rw = feed input r }))
                (let z : fuel + 1 ≡ suc fuel = omega arith in z)
            ∙ read_loop_step fuel (record conn { rw = feed input r })
            ∙ ap (after_step (read_loop fuel)) step
            ∙ e
            ∙ ap
                (λ b.
                  finish (ended m base t b) (record conn' { rw = feed more r; chunks = chunks }))
                split,
      )
