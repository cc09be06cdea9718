-- ===== src/Rtmp/ChunkStream/Wire.antt =====
-- The bytes of a message in chunks, and that `writeHeader` writes its headers.
use yoshiera_huang_livego.Prelude.{ℕ, ◌+◌, ◌*◌, ◌^◌, ◌≤◌, ◌<◌, bit_or}
use yoshiera_huang_livego.Prelude.{◌≡◌, refl, ap, ◌∙◌, none, arith}
use yoshiera_huang_livego.Prelude.{List, [], ◌++◌, length, length-append}
use yoshiera_huang_livego.Prelude.{ltb, leb, if◌then◌else◌, le→not_ltb}
use yoshiera_huang_livego.Prelude.Bits.{bit_or-add}
use yoshiera_huang_livego.Pio.{shl}
use yoshiera_huang_livego.Rtmp.ReadWriter.{ReadWriter}
use yoshiera_huang_livego.Rtmp.ReadWriter.Emit.{
  be_bytes, le_bytes, emit, emit-nil, emit-emit, write_uint_be_lem, write_uint_le_lem,
}
use yoshiera_huang_livego.Rtmp.ChunkStream.{
  ChunkStream, put_be, put_le, write_basic_header, write_end, write_header,
}

-- The extended timestamp, if the timestamp needs one.
abbrev pub extension : ChunkStream → List ℕ
extension cs = if leb 0xffffff cs.timestamp then be_bytes 4 cs.timestamp else []

abbrev pub short_timestamp : ChunkStream → ℕ
short_timestamp cs = if ltb 0xffffff cs.timestamp then 0xffffff else cs.timestamp

-- The header of the first chunk of a message (format 0) and of the others (format 3).
abbrev pub header_fields : ChunkStream → List ℕ
header_fields cs =
    be_bytes 3 (short_timestamp cs)
    ++ (be_bytes 3 cs.length
        ++ (be_bytes 1 cs.type_id ++ (le_bytes 4 cs.stream_id ++ extension cs)))

abbrev pub first_header : ChunkStream → List ℕ
first_header cs = be_bytes 1 cs.csid ++ header_fields cs

abbrev pub next_header : ChunkStream → List ℕ
next_header cs = be_bytes 1 (192 + cs.csid) ++ extension cs

-- The fields that a header of a chunk stream with a one-byte basic header can carry.
pub record IsHeader (cs : ChunkStream) : Type 0 where
  pub csid_low : 2 ≤ cs.csid
  pub csid_high : cs.csid < 64
  pub timestamp_fits : cs.timestamp < 2 ^ 32
  pub length_fits : cs.length < 2 ^ 24
  pub type_id_fits : cs.type_id < 2 ^ 8
  pub stream_id_fits : cs.stream_id < 2 ^ 32

pub IsHeader-format : (f : ℕ) {cs : ChunkStream} → IsHeader cs → IsHeader (record cs { format = f })
IsHeader-format f ok = record {
  csid_low = ok.csid_low;
  csid_high = ok.csid_high;
  timestamp_fits = ok.timestamp_fits;
  length_fits = ok.length_fits;
  type_id_fits = ok.type_id_fits;
  stream_id_fits = ok.stream_id_fits;
}

module _ (v n : ℕ) (s : ReadWriter) (ready : s.write_error ≡ none) (room : n ≤ s.room) where
  pub put_be_lem : put_be v n s ≡ emit (be_bytes n v) s
  put_be_lem = ap (λ p. p.1) (write_uint_be_lem n v s ready room)

  pub put_le_lem : put_le v n s ≡ emit (le_bytes n v) s
  put_le_lem = ap (λ p. p.1) (write_uint_le_lem n v s ready room)

-- The same for a writer that has taken `bs` before.
module _ (v n : ℕ) (bs : List ℕ) (s : ReadWriter) (ready : s.write_error ≡ none) where
  put_be_after : length bs + n ≤ s.room → put_be v n (emit bs s) ≡ emit (bs ++ be_bytes n v) s
  put_be_after room =
      put_be_lem v n (emit bs s) (unfold emit in ready) (unfold emit in omega arith)
      ∙ emit-emit bs (be_bytes n v) s

  put_le_after : length bs + n ≤ s.room → put_le v n (emit bs s) ≡ emit (bs ++ le_bytes n v) s
  put_le_after room =
      put_le_lem v n (emit bs s) (unfold emit in ready) (unfold emit in omega arith)
      ∙ emit-emit bs (le_bytes n v) s

basic_byte :
    (format csid : ℕ) → format < 4 → csid < 64 → bit_or (shl 32 format 6) csid ≡ format * 64 + csid
basic_byte format csid hf hc =
    ap (λ (t : ℕ). bit_or t csid) (let z : shl 32 format 6 ≡ format * 2 ^ 6 = omega arith in z)
    ∙ bit_or-add 6 format csid hc

write_basic_header_lem :
    (cs : ChunkStream) (s : ReadWriter) (b : ℕ)
    → b ≡ cs.format * 64 + cs.csid
    → cs.format < 4
    → cs.csid < 64
    → s.write_error ≡ none
    → 1 ≤ s.room
    → write_basic_header cs s ≡ emit (be_bytes 1 b) s
unfolding write_basic_header
write_basic_header_lem cs s b e hf hc ready room =
    ground (arith, basic_byte cs.format cs.csid, put_be_lem b 1 s)

module _ (cs : ChunkStream) (s : ReadWriter) (ready : s.write_error ≡ none) where
  write_end_lem :
      (ts : ℕ)
      → leb 0xffffff ts ≡ leb 0xffffff cs.timestamp
      → length (extension cs) ≤ s.room
      → write_end ts cs s ≡ (none, emit (extension cs) s)
  unfolding write_end emit
  write_end_lem ts same room = ground (arith, put_be_lem cs.timestamp 4 s ready, emit-nil s)

write_end_after :
    (cs : ChunkStream) (bs : List ℕ) (s : ReadWriter) (ts : ℕ)
    → s.write_error ≡ none
    → leb 0xffffff ts ≡ leb 0xffffff cs.timestamp
    → length (bs ++ extension cs) ≤ s.room
    → write_end ts cs (emit bs s) ≡ (none, emit (bs ++ extension cs) s)
write_end_after cs bs s ts ready same room =
    write_end_lem cs (emit bs s) (unfold emit in ready) ts same
      (unfold emit in omega (arith, length-append bs (extension cs)))
    ∙ ap (λ r. (none, r)) (emit-emit bs (extension cs) s)

-- The header of the first chunk, with an extended timestamp from 0xffffff on.
pub write_header-first :
    (cs : ChunkStream) (s : ReadWriter)
    → IsHeader cs
    → s.write_error ≡ none
    → length (first_header cs) ≤ s.room
    → write_header (record cs { format = 0 }) s ≡ (none, emit (first_header cs) s)
unfolding write_header
write_header-first cs s ok ready room =
    let zeroth = record cs { format = 0 } in
    let ts = short_timestamp cs in
    let bs1 = be_bytes 1 cs.csid in
    let bs2 = bs1 ++ be_bytes 3 ts in
    let bs3 = bs2 ++ be_bytes 3 cs.length in
    let bs4 = bs3 ++ be_bytes 1 cs.type_id in
    let bs5 = bs4 ++ le_bytes 4 cs.stream_id in
    let e1 =
      write_basic_header_lem zeroth s cs.csid (omega arith) (omega arith) ok.csid_high ready
        (omega arith) in
    let e2 = ap (put_be ts 3) e1 ∙ put_be_after ts 3 bs1 s ready (omega arith) in
    let e3 = ap (put_be cs.length 3) e2 ∙ put_be_after cs.length 3 bs2 s ready (omega arith) in
    let e4 = ap (put_be cs.type_id 1) e3 ∙ put_be_after cs.type_id 1 bs3 s ready (omega arith) in
    let e5 =
      ap (put_le cs.stream_id 4) e4 ∙ put_le_after cs.stream_id 4 bs4 s ready (omega arith) in
    rw (le→not_ltb 0xffffff cs.length (omega arith))
      (ap (write_end ts zeroth) e5 ∙ write_end_after zeroth bs5 s ts ready (ground arith) room)

-- The header of a further chunk repeats the extended timestamp.
pub write_header-next :
    (cs : ChunkStream) (s : ReadWriter)
    → IsHeader cs
    → s.write_error ≡ none
    → length (next_header cs) ≤ s.room
    → write_header (record cs { format = 3 }) s ≡ (none, emit (next_header cs) s)
unfolding write_header
write_header-next cs s ok ready room =
    let third = record cs { format = 3 } in
    let e1 =
      write_basic_header_lem third s (192 + cs.csid) (omega arith) (omega arith) ok.csid_high ready
        (omega arith) in
    ap (write_end cs.timestamp third) e1
    ∙ write_end_after third (be_bytes 1 (192 + cs.csid)) s cs.timestamp ready refl room
