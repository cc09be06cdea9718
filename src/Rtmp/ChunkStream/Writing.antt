-- ===== src/Rtmp/ChunkStream/Writing.antt =====
-- `writeChunk` writes a message as its chunks, in order.
use yoshiera_huang_livego.Prelude.{ℕ, zero, suc, ◌+◌, ◌-◌, ◌*◌, ◌/◌, ◌%◌, ◌^◌, ◌≤◌, ◌<◌}
use yoshiera_huang_livego.Prelude.{◌≡◌, ◌≢◌, refl, sym, ap, ◌∙◌, none, some, arith}
use yoshiera_huang_livego.Prelude.{
  List, [], ◌∷◌, ◌++◌, length, take, drop, length-append, length-take, length-drop,
  take-length_take, drop-length_take, drop-drop, pos_of_ne-nil, append_assoc,
}
use yoshiera_huang_livego.Prelude.{◌==◌, if◌then◌else◌, ==_ne, le→leb}
use native.Mathlib.Nat.{div-add-mod, mod-lt}
use yoshiera_huang_livego.Rtmp.ReadWriter.{ReadWriter}
use yoshiera_huang_livego.Rtmp.ReadWriter.Emit.{emit, emit-nil, emit-emit, write_lem}
use yoshiera_huang_livego.Rtmp.ChunkStream.{
  ChunkStream, add32, slice, write_header, increment, Written, on_write, write_part, write_round,
  write_loop, media_csid, write_chunk,
}
use yoshiera_huang_livego.Rtmp.ChunkStream.Wire.{
  IsHeader, IsHeader-format, first_header, next_header, write_header-first, write_header-next,
}

-- The chunks behind the first, each with `header`, for the rest of the payload.
unfoldable pub next_chunks : List ℕ → ℕ → ℕ → List ℕ → List ℕ
next_chunks header zero size rest = []
next_chunks header (suc rounds) size [] = []
next_chunks header (suc rounds) size (x ∷ rest) =
    header ++ (take size (x ∷ rest) ++ next_chunks header rounds size (drop size (x ∷ rest)))

-- A message in chunks of `size` bytes.
unfoldable pub chunks_of : ChunkStream → ℕ → List ℕ
chunks_of cs size =
    first_header cs
    ++ (take size cs.payload
        ++ next_chunks (next_header cs) (cs.length / size) size (drop size cs.payload))

pub slice_at :
    (b : List ℕ) (lo n : ℕ) → lo + n ≤ length b → slice b lo (lo + n) ≡ some (take n (drop lo b))
unfolding slice
slice_at b lo n h =
    let size : lo + n - lo ≡ n = omega arith in
    rw (size, le→leb lo (lo + n) (omega arith), le→leb (lo + n) (length b) h)

module _ (cs : ChunkStream) (start size : ℕ) (inside : start ≤ length cs.payload)
    (short : length cs.payload < 2 ^ 24) where
  abbrev part : List ℕ
  part = take size (drop start cs.payload)

  increment_lem : increment cs start size ≡ length part
  unfolding increment
  increment_lem =
      ground (arith, length-take size (drop start cs.payload), length-drop start cs.payload)

  write_part_lem :
      (next : ℕ → ReadWriter → Written) (s : ReadWriter)
      → s.write_error ≡ none
      → length part ≤ s.room
      → write_part cs start size next s ≡ next (length part) (emit part s)
  unfolding write_part on_write
  write_part_lem next s ready room =
      let below : length part ≤ length cs.payload - start =
        omega (arith, length-take size (drop start cs.payload), length-drop start cs.payload) in
      let end : add32 start (length part) ≡ start + length part = omega arith in
      let buf : slice cs.payload start (start + length part) ≡ some part =
        slice_at cs.payload start (length part) (omega arith)
        ∙ ap some (take-length_take size (drop start cs.payload)) in
      rw (increment_lem, end, buf, write_lem part s ready room)

-- A round that has bytes to write: a header and a part of the payload, and the rounds that follow.
module _ (cs : ChunkStream) (s : ReadWriter) (i size total f : ℕ) (header rest : List ℕ)
    (next : ℕ → ChunkStream → ReadWriter → Written) (whole : length cs.payload ≡ cs.length)
    (short : cs.length < 2 ^ 24) (at : total ≡ i * size) (more : total < cs.length)
    (tail : rest ≡ drop total cs.payload) (ready : s.write_error ≡ none)
    (of_round : (if i == 0 then 0 else 3) ≡ f)
    (h : write_header (record cs { format = f }) s ≡ (none, emit header s))
    (room : length (header ++ take size rest) ≤ s.room) where
  write_round_lem :
      write_round size i total next cs s
      ≡ next
          (total + length (take size rest))
          (record cs { format = f })
          (emit (header ++ take size rest) s)
  unfolding write_round on_write
  write_round_lem =
      let cs' = record cs { format = f } in
      let part = take size (drop total cs.payload) in
      let same : take size rest ≡ part = ap (take size) tail in
      let room' : length (header ++ part) ≤ s.room = rw same at room in
      let sizes = length-append header part in
      let below : length part ≤ length cs.payload - total =
        omega (arith, length-take size (drop total cs.payload), length-drop total cs.payload) in
      let ne = ==_ne total cs.length (omega arith) in
      let start : i * size % 2 ^ 32 ≡ total = omega arith in
      let sum : add32 total (length part) ≡ total + length part = omega arith in
      let rest =
        write_part_lem cs' total size (omega arith) (omega arith)
          (λ inc. next (add32 total inc) cs') (emit header s) (unfold emit in ready)
          (unfold emit in omega arith) in
      rw (ne, of_round, start, h, same)
        (rest ∙ rw sum (ap (next (total + length part) cs') (emit-emit header part s)))

write_round_done :
    (cs : ChunkStream) (s : ReadWriter) (i size total : ℕ)
    (next : ℕ → ChunkStream → ReadWriter → Written)
    → total ≡ cs.length
    → write_round size i total next cs s ≡ some (none, cs, s)
unfolding write_round
write_round_done cs s i size total next e = ground arith

-- What `next_chunks` has written of the format: 3 once a further chunk was written.
abbrev pub last_format : ℕ → List ℕ → ℕ
last_format f [] = f
last_format f (x ∷ rest) = 3

last_format-three : (l : List ℕ) → last_format 3 l ≡ 3
last_format-three [] = refl
last_format-three (x ∷ l) = refl

write_loop_next :
    (rounds i total size : ℕ) (rest : List ℕ) (cs : ChunkStream) (s : ReadWriter)
    → IsHeader cs
    → 0 < i
    → 0 < size
    → length cs.payload ≡ cs.length
    → (rest ≢ [] → total ≡ i * size)
    → rest ≡ drop total cs.payload
    → total ≤ cs.length
    → length rest ≤ rounds * size
    → s.write_error ≡ none
    → length (next_chunks (next_header cs) rounds size rest) ≤ s.room
    → write_loop rounds size i total cs s
      ≡ some (
        none,
        record cs { format = last_format cs.format rest },
        emit (next_chunks (next_header cs) rounds size rest) s,
      )
unfolding write_loop next_chunks
write_loop_next zero i total size [] cs s ok hi hs whole e tail le enough ready room =
    ap (λ r. some (none, cs, r)) (sym (emit-nil s))
write_loop_next zero i total size (x ∷ rest) cs s ok hi hs whole e tail le enough ready room =
    absurd (omega arith)
write_loop_next (suc rounds) i total size [] cs s ok hi hs whole e tail le enough ready room =
    let done : total ≡ cs.length = omega (arith, length-drop total cs.payload, ap length tail) in
    write_round_done cs s i size total (write_loop rounds size (i + 1)) done
    ∙ ap (λ r. some (none, cs, r)) (sym (emit-nil s))
write_loop_next (suc rounds) i total size (x ∷ rest) cs s ok hi hs whole e tail le enough ready
      room =
    let r : List ℕ = x ∷ rest in
    let part = take size r in
    let third = record cs { format = 3 } in
    let more : total < cs.length = omega (arith, ap length tail, length-drop total cs.payload) in
    let at = e (λ p. cc) in
    let behind = next_chunks (next_header cs) rounds size (drop size r) in
    let sizes = length-append (next_header cs) (part ++ behind) in
    let sizes' = length-append part behind in
    let sizes'' = length-append (next_header cs) part in
    let header = write_header-next cs s ok ready (omega arith) in
    let round =
      write_round_lem cs s i size total 3 (next_header cs) r (write_loop rounds size (i + 1)) whole
        ok.length_fits at more tail ready (ground arith) header (omega arith) in
    let s' = emit (next_header cs ++ part) s in
    let loop =
      write_loop_next rounds (i + 1) (total + length part) size (drop size r) third s'
        (IsHeader-format 3 ok) (omega arith) hs whole
        (λ p.
          omega (arith, pos_of_ne-nil (drop size r) p, length-drop size r, length-take size r, at))
        (sym (drop-length_take size r)
          ∙ ap (drop (length part)) tail
          ∙ drop-drop (length part) total cs.payload)
        (omega (arith, length-take size r, length-drop total cs.payload, ap length tail))
        (omega (arith, length-drop size r)) (unfold emit in ready) (unfold emit in omega arith) in
    let written : emit behind s' ≡ emit (next_header cs ++ (part ++ behind)) s =
      emit-emit (next_header cs ++ part) behind s
      ∙ ap (λ bs. emit bs s) (append_assoc (next_header cs) part behind) in
    round
    ∙ loop
    ∙ (λ k. some (none, record cs { format = last_format-three (drop size r) k }, written k))

-- The id that `writeChunk` chooses is the only field that it changes before the loop.
pub media_csid_keeps :
    (cs : ChunkStream)
    → ((media_csid cs).payload ≡ cs.payload)
      × ((media_csid cs).length ≡ cs.length)
      × ((media_csid cs).type_id ≡ cs.type_id)
unfolding media_csid
media_csid_keeps cs = ground arith

write_loop_first :
    (cs : ChunkStream) (s : ReadWriter) (size : ℕ)
    → IsHeader cs
    → length cs.payload ≡ cs.length
    → 0 < cs.length
    → 0 < size
    → s.write_error ≡ none
    → length (chunks_of cs size) ≤ s.room
    → write_loop (cs.length / size + 1) size 0 0 cs s
      ≡ some (
        none,
        record cs { format = last_format 0 (drop size cs.payload) },
        emit (chunks_of cs size) s,
      )
unfolding write_loop chunks_of
write_loop_first cs s size ok whole pos hs ready room =
    let n = cs.length / size in
    let part = take size cs.payload in
    let behind = next_chunks (next_header cs) n size (drop size cs.payload) in
    let sizes = length-append (first_header cs) (part ++ behind) in
    let sizes' = length-append part behind in
    let sizes'' = length-append (first_header cs) part in
    let header = write_header-first cs s ok ready (omega arith) in
    let round =
      write_round_lem cs s 0 size 0 0 (first_header cs) cs.payload (write_loop n size 1) whole
        ok.length_fits (omega arith) pos refl ready refl header (omega arith) in
    let s' = emit (first_header cs ++ part) s in
    let loop =
      write_loop_next n 1 (0 + length part) size (drop size cs.payload) (record cs { format = 0 })
        s' (IsHeader-format 0 ok) (omega arith) hs whole
        (λ p. omega (
          arith,
          pos_of_ne-nil (drop size cs.payload) p,
          length-drop size cs.payload,
          length-take size cs.payload,
        ))
        (sym (drop-length_take size cs.payload) ∙ ap (λ k. drop k cs.payload) (omega arith))
        (omega (arith, length-take size cs.payload))
        (omega
          (arith, length-drop size cs.payload, div-add-mod cs.length size, mod-lt cs.length hs))
        (unfold emit in ready) (unfold emit in omega arith) in
    let written : emit behind s' ≡ emit (first_header cs ++ (part ++ behind)) s =
      emit-emit (first_header cs ++ part) behind s
      ∙ ap (λ bs. emit bs s) (append_assoc (first_header cs) part behind) in
    ap (λ k. write_loop k size 0 0 cs s) (let z : n + 1 ≡ suc n = omega arith in z)
    ∙ round
    ∙ loop
    ∙ (λ k. some (none, record cs { format = last_format 0 (drop size cs.payload) }, written k))

pub write_chunk-chunks_of :
    (cs : ChunkStream) (s : ReadWriter) (size : ℕ)
    → IsHeader (media_csid cs)
    → length cs.payload ≡ cs.length
    → 0 < cs.length
    → 0 < size
    → size < 2 ^ 32
    → s.write_error ≡ none
    → length (chunks_of (media_csid cs) size) ≤ s.room
    → write_chunk cs s size
      ≡ some (
        none,
        record (media_csid cs) { format = last_format 0 (drop size cs.payload) },
        emit (chunks_of (media_csid cs) size) s,
      )
unfolding write_chunk
write_chunk-chunks_of cs s size ok whole pos hs fits ready room =
    let kept = media_csid_keeps cs in
    let m = media_csid cs in
    let word : size % 2 ^ 32 ≡ size = omega arith in
    let loop =
      write_loop_first m s size ok (ap length kept.0 ∙ whole ∙ sym kept.1) (omega (arith, kept.1))
        hs ready room in
    rw (word, ==_ne size 0 (omega arith))
      (loop ∙ (λ k. some (
        none,
        record m { format = last_format 0 (drop size (kept.0 k)) },
        emit (chunks_of m size) s,
      )))
