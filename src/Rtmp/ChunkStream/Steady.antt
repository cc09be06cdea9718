-- ===== src/Rtmp/ChunkStream/Steady.antt =====
-- writeChunk leaves the input of its connection as it is.
use yoshiera_huang_livego.Prelude.{
  ℕ, zero, suc, ◌+◌, ◌*◌, ◌%◌, ◌^◌, ◌≡◌, refl, ◌∙◌, inl, inr, Bool, true, false, Option, none, some,
  Option-cases, List, ltb, leb, ◌==◌, if◌then◌else◌,
}
use yoshiera_huang_livego.Rtmp.ReadWriter.{Error, ReadWriter, write}
use yoshiera_huang_livego.Rtmp.ReadWriter.Steady.{
  Leaves, write_uint_be-Leaves, write_uint_le-Leaves, write-Leaves,
}
use yoshiera_huang_livego.Rtmp.ChunkStream.{
  ChunkStream, add32, sub32, slice, put_be, put_le, write_basic_header, write_end, write_header,
  media_csid, Written, on_write, increment, write_part, write_round, write_loop, write_chunk,
}

-- Where writing ends at all, the input is `i`.
abbrev pub Ends : List ℕ → Written → Type 0
Ends i none = Unit
Ends i (some (e, cs, w)) = w.input ≡ i

if-Ends :
    (i : List ℕ) (b : Bool) (x y : Written) → Ends i x → Ends i y → Ends i (if b then x else y)
if-Ends i true x y h k = h
if-Ends i false x y h k = k

if_input :
    (i : List ℕ) (b : Bool) (x y : ReadWriter)
    → x.input ≡ i
    → y.input ≡ i
    → (if b then x else y).input ≡ i
if_input i true x y h k = h
if_input i false x y h k = k

if-Leaves :
    (i : List ℕ) (b : Bool) (x y : Option Error × ReadWriter)
    → Leaves i x
    → Leaves i y
    → Leaves i (if b then x else y)
if-Leaves i true x y h k = h
if-Leaves i false x y h k = k

be_input : (i : List ℕ) (v n : ℕ) (w : ReadWriter) → w.input ≡ i → (put_be v n w).input ≡ i
be_input i v n w h = write_uint_be-Leaves v n w ∙ h

le_input : (i : List ℕ) (v n : ℕ) (w : ReadWriter) → w.input ≡ i → (put_le v n w).input ≡ i
le_input i v n w h = write_uint_le-Leaves v n w ∙ h

basic_input :
    (i : List ℕ) (cs : ChunkStream) (w : ReadWriter)
    → w.input ≡ i
    → (write_basic_header cs w).input ≡ i
unfolding write_basic_header
basic_input i cs w h = if_input i (ltb cs.csid 64) _ _ (be_input i _ 1 w h) (
    if_input i (ltb (sub32 cs.csid 64) 256) _ _ (le_input i _ 1 _ (be_input i _ 1 w h))
      (if_input i (ltb (sub32 cs.csid 64) 65536) _ _ (le_input i _ 2 _ (be_input i _ 1 w h)) h))

end-Leaves :
    (i : List ℕ) (ts : ℕ) (cs : ChunkStream) (w : ReadWriter)
    → w.input ≡ i
    → Leaves i (write_end ts cs w)
unfolding write_end
end-Leaves i ts cs w h = if_input i (leb 0xffffff ts) _ _ (be_input i _ 4 w h) h

header-Leaves :
    (i : List ℕ) (cs : ChunkStream) (w : ReadWriter) → w.input ≡ i → Leaves i (write_header cs w)
unfolding write_header
header-Leaves i cs w h =
    let basic = basic_input i cs w h in
    if-Leaves i (cs.format == 3) _ _ (end-Leaves i _ cs _ basic) (
      let three = be_input i _ 3 _ basic in
      if-Leaves i (cs.format == 2) _ _ (end-Leaves i _ cs _ three) (
        if-Leaves i (ltb 0xffffff cs.length) _ _ three (
          let typed = be_input i _ 1 _ (be_input i _ 3 _ three) in
          if-Leaves i (cs.format == 1) _ _ (end-Leaves i _ cs _ typed)
            (end-Leaves i _ cs _ (le_input i _ 4 _ typed)))))

on_write-Ends :
    (i : List ℕ) (cs : ChunkStream) (next : ReadWriter → Written) (r : Option Error × ReadWriter)
    → Leaves i r
    → ((w : ReadWriter) → w.input ≡ i → Ends i (next w))
    → Ends i (on_write cs next r)
unfolding on_write
on_write-Ends i cs next (some e, w) h k = h
on_write-Ends i cs next (none, w) h k = k w h

part-Ends :
    (i : List ℕ) (cs : ChunkStream) (start size : ℕ) (next : ℕ → ReadWriter → Written)
    (w : ReadWriter)
    → w.input ≡ i
    → ((inc : ℕ) (w : ReadWriter) → w.input ≡ i → Ends i (next inc w))
    → Ends i (write_part cs start size next w)
unfolding write_part
part-Ends i cs start size next w h k =
    let inc = increment cs start size in
    elim (Option-cases (slice cs.payload start (add32 start inc))) [
      | inl e ↦ rw (write_part, e) tt
      | inr (buf, e) ↦
          rw (write_part, e)
            (on_write-Ends i cs (next inc) (write buf w) (write-Leaves buf w ∙ h) (k inc))
    ]

loop-Ends :
    (i : List ℕ) (rounds size n total : ℕ) (cs : ChunkStream) (w : ReadWriter)
    → w.input ≡ i
    → Ends i (write_loop rounds size n total cs w)
unfolding write_loop write_round
loop-Ends i zero size n total cs w h = h
loop-Ends i (suc rounds) size n total cs w h = if-Ends i (total == cs.length) _ _ h (
    on_write-Ends i _ _ _ (header-Leaves i _ w h) λ w h.
      part-Ends i _ (n * size % 2 ^ 32) size _ w h
        λ inc w h. loop-Ends i rounds size (n + 1) (add32 total inc) _ w h)

pub write_chunk-Ends :
    (cs : ChunkStream) (w : ReadWriter) (size : ℕ) → Ends w.input (write_chunk cs w size)
unfolding write_chunk
write_chunk-Ends cs w size =
    if-Ends w.input (size % 2 ^ 32 == 0) _ _ tt
      (loop-Ends w.input _ (size % 2 ^ 32) 0 0 (media_csid cs) w refl)
