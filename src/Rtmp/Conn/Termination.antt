-- ===== src/Rtmp/Conn/Termination.antt =====
-- Read returns: each round of its loop takes a byte of the input or ends it.
use mathlib.Core.Path.{subst}
use yoshiera_huang_livego.Prelude.{
  Bool, true, false, Option, List, ◌==◌, leb, if◌then◌else◌, refl, ap, ◌≤◌, ℕ, zero, suc, ◌+◌, ◌^◌,
  ◌/◌, ◌<◌, ◌≡◌, ◌≢◌, arith, inl, inr, bit_and,
}
use yoshiera_huang_livego.Prelude.{none, some, Option-cases, Bool-cases, ◌>>=◌, length}
use yoshiera_huang_livego.Rtmp.ReadWriter.{ReadWriter}
use yoshiera_huang_livego.Rtmp.ReadWriter.Progress.{read_uint_be-one_byte}
use yoshiera_huang_livego.Rtmp.ChunkStream.{ChunkStream, full, get_be, Read, Written, be32, add32}
use yoshiera_huang_livego.Rtmp.ChunkStream.Steady
use yoshiera_huang_livego.Rtmp.ChunkStream.Steady.{write_chunk-Ends}
use yoshiera_huang_livego.Rtmp.ChunkStream.Progress.{GoesOn, read_chunk-GoesOn}
use yoshiera_huang_livego.Rtmp.Conn.{
  Conn, Step, or_empty, store_chunk, read_step, handle_control_msg, ack, ReadEnd, message, failed,
  panicked, stuck, finish, send_ack, new_ack, id_set_chunk_size, id_window_ack_size, after_step,
  read_loop, read,
}

-- Where a round ends without an error, the input is shorter.
abbrev Advances : ℕ → Step → Type 0
Advances n none = Unit
Advances n (some (some e, _, conn)) = Unit
Advances n (some (none, _, conn)) = length conn.rw.input < n

store_chunk-Advances :
    (n : ℕ) (r : ReadWriter) (conn : Conn) (key : ℕ) (result : Read)
    → (r.read_error ≡ none → length r.input < n)
    → GoesOn r result
    → Advances n (result >>= (λ x. some (store_chunk conn key x)))
unfolding store_chunk
store_chunk-Advances n r conn key none h ok = tt
store_chunk-Advances n r conn key (some (some e, st)) h ok = tt
store_chunk-Advances n r conn key (some (none, st)) h (clean, short) = omega (arith, h clean)

get_be-one_byte :
    (r : ReadWriter)
    → (get_be 1 r).1.read_error ≡ none
    → length (get_be 1 r).1.input < length r.input
unfolding get_be
get_be-one_byte r h = read_uint_be-one_byte r h

read_step-Advances : (conn : Conn) → Advances (length conn.rw.input) (read_step conn)
unfolding read_step
read_step-Advances conn =
    let (h, r) = get_be 1 conn.rw in
    let csid = bit_and h 0x3f in
    let cs = or_empty (conn.chunks csid) in
    store_chunk-Advances (length conn.rw.input) r _ csid _ (get_be-one_byte conn.rw) (
      read_chunk-GoesOn (record cs { tmp_format = h / 2 ^ 6; csid = csid }) r conn.remote_chunk_size
        conn.pool)

-- Read ends, and where it returns a message, less than `n` bytes of the input are left.
unfoldable pub ReadsOn : ℕ → ReadEnd → Type 0
ReadsOn n (message c conn) = length conn.rw.input < n
ReadsOn n (failed e conn) = Unit
ReadsOn n panicked = Unit
ReadsOn n stuck = ⊥

more-ReadsOn : (n m : ℕ) (e : ReadEnd) → n ≤ m → ReadsOn n e → ReadsOn m e
unfolding ReadsOn
more-ReadsOn n m (message c conn) le h = omega arith
more-ReadsOn n m (failed e conn) le h = tt
more-ReadsOn n m panicked le h = tt
more-ReadsOn n m stuck le h = h

abbrev Keeps : List ℕ → Option Conn → Type 0
Keeps i none = Unit
Keeps i (some conn) = conn.rw.input ≡ i

if-Keeps :
    (i : List ℕ) (b : Bool) (x y : Option Conn)
    → Keeps i x
    → Keeps i y
    → Keeps i (if b then x else y)
if-Keeps i true x y h k = h
if-Keeps i false x y h k = k

control-Keeps : (c : ChunkStream) (conn : Conn) → Keeps conn.rw.input (handle_control_msg c conn)
unfolding handle_control_msg
control-Keeps c conn =
    if-Keeps conn.rw.input (c.type_id == id_set_chunk_size) _ _
      (size-Keeps (λ size. record conn { remote_chunk_size = size }) (be32 c.payload)
        (λ size. refl))
      (if-Keeps conn.rw.input (c.type_id == id_window_ack_size) _ _
        (size-Keeps (λ size. record conn { remote_window_ack_size = size }) (be32 c.payload)
          (λ size. refl))
        refl)
  where
    size-Keeps :
        (set : ℕ → Conn) (r : Option ℕ)
        → ((size : ℕ) → (set size).rw.input ≡ conn.rw.input)
        → Keeps conn.rw.input (do size ← r; some (set size))
    size-Keeps set none h = tt
    size-Keeps set (some size) h = h size

written-Keeps :
    (conn : Conn) (r : Written)
    → Steady.Ends conn.rw.input r
    → Keeps conn.rw.input (do (_, _, w) ← r; some (record conn { rw = w; ack_received = 0 }))
written-Keeps conn none h = tt
written-Keeps conn (some (e, c, w)) h = h

ack-Keeps : (size : ℕ) (conn : Conn) → Keeps conn.rw.input (ack size conn)
unfolding ack send_ack
ack-Keeps size conn =
    let counted : Conn = record conn {
      received = if leb 0xf0000000 (add32 conn.received size) then 0 else add32 conn.received size;
      ack_received = add32 conn.ack_received size;
    } in
    if-Keeps conn.rw.input (leb conn.remote_window_ack_size (add32 conn.ack_received size)) _ _
      (elim (Option-cases (new_ack (add32 conn.ack_received size))) [
        | inl e ↦ rw (send_ack, e) tt
        | inr (cs, e) ↦
            rw (send_ack, e) (written-Keeps counted _ (write_chunk-Ends cs conn.rw conn.chunk_size))
      ])
      refl

finish-ReadsOn :
    (cs : ChunkStream) (conn : Conn) (n : ℕ) → length conn.rw.input < n → ReadsOn n (finish cs conn)
unfolding finish ReadsOn
finish-ReadsOn cs conn n h = elim (Option-cases (handle_control_msg cs conn)) [
  | inl e ↦ rw (finish, e) tt
  | inr (conn', e) ↦
      let same : conn'.rw.input ≡ conn.rw.input =
        subst (Keeps conn.rw.input) e (control-Keeps cs conn) in
      elim (Option-cases (ack cs.length conn')) [
        | inl k ↦ rw (finish, e, k) tt
        | inr (last, k) ↦
            let kept : last.rw.input ≡ conn'.rw.input =
              subst (Keeps conn'.rw.input) k (ack-Keeps cs.length conn') in
            rw (finish, e, k) (omega (arith, ap length kept, ap length same))
      ]
]

after_step-ReadsOn :
    (n : ℕ) (next : Conn → ReadEnd) (step : Step)
    → Advances n step
    → ((conn : Conn) → length conn.rw.input < n → ReadsOn n (next conn))
    → ReadsOn n (after_step next step)
unfolding after_step ReadsOn
after_step-ReadsOn n next none h ok = tt
after_step-ReadsOn n next (some (some e, cs, conn)) h ok = tt
after_step-ReadsOn n next (some (none, cs, conn)) h ok = elim (Bool-cases (full cs)) [
  | inl e ↦ rw (after_step, e) (finish-ReadsOn cs conn n h)
  | inr e ↦ rw (after_step, e) (ok conn h)
]

loop-ReadsOn :
    (fuel : ℕ) (conn : Conn)
    → length conn.rw.input < fuel
    → ReadsOn (length conn.rw.input) (read_loop fuel conn)
unfolding read_loop
loop-ReadsOn zero conn h = absurd (omega arith)
loop-ReadsOn (suc fuel) conn h =
    after_step-ReadsOn (length conn.rw.input) (read_loop fuel) (read_step conn)
      (read_step-Advances conn)
      (λ c k.
        more-ReadsOn (length c.rw.input) (length conn.rw.input) _ (omega arith)
          (loop-ReadsOn fuel c (omega arith)))

pub read-ReadsOn : (conn : Conn) → ReadsOn (length conn.rw.input) (read conn)
unfolding read
read-ReadsOn conn = loop-ReadsOn (length conn.rw.input + 1) conn (omega arith)

not_stuck : (n : ℕ) (e : ReadEnd) → ReadsOn n e → e ≢ stuck
unfolding ReadsOn
not_stuck n e h same = subst (ReadsOn n) same h

-- Read of any connection ends: in a message, an error or a panic, whatever the bytes that arrive.
pub read_ends : (conn : Conn) → read conn ≢ stuck
read_ends conn = not_stuck (length conn.rw.input) (read conn) (read-ReadsOn conn)
