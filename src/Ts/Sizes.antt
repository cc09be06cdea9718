-- ===== src/Ts/Sizes.antt =====
-- Whatever the muxer is given, its buffers keep their length: the arrays of Go cannot grow.
use yoshiera_huang_livego.Prelude.{ℕ, zero, suc, ◌+◌}
use yoshiera_huang_livego.Prelude.{Bool, true, false, ◌&&◌, ◌≡◌, refl, ap, ◌∙◌}
use yoshiera_huang_livego.Prelude.{List, [], ◌∷◌, Option, none, some, ◌>>=◌, length}
use yoshiera_huang_livego.Prelude.{ltb, if◌then◌else◌}
use yoshiera_huang_livego.Pio.{at, store}
use yoshiera_huang_livego.Ts.Buffer.{or_at, copy, from, sub_slice, length-copy}
use yoshiera_huang_livego.Ts.Pes.{PesHeader, ts_packet_len}
use yoshiera_huang_livego.Ts.Muxer.{
  Job, Progress, write_header, write_pcr, write_clock, adaptation_buf_init, make_room, room_for,
  put_pes, put_payload, write_front, pack_bytes,
}
use yoshiera_huang_livego.Ts.Room.{length-blank}

-- What holds of the value, if there is no panic.
pub data Sure {ℓ} {A : Type ℓ} (P : A → Type 0) : Option A → Type ℓ where
  panics : Sure P none
  sure : {a : A} → P a → Sure P (some a)

pub bind-Sure {ℓ κ} :
    {A : Type ℓ} {B : Type κ} {P : A → Type 0} {Q : B → Type 0} {o : Option A} {f : A → Option B}
    → Sure P o
    → ((a : A) → P a → Sure Q (f a))
    → Sure Q (o >>= f)
bind-Sure panics k = panics
bind-Sure {o = some a} (sure p) k = k a p

any {ℓ} : {A : Type ℓ} (o : Option A) → Sure (λ a. Unit {0}) o
any none = panics
any (some a) = sure tt

if-Sure {ℓ} :
    {A : Type ℓ} {P : A → Type 0} (b : Bool) {x y : Option A}
    → Sure P x
    → Sure P y
    → Sure P (if b then x else y)
if-Sure true p q = p
if-Sure false p q = q

-- A list of bytes with the length of another.
abbrev AsLong : List ℕ → List ℕ → Type 0
AsLong b c = length c ≡ length b

store-Sure : (b : List ℕ) (i v : ℕ) → Sure (AsLong b) (store b i v)
store-Sure [] i v = panics
store-Sure (x ∷ b) zero v = sure refl
store-Sure (x ∷ b) (suc i) v = bind-Sure (store-Sure b i v) (λ c e. sure (ap suc e))

from-Sure :
    (b : List ℕ) (i : ℕ) (f : List ℕ → Option (List ℕ))
    → ((c : List ℕ) → Sure (AsLong c) (f c))
    → Sure (AsLong b) (from b i f)
from-Sure b zero f k = k b
from-Sure [] (suc i) f k = panics
from-Sure (x ∷ b) (suc i) f k = bind-Sure (from-Sure b i f k) (λ c e. sure (ap suc e))

copied : (src c : List ℕ) → Sure (AsLong c) (some (copy c src))
copied src c = sure (length-copy c src)

adaptation_buf_init-Sure :
    (remain : ℕ) (b : List ℕ) → Sure (AsLong b) (adaptation_buf_init remain b)
unfolding adaptation_buf_init
adaptation_buf_init-Sure remain b = bind-Sure (store-Sure b 0 _) λ c e. if-Sure _ (sure e) (
    bind-Sure (store-Sure c 1 0)
      λ d f. longer b c d e f (from d 2 _) (from-Sure d 2 _ λ rest. sure (length-blank rest)))
  where
    longer :
        (b c d : List ℕ)
        → AsLong b c
        → AsLong c d
        → (o : Option (List ℕ)) → Sure (AsLong d) o
        → Sure (AsLong b) o
    longer b c d e f none p = panics
    longer b c d e f (some r) (sure g) = sure (g ∙ f ∙ e)

-- One store after another, on a packet of a fixed length.
module _ (n : ℕ) where
  abbrev pub Sized : List ℕ → Type 0
  Sized b = length b ≡ n

  resized : (b : List ℕ) {o : Option (List ℕ)} → Sure (AsLong b) o → Sized b → Sure Sized o
  resized b panics e = panics
  resized b (sure p) e = sure (p ∙ e)

  keep_store : (b : List ℕ) (i v : ℕ) → Sized b → Sure Sized (store b i v)
  keep_store b i v e = resized b (store-Sure b i v) e

  keep_or_at : (b : List ℕ) (i v : ℕ) → Sized b → Sure Sized (or_at b i v)
  keep_or_at b i v e = bind-Sure (any (at b i)) (λ x t. keep_store b i _ e)

  keep_from :
      (b : List ℕ) (i : ℕ) {f : List ℕ → Option (List ℕ)}
      → ((c : List ℕ) → Sure (AsLong c) (f c))
      → Sized b
      → Sure Sized (from b i f)
  keep_from b i k e = resized b (from-Sure b i _ k) e

  write_header-Sure :
      (v first : Bool) (k : ℕ) (b : List ℕ) → Sized b → Sure Sized (write_header v first k b)
  unfolding write_header
  write_header-Sure v first k b e = bind-Sure (keep_store b 0 _ e) λ b e.
      bind-Sure (keep_store b 1 _ e) λ b e.
        bind-Sure (if-Sure first (keep_or_at b 1 0x40 e) (sure e))
          λ b e. bind-Sure (keep_store b 2 _ e) λ b e. keep_store b 3 _ e

  write_clock-Sure : (dts : ℕ) (b : List ℕ) → Sized b → Sure (λ r. Sized r.1) (write_clock dts b)
  unfolding write_clock write_pcr
  write_clock-Sure dts b e = bind-Sure (keep_or_at b 3 0x20 e) λ b e.
      bind-Sure (keep_store b 4 _ e) λ b e. bind-Sure (keep_store b 5 _ e) λ b e.
        bind-Sure
          (bind-Sure (keep_store b 6 _ e) λ b e. bind-Sure (keep_store b 7 _ e) λ b e.
            bind-Sure (keep_store b 8 _ e) λ b e.
              bind-Sure (keep_store b 9 _ e)
                λ b e. bind-Sure (keep_store b 10 _ e) λ b e. keep_store b 11 _ e)
          λ b e. sure e

  make_room-Sure :
      (first : Bool) (left i : ℕ) (b : List ℕ)
      → Sized b
      → Sure (λ r. Sized r.2) (make_room first left i b)
  unfolding make_room
  make_room-Sure first left i b e = if-Sure _ (sure e) (
      bind-Sure (keep_or_at b 3 0x20 e)
        λ b e. bind-Sure (keep_from b i (adaptation_buf_init-Sure _) e) λ b e. sure e)

  put_pes-Sure :
      (pes : PesHeader) (s : Progress) (data_len i : ℕ) (b : List ℕ)
      → Sized b
      → Sure (λ r. Sized r.2) (put_pes pes s data_len i b)
  unfolding put_pes
  put_pes-Sure pes s data_len i b e =
      if-Sure (s.first && ltb i ts_packet_len && ltb 0 s.pes_header_len)
        (bind-Sure
          (any (sub_slice pes.bytes s.pes_index (s.pes_index + room_for i s.pes_header_len)))
          λ piece t. bind-Sure (keep_from b i (copied piece) e) λ b e. sure e)
        (sure e)

  put_payload-Sure :
      (payload : List ℕ) (s : Progress) (data_len i : ℕ) (b : List ℕ)
      → Sized b
      → Sure (λ r. Sized r.0) (put_payload payload s data_len i b)
  unfolding put_payload
  put_payload-Sure payload s data_len i b e =
      if-Sure (ltb i ts_packet_len)
        (bind-Sure (any (sub_slice payload s.w_bytes (s.w_bytes + room_for i data_len)))
          λ piece t. bind-Sure (keep_from b i (copied piece) e) λ b e. sure e)
        (sure e)

  pub pack_bytes-Sure :
      (job : Job) (s : Progress) (k : ℕ) (b : List ℕ)
      → Sized b
      → Sure (λ r. Sized r.0) (pack_bytes job s k b)
  unfolding pack_bytes write_front
  pack_bytes-Sure job s k b e =
      bind-Sure
        (bind-Sure (write_header-Sure job.packet.is_video s.first k b e) λ b e.
          bind-Sure (if-Sure _ (write_clock-Sure job.dts b e) (sure e))
            λ (i, b) e. make_room-Sure s.first s.packet_bytes_len i b e)
        λ (d, i, b) e.
          bind-Sure (put_pes-Sure job.pes s d i b e)
            λ (d, i, b, s) e. put_payload-Sure job.packet.payload s d i b e
