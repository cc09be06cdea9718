-- ===== src/Ts/Invariant.antt =====
-- What holds of a muxer between its calls, whatever it is given and however its writer answers.
use yoshiera_huang_livego.Prelude.{ℕ, zero, suc, ◌+◌, ◌≤◌}
use yoshiera_huang_livego.Prelude.{Bool, true, false, ◌≡◌, refl, sym, ap, ◌∙◌, arith}
use yoshiera_huang_livego.Prelude.{List, Option, none, some, length, ltb, Bool-cases, inl, inr}
use mathlib.Core.Path.{subst}
use yoshiera_huang_livego.Pio.{byte}
use yoshiera_huang_livego.Av.Packet.{Packet}
use yoshiera_huang_livego.Ts.Muxer.{
  Muxer, Job, Progress, Muxed, returned, panicked, halted, new_muxer, next_cc, count_packet, cc_of,
  pack, after_write, write_packet, after_pack, mux_loop, start_job, mux,
}
use yoshiera_huang_livego.Ts.Tables.{wrapped_cc, pat, pmt}
use yoshiera_huang_livego.Ts.Sections.{pat_bytes-Tabled, pmt_bytes-Tabled, is_mp3}
use yoshiera_huang_livego.Ts.Sizes.{Sure, sure, bind-Sure, pack_bytes-Sure}

-- The counters of the streams have four bits; those of the tables are cut off only when they are
-- used. The arrays have the length of a packet.
pub record IsSound (m : Muxer) : Type 0 where
  pub video_small : m.video_cc ≤ 15
  pub audio_small : m.audio_cc ≤ 15
  pub pat_small : m.pat_cc ≤ 16
  pub pmt_small : m.pmt_cc ≤ 16
  pub pat_whole : length m.pat ≡ 188
  pub pmt_whole : length m.pmt ≡ 188
  pub packet_whole : length m.ts_packet ≡ 188

count_packet-IsSound : (v : Bool) (m : Muxer) → IsSound m → IsSound (count_packet v m)
unfolding count_packet next_cc
count_packet-IsSound true m h = ground arith
count_packet-IsSound false m h = ground arith

pack-Sure :
    (job : Job) (s : Progress) (m : Muxer) → IsSound m → Sure (λ r. IsSound r.0) (pack job s m)
unfolding pack
pack-Sure job s m h =
    let m' = count_packet job.packet.is_video m in
    let h' = count_packet-IsSound job.packet.is_video m h in
    bind-Sure
      (pack_bytes-Sure 188 job s (cc_of job.packet.is_video m') m'.ts_packet h'.packet_whole)
      λ (b, s) e. sure (record {
        video_small = h'.video_small;
        audio_small = h'.audio_small;
        pat_small = h'.pat_small;
        pmt_small = h'.pmt_small;
        pat_whole = h'.pat_whole;
        pmt_whole = h'.pmt_whole;
        packet_whole = e;
      })

module _ {S E : Type 0} where
  -- What holds of the muxer behind a call that returns.
  abbrev pub Leaves : (Muxer → Type 0) → Muxed S E → Type 0
  Leaves P (returned m out e) = P m
  Leaves P panicked = Unit {0}
  Leaves P halted = Unit {0}

  after_write-Leaves :
      (e : Option E) (m : Muxer) (out : S) (rest : Muxed S E)
      → IsSound m
      → Leaves IsSound rest
      → Leaves IsSound (after_write e m out rest)
  unfolding after_write
  after_write-Leaves (some e) m out rest h k = h
  after_write-Leaves none m out rest h k = k

  after_pack-Leaves :
      (w : Option (List ℕ → S → Option E × S)) (o : Option (Muxer × Progress)) (out : S)
      (rest : Progress → Muxer → S → Muxed S E)
      → Sure (λ r. IsSound r.0) o
      → ((s : Progress) (m : Muxer) (out : S) → IsSound m → Leaves IsSound (rest s m out))
      → Leaves IsSound (after_pack w o out rest)
  unfolding after_pack
  after_pack-Leaves w none out rest h k = tt
  after_pack-Leaves w (some (m, s)) out rest (sure h) k =
      let (e, out) = write_packet w m.ts_packet out in
      after_write-Leaves e m out (rest s m out) h (k s m out h)

  mux_loop-Leaves :
      (w : Option (List ℕ → S → Option E × S)) (fuel : ℕ) (job : Job) (s : Progress) (m : Muxer)
      (out : S)
      → IsSound m
      → Leaves IsSound (mux_loop w fuel job s m out)
  unfolding mux_loop
  mux_loop-Leaves w zero job s m out h = tt
  mux_loop-Leaves w (suc fuel) job s m out h =
      let goes_on =
        after_pack-Leaves w (pack job s m) out (λ s m out. mux_loop w fuel job s m out)
          (pack-Sure job s m h) (mux_loop-Leaves w fuel job) in
      elim (Bool-cases (ltb 0 s.packet_bytes_len)) [
        | inl more ↦ rw (mux_loop, more) goes_on
        | inr over ↦ rw (mux_loop, over) h
      ]

  mux-Leaves :
      (w : Option (List ℕ → S → Option E × S)) (p : Packet) (m : Muxer) (out : S)
      → IsSound m
      → Leaves IsSound (mux w p m out)
  unfolding mux
  mux-Leaves w p m out h = go (start_job p)
    where
      go :
          (o : Option (Job × Progress))
          → Leaves IsSound (elim o [
            | none ↦ panicked
            | some (job, s) ↦ mux_loop w (length p.payload + 20) job s m out
          ])
      go none = tt
      go (some (job, s)) = mux_loop-Leaves w (length p.payload + 20) job s m out h

next_small : (n : ℕ) → byte (wrapped_cc n + 1) ≤ 16
unfolding wrapped_cc
next_small n = ground arith

some_inj {ℓ} : {A : Type ℓ} {a b : A} → some a ≡ some b → a ≡ b
some_inj e = cc

pat-IsSound : {m m' : Muxer} {b : List ℕ} → pat m ≡ some (b, m') → IsSound m → IsSound m'
unfolding pat
pat-IsSound {m} {m'} e h =
    let (b, made, t) = pat_bytes-Tabled (wrapped_cc m.pat_cc) m.pat h.pat_whole in
    let next = record m { pat_cc = byte (wrapped_cc m.pat_cc + 1); pat = b } in
    let result : pat m ≡ some (b, next) = rw (pat, made) in
    let small : next.pat_cc ≤ 16 = next_small m.pat_cc in
    subst IsSound (ap (λ r. r.1) (some_inj (sym result ∙ e))) (record {
      video_small = h.video_small;
      audio_small = h.audio_small;
      pat_small = small;
      pmt_small = h.pmt_small;
      pat_whole = t.whole;
      pmt_whole = h.pmt_whole;
      packet_whole = h.packet_whole;
    })

pmt-IsSound :
    {m m' : Muxer} {b : List ℕ} (sound_format : ℕ) (has_video : Bool)
    → pmt sound_format has_video m ≡ some (b, m')
    → IsSound m
    → IsSound m'
unfolding pmt
pmt-IsSound {m} {m'} sound_format has_video e h =
    let (b, made, t) =
      pmt_bytes-Tabled sound_format (wrapped_cc m.pmt_cc) has_video (is_mp3 sound_format) refl m.pmt
        h.pmt_whole in
    let next = record m { pmt_cc = byte (wrapped_cc m.pmt_cc + 1); pmt = b } in
    let result : pmt sound_format has_video m ≡ some (b, next) = rw (pmt, made) in
    let small : next.pmt_cc ≤ 16 = next_small m.pmt_cc in
    subst IsSound (ap (λ r. r.1) (some_inj (sym result ∙ e))) (record {
      video_small = h.video_small;
      audio_small = h.audio_small;
      pat_small = h.pat_small;
      pmt_small = small;
      pat_whole = h.pat_whole;
      pmt_whole = t.whole;
      packet_whole = h.packet_whole;
    })

module _ (S E : Type 0) where
  -- A call that returns, with the muxer in front of it and behind it.
  pub data Call (m m' : Muxer) : Type 0 where
    muxes :
        (w : Option (List ℕ → S → Option E × S)) (p : Packet) (out out' : S) (e : Option E)
        → mux w p m out ≡ returned m' out' e
        → Call m m'
    pats : (b : List ℕ) → pat m ≡ some (b, m') → Call m m'
    pmts :
        (sound_format : ℕ) (has_video : Bool) (b : List ℕ)
        → pmt sound_format has_video m ≡ some (b, m')
        → Call m m'

  pub data Calls (m : Muxer) : Muxer → Type 0 where
    none_yet : Calls m m
    then_call : {t u : Muxer} → Calls m t → Call t u → Calls m u

  Call-IsSound : {m m' : Muxer} → Call m m' → IsSound m → IsSound m'
  Call-IsSound {m} {m'} (muxes w p out out' e returns) h =
      subst (Leaves IsSound) returns (mux-Leaves w p m out h)
  Call-IsSound (pats b e) h = pat-IsSound e h
  Call-IsSound (pmts sound_format has_video b e) h = pmt-IsSound sound_format has_video e h

  -- Behind any calls of Mux, PAT and PMT that return, with an error or without, a new muxer has
  -- counters of four bits for its streams, at most 16 in those of its tables, and arrays of 188
  -- bytes.
  pub Calls-IsSound : {m : Muxer} → Calls new_muxer m → IsSound m
  Calls-IsSound none_yet = omega arith
  Calls-IsSound (then_call c d) = Call-IsSound d (Calls-IsSound c)
