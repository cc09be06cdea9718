-- ===== src/Ts/Prepared.antt =====
-- A round up to the data: where it starts, how much of it fits, and that a receiver finds it.
use yoshiera_huang_livego.Prelude.{ℕ, suc, ◌+◌, ◌-◌, ◌%◌, ◌≤◌, ◌<◌, bit_or}
use yoshiera_huang_livego.Prelude.{
  Bool, true, false, ◌&&◌, ◌≡◌, refl, sym, ap, ◌∙◌, arith, inl, inr, ◌⊎◌,
}
use yoshiera_huang_livego.Prelude.{List, [], ◌∷◌, ◌++◌, some, length}
use yoshiera_huang_livego.Prelude.{leb, leb→le, Bool-cases}
use yoshiera_huang_livego.Ts.Muxer.{Job, Progress, pid_of, full_data_len, write_front}
use yoshiera_huang_livego.Ts.Receiver.{open_packet}
use yoshiera_huang_livego.Ts.Front.{
  plain, first_byte, third_byte, write_header_lem, open_packet-plain, open_packet-field,
}
use yoshiera_huang_livego.Ts.Room.{IsStuffed, make_room-short, make_room-full, write_clock_lem}

and_left : (a b : Bool) → (a && b) ≡ true → a ≡ true
and_left true b h = refl
and_left false b h = h

full_data_len_lem : (first : Bool) → full_data_len first 4 ≡ 184
unfolding full_data_len
full_data_len_lem true = refl
full_data_len_lem false = refl

clock_room : full_data_len true 12 ≡ 176
unfolding full_data_len
clock_room = refl

-- The first packet of a key frame has a clock.
abbrev pub has_clock : Job → Progress → Bool
has_clock job s = s.first && job.packet.is_video && job.key

module _ (job : Job) (s : Progress) (last cc : ℕ) where
  -- The packet is a front and the rest, and the rest is the room for the data.
  pub record IsPrepared (b front suf : List ℕ) : Type 0 where
    pub result : write_front job s cc b ≡ some (length suf, length front, front ++ suf)
    pub whole : length front + length suf ≡ 188
    pub fits : length suf ≤ s.packet_bytes_len
    pub fills : (176 ≤ length suf) ⊎ (length suf ≡ s.packet_bytes_len)
    pub opens :
        (tail : List ℕ)
        → open_packet (pid_of job.packet.is_video) last s.first (front ++ tail) ≡ some tail

  module _ (small : cc < 16) (next : cc ≡ (last + 1) % 16)
      (some_left : 0 < s.packet_bytes_len) where
    abbrev h1 : ℕ
    h1 = first_byte s.first

    abbrev h2 : ℕ
    h2 = third_byte job.packet.is_video

    filled :
        (c0 c1 c2 c3 : ℕ) (src : List ℕ)
        → length src ≡ 184
        → has_clock job s ≡ false
        → 184 ≤ s.packet_bytes_len
        → IsPrepared (c0 ∷ c1 ∷ c2 ∷ c3 ∷ src) (0x47 ∷ h1 ∷ h2 ∷ plain cc ∷ []) src
    unfolding write_front
    filled c0 c1 c2 c3 src len no_clock h = record {
      result = rw (
        write_header_lem job.packet.is_video s.first cc c0 c1 c2 c3 src,
        no_clock,
        make_room-full s.first s.packet_bytes_len 4 (0x47 ∷ h1 ∷ h2 ∷ plain cc ∷ src) h,
        full_data_len_lem s.first,
        len,
      );
      whole = omega (arith, len);
      fits = omega (arith, len);
      fills = inl (omega (arith, len));
      opens = λ tail. open_packet-plain job.packet.is_video s.first last cc small next tail;
    }

    short_at :
        (c0 c1 c2 c3 x : ℕ) (src gap tail : List ℕ)
        → has_clock job s ≡ false
        → IsStuffed s.first s.packet_bytes_len 0x47 h1 h2 (plain cc) x src gap tail
        → s.packet_bytes_len < 184
        → IsPrepared
            (c0 ∷ c1 ∷ c2 ∷ c3 ∷ x ∷ src)
            (0x47 ∷ h1 ∷ h2 ∷ bit_or (plain cc) 0x20 ∷ length gap ∷ gap)
            tail
    unfolding write_front
    short_at c0 c1 c2 c3 x src gap tail no_clock (e, m, n) h = record {
      result =
          let at : 188 - s.packet_bytes_len ≡ suc (suc (suc (suc (suc (length gap))))) =
            omega (arith, m) in
          rw (
            write_header_lem job.packet.is_video s.first cc c0 c1 c2 c3 (x ∷ src),
            no_clock,
            e,
            at,
            n,
          );
      whole = omega (arith, m, n);
      fits = omega (arith, n);
      fills = inr n;
      opens = λ t.
          open_packet-field job.packet.is_video s.first last cc small next (length gap) gap t refl;
    }

    clocked :
        (c0 c1 c2 c3 c4 c5 c6 c7 c8 c9 c10 c11 : ℕ) (src : List ℕ)
        → length src ≡ 176
        → has_clock job s ≡ true
        → s.first ≡ true
        → 184 ≤ s.packet_bytes_len
        → (front : List ℕ) × IsPrepared
            (c0 ∷ c1 ∷ c2 ∷ c3 ∷ c4 ∷ c5 ∷ c6 ∷ c7 ∷ c8 ∷ c9 ∷ c10 ∷ c11 ∷ src)
            front
            src
    unfolding write_front
    clocked c0 c1 c2 c3 c4 c5 c6 c7 c8 c9 c10 c11 src len clock f h =
        let (gap, e, n) =
          write_clock_lem job.dts 0x47 h1 h2 (plain cc) c4 c5 c6 c7 c8 c9 c10 c11 src in
        let d : full_data_len s.first 12 ≡ 176 =
          ap (λ (x : Bool). full_data_len x 12) f ∙ clock_room in
        let at : 12 ≡ suc (suc (suc (suc (suc (length gap))))) = omega (arith, n) in
        (
          0x47 ∷ h1 ∷ h2 ∷ bit_or (plain cc) 0x20 ∷ 7 ∷ gap,
          record {
            result =
                rw
                  (
                    write_header_lem job.packet.is_video s.first cc c0 c1 c2 c3
                        (c4 ∷ c5 ∷ c6 ∷ c7 ∷ c8 ∷ c9 ∷ c10 ∷ c11 ∷ src),
                    clock,
                    e,
                    make_room-full s.first s.packet_bytes_len 12
                        (0x47 ∷ h1 ∷ h2 ∷ bit_or (plain cc) 0x20 ∷ 7 ∷ (gap ++ src)) h,
                    len,
                  )
                  (λ i.
                    some (d i, at i, 0x47 ∷ h1 ∷ h2 ∷ bit_or (plain cc) 0x20 ∷ 7 ∷ (gap ++ src)));
            whole = omega (arith, n, len);
            fits = omega (arith, len);
            fills = inl (omega (arith, len));
            opens = λ t.
                open_packet-field job.packet.is_video s.first last cc small next 7 gap t (sym n);
          },
        )

    -- A key frame has room for its clock, if its header and payload have 184 bytes or more.
    abbrev pub HasRoom : Type 0
    HasRoom = has_clock job s ≡ true → 184 ≤ s.packet_bytes_len

    ready_at :
        (c0 c1 c2 c3 c4 c5 c6 c7 c8 c9 c10 c11 : ℕ) (src : List ℕ)
        → length src ≡ 176
        → HasRoom
        → (front suf : List ℕ) × IsPrepared
            (c0 ∷ c1 ∷ c2 ∷ c3 ∷ c4 ∷ c5 ∷ c6 ∷ c7 ∷ c8 ∷ c9 ∷ c10 ∷ c11 ∷ src)
            front
            suf
    ready_at c0 c1 c2 c3 c4 c5 c6 c7 c8 c9 c10 c11 src len room =
        elim (Bool-cases (has_clock job s)) [
          | inl clock ↦
              let (front, p) =
                clocked c0 c1 c2 c3 c4 c5 c6 c7 c8 c9 c10 c11 src len clock
                  (and_left s.first job.packet.is_video
                    (and_left (s.first && job.packet.is_video) job.key clock))
                  (room clock) in
              (front, src, p)
          | inr no_clock ↦ elim (Bool-cases (leb 184 s.packet_bytes_len)) [
            | inl h ↦ (
              _,
              _,
              filled c0 c1 c2 c3 (c4 ∷ c5 ∷ c6 ∷ c7 ∷ c8 ∷ c9 ∷ c10 ∷ c11 ∷ src)
                  (omega (arith, len)) no_clock (leb→le _ _ h),
            )
            | inr h ↦
                let low : s.packet_bytes_len < 184 = ground arith in
                let (gap, tail, stuffed) =
                  make_room-short s.first s.packet_bytes_len 0x47 h1 h2 (plain cc) c4
                    (c5 ∷ c6 ∷ c7 ∷ c8 ∷ c9 ∷ c10 ∷ c11 ∷ src) some_left low (omega (arith, len)) in
                (
                  _,
                  _,
                  short_at c0 c1 c2 c3 c4 (c5 ∷ c6 ∷ c7 ∷ c8 ∷ c9 ∷ c10 ∷ c11 ∷ src) gap tail
                      no_clock stuffed low,
                )
          ]
        ]

    pub prepared :
        (b : List ℕ) → length b ≡ 188 → HasRoom → (front suf : List ℕ) × IsPrepared b front suf
    prepared (c0 ∷ c1 ∷ c2 ∷ c3 ∷ c4 ∷ c5 ∷ c6 ∷ c7 ∷ c8 ∷ c9 ∷ c10 ∷ c11 ∷ src) len room =
        ready_at c0 c1 c2 c3 c4 c5 c6 c7 c8 c9 c10 c11 src (omega (arith, len)) room
    prepared _ len room = absurd (omega (arith, len))
