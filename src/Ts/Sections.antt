-- ===== src/Ts/Sections.antt =====
-- The tables that PAT and PMT return: a packet with one section, whose checksum leaves nothing.
use yoshiera_huang_livego.Prelude.Bits.{bit_and-mod, bit_or-add}
use yoshiera_huang_livego.Prelude.{ℕ, suc, bit_and, bit_or, ◌+◌, ◌-◌, ◌%◌, ◌<◌}
use yoshiera_huang_livego.Prelude.{Bool, true, false, ◌||◌, ◌≡◌, refl, sym, ap, ◌∙◌, arith}
use yoshiera_huang_livego.Prelude.{
  List, [], ◌∷◌, ◌++◌, Option, some, length, get_elem?, take, drop, replicate, All, length-append,
  length-replicate, take-length_append, drop-length_append, drop-drop,
}
use yoshiera_huang_livego.Prelude.{◌==◌, le→leb, if◌then◌else◌}
use yoshiera_huang_livego.Pio.{byte}
use yoshiera_huang_livego.Ts.Muxer.{Muxer, blank}
use yoshiera_huang_livego.Ts.Tables.{
  pat_header, wrapped_cc, pat_bytes, pat, pmt_header_of, prog_info_for, pmt_bytes, pmt,
}
use yoshiera_huang_livego.Ts.Checksum.{remainder, crc_bytes, gen_crc32-remainder}

blank-replicate : (b : List ℕ) → blank b ≡ replicate (length b) 0xff
blank-replicate [] = refl
blank-replicate (x ∷ b) = ap (λ l. 0xff ∷ l) (blank-replicate b)

-- A packet with the section `body` and its checksum, on the stream with the low byte `lo` of its id.
pub record IsTable (hi lo n : ℕ) (body b : List ℕ) : Type 0 where
  pub whole : length b ≡ 188
  pub front : take 5 b ≡ 0x47 ∷ hi ∷ lo ∷ (0x10 + n % 16) ∷ 0 ∷ []
  pub section : take (length body) (drop 5 b) ≡ body
  pub section_length : get_elem? b 7 ≡ some (length body + 1)
  pub checksum : remainder 0xffffffff (take (length body + 4) (drop 5 b)) ≡ 0
  pub stuffing : drop (length body + 9) b ≡ replicate (179 - length body) 0xff

counter_byte : (n : ℕ) → bit_or 0x10 (bit_and n 0x0f) ≡ 0x10 + n % 16
counter_byte n =
    ap (λ (t : ℕ). bit_or 0x10 t) (bit_and-mod 4 n) ∙ bit_or-add 4 1 (n % 16) (omega arith)

-- The bytes of such a packet.
abbrev table : ℕ → ℕ → ℕ → List ℕ → ℕ → List ℕ → List ℕ
table hi lo n body crc rest =
    0x47 ∷ hi ∷ lo ∷ (0x10 + n % 16) ∷ 0 ∷ (body ++ (crc_bytes crc ++ blank rest))

take-append {ℓ} :
    {A : Type ℓ} (k : ℕ) (xs ys : List A) → take (length xs + k) (xs ++ ys) ≡ xs ++ take k ys
take-append k [] ys = ap (λ n. take n ys) (let e : 0 + k ≡ k = omega arith in e)
take-append k (x ∷ xs) ys =
    ap (λ n. take n (x ∷ xs ++ ys))
      (let e : suc (length xs) + k ≡ suc (length xs + k) = omega arith in e)
    ∙ ap (λ l. x ∷ l) (take-append k xs ys)

table-IsTable :
    (hi lo n crc : ℕ) (body rest : List ℕ)
    → length body + length rest ≡ 179
    → get_elem? (body ++ (crc_bytes crc ++ blank rest)) 2 ≡ some (length body + 1)
    → remainder 0xffffffff (body ++ crc_bytes crc) ≡ 0
    → IsTable hi lo n body (table hi lo n body crc rest)
table-IsTable hi lo n crc body rest len size z = record {
  whole = omega (
    arith,
    length-append body (crc_bytes crc ++ blank rest),
    ap length (blank-replicate rest),
    length-replicate {A = ℕ} (length rest) 0xff,
  );
  front = refl;
  section = take-length_append body (crc_bytes crc ++ blank rest);
  section_length = size;
  checksum = ap (remainder 0xffffffff) (take-append 4 body (crc_bytes crc ++ blank rest)) ∙ z;
  stuffing =
      let e : length body + 9 ≡ suc (suc (suc (suc (suc (length body + 4))))) = omega arith in
      let r : length rest ≡ 179 - length body = omega arith in
      ap (λ (k : ℕ). drop k (table hi lo n body crc rest)) e
      ∙ sym (drop-drop 4 (length body) (body ++ (crc_bytes crc ++ blank rest)))
      ∙ ap (drop 4) (drop-length_append body (crc_bytes crc ++ blank rest))
      ∙ blank-replicate rest
      ∙ ap (λ (k : ℕ). replicate k 0xff) r;
}

abbrev pub Tabled : ℕ → ℕ → ℕ → List ℕ → Option (List ℕ) → Type 0
Tabled hi lo n body made = (b : List ℕ) × (made ≡ some b) × IsTable hi lo n body b

pat_bytes-at :
    (n : ℕ)
    (c0 c1 c2 c3 c4 c5 c6 c7 c8 c9 c10 c11 c12 c13 c14 c15 c16 c17 c18 c19 c20 c21 c22 c23 c24 c25
      c26 c27 c28 c29 c30 : ℕ)
    (rest : List ℕ)
    → length rest ≡ 157
    → Tabled 0x40 0x00 n pat_header (
        pat_bytes n (
          c0 ∷ c1 ∷ c2 ∷ c3 ∷ c4 ∷ c5 ∷ c6 ∷ c7 ∷ c8 ∷ c9 ∷ c10 ∷ c11 ∷ c12 ∷ c13 ∷ c14 ∷ c15 ∷ c16
          ∷ c17 ∷ c18 ∷ c19 ∷ c20 ∷ c21 ∷ c22 ∷ c23 ∷ c24 ∷ c25 ∷ c26 ∷ c27 ∷ c28 ∷ c29 ∷ c30
          ∷ rest))
unfolding pat_bytes
pat_bytes-at n c0 c1 c2 c3 c4 c5 c6 c7 c8 c9 c10 c11 c12 c13 c14 c15 c16 c17 c18 c19 c20 c21 c22 c23
      c24 c25 c26 c27 c28 c29 c30 rest len =
    let (crc, e, r, z) = gen_crc32-remainder pat_header (omega arith) in
    let other = c21 ∷ c22 ∷ c23 ∷ c24 ∷ c25 ∷ c26 ∷ c27 ∷ c28 ∷ c29 ∷ c30 ∷ rest in
    (
      table 0x40 0x00 n pat_header crc other,
      rw (e, counter_byte n),
      table-IsTable 0x40 0x00 n crc pat_header other (omega (arith, len)) refl z,
    )

-- The entries of PMT: the picture, if there is one, and the sound, which is MP3 or else AAC.
abbrev streams : Bool → Bool → List ℕ
streams true mp3 =
    0x1b ∷ 0xe1 ∷ 0x00 ∷ 0xf0 ∷ 0x00 ∷ (if mp3 then 0x04 else 0x0f) ∷ 0xe1 ∷ 0x01 ∷ 0xf0 ∷ 0x00 ∷ []
streams false mp3 = (if mp3 then 0x04 else 0x0f) ∷ 0xe1 ∷ 0x01 ∷ 0xf0 ∷ 0x00 ∷ []

-- The section of PMT; the clock is that of the picture, or else of the sound.
abbrev pub pmt_body : Bool → Bool → List ℕ
pmt_body v mp3 =
    0x02
    ∷ 0xb0
    ∷ (if v then 23 else 18)
    ∷ 0x00
    ∷ 0x01
    ∷ 0xc1
    ∷ 0x00
    ∷ 0x00
    ∷ 0xe1
    ∷ (if v then 0x00 else 0x01)
    ∷ 0xf0
    ∷ 0x00
    ∷ streams v mp3

abbrev pub is_mp3 : ℕ → Bool
is_mp3 sound_format = sound_format == 2 || sound_format == 14

prog_info_for_lem :
    (sound_format : ℕ) (v mp3 : Bool)
    → is_mp3 sound_format ≡ mp3
    → prog_info_for sound_format v ≡ some (streams v mp3)
unfolding prog_info_for
prog_info_for_lem sound_format true true e = rw e
prog_info_for_lem sound_format true false e = rw e
prog_info_for_lem sound_format false true e = rw e
prog_info_for_lem sound_format false false e = rw e

abbrev body_start : Bool → List ℕ
body_start v =
    0x02
    ∷ 0xb0
    ∷ (if v then 23 else 18)
    ∷ 0x00
    ∷ 0x01
    ∷ 0xc1
    ∷ 0x00
    ∷ 0x00
    ∷ 0xe1
    ∷ (if v then 0x00 else 0x01)
    ∷ 0xf0
    ∷ 0x00
    ∷ []

pmt_header_of_lem : (v : Bool) → pmt_header_of v ≡ some (body_start v)
unfolding pmt_header_of
pmt_header_of_lem true = refl
pmt_header_of_lem false = refl

All-body : (v mp3 : Bool) → All (λ b. b < 256) (pmt_body v mp3)
All-body true true = omega arith
All-body true false = omega arith
All-body false true = omega arith
All-body false false = omega arith

pmt_bytes-at :
    (sound_format n : ℕ) (v mp3 : Bool)
    (c0 c1 c2 c3 c4 c5 c6 c7 c8 c9 c10 c11 c12 c13 c14 c15 c16 c17 c18 c19 c20 c21 c22 c23 c24 c25
      c26 c27 c28 c29 c30 : ℕ)
    (rest : List ℕ)
    → is_mp3 sound_format ≡ mp3
    → length rest ≡ 157
    → Tabled 0x50 0x01 n (pmt_body v mp3) (
        pmt_bytes sound_format v n (
          c0 ∷ c1 ∷ c2 ∷ c3 ∷ c4 ∷ c5 ∷ c6 ∷ c7 ∷ c8 ∷ c9 ∷ c10 ∷ c11 ∷ c12 ∷ c13 ∷ c14 ∷ c15 ∷ c16
          ∷ c17 ∷ c18 ∷ c19 ∷ c20 ∷ c21 ∷ c22 ∷ c23 ∷ c24 ∷ c25 ∷ c26 ∷ c27 ∷ c28 ∷ c29 ∷ c30
          ∷ rest))
unfolding pmt_bytes
pmt_bytes-at sound_format n true mp3 c0 c1 c2 c3 c4 c5 c6 c7 c8 c9 c10 c11 c12 c13 c14 c15 c16 c17
      c18 c19 c20 c21 c22 c23 c24 c25 c26 c27 c28 c29 c30 rest sound len =
    let cells =
      c0 ∷ c1 ∷ c2 ∷ c3 ∷ c4 ∷ c5 ∷ c6 ∷ c7 ∷ c8 ∷ c9 ∷ c10 ∷ c11 ∷ c12 ∷ c13 ∷ c14 ∷ c15 ∷ c16
      ∷ c17 ∷ c18 ∷ c19 ∷ c20 ∷ c21 ∷ c22 ∷ c23 ∷ c24 ∷ c25 ∷ c26 ∷ c27 ∷ c28 ∷ c29 ∷ c30 ∷ rest in
    let (crc, e, r, z) = gen_crc32-remainder (pmt_body true mp3) (All-body true mp3) in
    let other = rest in
    (
      table 0x50 0x01 n (pmt_body true mp3) crc other,
      rw (
        pmt_header_of_lem true,
        prog_info_for_lem sound_format true mp3 sound,
        le→leb 27 (length cells) (omega arith),
        e,
        counter_byte n,
      ),
      table-IsTable 0x50 0x01 n crc (pmt_body true mp3) other (omega (arith, len)) refl z,
    )
pmt_bytes-at sound_format n false mp3 c0 c1 c2 c3 c4 c5 c6 c7 c8 c9 c10 c11 c12 c13 c14 c15 c16 c17
      c18 c19 c20 c21 c22 c23 c24 c25 c26 c27 c28 c29 c30 rest sound len =
    let cells =
      c0 ∷ c1 ∷ c2 ∷ c3 ∷ c4 ∷ c5 ∷ c6 ∷ c7 ∷ c8 ∷ c9 ∷ c10 ∷ c11 ∷ c12 ∷ c13 ∷ c14 ∷ c15 ∷ c16
      ∷ c17 ∷ c18 ∷ c19 ∷ c20 ∷ c21 ∷ c22 ∷ c23 ∷ c24 ∷ c25 ∷ c26 ∷ c27 ∷ c28 ∷ c29 ∷ c30 ∷ rest in
    let (crc, e, r, z) = gen_crc32-remainder (pmt_body false mp3) (All-body false mp3) in
    let other = c26 ∷ c27 ∷ c28 ∷ c29 ∷ c30 ∷ rest in
    (
      table 0x50 0x01 n (pmt_body false mp3) crc other,
      rw (
        pmt_header_of_lem false,
        prog_info_for_lem sound_format false mp3 sound,
        le→leb 22 (length cells) (omega arith),
        e,
        counter_byte n,
      ),
      table-IsTable 0x50 0x01 n crc (pmt_body false mp3) other (omega (arith, len)) refl z,
    )

pub pat_bytes-Tabled :
    (n : ℕ) (b : List ℕ) → length b ≡ 188 → Tabled 0x40 0x00 n pat_header (pat_bytes n b)
pat_bytes-Tabled n
      (c0 ∷ c1 ∷ c2 ∷ c3 ∷ c4 ∷ c5 ∷ c6 ∷ c7 ∷ c8 ∷ c9 ∷ c10 ∷ c11 ∷ c12 ∷ c13 ∷ c14 ∷ c15 ∷ c16
        ∷ c17 ∷ c18 ∷ c19 ∷ c20 ∷ c21 ∷ c22 ∷ c23 ∷ c24 ∷ c25 ∷ c26 ∷ c27 ∷ c28 ∷ c29 ∷ c30 ∷ rest)
      len =
    pat_bytes-at n c0 c1 c2 c3 c4 c5 c6 c7 c8 c9 c10 c11 c12 c13 c14 c15 c16 c17 c18 c19 c20 c21 c22
      c23 c24 c25 c26 c27 c28 c29 c30 rest (omega (arith, len))
pat_bytes-Tabled n _ len = absurd (omega (arith, len))

pub pmt_bytes-Tabled :
    (sound_format n : ℕ) (v mp3 : Bool)
    → is_mp3 sound_format ≡ mp3
    → (b : List ℕ) → length b ≡ 188
    → Tabled 0x50 0x01 n (pmt_body v mp3) (pmt_bytes sound_format v n b)
pmt_bytes-Tabled sound_format n v mp3 sound
      (c0 ∷ c1 ∷ c2 ∷ c3 ∷ c4 ∷ c5 ∷ c6 ∷ c7 ∷ c8 ∷ c9 ∷ c10 ∷ c11 ∷ c12 ∷ c13 ∷ c14 ∷ c15 ∷ c16
        ∷ c17 ∷ c18 ∷ c19 ∷ c20 ∷ c21 ∷ c22 ∷ c23 ∷ c24 ∷ c25 ∷ c26 ∷ c27 ∷ c28 ∷ c29 ∷ c30 ∷ rest)
      len =
    pmt_bytes-at sound_format n v mp3 c0 c1 c2 c3 c4 c5 c6 c7 c8 c9 c10 c11 c12 c13 c14 c15 c16 c17
      c18 c19 c20 c21 c22 c23 c24 c25 c26 c27 c28 c29 c30 rest sound (omega (arith, len))
pmt_bytes-Tabled sound_format n v mp3 sound _ len = absurd (omega (arith, len))

pub next_counter : (n : ℕ) → byte (wrapped_cc n + 1) ≡ wrapped_cc n + 1
unfolding wrapped_cc
next_counter n = ground arith

-- A table as the muxer returns it: kept in the muxer, and counted.
pub record Returns (hi lo n : ℕ) (body : List ℕ) (kept : Muxer → List ℕ) (counter : Muxer → ℕ)
    (made : Option (List ℕ × Muxer)) : Type 0 where
  pub bytes : List ℕ
  pub behind : Muxer
  pub result : made ≡ some (bytes, behind)
  pub is_table : IsTable hi lo n body bytes
  pub keeps : kept behind ≡ bytes
  pub counts : counter behind ≡ n + 1

pub pat-pmt-Returns :
    (m : Muxer) (sound_format : ℕ) (has_video : Bool)
    → length m.pat ≡ 188
    → length m.pmt ≡ 188
    → Returns 0x40 0x00 (wrapped_cc m.pat_cc) pat_header (λ t. t.pat) (λ t. t.pat_cc) (pat m)
      × Returns 0x50 0x01
          (wrapped_cc m.pmt_cc)
          (pmt_body has_video (is_mp3 sound_format))
          (λ t. t.pmt)
          (λ t. t.pmt_cc)
          (pmt sound_format has_video m)
unfolding pat pmt
pat-pmt-Returns m sound_format has_video p q =
    let (b, e, t) = pat_bytes-Tabled (wrapped_cc m.pat_cc) m.pat p in
    let (c, f, u) =
      pmt_bytes-Tabled sound_format (wrapped_cc m.pmt_cc) has_video (is_mp3 sound_format) refl m.pmt
        q in
    (
      record {
        bytes = b;
        behind = record m { pat_cc = byte (wrapped_cc m.pat_cc + 1); pat = b };
        result = rw (pat, e);
        is_table = t;
        keeps = refl;
        counts = next_counter m.pat_cc;
      },
      record {
        bytes = c;
        behind = record m { pmt_cc = byte (wrapped_cc m.pmt_cc + 1); pmt = c };
        result = rw (pmt, f);
        is_table = u;
        keeps = refl;
        counts = next_counter m.pmt_cc;
      },
    )
