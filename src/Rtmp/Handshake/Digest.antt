-- ===== src/Rtmp/Handshake/Digest.antt =====
-- The digest that one side puts in its packet, the other side finds.
use yoshiera_huang_livego.Prelude.{
  ℕ, ◌+◌, ◌≤◌, ◌<◌, ◌≡◌, refl, sym, ap, ◌∙◌, arith, inl, inr, Bool, true, Bool-cases, none, some,
  List, [], ◌∷◌, ◌++◌, length, length-append, take, drop, drop-length_append, append_assoc,
  lt→not_leb, if◌then◌else◌,
}
use yoshiera_huang_livego.Pio.{put_u32be}
use yoshiera_huang_livego.Amf.Value.{same_bytes}
use yoshiera_huang_livego.Hls.Keys.{same_bytes_refl}
use yoshiera_huang_livego.Ts.Buffer.{copy, copy_lem, from, from-append, sub_slice, sub_slice_lem}
use yoshiera_huang_livego.Rtmp.Handshake.{
  hs_calc_digest_pos, hs_make_digest, hs_find_digest, parse_at, hs_parse1, hs_create01,
}
use yoshiera_huang_livego.Rtmp.Handshake.Packet.{
  pos_lem, pos-append, slice_front, slice_end, slice_middle, cut, copy-Fills, put_u32be-Fills,
  from-Fills,
}

module _ (hmac : List ℕ → List ℕ → List ℕ) where
  pub digest_lem :
      (key a m b : List ℕ)
      → 0 < length a
      → length m ≡ 32
      → hs_make_digest hmac key (a ++ (m ++ b)) (length a) ≡ some (hmac key (a ++ b))
  unfolding hs_make_digest
  digest_lem key a m b pos size =
      let after : sub_slice (a ++ (m ++ b)) (length a + 32) (length (a ++ (m ++ b))) ≡ some b =
        let place : length a + 32 ≡ length (a ++ m) = omega (arith, length-append a m) in
        ap (λ (p : List ℕ). sub_slice p (length a + 32) (length p)) (sym (append_assoc a m b))
        ∙ ap (λ (n : ℕ). sub_slice ((a ++ m) ++ b) n (length ((a ++ m) ++ b))) place
        ∙ slice_end (a ++ m) b in
      rw (lt→not_leb (length a) 0 pos, slice_front a (m ++ b), after) refl

module _ (hmac : List ℕ → List ℕ → List ℕ) where
  -- hsFindDigest panics on no packet of 1536 bytes.
  pub find_total :
      (p key : List ℕ) (base : ℕ)
      → base + 763 ≤ length p
      → (gap : ℕ) × (found : Bool) × (gap + 32 ≤ length p)
        × (hs_find_digest hmac p key base ≡ some (if found then some gap else none))
  unfolding hs_find_digest
  find_total p key base h =
      let (gap, e, low, high) = pos_lem base p (omega arith) in
      let (a, m, b, parts, place, size) = cut p gap (omega arith) in
      let digest : hs_make_digest hmac key p gap ≡ some (hmac key (a ++ b)) =
        ap (hs_make_digest hmac key p) (sym place)
        ∙ ap (λ (q : List ℕ). hs_make_digest hmac key q (length a)) parts
        ∙ digest_lem hmac key a m b (omega arith) size in
      let found = same_bytes (take 32 (drop gap p)) (hmac key (a ++ b)) in
      (gap, found, omega arith, rw (e, digest, sub_slice_lem p gap 32 (omega arith)) refl)

  find_own :
      (key a m b : List ℕ)
      → 0 < length a
      → length m ≡ 32
      → m ≡ hmac key (a ++ b)
      → hs_calc_digest_pos (a ++ (m ++ b)) 8 ≡ some (length a)
      → hs_find_digest hmac (a ++ (m ++ b)) key 8 ≡ some (some (length a))
  unfolding hs_find_digest
  find_own key a m b pos size own e =
      let found : sub_slice (a ++ (m ++ b)) (length a) (length a + 32) ≡ some m =
        ap (λ (n : ℕ). sub_slice (a ++ (m ++ b)) (length a) (length a + n)) (sym size)
        ∙ slice_middle a m b in
      let same : same_bytes m (hmac key (a ++ b)) ≡ true =
        ap (same_bytes m) (sym own) ∙ same_bytes_refl m in
      rw (e, digest_lem hmac key a m b pos size, found, same) refl

  pub parse_total :
      (key p : List ℕ) (pos : ℕ)
      → pos + 32 ≤ length p
      → (d : List ℕ) × (parse_at hmac p key (some pos) ≡ some (some d))
  unfolding parse_at hs_make_digest
  parse_total key p pos h = (hmac key (take 32 (drop pos p)), rw (sub_slice_lem p pos 32 h) refl)

  parse_own :
      (key peer_key p : List ℕ) (gap : ℕ)
      → length p ≡ 1536
      → gap + 32 ≤ 1536
      → hs_find_digest hmac p key 8 ≡ some (some gap)
      → (d : List ℕ) × (hs_parse1 hmac p key peer_key ≡ some (some d))
  unfolding hs_parse1
  parse_own key peer_key p gap size h own =
      let (other, found, fits, e) = find_total p key 772 (omega arith) in
      elim (Bool-cases found) [
        | inl y ↦ (let (d, k) = parse_total peer_key p other fits in (d, rw (e, y, k) refl))
        | inr n ↦
            (let (d, k) = parse_total peer_key p gap (omega arith) in (d, rw (e, n, own, k) refl))
      ]

  -- The last steps of hsCreate01, on the packet without its first byte.
  stamp_own :
      (key p : List ℕ)
      → length p ≡ 1536
      → ((k s : List ℕ) → length (hmac k s) ≡ 32)
      → (gap : ℕ) × (digest : List ℕ) × (c1 : List ℕ) × (hs_calc_digest_pos p 8 ≡ some gap)
        × (hs_make_digest hmac key p gap ≡ some digest)
        × (from p gap (λ rest. some (copy rest digest)) ≡ some c1)
        × (length c1 ≡ 1536)
        × (gap + 32 ≤ 1536)
        × (hs_find_digest hmac c1 key 8 ≡ some (some gap))
  stamp_own key p size hmac_size =
      let (gap, e, low, high) = pos_lem 8 p (omega arith) in
      let (a, m, b, parts, place, cut_size) = cut p gap (omega arith) in
      let digest = hmac key (a ++ b) in
      let digest_size : length digest ≡ 32 = hmac_size key (a ++ b) in
      let made : hs_make_digest hmac key p gap ≡ some digest =
        ap (hs_make_digest hmac key p) (sym place)
        ∙ ap (λ (q : List ℕ). hs_make_digest hmac key q (length a)) parts
        ∙ digest_lem hmac key a m b (omega arith) cut_size in
      let copied : copy (m ++ b) digest ≡ digest ++ b =
        copy_lem (m ++ b) digest (omega (arith, length-append m b))
        ∙ ap (λ (n : ℕ). digest ++ drop n (m ++ b)) (digest_size ∙ sym cut_size)
        ∙ ap (λ (t : List ℕ). digest ++ t) (drop-length_append m b) in
      let filled : from p gap (λ rest. some (copy rest digest)) ≡ some (a ++ (digest ++ b)) =
        ap (λ (q : List ℕ). from q gap (λ rest. some (copy rest digest))) parts
        ∙ ap (λ (n : ℕ). from (a ++ (m ++ b)) n (λ rest. some (copy rest digest))) (sym place)
        ∙ from-append a (m ++ b) (digest ++ b) (λ rest. some (copy rest digest)) (ap some copied) in
      let same_place : hs_calc_digest_pos (a ++ (digest ++ b)) 8 ≡ some (length a) =
        pos-append 8 a (digest ++ b) (m ++ b) (omega arith)
        ∙ ap (λ (q : List ℕ). hs_calc_digest_pos q 8) (sym parts)
        ∙ e
        ∙ ap some (sym place) in
      (
        gap,
        digest,
        a ++ (digest ++ b),
        e,
        made,
        filled,
        omega (
          arith,
          length-append a (digest ++ b),
          length-append digest b,
          ap length parts,
          length-append a (m ++ b),
          length-append m b,
        ),
        omega arith,
        find_own key a digest b (omega arith) digest_size refl same_place
            ∙ ap (λ (n : ℕ). some (some n)) place,
      )

-- With a digest of 32 bytes, hsCreate01 on a buffer of 1537 bytes panics for no time, version, key or random
-- bytes, and hsParse1 accepts the 1536 bytes behind the leading 3 under the same key: it never takes a packet
-- of this code for one without a digest.
pub hs_parse1-hs_create01 :
    (hmac : List ℕ → List ℕ → List ℕ) (time ver : ℕ) (key peer_key random packet : List ℕ)
    → ((k s : List ℕ) → length (hmac k s) ≡ 32)
    → length packet ≡ 1537
    → (c1 : List ℕ) × (digest : List ℕ) × (hs_create01 hmac packet time ver key random
        ≡ some (3 ∷ c1))
      × (length c1 ≡ 1536)
      × (hs_parse1 hmac c1 key peer_key ≡ some (some digest))
unfolding hs_create01
hs_parse1-hs_create01 hmac time ver key peer_key random [] hmac_size size = absurd (omega arith)
hs_parse1-hs_create01 hmac time ver key peer_key random (x ∷ p) hmac_size size =
    let (p1, e1, l1) =
      from-Fills (λ s. some (copy s random)) 0 8 (copy-Fills random) p (omega arith) in
    let (p2, e2, l2) = put_u32be-Fills time p1 (omega arith) in
    let (p3, e3, l3) =
      from-Fills (λ s. put_u32be s ver) 4 4 (put_u32be-Fills ver) p2 (omega arith) in
    let (gap, made, c1, e, d, f, l, fits, own) = stamp_own hmac key p3 (omega arith) hmac_size in
    let (digest, k) = parse_own hmac key peer_key c1 gap l fits own in
    (c1, digest, rw (e1, e2, e3, e, d, f) refl, l, k)
