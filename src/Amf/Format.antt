-- ===== src/Amf/Format.antt =====
-- The bytes of values in version 0, and that the encoder writes them.
use yoshiera_huang_livego.Prelude.{ℕ, ◌+◌, ◌^◌, ◌<◌, ◌≡◌, refl, sym, ap, ◌∙◌, arith, inl, inr}
use yoshiera_huang_livego.Prelude.{false, none, List, [], ◌∷◌, ◌++◌, length, leb, if◌then◌else◌}
use yoshiera_huang_livego.Prelude.{length-append, append_assoc, append-nil, Bool-cases}
use native.Mathlib.Nat.{mod-eq_of_lt}
use yoshiera_huang_livego.Rtmp.ReadWriter.Emit.{be_bytes}
use yoshiera_huang_livego.Amf.Value.{
  Value, number, boolean, text, null, object, array, typed_object, integer, opaque, Members,
  no_members, member, Values, no_values, value, count, string_max,
}
use yoshiera_huang_livego.Amf.Encoder.{
  Encoded, wrote, go_on, encode_number, encode_boolean, encode_string, encode_null,
  encode_long_string, encode_text, encode_end, encode, encode_members, encode_values,
}

-- The bytes of a value: a marker, the lengths, the parts in order.
unfoldable mutual
  pub bytes_of : Value → List ℕ
  bytes_of (number x) = 0x00 ∷ be_bytes 8 x
  bytes_of (boolean b) = 0x01 ∷ (if b then 0x01 else 0x00) ∷ []
  bytes_of (text s) =
      if leb (length s) string_max
      then 0x02 ∷ (be_bytes 2 (length s) ++ s)
      else 0x0c ∷ (be_bytes 4 (length s) ++ s)
  bytes_of null = 0x05 ∷ []
  bytes_of (object ms) = 0x03 ∷ members_bytes ms
  bytes_of (array vs) = 0x0a ∷ (be_bytes 4 (count vs) ++ values_bytes vs)
  bytes_of (typed_object t ms) = []
  bytes_of (integer x) = []
  bytes_of opaque = []

  pub members_bytes : Members → List ℕ
  members_bytes no_members = 0 ∷ 0 ∷ 0x09 ∷ []
  members_bytes (member k v ms) = be_bytes 2 (length k) ++ (k ++ (bytes_of v ++ members_bytes ms))

  pub values_bytes : Values → List ℕ
  values_bytes no_values = []
  values_bytes (value v vs) = bytes_of v ++ values_bytes vs

-- The values that the encoder takes: numbers of 64 bits, lengths that fit their fields, keys that
-- are not empty, and no typed object.
unfoldable mutual
  pub IsEncodable : Value → Type 0
  IsEncodable (number x) = x < 2 ^ 64
  IsEncodable (boolean b) = Unit
  IsEncodable (text s) = length s < 2 ^ 32
  IsEncodable null = Unit
  IsEncodable (object ms) = AreMembers ms
  IsEncodable (array vs) = (count vs < 2 ^ 32) × AreValues vs
  IsEncodable (typed_object t ms) = ⊥
  IsEncodable (integer x) = ⊥
  IsEncodable opaque = ⊥

  pub AreMembers : Members → Type 0
  AreMembers no_members = Unit
  AreMembers (member k v ms) = (0 < length k) × (length k < 2 ^ 16) × IsEncodable v × AreMembers ms

  pub AreValues : Values → Type 0
  AreValues no_values = Unit
  AreValues (value v vs) = IsEncodable v × AreValues vs

-- These bytes are written behind what the buffer holds, and counted from `n` on.
abbrev pub Writes : Encoded → ℕ → List ℕ → List ℕ → Type 0
Writes e n bs w = e ≡ ((n + length bs, none), w ++ bs)

pub wrote_lem : (bs bs' w : List ℕ) → bs ≡ bs' → Writes (wrote bs w) 0 bs' w
wrote_lem bs bs' w e =
    let size : length bs ≡ 0 + length bs' = omega (arith, ap length e) in
    (λ k. ((size k, none), w ++ e k))

encode_text_lem :
    (s w : List ℕ) → length s < 2 ^ 32 → Writes (encode_text s w) 0 (bytes_of (text s)) w
unfolding encode_text encode_string encode_long_string bytes_of
encode_text_lem s w h = elim (Bool-cases (leb (length s) string_max)) [
  | inl e ↦
      rw e
        (wrote_lem _ _ w (ap (λ (n : ℕ). 0x02 ∷ (be_bytes 2 n ++ s)) (mod-eq_of_lt (ground arith))))
  | inr e ↦ rw e (wrote_lem _ _ w (ap (λ (n : ℕ). 0x0c ∷ (be_bytes 4 n ++ s)) (mod-eq_of_lt h)))
]

-- What is written behind a first part.
pub behind :
    {e : Encoded} (n m : ℕ) (first rest w : List ℕ)
    → m ≡ n + length first
    → Writes e m rest (w ++ first)
    → Writes e n (first ++ rest) w
behind n m first rest w same h =
    let sum : m + length rest ≡ n + length (first ++ rest) =
      omega (arith, same, length-append first rest) in
    h ∙ (λ k. ((sum k, none), append_assoc w first rest k))

pub nothing_more : (n : ℕ) (w : List ℕ) → Writes ((n, none), w) n [] w
nothing_more n w =
    let sum : n ≡ n + 0 = omega arith in
    let all = sym (append-nil w) in (λ k. ((sum k, none), all k))

end_lem : (n : ℕ) (w : List ℕ) → Writes (encode_end n w) n (0 ∷ 0 ∷ 0x09 ∷ []) w
unfolding encode_end encode_string
end_lem n w =
    let sum : n + 2 + 1 ≡ n + 3 = omega arith in
    let all = append_assoc w (0 ∷ 0 ∷ []) (0x09 ∷ []) in (λ k. ((sum k, none), all k))

key_lem :
    (k w : List ℕ)
    → length k < 2 ^ 16
    → Writes (encode_string k false w) 0 (be_bytes 2 (length k) ++ k) w
unfolding encode_string
key_lem k w short = wrote_lem _ _ w (ap (λ (n : ℕ). be_bytes 2 n ++ k) (mod-eq_of_lt short))

-- A first part is written without an error, and the rest behind it.
pub then_lem :
    (e : Encoded) (next : ℕ → List ℕ → Encoded) (n : ℕ) (first rest w : List ℕ)
    → Writes e 0 first w
    → ((m : ℕ) → Writes (next m (w ++ first)) m rest (w ++ first))
    → Writes (go_on n e next) n (first ++ rest) w
then_lem e next n first rest w h k =
    ap (λ x. go_on n x next) h
    ∙ behind n (n + (0 + length first)) first rest w (omega arith) (k (n + (0 + length first)))

mutual
  unfolding bytes_of IsEncodable encode encode_number encode_boolean encode_null encode_string
      encode_end

  pub encode_lem : (v : Value) (w : List ℕ) → IsEncodable v → Writes (encode v w) 0 (bytes_of v) w
  encode_lem (number x) w h = refl
  encode_lem (boolean b) w h = refl
  encode_lem (text s) w h = encode_text_lem s w h
  encode_lem null w h = refl
  encode_lem (object ms) w h =
      behind 0 1 (0x03 ∷ []) (members_bytes ms) w (omega arith)
        (encode_members_lem ms 1 (w ++ 0x03 ∷ []) h)
  encode_lem (array vs) w (fits, h) =
      ap (λ (n : ℕ). encode_values vs 5 (w ++ 0x0a ∷ be_bytes 4 n)) (mod-eq_of_lt fits)
      ∙ behind 0 5 (0x0a ∷ be_bytes 4 (count vs)) (values_bytes vs) w (omega arith)
          (encode_values_lem vs 5 (w ++ 0x0a ∷ be_bytes 4 (count vs)) h)
  encode_lem (typed_object t ms) w h = absurd h
  encode_lem (integer x) w h = absurd h
  encode_lem opaque w h = absurd h

  encode_members_lem :
      (ms : Members) (n : ℕ) (w : List ℕ)
      → AreMembers ms
      → Writes (encode_members ms n w) n (members_bytes ms) w
  encode_members_lem no_members n w h = end_lem n w
  encode_members_lem (member k v ms) n w (some_key, short, hv, hs) =
      let bv = bytes_of v in
      then_lem (encode_string k false w) (λ n w. go_on n (encode v w) (encode_members ms)) n
        (be_bytes 2 (length k) ++ k) (bv ++ members_bytes ms) w (key_lem k w short)
        (λ m.
          then_lem (encode v _) (encode_members ms) m bv (members_bytes ms) _ (encode_lem v _ hv)
            (λ m. encode_members_lem ms m _ hs))

  encode_values_lem :
      (vs : Values) (n : ℕ) (w : List ℕ)
      → AreValues vs
      → Writes (encode_values vs n w) n (values_bytes vs) w
  encode_values_lem no_values n w h = nothing_more n w
  encode_values_lem (value v vs) n w (hv, hs) =
      then_lem (encode v w) (encode_values vs) n (bytes_of v) (values_bytes vs) w
        (encode_lem v w hv) (λ m. encode_values_lem vs m _ hs)
