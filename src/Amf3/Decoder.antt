-- ===== src/Amf3/Decoder.antt =====
-- protocol/amf/decoder_amf3.go. The handlers of external classes that a program registers are a
-- parameter, and so is what the code does with float64.
use yoshiera_huang_livego.Prelude.{
  ℕ, zero, suc, ◌+◌, ◌-◌, ◌/◌, ◌^◌, bit_and, Bool, true, false, not, ◌||◌, Option, none, some, List,
  [], ◌∷◌, length, ltb, ◌==◌, if◌then◌else◌,
}
use yoshiera_huang_livego.Amf.Value.{
  bad_marker, unsupported_type, wrong_reference, associative_array, no_handler, same_bytes,
}
use yoshiera_huang_livego.Amf3.Item.{
  Item, nothing, truth, signed, double, chars, bytes, date, list, map_of, Items, no_items, item,
  Fields, no_fields, assign, Trait, Floats,
}
use yoshiera_huang_livego.Amf3.Reader.{
  stuck, Reads, ◌>>=◌, ◌>>◌, give, fail, read_byte, read_some, read_be8, assert_marker, decode_u29,
  decode_reference, string_at, object_at, trait_at, keep_string, keep_object, keep_trait,
}
use yoshiera_huang_livego.Prelude.Text.{ascii}
use yoshiera_huang_livego.Amf3.External.{
  decode_async_message, decode_acknowledge_message, decode_array_collection,
}

-- `int32(u29)`, less 2 ^ 29 from 2 ^ 28 on, as an int64
unfoldable pub to_signed : ℕ → ℕ
to_signed u29 = if ltb 0xfffffff u29 then u29 + (2 ^ 64 - 0x20000000) else u29

-- DecodeAmf3Integer
unfoldable pub decode_integer : Bool → Reads ℕ
unfolding to_signed
decode_integer mark = do assert_marker mark 0x04; u29 ← decode_u29; give (to_signed u29)

-- DecodeAmf3Double
unfoldable pub decode_double : Bool → Reads ℕ
decode_double mark = do assert_marker mark 0x05; read_be8

-- DecodeAmf3String
unfoldable pub decode_string : Bool → Reads (List ℕ)
decode_string mark = do
  assert_marker mark 0x06
  (is_ref, n) ← decode_reference
  if is_ref then string_at n else (do s ← read_some n; keep_string s; give s)

-- `objectRefs[i].(T)` for the types that are looked up
abbrev pub as_date : Item → Reads ℕ
as_date (date t) = give t
as_date _ = fail wrong_reference

abbrev pub as_list : Item → Reads Items
as_list (list vs) = give vs
as_list _ = fail wrong_reference

abbrev pub as_chars : Item → Reads (List ℕ)
as_chars (chars s) = give s
as_chars _ = fail wrong_reference

abbrev pub as_bytes : Item → Reads (List ℕ)
as_bytes (bytes bs) = give bs
as_bytes _ = fail wrong_reference

-- The marker of DecodeAmf3Xml is one of two.
unfoldable pub assert_xml : Bool → Reads (Unit {0})
assert_xml false = give tt
assert_xml true = do
  b ← read_byte
  if b == 0x07 || b == 0x0b then give tt else fail (bad_marker 0x07 b)

abbrev pub keep_xml : List ℕ → Reads (Unit {0})
keep_xml [] = give tt
keep_xml (c ∷ s) = keep_object (chars (c ∷ s))

-- DecodeAmf3Xml
unfoldable pub decode_xml : Bool → Reads (List ℕ)
unfolding assert_xml
decode_xml mark = do
  assert_xml mark
  (is_ref, n) ← decode_reference
  if is_ref then (do v ← object_at n; as_chars v) else (do s ← read_some n; keep_xml s; give s)

-- DecodeAmf3ByteArray
unfoldable pub decode_byte_array : Bool → Reads (List ℕ)
decode_byte_array mark = do
  assert_marker mark 0x0c
  (is_ref, n) ← decode_reference
  if is_ref
      then (do v ← object_at n; as_bytes v)
      else (do bs ← read_some n; keep_object (bytes bs); give bs)

-- The loop over the elements of an array.
unfoldable pub decode_items : Reads Item → ℕ → Reads Items
decode_items one zero = give no_items
decode_items one (suc n) = do v ← one; vs ← decode_items one n; give (item v vs)

-- The end of DecodeAmf3Array, behind the key.
unfoldable pub decode_elements : Reads Item → ℕ → List ℕ → Reads Items
unfolding decode_items
decode_elements one n [] = do vs ← decode_items one n; keep_object (list vs); give vs
decode_elements one n (c ∷ key) = fail associative_array

-- DecodeAmf3Array. The number of a reference is shifted a second time.
unfoldable pub decode_array : Reads Item → Bool → Reads Items
unfolding decode_string decode_elements
decode_array one mark = do
  assert_marker mark 0x09
  (is_ref, n) ← decode_reference
  if is_ref
      then (do v ← object_at (n / 2 ^ 1); as_list v)
      else (do key ← decode_string false; decode_elements one n key)

-- The loop over the names of the properties of a trait.
unfoldable pub decode_names : ℕ → Reads (List (List ℕ))
unfolding decode_string
decode_names zero = give []
decode_names (suc n) = do k ← decode_string false; ks ← decode_names n; give (k ∷ ks)

-- A trait that is sent with its object.
unfoldable pub decode_trait : ℕ → Reads Trait
unfolding decode_string decode_names
decode_trait n = do
  class ← decode_string false
  names ← decode_names (n / 2 ^ 3)
  let trait : Trait = record {
    class = class;
    externalizable = not (bit_and n 0x02 == 0);
    dynamic = not (bit_and n 0x04 == 0);
    properties = names;
  }
  keep_trait trait
  give trait

-- The loop over the properties of a trait.
unfoldable pub decode_sealed : Reads Item → List (List ℕ) → Fields → Reads Fields
decode_sealed one [] obj = give obj
decode_sealed one (k ∷ ks) obj = do v ← one; decode_sealed one ks (assign k v obj)

-- The loop of a dynamic object, up to an empty key. A round takes a byte at least.
unfoldable pub decode_dynamic : Reads Item → ℕ → Fields → Reads Fields
unfolding decode_string
decode_dynamic one zero obj = λ refs r. stuck
decode_dynamic one (suc fuel) obj = decode_string false >>= λ key. elim key [
  | [] ↦ give obj
  | c ∷ cs ↦ one >>= λ v. decode_dynamic one fuel (assign (c ∷ cs) v obj)
]

unfoldable pub decode_rest : Reads Item → Bool → Fields → Reads Fields
unfolding decode_dynamic
decode_rest one false obj = give obj
decode_rest one true obj = λ refs r. decode_dynamic one (length r + 1) obj refs r

module _ (f : Floats) (handlers : List ℕ → Option (Reads Item)) where
  -- DecodeAmf3Date
  unfoldable pub decode_date : Bool → Reads ℕ
  decode_date mark = do
    assert_marker mark 0x08
    (is_ref, n) ← decode_reference
    if is_ref
        then (do v ← object_at n; as_date v)
        else (do x ← read_be8; keep_object (date (f.seconds x)); give (f.seconds x))

  -- The switch over the classes that encode themselves.
  unfoldable pub decode_class : Reads Item → List ℕ → Reads Item
  unfolding decode_async_message decode_acknowledge_message decode_array_collection
  decode_class one class =
      if same_bytes class (ascii "DSA")
      then (do obj ← decode_async_message one; give (map_of obj))
      else if same_bytes class (ascii "DSK")
      then (do obj ← decode_acknowledge_message one; give (map_of obj))
      else if same_bytes class (ascii "flex.messaging.io.ArrayCollection")
      then (do v ← decode_array_collection one; keep_object v; give v)
      else elim (handlers class) [ none ↦ fail (no_handler class) | some handler ↦ handler ]

  -- Behind the trait. What is kept for later references is the nil in `result`, not the object.
  unfoldable pub decode_body : Reads Item → Trait → Reads Item
  unfolding decode_class decode_sealed decode_rest
  decode_body one trait = do
    keep_object nothing
    if trait.externalizable then decode_class one trait.class else (do
      obj ← decode_sealed one trait.properties no_fields
      obj ← decode_rest one trait.dynamic obj
      give (map_of obj))

  -- DecodeAmf3Object. The number of a reference is shifted a second time.
  unfoldable pub decode_object : Reads Item → Bool → Reads Item
  unfolding decode_trait decode_body
  decode_object one mark = do
    assert_marker mark 0x0a
    (is_ref, n) ← decode_reference
    if is_ref then object_at (n / 2 ^ 1) else (do
      trait ← if bit_and n 0x01 == 0 then trait_at (n / 2 ^ 1) else decode_trait n
      decode_body one trait)

  -- The router of DecodeAmf3 behind the marker; `one` decodes what is nested.
  unfoldable pub decode_marked : Reads Item → ℕ → Reads Item
  unfolding decode_integer decode_double decode_string decode_xml decode_date decode_array
      decode_object decode_byte_array
  decode_marked one m =
      if m == 0x00
      then give nothing
      else if m == 0x01
      then give nothing
      else if m == 0x02
      then give (truth false)
      else if m == 0x03
      then give (truth true)
      else if m == 0x04
      then (do n ← decode_integer false; give (signed n))
      else if m == 0x05
      then (do x ← decode_double false; give (double x))
      else if m == 0x06
      then (do s ← decode_string false; give (chars s))
      else if m == 0x07
      then (do s ← decode_xml false; give (chars s))
      else if m == 0x08
      then (do t ← decode_date false; give (date t))
      else if m == 0x09
      then (do vs ← decode_array one false; give (list vs))
      else if m == 0x0a
      then decode_object one false
      else if m == 0x0b
      then (do s ← decode_xml false; give (chars s))
      else if m == 0x0c
      then (do bs ← decode_byte_array false; give (bytes bs))
      else fail (unsupported_type m)

  unfoldable pub decode : ℕ → Reads Item
  unfolding decode_marked
  decode zero = λ refs r. stuck
  decode (suc fuel) = do m ← read_byte; decode_marked (decode fuel) m

  -- DecodeAmf3. A value that is nested in another has a byte less to read, so the fuel is enough.
  unfoldable pub decode_amf3 : Reads Item
  unfolding decode
  decode_amf3 refs r = decode (length r + 1) refs r
