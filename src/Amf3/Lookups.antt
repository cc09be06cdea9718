-- ===== src/Amf3/Lookups.antt =====
-- What lookups, XML, arrays of bytes and traits take of the input of a decoder of version 3.
use yoshiera_huang_livego.Prelude.{ℕ, zero, suc, ◌/◌, ◌^◌, false, List, [], ◌∷◌}
use yoshiera_huang_livego.Amf3.Item.{
  Item, nothing, truth, signed, unsigned, signed64, unsigned64, double, chars, bytes, date, list,
  map_of, typed, other_map, other,
}
use yoshiera_huang_livego.Amf3.Reader.{assert_marker, decode_reference}
use yoshiera_huang_livego.Amf3.Takes.{
  Takes, then-Takes, if-Takes, give-Takes, fail-Takes, read_some-Takes, object_at-Takes,
  keep_object-Takes, keep_trait-Takes,
}
use yoshiera_huang_livego.Amf3.Parts.{reference-Takes, key-Takes}
use yoshiera_huang_livego.Amf3.Decoder.{
  as_date, as_list, as_chars, as_bytes, assert_xml, keep_xml, decode_xml, decode_byte_array,
  decode_names, decode_trait,
}

-- A lookup of one kind of object.
pub as_date-Takes : (n : ℕ) (v : Item) → Takes 0 n (as_date v)
as_date-Takes n (date t) = give-Takes n t
as_date-Takes n nothing = fail-Takes _ n _
as_date-Takes n (truth b) = fail-Takes _ n _
as_date-Takes n (signed x) = fail-Takes _ n _
as_date-Takes n (unsigned x) = fail-Takes _ n _
as_date-Takes n (signed64 x) = fail-Takes _ n _
as_date-Takes n (unsigned64 x) = fail-Takes _ n _
as_date-Takes n (double x) = fail-Takes _ n _
as_date-Takes n (chars s) = fail-Takes _ n _
as_date-Takes n (bytes bs) = fail-Takes _ n _
as_date-Takes n (list vs) = fail-Takes _ n _
as_date-Takes n (map_of fs) = fail-Takes _ n _
as_date-Takes n (typed c fs) = fail-Takes _ n _
as_date-Takes n other_map = fail-Takes _ n _
as_date-Takes n other = fail-Takes _ n _

pub as_list-Takes : (n : ℕ) (v : Item) → Takes 0 n (as_list v)
as_list-Takes n (date t) = fail-Takes _ n _
as_list-Takes n nothing = fail-Takes _ n _
as_list-Takes n (truth b) = fail-Takes _ n _
as_list-Takes n (signed x) = fail-Takes _ n _
as_list-Takes n (unsigned x) = fail-Takes _ n _
as_list-Takes n (signed64 x) = fail-Takes _ n _
as_list-Takes n (unsigned64 x) = fail-Takes _ n _
as_list-Takes n (double x) = fail-Takes _ n _
as_list-Takes n (chars s) = fail-Takes _ n _
as_list-Takes n (bytes bs) = fail-Takes _ n _
as_list-Takes n (list vs) = give-Takes n vs
as_list-Takes n (map_of fs) = fail-Takes _ n _
as_list-Takes n (typed c fs) = fail-Takes _ n _
as_list-Takes n other_map = fail-Takes _ n _
as_list-Takes n other = fail-Takes _ n _

pub as_chars-Takes : (n : ℕ) (v : Item) → Takes 0 n (as_chars v)
as_chars-Takes n (date t) = fail-Takes _ n _
as_chars-Takes n nothing = fail-Takes _ n _
as_chars-Takes n (truth b) = fail-Takes _ n _
as_chars-Takes n (signed x) = fail-Takes _ n _
as_chars-Takes n (unsigned x) = fail-Takes _ n _
as_chars-Takes n (signed64 x) = fail-Takes _ n _
as_chars-Takes n (unsigned64 x) = fail-Takes _ n _
as_chars-Takes n (double x) = fail-Takes _ n _
as_chars-Takes n (chars s) = give-Takes n s
as_chars-Takes n (bytes bs) = fail-Takes _ n _
as_chars-Takes n (list vs) = fail-Takes _ n _
as_chars-Takes n (map_of fs) = fail-Takes _ n _
as_chars-Takes n (typed c fs) = fail-Takes _ n _
as_chars-Takes n other_map = fail-Takes _ n _
as_chars-Takes n other = fail-Takes _ n _

pub as_bytes-Takes : (n : ℕ) (v : Item) → Takes 0 n (as_bytes v)
as_bytes-Takes n (date t) = fail-Takes _ n _
as_bytes-Takes n nothing = fail-Takes _ n _
as_bytes-Takes n (truth b) = fail-Takes _ n _
as_bytes-Takes n (signed x) = fail-Takes _ n _
as_bytes-Takes n (unsigned x) = fail-Takes _ n _
as_bytes-Takes n (signed64 x) = fail-Takes _ n _
as_bytes-Takes n (unsigned64 x) = fail-Takes _ n _
as_bytes-Takes n (double x) = fail-Takes _ n _
as_bytes-Takes n (chars s) = fail-Takes _ n _
as_bytes-Takes n (bytes bs) = give-Takes n bs
as_bytes-Takes n (list vs) = fail-Takes _ n _
as_bytes-Takes n (map_of fs) = fail-Takes _ n _
as_bytes-Takes n (typed c fs) = fail-Takes _ n _
as_bytes-Takes n other_map = fail-Takes _ n _
as_bytes-Takes n other = fail-Takes _ n _

pub keep_xml-Takes : (n : ℕ) (s : List ℕ) → Takes 0 n (keep_xml s)
keep_xml-Takes n [] = give-Takes n tt
keep_xml-Takes n (c ∷ s) = keep_object-Takes n (chars (c ∷ s))

pub xml-Takes : (n : ℕ) → Takes 0 n (decode_xml false)
unfolding decode_xml assert_xml
xml-Takes n = then-Takes n decode_reference _ (reference-Takes n) λ p.
    if-Takes 0 n p.0 _ _ (then-Takes n _ _ (object_at-Takes n p.1) λ v. as_chars-Takes n v) (
      then-Takes n _ _ (read_some-Takes n p.1)
        λ s. then-Takes n _ _ (keep_xml-Takes n s) λ _. give-Takes n s)

pub byte_array-Takes : (n : ℕ) → Takes 0 n (decode_byte_array false)
unfolding decode_byte_array assert_marker
byte_array-Takes n = then-Takes n decode_reference _ (reference-Takes n) λ p.
    if-Takes 0 n p.0 _ _ (then-Takes n _ _ (object_at-Takes n p.1) λ v. as_bytes-Takes n v) (
      then-Takes n _ _ (read_some-Takes n p.1)
        λ bs. then-Takes n _ _ (keep_object-Takes n (bytes bs)) λ _. give-Takes n bs)

pub names-Takes : (n k : ℕ) → Takes 0 n (decode_names k)
unfolding decode_names
names-Takes n zero = give-Takes n []
names-Takes n (suc k) =
    then-Takes n _ _ (key-Takes n)
      λ name. then-Takes n _ _ (names-Takes n k) λ names. give-Takes n (name ∷ names)

pub trait-Takes : (n k : ℕ) → Takes 0 n (decode_trait k)
unfolding decode_trait
trait-Takes n k = then-Takes n _ _ (key-Takes n) λ class.
    then-Takes n _ _ (names-Takes n (k / 2 ^ 3))
      λ names. then-Takes n _ _ (keep_trait-Takes n _) λ _. give-Takes n _
