-- ===== src/Amf3/Reader.antt =====
-- protocol/amf/util.go for version 3: what a decoder does with its reader and its caches. The reader
-- is a bytes.Reader, the list of the bytes that are left; its Read fails at the end even for no bytes.
use yoshiera_huang_livego.Prelude.{
  ℕ, zero, suc, ◌+◌, ◌-◌, ◌/◌, ◌%◌, ◌^◌, bit_and, Bool, true, false, List, [], ◌∷◌, ◌++◌, length,
  take, drop, replicate, ltb, ◌==◌, if◌then◌else◌,
}
use yoshiera_huang_livego.Pio.{shl}
use yoshiera_huang_livego.Amf.Value.{AmfError, eof, unexpected_eof, bad_marker}
use yoshiera_huang_livego.Pio.{from_be}
use yoshiera_huang_livego.Amf3.Item.{Item, Refs, Trait}

-- How a decoder ends: with a result, the caches and the bytes that are left, with an error and the
-- caches, or with an index out of range. `stuck` is no end of the program: the fuel was used up.
pub data Ended (A : Type 0) : Type 0 where
  done : A → Refs → List ℕ → Ended A
  failed : AmfError → Refs → Ended A
  panicked stuck : Ended A

abbrev pub Reads : Type 0 → Type 0
Reads A = Refs → List ℕ → Ended A

abbrev pub on_done : {A B : Type 0} → (A → Refs → List ℕ → Ended B) → Ended A → Ended B
on_done f (done a refs r) = f a refs r
on_done f (failed e refs) = failed e refs
on_done f panicked = panicked
on_done f stuck = stuck

infixl 5 ◌>>=◌ ◌>>◌
abbrev pub ◌>>=◌ : {A B : Type 0} → Reads A → (A → Reads B) → Reads B
◌>>=◌ m f refs r = on_done f (m refs r)

abbrev pub ◌>>◌ : {A B : Type 0} → Reads A → Reads B → Reads B
m >> k = m >>= λ _. k

abbrev pub give : {A : Type 0} → A → Reads A
give a refs r = done a refs r

abbrev pub fail : {A : Type 0} → AmfError → Reads A
fail e refs r = failed e refs

-- ReadByte and ReadMarker
unfoldable pub read_byte : Reads ℕ
read_byte refs [] = failed eof refs
read_byte refs (b ∷ r) = done b refs r

-- `r.Read(buf)` for a new buffer of n bytes: what is missing stays 0.
unfoldable pub read_some : ℕ → Reads (List ℕ)
read_some n refs [] = failed eof refs
read_some n refs (b ∷ r) =
    done (take n (b ∷ r) ++ replicate (n - length (b ∷ r)) 0) refs (drop n (b ∷ r))

-- `binary.Read` of eight bytes
unfoldable pub read_be8 : Reads ℕ
read_be8 refs [] = failed eof refs
read_be8 refs (b ∷ r) =
    if ltb (length (b ∷ r)) 8
    then failed unexpected_eof refs
    else done (from_be 0 (take 8 (b ∷ r))) refs (drop 8 (b ∷ r))

-- AssertMarker
unfoldable pub assert_marker : Bool → ℕ → Reads (Unit {0})
unfolding read_byte
assert_marker false m = give tt
assert_marker true m = do b ← read_byte; if b == m then give tt else fail (bad_marker m b)

-- The loop of decodeU29, and what follows it.
unfoldable pub u29_rounds : ℕ → ℕ → Reads ℕ
unfolding read_byte
u29_rounds zero result = do b ← read_byte; give ((shl 32 result 8 + b) % 2 ^ 32)
u29_rounds (suc k) result = do
  b ← read_byte
  let result = (shl 32 result 7 + bit_and b 0x7f) % 2 ^ 32
  let more = u29_rounds k result
  if bit_and b 0x80 == 0 then give result else more

-- decodeU29
unfoldable pub decode_u29 : Reads ℕ
unfolding u29_rounds
decode_u29 = u29_rounds 3 0

-- decodeReferenceInt
unfoldable pub decode_reference : Reads (Bool × ℕ)
unfolding decode_u29
decode_reference = do u29 ← decode_u29; give (bit_and u29 0x01 == 0, u29 / 2 ^ 1)

-- `l[i]`, which panics out of range
abbrev pub entry : {A : Type 0} → List A → ℕ → Reads A
entry [] i refs r = panicked
entry (x ∷ l) zero refs r = done x refs r
entry (x ∷ l) (suc i) refs r = entry l i refs r

unfoldable pub string_at : ℕ → Reads (List ℕ)
string_at i refs r = entry refs.strings i refs r

unfoldable pub object_at : ℕ → Reads Item
object_at i refs r = entry refs.objects i refs r

unfoldable pub trait_at : ℕ → Reads Trait
trait_at i refs r = entry refs.traits i refs r

-- `d.stringRefs = append(d.stringRefs, s)` and its kin
unfoldable pub keep_string : List ℕ → Reads (Unit {0})
keep_string [] refs r = done tt refs r
keep_string (c ∷ s) refs r = done tt (record refs { strings = refs.strings ++ (c ∷ s) ∷ [] }) r

unfoldable pub keep_object : Item → Reads (Unit {0})
keep_object v refs r = done tt (record refs { objects = refs.objects ++ v ∷ [] }) r

unfoldable pub keep_trait : Trait → Reads (Unit {0})
keep_trait t refs r = done tt (record refs { traits = refs.traits ++ t ∷ [] }) r
