-- ===== src/Amf3/Termination.antt =====
-- The fuel of the decoder of version 3 is enough.
use mathlib.Core.Path.{subst}
use yoshiera_huang_livego.Prelude.{
  ℕ, zero, suc, ◌+◌, ◌-◌, ◌/◌, ◌^◌, bit_and, ◌<◌, ◌≡◌, ◌≢◌, refl, arith, Bool, true, false, List,
  [], ◌∷◌, length, Option, none, some, ◌==◌,
}
use yoshiera_huang_livego.Prelude.Text.{ascii}
use yoshiera_huang_livego.Amf.Value.{no_handler, same_bytes}
use yoshiera_huang_livego.Amf3.Item.{
  Item, nothing, truth, signed, double, chars, bytes, date, list, map_of, no_items, item, Fields,
  no_fields, assign, Trait, Refs, Floats,
}
use yoshiera_huang_livego.Amf3.Reader.{
  Ended, stuck, Reads, ◌>>=◌, give, fail, read_byte, assert_marker, decode_reference,
}
use yoshiera_huang_livego.Amf3.External.{decode_array_collection}
use yoshiera_huang_livego.Amf3.Takes.{
  Ends, Takes, fewer, weaken, on_done-Ends, then-Takes, first-Takes, shorter, if-Takes, give-Takes,
  fail-Takes, read_byte-Takes, read_be8-Takes, object_at-Takes, trait_at-Takes, keep_object-Takes,
}
use yoshiera_huang_livego.Amf3.Parts.{
  async-Takes, acknowledge-Takes, reference-Takes, integer-Takes, double-Takes, string-Takes,
  key-Takes,
}
use yoshiera_huang_livego.Amf3.Lookups.{
  as_date-Takes, as_list-Takes, xml-Takes, byte_array-Takes, trait-Takes,
}
use yoshiera_huang_livego.Amf3.Decoder.{
  decode_string, decode_items, decode_elements, decode_array, decode_sealed, decode_dynamic,
  decode_rest, decode_date, decode_class, decode_body, decode_object, decode_marked, decode,
  decode_amf3,
}

module _ (n : ℕ) (one : Reads Item) (one-Takes : Takes 0 n one) where
  items-Takes : (k : ℕ) → Takes 0 n (decode_items one k)
  unfolding decode_items
  items-Takes zero = give-Takes n no_items
  items-Takes (suc k) =
      then-Takes n one _ one-Takes
        λ v. then-Takes n _ _ (items-Takes k) λ vs. give-Takes n (item v vs)

  elements-Takes : (k : ℕ) (key : List ℕ) → Takes 0 n (decode_elements one k key)
  unfolding decode_elements
  elements-Takes k [] =
      then-Takes n _ _ (items-Takes k)
        λ vs. then-Takes n _ _ (keep_object-Takes n (list vs)) λ _. give-Takes n vs
  elements-Takes k (c ∷ key) = fail-Takes _ n _

  array-Takes : Takes 0 n (decode_array one false)
  unfolding decode_array assert_marker
  array-Takes = then-Takes n decode_reference _ (reference-Takes n) λ p.
      if-Takes 0 n p.0 _ _
        (then-Takes n _ _ (object_at-Takes n (p.1 / 2 ^ 1)) λ v. as_list-Takes n v)
        (then-Takes n _ _ (key-Takes n) λ key. elements-Takes p.1 key)

  sealed-Takes : (ks : List (List ℕ)) (obj : Fields) → Takes 0 n (decode_sealed one ks obj)
  unfolding decode_sealed
  sealed-Takes [] obj = give-Takes n obj
  sealed-Takes (k ∷ ks) obj = then-Takes n one _ one-Takes λ v. sealed-Takes ks (assign k v obj)

  -- The end of the object is an empty key.
  dynamic_key :
      (m : ℕ) (next : List ℕ → Reads Fields) (obj : Fields)
      → ((key : List ℕ) → Takes 0 m (next key))
      → (key : List ℕ)
      → Takes {A = Fields} 0 m (elim key [ [] ↦ give obj | c ∷ cs ↦ next (c ∷ cs) ])
  dynamic_key m next obj h [] = give-Takes m obj
  dynamic_key m next obj h (c ∷ cs) = h (c ∷ cs)

  -- A round takes a byte of the input at least, for its key.
  dynamic-Ends :
      (fuel : ℕ) (obj : Fields) (refs : Refs) (r : List ℕ)
      → length r < fuel
      → length r < n
      → Ends 0 (length r) (decode_dynamic one fuel obj refs r)
  unfolding decode_dynamic Takes
  dynamic-Ends zero obj refs r enough short = absurd (omega arith)
  dynamic-Ends (suc fuel) obj refs r enough short =
      let m = length r in
      let next : (key : List ℕ) → Reads Fields =
        λ key. one >>= λ v. decode_dynamic one fuel (assign key v obj) in
      let each : (key : List ℕ) → Takes 0 m (next key) = λ key.
        then-Takes m one _ (shorter n m one (omega arith) one-Takes) λ v refs' r' less.
          dynamic-Ends fuel (assign key v obj) refs' r' (omega arith) (omega arith) in
      fewer 1 m 0 m _ (omega arith) (
        on_done-Ends 1 0 m (suc m) _ (decode_string false refs r) (omega arith)
          (string-Takes (suc m) refs r (omega arith))
          (λ key. shorter m (suc m - 1) _ (omega arith) (dynamic_key m next obj each key)))

  rest-Takes : (dynamic : Bool) (obj : Fields) → Takes 0 n (decode_rest one dynamic obj)
  unfolding decode_rest Takes
  rest-Takes false obj = give-Takes n obj
  rest-Takes true obj = λ refs r short. dynamic-Ends (length r + 1) obj refs r (omega arith) short

module _ (f : Floats) (handlers : List ℕ → Option (Reads Item))
    (handlers_end : (class : List ℕ) (handler : Reads Item)
      → handlers class ≡ some handler
      → (n : ℕ) → Takes 0 n handler) where
  date-Takes : (n : ℕ) → Takes 0 n (decode_date f handlers false)
  unfolding decode_date assert_marker
  date-Takes n = then-Takes n decode_reference _ (reference-Takes n) λ p.
      if-Takes 0 n p.0 _ _ (then-Takes n _ _ (object_at-Takes n p.1) λ v. as_date-Takes n v) (
        then-Takes n _ _ (read_be8-Takes n) λ x.
          then-Takes n _ _ (keep_object-Takes n (date (f.seconds x)))
            λ _. give-Takes n (f.seconds x))

  handler-Takes :
      (n : ℕ) (class : List ℕ) (h : Option (Reads Item))
      → handlers class ≡ h
      → Takes {A = Item} 0 n (elim h [ none ↦ fail (no_handler class) | some handler ↦ handler ])
  handler-Takes n class none e = fail-Takes _ n _
  handler-Takes n class (some handler) e = handlers_end class handler e n

  module _ (n : ℕ) (one : Reads Item) (one-Takes : Takes 0 n one) where
    class-Takes : (class : List ℕ) → Takes 0 n (decode_class f handlers one class)
    unfolding decode_class decode_array_collection
    class-Takes class =
        if-Takes 0 n (same_bytes class (ascii "DSA")) _ _
          (then-Takes n _ _ (async-Takes n one one-Takes) λ obj. give-Takes n (map_of obj))
          (if-Takes 0 n (same_bytes class (ascii "DSK")) _ _
            (then-Takes n _ _ (acknowledge-Takes n one one-Takes) λ obj. give-Takes n (map_of obj))
            (if-Takes 0 n (same_bytes class (ascii "flex.messaging.io.ArrayCollection")) _ _
              (then-Takes n one _ one-Takes
                λ v. then-Takes n _ _ (keep_object-Takes n v) λ _. give-Takes n v)
              (handler-Takes n class (handlers class) refl)))

    body-Takes : (trait : Trait) → Takes 0 n (decode_body f handlers one trait)
    unfolding decode_body
    body-Takes trait = then-Takes n _ _ (keep_object-Takes n nothing) λ _.
        if-Takes 0 n trait.externalizable _ _ (class-Takes trait.class) (
          then-Takes n _ _ (sealed-Takes n one one-Takes trait.properties no_fields) λ obj.
            then-Takes n _ _ (rest-Takes n one one-Takes trait.dynamic obj)
              λ obj. give-Takes n (map_of obj))

    object-Takes : Takes 0 n (decode_object f handlers one false)
    unfolding decode_object assert_marker
    object-Takes = then-Takes n decode_reference _ (reference-Takes n) λ p.
        if-Takes 0 n p.0 _ _ (object_at-Takes n (p.1 / 2 ^ 1)) (
          then-Takes n _ _
            (if-Takes 0 n (bit_and p.1 0x01 == 0) _ _ (trait_at-Takes n (p.1 / 2 ^ 1))
              (trait-Takes n p.1))
            λ trait. body-Takes trait)

    marked-Takes : (m : ℕ) → Takes 0 n (decode_marked f handlers one m)
    unfolding decode_marked
    marked-Takes m = if-Takes 0 n (m == 0x00) _ _ (give-Takes n nothing) (
        if-Takes 0 n (m == 0x01) _ _ (give-Takes n nothing) (
          if-Takes 0 n (m == 0x02) _ _ (give-Takes n (truth false)) (
            if-Takes 0 n (m == 0x03) _ _ (give-Takes n (truth true)) (
              if-Takes 0 n (m == 0x04) _ _
                (then-Takes n _ _ (integer-Takes n false) λ x. give-Takes n (signed x))
                (if-Takes 0 n (m == 0x05) _ _
                  (then-Takes n _ _ (double-Takes n false) λ x. give-Takes n (double x))
                  (if-Takes 0 n (m == 0x06) _ _
                    (then-Takes n _ _ (key-Takes n) λ s. give-Takes n (chars s))
                    (if-Takes 0 n (m == 0x07) _ _
                      (then-Takes n _ _ (xml-Takes n) λ s. give-Takes n (chars s))
                      (if-Takes 0 n (m == 0x08) _ _
                        (then-Takes n _ _ (date-Takes n) λ t. give-Takes n (date t))
                        (if-Takes 0 n (m == 0x09) _ _
                          (then-Takes n _ _ (array-Takes n one one-Takes)
                            λ vs. give-Takes n (list vs))
                          (if-Takes 0 n (m == 0x0a) _ _ object-Takes (
                            if-Takes 0 n (m == 0x0b) _ _
                              (then-Takes n _ _ (xml-Takes n) λ s. give-Takes n (chars s))
                              (if-Takes 0 n (m == 0x0c) _ _
                                (then-Takes n _ _ (byte_array-Takes n)
                                  λ bs. give-Takes n (bytes bs))
                                (fail-Takes _ n _)))))))))))))

  decode-Takes : (fuel : ℕ) → Takes 0 fuel (decode f handlers fuel)
  unfolding decode Takes
  decode-Takes zero refs r short = absurd (omega arith)
  decode-Takes (suc fuel) refs r short =
      weaken (suc fuel) (decode f handlers (suc fuel))
        (first-Takes (suc fuel) read_byte _ (read_byte-Takes (suc fuel)) λ m.
          shorter fuel (suc fuel - 1) _ (omega arith)
            (marked-Takes fuel (decode f handlers fuel) (decode-Takes fuel) m))
        refs r short

  ended : {A : Type 0} (d n : ℕ) (e : Ended A) → Ends d n e → e ≢ stuck
  unfolding Ends
  ended d n e h same = subst (Ends d n) same h

  pub decode_amf3-Ends :
      (refs : Refs) (r : List ℕ) → Ends 0 (length r) (decode_amf3 f handlers refs r)
  unfolding decode_amf3 Takes
  decode_amf3-Ends refs r = decode-Takes (length r + 1) refs r (omega arith)

  -- DecodeAmf3 of any bytes, with any caches, ends in a value, an error or a panic, if every handler
  -- of an external class ends and leaves no more bytes than it was given.
  pub decode_amf3_ends : (refs : Refs) (r : List ℕ) → decode_amf3 f handlers refs r ≢ stuck
  decode_amf3_ends refs r =
      ended 0 (length r) (decode_amf3 f handlers refs r) (decode_amf3-Ends refs r)
