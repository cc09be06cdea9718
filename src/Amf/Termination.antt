-- ===== src/Amf/Termination.antt =====
-- The decoder returns: each nested call has a byte less to read.
use yoshiera_huang_livego.Prelude.{ℕ, zero, suc, ◌+◌, ◌≤◌, ◌<◌, ◌≢◌, arith}
use yoshiera_huang_livego.Prelude.{
  some, ◌≡◌, Bool, true, false, List, [], ◌∷◌, length, drop, length-drop, ltb, ◌==◌, if◌then◌else◌,
}
use yoshiera_huang_livego.Amf.Value.{
  Value, number, boolean, text, object, array, typed_object, Members, no_members, Values, assign,
}
use yoshiera_huang_livego.Amf.Version3.{Run, Setup, plain, from_amf3, decode_version3}
use yoshiera_huang_livego.Amf3.Item.{Item, Refs, Floats}
use yoshiera_huang_livego.Amf3.Reader
use yoshiera_huang_livego.Amf3.Reader.{Ended, done, Reads}
use yoshiera_huang_livego.Amf3.Takes
use yoshiera_huang_livego.Amf3.Takes.{Takes}
use yoshiera_huang_livego.Amf3.Termination.{decode_amf3-Ends}
use yoshiera_huang_livego.Amf.Decoder.{
  Decoded, got, failed, panicked, stuck, on_got, as_value, then_run, on_key, read_full, read_bytes,
  read_byte, assert_marker, read_be, decode_number, decode_boolean, decode_sized, decode_string,
  decode_long_string, decode_date, decode_marked, decode, decode_members, decode_values,
  decode_amf0,
}

-- A result leaves less than `n` bytes.
abbrev pub Ends : {A : Type 0} → ℕ → Decoded A → Type 0
Ends n (got a r) = length r < n
Ends n (failed e) = Unit
Ends n panicked = Unit
Ends n stuck = ⊥

Ends-mono : {A : Type 0} (n m : ℕ) (d : Decoded A) → n ≤ m → Ends n d → Ends m d
Ends-mono n m (got a r) h k = omega arith
Ends-mono n m (failed e) h k = tt
Ends-mono n m panicked h k = tt
Ends-mono n m stuck h k = absurd k

Ends-on_got :
    {A B : Type 0} (n m : ℕ) (next : A → List ℕ → Decoded B) (d : Decoded A)
    → Ends n d
    → ((a : A) (r : List ℕ) → length r < n → Ends m (next a r))
    → Ends m (on_got next d)
Ends-on_got n m next (got a r) h k = k a r h
Ends-on_got n m next (failed e) h k = tt
Ends-on_got n m next panicked h k = tt
Ends-on_got n m next stuck h k = absurd h

Ends-then_run :
    {A B : Type 0} (n m : ℕ) (next : A → Refs → List ℕ → Run B) (p : Run A)
    → Ends n p.0
    → ((a : A) (s : Refs) (r : List ℕ) → length r < n → Ends m (next a s r).0)
    → Ends m (then_run next p).0
Ends-then_run n m next (got a r, s) h k = k a s r h
Ends-then_run n m next (failed e, s) h k = tt
Ends-then_run n m next (panicked, s) h k = tt
Ends-then_run n m next (stuck, s) h k = absurd h

Ends-as_value :
    {A : Type 0} (n : ℕ) (f : A → Value) (d : Decoded A) → Ends n d → Ends n (as_value f d)
Ends-as_value n f (got a r) h = h
Ends-as_value n f (failed e) h = tt
Ends-as_value n f panicked h = tt
Ends-as_value n f stuck h = absurd h

Ends-if :
    {A : Type 0} (n : ℕ) (b : Bool) (x y : Decoded A)
    → Ends n x
    → Ends n y
    → Ends n (if b then x else y)
Ends-if n true x y h k = h
Ends-if n false x y h k = k

read_full-Ends : (k : ℕ) (r : List ℕ) → Ends (length r) (read_full (suc k) r)
unfolding read_full
read_full-Ends k [] = tt
read_full-Ends k (b ∷ r) =
    Ends-if (suc (length r)) (ltb (suc (length r)) (suc k)) _ _ tt (omega (arith, length-drop k r))

read_bytes-Ends : (k : ℕ) (r : List ℕ) → Ends (suc (length r)) (read_bytes k r)
unfolding read_bytes
read_bytes-Ends k [] = tt
read_bytes-Ends k (b ∷ r) =
    Ends-if (suc (suc (length r))) (ltb (suc (length r)) k) _ _ tt
      (omega (arith, length-drop k (b ∷ r)))

read_byte-Ends : (r : List ℕ) → Ends (length r) (read_byte r)
unfolding read_byte
read_byte-Ends [] = tt
read_byte-Ends (b ∷ r) = omega arith

read_be-Ends : (k : ℕ) (r : List ℕ) → Ends (length r) (read_be (suc k) r)
unfolding read_be
read_be-Ends k r = Ends-on_got (length r) (length r) _ _ (read_full-Ends k r) (λ bs r' h. h)

decode_sized-Ends : (k : ℕ) (r : List ℕ) → Ends (length r) (decode_sized (suc k) r)
unfolding decode_sized
decode_sized-Ends k r =
    Ends-on_got (length r) (length r) _ _ (read_be-Ends k r)
      (λ n r' h. Ends-mono (suc (length r')) (length r) _ h (read_bytes-Ends n r'))

end_marker-Ends :
    (acc : Members) (r : List ℕ)
    → Ends (length r) (on_got {B = Members} (λ _ r. got acc r) (assert_marker true 0x09 r))
unfolding assert_marker read_byte
end_marker-Ends acc [] = tt
end_marker-Ends acc (b ∷ r) =
    Ends-on_got (suc (length r)) (suc (length r)) _ _
      (Ends-if (suc (length r)) (b == 0x09) (got b r) _ (omega arith) tt) (λ _ r' h. h)

decode_date-Ends : (r : List ℕ) → Ends (length r) (decode_date false r)
unfolding decode_date decode_number assert_marker
decode_date-Ends r = Ends-on_got (length r) (length r) _ _ (read_be-Ends 7 r) (λ x r' h.
    Ends-on_got (suc (length r')) (length r) _ _ (read_bytes-Ends 2 r') (λ _ r'' h'. omega arith))

decode_boolean-Ends : (r : List ℕ) → Ends (length r) (decode_boolean false r)
unfolding decode_boolean assert_marker read_byte
decode_boolean-Ends [] = tt
decode_boolean-Ends (b ∷ r) =
    Ends-if (suc (length r)) (b == 0x00) (got false r) _ (omega arith)
      (Ends-if (suc (length r)) (b == 0x01) (got true r) _ (omega arith) tt)

weaken : {A : Type 0} (r : List ℕ) (d : Decoded A) → Ends (length r) d → Ends (suc (length r)) d
weaken r d h = Ends-mono (length r) (suc (length r)) d (omega arith) h

if_run :
    {A : Type 0} (n : ℕ) (b : Bool) (x y : Run A)
    → Ends n x.0
    → Ends n y.0
    → Ends n (if b then x else y).0
if_run n true x y h k = h
if_run n false x y h k = k

-- The key of a member, with `dec` and `members` for what follows it.
key_case :
    (dec : Refs → List ℕ → Run Value) (members : Members → Refs → List ℕ → Run Members)
    (acc : Members) (key : List ℕ) (s : Refs) (r : List ℕ) (n : ℕ)
    → length r < n
    → Ends (length r) (dec s r).0
    → ((acc : Members) (s : Refs) (r' : List ℕ)
        → length r' < length r
        → Ends (suc (length r')) (members acc s r').0)
    → Ends
        (suc n)
        (on_key
          (λ key s r. then_run (λ v s r. members (assign key v acc) s r) (dec s r))
          acc
          key
          s
          r).0
key_case dec members acc [] s r n k hv hm =
    Ends-mono (length r) (suc n) _ (omega arith) (end_marker-Ends acc r)
key_case dec members acc (b ∷ key) s r n k hv hm =
    Ends-then_run (length r) (suc n) _ _ hv (λ v s r' short.
      Ends-mono (suc (length r')) (suc n) _ (omega arith) (hm (assign (b ∷ key) v acc) s r' short))

-- The decoder of version 3, with the result as a value of version 0.
from_amf3-Ends :
    (f : Floats) (s : Refs) (n : ℕ) (e : Ended Item)
    → Takes.Ends 0 n e
    → Ends (suc n) (from_amf3 f s e).0
unfolding Takes.Ends
from_amf3-Ends f s n (done v s' r) h = omega arith
from_amf3-Ends f s n (Reader.failed e s') h = tt
from_amf3-Ends f s n Reader.panicked h = tt
from_amf3-Ends f s n Reader.stuck h = absurd h

-- A decoder without handlers has none that would not end.
pub no_handlers :
    (f : Floats) (class : List ℕ) (handler : Reads Item)
    → (plain f).handlers class ≡ some handler
    → (n : ℕ) → Takes 0 n handler
no_handlers f class handler e n = absurd (cc)

module _ (d : Setup)
    (handlers_end : (class : List ℕ) (handler : Reads Item)
      → d.handlers class ≡ some handler
      → (n : ℕ) → Takes 0 n handler) where
  version3-Ends : (s : Refs) (r : List ℕ) → Ends (suc (length r)) (decode_version3 d s r).0
  unfolding decode_version3
  version3-Ends s r =
      from_amf3-Ends d.floats s (length r) _ (decode_amf3-Ends d.floats d.handlers handlers_end s r)

  -- The router ends if what it calls for nested parts does.
  decode_marked-Ends :
      (members : Members → Refs → List ℕ → Run Members) (values : ℕ → Refs → List ℕ → Run Values)
      (m : ℕ) (s : Refs) (r : List ℕ)
      → ((acc : Members) (s : Refs) (r' : List ℕ)
          → length r' ≤ length r
          → Ends (suc (length r)) (members acc s r').0)
      → ((n : ℕ) (s : Refs) (r' : List ℕ)
          → length r' < length r
          → Ends (suc (length r)) (values n s r').0)
      → Ends (suc (length r)) (decode_marked d members values m s r).0
  unfolding decode_marked decode_number decode_string decode_long_string assert_marker
  decode_marked-Ends members values m s r hm hv =
      let n = suc (length r) in
      let long = weaken r (decode_sized 4 r) (decode_sized-Ends 3 r) in
      let object = λ (r' : List ℕ) (h : length r' ≤ length r).
        Ends-as_value n object _ (hm no_members s r' h) in
      if_run n (m == 0x00) _ _
        (Ends-as_value n number _ (weaken r (read_be 8 r) (read_be-Ends 7 r)))
        (if_run n (m == 0x01) _ _
          (Ends-as_value n boolean _ (weaken r (decode_boolean false r) (decode_boolean-Ends r)))
          (if_run n (m == 0x02) _ _
            (Ends-as_value n text _ (weaken r (decode_sized 2 r) (decode_sized-Ends 1 r)))
            (if_run n (m == 0x03) _ _ (object r (omega arith)) (
              if_run n (m == 0x05) _ _ (omega arith) (
                if_run n (m == 0x06) _ _ (omega arith) (
                  if_run n (m == 0x08) _ _ (object (drop 4 r) (omega (arith, length-drop 4 r))) (
                    if_run n (m == 0x0a) _ _
                      (Ends-as_value n array _
                        (Ends-then_run (length r) n values _ (read_be-Ends 3 r) hv))
                      (if_run n (m == 0x0b) _ _
                        (Ends-as_value n number _
                          (weaken r (decode_date false r) (decode_date-Ends r)))
                        (if_run n (m == 0x0c) _ _ (Ends-as_value n text _ long) (
                          if_run n (m == 0x0d) _ _ (omega arith) (
                            if_run n (m == 0x0f) _ _ (Ends-as_value n text _ long) (
                              if_run n (m == 0x10) _ _
                                (Ends-then_run (length r) n _ _ (decode_sized-Ends 1 r) (λ t s r' h.
                                  Ends-as_value n (typed_object t) _
                                    (hm no_members s r' (omega arith))))
                                (if_run n (m == 0x11) _ _ (version3-Ends s r) tt)))))))))))))

  mutual
    unfolding decode decode_string assert_marker

    pub decode-Ends :
        (f : ℕ) (s : Refs) (r : List ℕ) → length r < f → Ends (length r) (decode d f s r).0
    decode-Ends zero s r h = absurd (omega arith)
    decode-Ends (suc f) s r h =
        Ends-then_run (length r) (length r) _ _ (read_byte-Ends r) (λ m s r' short.
          Ends-mono (suc (length r')) (length r) _ short (
            decode_marked-Ends (decode_members d f) (decode_values d f) m s r'
              (λ acc s t le.
                Ends-mono (suc (length t)) (suc (length r')) _ (omega arith)
                  (decode_members-Ends f acc s t (omega arith)))
              (λ n s t lt.
                Ends-mono (suc (length t)) (suc (length r')) _ (omega arith)
                  (decode_values-Ends f n s t (omega arith)))))

    decode_members-Ends :
        (f : ℕ) (acc : Members) (s : Refs) (r : List ℕ)
        → length r < f
        → Ends (suc (length r)) (decode_members d f acc s r).0
    decode_members-Ends zero acc s r h = absurd (omega arith)
    decode_members-Ends (suc f) acc s r h =
        Ends-then_run (length r) (suc (length r)) _ _ (decode_sized-Ends 1 r) (λ key s r' short.
          key_case (decode d f) (decode_members d f) acc key s r' (length r) short
            (decode-Ends f s r' (omega arith))
            (λ acc s t lt. decode_members-Ends f acc s t (omega arith)))

    decode_values-Ends :
        (f n : ℕ) (s : Refs) (r : List ℕ)
        → length r + 1 < f
        → Ends (suc (length r)) (decode_values d f n s r).0
    decode_values-Ends zero n s r h = absurd (omega arith)
    decode_values-Ends (suc f) zero s r h = omega arith
    decode_values-Ends (suc f) (suc n) s r h =
        Ends-then_run (length r) (suc (length r)) _ _ (decode-Ends f s r (omega arith))
          (λ v s r' short.
            Ends-then_run (suc (length r')) (suc (length r)) _ _
              (decode_values-Ends f n s r' (omega arith)) (λ vs s r'' h'. omega arith))

  not_stuck : {A : Type 0} (n : ℕ) (x : Decoded A) → Ends n x → x ≢ stuck
  not_stuck n (got a r) h = λ e. absurd (cc)
  not_stuck n (failed e) h = λ e'. absurd (cc)
  not_stuck n panicked h = λ e'. absurd (cc)
  not_stuck n stuck h = absurd h

  -- DecodeAmf0 of any bytes, with any caches of version 3, ends in a value, an error or a panic, if
  -- every handler of an external class ends and leaves no more bytes than it was given.
  pub decode_ends : (s : Refs) (r : List ℕ) → (decode_amf0 d s r).0 ≢ stuck
  unfolding decode_amf0
  decode_ends s r = not_stuck (length r) _ (decode-Ends (length r + 2) s r (omega arith))
