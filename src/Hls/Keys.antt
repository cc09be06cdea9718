-- ===== src/Hls/Keys.antt =====
-- Segments by their keys.
use yoshiera_huang_livego.Prelude.{
  ℕ, ◌≡◌, refl, sym, ap, ◌∙◌, arith, inl, inr, true, false, Bool-cases, Option, none, some, List,
  [], ◌∷◌, ◌++◌, ◌==◌, if◌then◌else◌, ==_refl,
}
use yoshiera_huang_livego.Amf.Value.{same_bytes}
use yoshiera_huang_livego.Hls.Window.{TsItem}

-- A key and its segment.
abbrev pub Kept : Type 0
Kept = List ℕ × TsItem

abbrev pub find : List ℕ → List Kept → Option TsItem
find k [] = none
find k ((key, i) ∷ w) = if same_bytes k key then some i else find k w

abbrev pub keys : List Kept → List (List ℕ)
keys [] = []
keys ((key, i) ∷ w) = key ∷ keys w

pub same_bytes_refl : (s : List ℕ) → same_bytes s s ≡ true
same_bytes_refl [] = refl
same_bytes_refl (x ∷ s) = rw (==_refl x, same_bytes_refl s) refl

pub same_bytes_eq : (s t : List ℕ) → same_bytes s t ≡ true → s ≡ t
same_bytes_eq [] [] h = refl
same_bytes_eq [] (y ∷ t) h = absurd (cc)
same_bytes_eq (x ∷ s) [] h = absurd (cc)
same_bytes_eq (x ∷ s) (y ∷ t) h = elim (Bool-cases (x == y)) [
  | inl e ↦
      let heads : x ≡ y = ground arith in
      let tails = same_bytes_eq s t (rw e at h) in (λ i. heads i ∷ tails i)
  | inr e ↦ let no : false ≡ true = rw e at h in absurd (cc)
]

abbrev or_else : Option TsItem → Option TsItem → Option TsItem
or_else none y = y
or_else (some x) y = some x

or_else-none : (x : Option TsItem) → or_else x none ≡ x
or_else-none none = refl
or_else-none (some x) = refl

pub find-append : (k : List ℕ) (a b : List Kept) → find k (a ++ b) ≡ or_else (find k a) (find k b)
find-append k [] b = refl
find-append k ((key, i) ∷ a) b = elim (Bool-cases (same_bytes k key)) [
  | inl e ↦ rw e refl
  | inr e ↦ rw e (find-append k a b)
]

-- A key that is not there is not there behind some others.
pub find_behind : (k : List ℕ) (a b : List Kept) → find k (a ++ b) ≡ none → find k b ≡ none
find_behind k [] b h = h
find_behind k ((key, i) ∷ a) b h = elim (Bool-cases (same_bytes k key)) [
  | inl e ↦ let found : some i ≡ none = rw e at h in absurd (cc)
  | inr e ↦ find_behind k a b (rw e at h)
]

pub put_lem :
    (w : List Kept) (key q : List ℕ) (i : TsItem)
    → find key w ≡ none
    → (if same_bytes q key then some i else find q w) ≡ find q (w ++ (key, i) ∷ [])
put_lem w key q i new = elim (Bool-cases (same_bytes q key)) [
  | inl e ↦
      let gone : find q w ≡ none = ap (λ k. find k w) (same_bytes_eq q key e) ∙ new in
      rw e (sym (find-append q w ((key, i) ∷ []) ∙ rw (gone, e) refl))
  | inr e ↦ rw e (sym (find-append q w ((key, i) ∷ []) ∙ rw e (or_else-none (find q w))))
]

pub delete_lem :
    (x : Kept) (w : List Kept) (q : List ℕ)
    → find x.0 w ≡ none
    → (if same_bytes q x.0 then none else find q (x ∷ w)) ≡ find q w
delete_lem x w q once = elim (Bool-cases (same_bytes q x.0)) [
  | inl e ↦ rw e (sym (ap (λ k. find k w) (same_bytes_eq q x.0 e) ∙ once))
  | inr e ↦ rw e refl
]

unfoldable pub AreDistinct : List Kept → Type 0
AreDistinct [] = Unit
AreDistinct ((key, i) ∷ w) = (find key w ≡ none) × AreDistinct w

pub distinct-snoc :
    (w : List Kept) (key : List ℕ) (i : TsItem)
    → AreDistinct w
    → find key w ≡ none
    → AreDistinct (w ++ (key, i) ∷ [])
unfolding AreDistinct
distinct-snoc [] key i d new = (refl, tt)
distinct-snoc ((k, j) ∷ w) key i (once, d) new =
    let rest = find_behind key ((k, j) ∷ []) w new in
    elim (Bool-cases (same_bytes k key)) [
      | inl e ↦
          let same = same_bytes_eq k key e in
          let hit : same_bytes key k ≡ true = ap (same_bytes key) same ∙ same_bytes_refl key in
          let found : some j ≡ none = rw hit at new in absurd (cc)
      | inr e ↦ (find-append k w ((key, i) ∷ []) ∙ rw (once, e) refl, distinct-snoc w key i d rest)
    ]

unfoldable pub AreFound : (List ℕ → Option TsItem) → List Kept → Type 0
AreFound lm [] = Unit
AreFound lm ((key, i) ∷ w) = (lm key ≡ some i) × AreFound lm w

found_behind :
    (x : Kept) (w u : List Kept)
    → find x.0 w ≡ none
    → AreFound (λ q. find q w) u
    → AreFound (λ q. find q (x ∷ w)) u
unfolding AreFound
found_behind x w [] once f = tt
found_behind x w ((key, i) ∷ u) once (here, f) = elim (Bool-cases (same_bytes key x.0)) [
  | inl e ↦
      let none_here : find key w ≡ none = ap (λ k. find k w) (same_bytes_eq key x.0 e) ∙ once in
      let both : some i ≡ none = sym here ∙ none_here in absurd (cc)
  | inr e ↦ (rw e here, found_behind x w u once f)
]

pub found_lem : (w : List Kept) → AreDistinct w → AreFound (λ q. find q w) w
unfolding AreFound AreDistinct
found_lem [] d = tt
found_lem ((key, i) ∷ w) (once, d) =
    (rw (same_bytes_refl key) refl, found_behind (key, i) w w once (found_lem w d))

pub found_at :
    (lm : List ℕ → Option TsItem) (w u : List Kept)
    → ((q : List ℕ) → lm q ≡ find q w)
    → AreFound (λ q. find q w) u
    → AreFound lm u
unfolding AreFound
found_at lm w [] same f = tt
found_at lm w ((key, i) ∷ u) same (here, f) = (same key ∙ here, found_at lm w u same f)
