-- ===== src/Amf/Maps.antt =====
-- Objects as maps: members whose keys are distinct are the map that they make.
use yoshiera_huang_livego.Prelude.{ℕ, ◌≡◌, refl, ap, ◌∙◌, false, List}
use yoshiera_huang_livego.Amf.Value.{
  Value, number, boolean, text, null, object, array, typed_object, integer, opaque, Members,
  no_members, member, Values, no_values, value, same_bytes, assign,
}

-- The value as the program holds it: each object is the map that its members make.
unfoldable mutual
  pub as_map : Value → Value
  as_map (number x) = number x
  as_map (boolean b) = boolean b
  as_map (text s) = text s
  as_map null = null
  as_map (object ms) = object (assign_all no_members ms)
  as_map (array vs) = array (as_maps vs)
  as_map (typed_object t ms) = typed_object t ms
  as_map (integer x) = integer x
  as_map opaque = opaque

  pub assign_all : Members → Members → Members
  assign_all acc no_members = acc
  assign_all acc (member k v ms) = assign_all (assign k (as_map v) acc) ms

  pub as_maps : Values → Values
  as_maps no_values = no_values
  as_maps (value v vs) = value (as_map v) (as_maps vs)

-- No key of the members is `k`.
abbrev pub IsApart : List ℕ → Members → Type 0
IsApart k no_members = Unit
IsApart k (member k' v ms) = (same_bytes k' k ≡ false) × IsApart k ms

-- The keys of each object are distinct.
unfoldable mutual
  pub IsMap : Value → Type 0
  IsMap (number x) = Unit
  IsMap (boolean b) = Unit
  IsMap (text s) = Unit
  IsMap null = Unit
  IsMap (object ms) = AreDistinct ms
  IsMap (array vs) = AreMaps vs
  IsMap (typed_object t ms) = Unit
  IsMap (integer x) = Unit
  IsMap opaque = Unit

  pub AreDistinct : Members → Type 0
  AreDistinct no_members = Unit
  AreDistinct (member k v ms) = IsApart k ms × IsMap v × AreDistinct ms

  pub AreMaps : Values → Type 0
  AreMaps no_values = Unit
  AreMaps (value v vs) = IsMap v × AreMaps vs

abbrev join : Members → Members → Members
join no_members ns = ns
join (member k v ms) ns = member k v (join ms ns)

join_assoc : (ls ms ns : Members) → join (join ls ms) ns ≡ join ls (join ms ns)
join_assoc no_members ms ns = refl
join_assoc (member k v ls) ms ns = ap (member k v) (join_assoc ls ms ns)

abbrev IsNew : List ℕ → Members → Type 0
IsNew k no_members = Unit
IsNew k (member k' v ms) = (same_bytes k k' ≡ false) × IsNew k ms

abbrev AreNew : Members → Members → Type 0
AreNew no_members acc = Unit
AreNew (member k v ms) acc = IsNew k acc × AreNew ms acc

assign_new :
    (k : List ℕ) (v : Value) (acc : Members)
    → IsNew k acc
    → assign k v acc ≡ join acc (member k v no_members)
assign_new k v no_members h = refl
assign_new k v (member k' v' acc) (e, h) = rw (e, assign_new k v acc h) refl

IsNew-join :
    (k k' : List ℕ) (v : Value) (acc : Members)
    → same_bytes k k' ≡ false
    → IsNew k acc
    → IsNew k (join acc (member k' v no_members))
IsNew-join k k' v no_members e h = (e, tt)
IsNew-join k k' v (member k'' v' acc) e (e', h) = (e', IsNew-join k k' v acc e h)

AreNew-join :
    (ms : Members) (k : List ℕ) (v : Value) (acc : Members)
    → IsApart k ms
    → AreNew ms acc
    → AreNew ms (join acc (member k v no_members))
AreNew-join no_members k v acc a h = tt
AreNew-join (member k' v' ms) k v acc (e, a) (h, hs) =
    (IsNew-join k' k v acc e h, AreNew-join ms k v acc a hs)

AreNew-nil : (ms : Members) → AreNew ms no_members
AreNew-nil no_members = tt
AreNew-nil (member k v ms) = (tt, AreNew-nil ms)

join-nil : (ms : Members) → ms ≡ join ms no_members
join-nil no_members = refl
join-nil (member k v ms) = ap (member k v) (join-nil ms)

mutual
  unfolding as_map IsMap

  pub as_map_lem : (v : Value) → IsMap v → as_map v ≡ v
  as_map_lem (number x) h = refl
  as_map_lem (boolean b) h = refl
  as_map_lem (text s) h = refl
  as_map_lem null h = refl
  as_map_lem (object ms) h = ap object (assign_all_lem ms no_members (AreNew-nil ms) h)
  as_map_lem (array vs) h = ap array (as_maps_lem vs h)
  as_map_lem (typed_object t ms) h = refl
  as_map_lem (integer x) h = refl
  as_map_lem opaque h = refl

  assign_all_lem :
      (ms acc : Members) → AreNew ms acc → AreDistinct ms → assign_all acc ms ≡ join acc ms
  assign_all_lem no_members acc h d = join-nil acc
  assign_all_lem (member k v ms) acc (h, hs) (apart, m, d) =
      ap (λ x. assign_all (assign k x acc) ms) (as_map_lem v m)
      ∙ ap (λ a. assign_all a ms) (assign_new k v acc h)
      ∙ assign_all_lem ms (join acc (member k v no_members)) (AreNew-join ms k v acc apart hs) d
      ∙ join_assoc acc (member k v no_members) ms

  as_maps_lem : (vs : Values) → AreMaps vs → as_maps vs ≡ vs
  as_maps_lem no_values h = refl
  as_maps_lem (value v vs) (h, hs) = (λ i. value (as_map_lem v h i) (as_maps_lem vs hs i))
