-- ===== src/Consolidate/Profile.antt =====
-- pipelines/consolidate_profile.go: the identity profile and the updates of a consolidation.
-- A JSON value is an array of its items or something else; the values of other kinds are of any type
-- `J`, and a list of objects is an array of them, also where Go's slice is nil. A map is an
-- association list, in the order in which Go goes through it. The printed identifiers and
-- `strings.ToLower` are the argument `key_of`; parsing, printing a value and quoting a key are
-- arguments as well.
use sokratos.Base.{
  ℕ, zero, suc, ◌-◌, Bool, true, false, not, ◌&&◌, ◌||◌, Option, none, some, List, [], ◌∷◌, ◌++◌,
  ltb, if◌then◌else◌, length, drop, bytes, bytes_eq,
}
use sokratos.Registry.{lookup, assign}

pub data Item (J : Type 0) : Type 0 where
  object : List (List ℕ × J) → Item J
  single : J → Item J

pub data ProfileValue (J : Type 0) : Type 0 where
  array : List (Item J) → ProfileValue J
  other : J → ProfileValue J

abbrev pub name_key : List ℕ
name_key = bytes "name"

abbrev pub people_key : List ℕ
people_key = bytes "important_people"

abbrev pub consolidated_key : List ℕ
consolidated_key = bytes "last_consolidated"

abbrev pub max_people : ℕ
max_people = 15

unfoldable pub has_key {ℓ} : {A : Type ℓ} → List (List ℕ × A) → List ℕ → Bool
unfolding lookup
has_key m key = elim (lookup m key) [ none ↦ false | some v ↦ true ]

-- `maps.Copy(entry, upd)`.
unfoldable pub copy {ℓ} : {A : Type ℓ} → List (List ℕ × A) → List (List ℕ × A) → List (List ℕ × A)
unfolding assign
copy entry [] = entry
copy entry ((k, v) ∷ upd) = copy (assign entry k v) upd

unfoldable pub objects_of : {J : Type 0} → List (Item J) → List (List (List ℕ × J))
objects_of [] = []
objects_of (object o ∷ items) = o ∷ objects_of items
objects_of (single v ∷ items) = objects_of items

-- `toObjectSlice`.
unfoldable pub to_object_slice : {J : Type 0} → Option (ProfileValue J) → List (List (List ℕ × J))
unfolding objects_of
to_object_slice none = []
to_object_slice (some (array items)) = objects_of items
to_object_slice (some (other v)) = []

unfoldable pub object_items : {J : Type 0} → List (List (List ℕ × J)) → List (Item J)
object_items [] = []
object_items (o ∷ objects) = object o ∷ object_items objects

abbrev pub as_array : {J : Type 0} → List (List (List ℕ × J)) → ProfileValue J
as_array objects = array (object_items objects)

abbrev pub is_card_key : List ℕ → Bool
is_card_key key =
    bytes_eq key name_key || (bytes_eq key people_key || bytes_eq key consolidated_key)

unfoldable pub card_only {ℓ} : {A : Type ℓ} → List (List ℕ × A) → List (List ℕ × A)
card_only [] = []
card_only ((key, value) ∷ m) =
    let rest = card_only m in if is_card_key key then (key, value) ∷ rest else rest

unfoldable pub cap_people :
    {J : Type 0} → List (List ℕ × ProfileValue J) → List (List ℕ × ProfileValue J)
unfolding to_object_slice lookup assign
cap_people m =
    let people = to_object_slice (lookup m people_key) in
    if ltb max_people (length people)
    then assign m people_key (as_array (drop (length people - max_people) people))
    else m

-- `validateProfile` returns no error.
unfoldable pub validate_profile {ℓ} : {A : Type ℓ} → List (List ℕ × A) → List (List ℕ × A) → Bool
unfolding has_key
validate_profile merged current =
    (not (has_key current name_key) || has_key merged name_key)
    && (not (has_key current people_key) || has_key merged people_key)

module _ {J : Type 0} (key_of : J → List ℕ) where
  -- The positions by identifier, from position `i` on.
  unfoldable pub index_from :
      List ℕ → ℕ → List (List (List ℕ × J)) → List (List ℕ × ℕ) → List (List ℕ × ℕ)
  unfolding lookup assign
  index_from id_field i [] index = index
  index_from id_field i (o ∷ objects) index =
      index_from id_field (suc i) objects
        (elim (lookup o id_field) [ none ↦ index | some id ↦ assign index (key_of id) i ])

  unfoldable pub copy_at :
      ℕ → List (List ℕ × J) → List (List (List ℕ × J)) → List (List (List ℕ × J))
  unfolding copy
  copy_at i upd [] = []
  copy_at zero upd (o ∷ objects) = copy o upd ∷ objects
  copy_at (suc i) upd (o ∷ objects) = o ∷ copy_at i upd objects

  -- The loop of `mergeObjectArray` over the updates.
  unfoldable pub upsert_objects :
      List ℕ
      → List (List ℕ × ℕ)
      → List (List (List ℕ × J))
      → List (List (List ℕ × J))
      → List (List (List ℕ × J))
  unfolding lookup assign copy_at
  upsert_objects id_field index objects [] = objects
  upsert_objects id_field index objects (upd ∷ updates) = elim (lookup upd id_field) [
    | none ↦ upsert_objects id_field index (objects ++ upd ∷ []) updates
    | some id ↦ elim (lookup index (key_of id)) [
      | some i ↦ upsert_objects id_field index (copy_at i upd objects) updates
      | none ↦
          upsert_objects id_field (assign index (key_of id) (length objects)) (objects ++ upd ∷ [])
            updates
    ]
  ]

  unfoldable pub merge_object_array :
      Option (ProfileValue J) → Option (ProfileValue J) → List ℕ → ProfileValue J
  unfolding to_object_slice index_from upsert_objects
  merge_object_array current update id_field =
      let objects = to_object_slice current in
      as_array (
        upsert_objects id_field (index_from id_field 0 objects []) objects (to_object_slice update))

  -- The loop over the updates.
  unfoldable pub apply_updates :
      List (List ℕ × ProfileValue J)
      → List (List ℕ × ProfileValue J)
      → List (List ℕ × ProfileValue J)
  unfolding assign lookup merge_object_array
  apply_updates current [] = current
  apply_updates current ((key, value) ∷ updates) =
      apply_updates
        (assign current key (
          if bytes_eq key people_key
          then merge_object_array (lookup current key) (some value) name_key
          else value))
        updates

  -- `mergeProfileJSON` between parsing and printing.
  unfoldable pub merge_profile :
      List (List ℕ × ProfileValue J)
      → List (List ℕ × ProfileValue J)
      → List (List ℕ × ProfileValue J)
  unfolding apply_updates card_only cap_people
  merge_profile current updates = cap_people (card_only (apply_updates current updates))

infixl 5 ◌>>=◌
abbrev ◌>>=◌ {ℓ κ} : {A : Type ℓ} {B : Type κ} → Option A → (A → Option B) → Option B
none >>= f = none
some a >>= f = f a

abbrev profile_key_order : List (List ℕ)
profile_key_order = name_key ∷ people_key ∷ consolidated_key ∷ []

-- The entries whose keys have not been seen, which the second loop prints.
unfoldable pub extra_entries {ℓ} : {A : Type ℓ} → List (List ℕ × A) → List (List ℕ × A)
extra_entries [] = []
extra_entries ((key, value) ∷ m) =
    let rest = extra_entries m in if is_card_key key then rest else (key, value) ∷ rest

-- The entries of the given keys, in their order.
unfoldable canonical {ℓ} : {A : Type ℓ} → List (List ℕ × A) → List (List ℕ) → List (List ℕ × A)
unfolding lookup
canonical m [] = []
canonical m (key ∷ keys) =
    let rest = canonical m keys in
    elim (lookup m key) [ none ↦ rest | some value ↦ (key, value) ∷ rest ]

-- `strings.Join(ordered, ",\n")`.
unfoldable join_entries : List (List ℕ) → List ℕ
join_entries [] = []
join_entries (e ∷ []) = e
join_entries (e ∷ (f ∷ es)) = e ++ (bytes "," ++ 10 ∷ join_entries (f ∷ es))

-- How the parsing of a text into a map ends.
pub data Parsed (J : Type 0) : Type 0 where
  refused : Parsed J
  null : Parsed J
  parsed : List (List ℕ × ProfileValue J) → Parsed J

pub data ProfileEnd : Type 0 where
  merged : List ℕ → ProfileEnd
  no_parse : ProfileEnd
  no_marshal : ProfileEnd
  panics : ProfileEnd

-- `%q` and `json.MarshalIndent`.
module _ {J : Type 0} (quote : List ℕ → List ℕ) (marshal : ProfileValue J → Option (List ℕ)) where
  unfoldable print_entries : List (List ℕ × ProfileValue J) → Option (List (List ℕ))
  print_entries [] = some []
  print_entries ((key, value) ∷ m) = do
    entry ← marshal value
    rest ← print_entries m
    some ((bytes "  " ++ (quote key ++ (bytes ": " ++ entry))) ∷ rest)

  unfoldable pub marshal_profile_ordered : List (List ℕ × ProfileValue J) → Option (List ℕ)
  unfolding print_entries canonical extra_entries join_entries
  marshal_profile_ordered m = do
    ordered ← print_entries (canonical m profile_key_order ++ extra_entries m)
    some (bytes "{" ++ (10 ∷ join_entries ordered ++ (10 ∷ bytes "}")))

  module _ (key_of : J → List ℕ) (parse : List ℕ → Parsed J) where
    unfoldable marshalled : List (List ℕ × ProfileValue J) → ProfileEnd
    unfolding marshal_profile_ordered
    marshalled m = elim (marshal_profile_ordered m) [ none ↦ no_marshal | some s ↦ merged s ]

    -- A map that JSON's null leaves nil is read like an empty one, and panics when it is assigned to.
    unfoldable merge_parsed : Parsed J → List (List ℕ × ProfileValue J) → ProfileEnd
    unfolding merge_profile marshalled
    merge_parsed refused updates = marshalled (merge_profile key_of [] updates)
    merge_parsed null [] = marshalled (merge_profile key_of [] [])
    merge_parsed null (u ∷ updates) = panics
    merge_parsed (parsed m) updates = marshalled (merge_profile key_of m updates)

    unfoldable pub merge_profile_json : List ℕ → List ℕ → ProfileEnd
    unfolding merge_parsed
    merge_profile_json current updates = elim (parse updates) [
      | refused ↦ no_parse
      | null ↦ merge_parsed (parse current) []
      | parsed m ↦ merge_parsed (parse current) m
    ]
