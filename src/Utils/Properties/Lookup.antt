-- ===== src/Utils/Properties/Lookup.antt =====
-- The map laws of the properties.
use my_ycsb_cpp.Prelude.{
  ℕ, ◌≢◌, ◌++◌, All, length, ◌≡◌, refl, true, [], ◌∷◌, some, arith, if◌then◌else◌,
}
use my_ycsb_cpp.Prelude.Bytes.{Bytes, bytes_eq, bytes_eq_iff, bytes_eq_refl}
use my_ycsb_cpp.Utils.Properties.{
  Properties, find, get_property, set_property, contains_key, find_byte,
}

pub find-set_property :
    (p : Properties) (key value k : Bytes)
    → find (set_property p key value) k ≡ (if bytes_eq key k then some value else find p k)
unfolding find set_property
find-set_property [] key value k = refl
find-set_property ((j, w) ∷ p) key value k = ground (
  arith,
  bytes_eq_iff j key,
  bytes_eq_iff key k,
  bytes_eq_iff j k,
  find-set_property p key value k,
)

-- A property that was set has its new value and every other property the value it had; the
-- property that was set is contained.
pub get_property-set_property :
    (p : Properties) (key value k default_value : Bytes)
    → (get_property (set_property p key value) k default_value
        ≡ (if bytes_eq key k then value else get_property p k default_value))
      × (contains_key (set_property p key value) key ≡ true)
unfolding get_property contains_key
get_property-set_property p key value k default_value = (
  ground (arith, find-set_property p key value k),
  ground (arith, find-set_property p key value key, bytes_eq_refl key),
)

pub find_byte_first :
    (c : ℕ) (k v : Bytes) → All (λ x. x ≢ c) k → find_byte c (k ++ c ∷ v) ≡ some (length k)
unfolding find_byte
find_byte_first c [] v h = ground arith
find_byte_first c (x ∷ k) v h = ground (arith, find_byte_first c k v h.1)
