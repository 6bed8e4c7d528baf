-- ===== src/Map/Interface.antt =====
-- src/map/map.c: the operations of a map over an implementation, and what an implementation owes.
use ssr.Base.{ℕ, ◌≡◌, Bool, true, ◌&&◌, ◌||◌, Option, some, ◌==◌, if◌then◌else◌, update}
use ssr.Map.Spec.{met_by, is_exact}
use ssr.Map.{does_not_exist, expect_does_not_exist, expect_exists, expect_whatever}

-- `struct map_impl`, the operations on the data of a map of type `S`; `none` is a call that does
-- not return.
pub record MapImpl (S : Type 0) : Type 0 where
  pub cas : S → (key expected_val new_val : ℕ) → Option (ℕ × S)
  pub get : S → (key : ℕ) → Option ℕ
  pub remove : S → (key : ℕ) → Option (ℕ × S)
  pub count : S → Option ℕ

module _ {S : Type 0} (impl : MapImpl S) where
  abbrev pub map_count : S → Option ℕ
  map_count s = impl.count s

  abbrev pub map_get : S → (key : ℕ) → Option ℕ
  map_get s key = impl.get s key

  abbrev pub map_set : S → (key new_val : ℕ) → Option (ℕ × S)
  map_set s key new_val = impl.cas s key expect_whatever new_val

  abbrev pub map_add : S → (key new_val : ℕ) → Option (ℕ × S)
  map_add s key new_val = impl.cas s key expect_does_not_exist new_val

  abbrev pub map_cas : S → (key expected_val new_val : ℕ) → Option (ℕ × S)
  map_cas s key expected_val new_val = impl.cas s key expected_val new_val

  abbrev pub map_replace : S → (key new_val : ℕ) → Option (ℕ × S)
  map_replace s key new_val = impl.cas s key expect_exists new_val

  abbrev pub map_remove : S → (key : ℕ) → Option (ℕ × S)
  map_remove s key = impl.remove s key

-- Whether a compare-and-set writes, where the key has the value `old`.
abbrev pub writes : (old expectation : ℕ) → Bool
writes old expectation =
    if old == does_not_exist
    then expectation == expect_does_not_exist || expectation == expect_whatever
    else met_by old expectation

-- The finite map after a compare-and-set.
abbrev pub set_if : (ℕ → ℕ) → (key expectation new_val : ℕ) → ℕ → ℕ
set_if m key expectation new_val j = if writes (m key) expectation && key == j then new_val else m j

-- What an implementation owes to the keys of `IsKey` and the values of `IsVal`: `Holds s m` says that
-- `s` holds the finite map `m` from keys to values, DOES_NOT_EXIST for a key that is not there, and
-- `Room s m` that there is room for one key more. Of a compare-and-set nothing is owed where the
-- expectation is neither special nor the value of the key, since the implementations differ there.
pub record MapLaws {S : Type 0} (impl : MapImpl S) (IsKey IsVal : ℕ → Type 0)
    (Holds Room : S → (ℕ → ℕ) → Type 0) : Type 0 where
  pub room_holds : (s : S) (m : ℕ → ℕ) → Room s m → Holds s m
  pub get_law :
      (s : S) (m : ℕ → ℕ) (key : ℕ) → Holds s m → IsKey key → impl.get s key ≡ some (m key)
  pub remove_law :
      (s : S) (m : ℕ → ℕ) (key : ℕ)
      → Holds s m
      → IsKey key
      → (t : S) × (impl.remove s key ≡ some (m key, t)) × Holds t (update m key does_not_exist)
  pub cas_law :
      (s : S) (m : ℕ → ℕ) (key expectation new_val : ℕ)
      → Room s m
      → IsKey key
      → IsVal new_val
      → is_exact (m key) expectation ≡ true
      → (t : S) × (impl.cas s key expectation new_val ≡ some (m key, t))
        × Holds t (set_if m key expectation new_val)
