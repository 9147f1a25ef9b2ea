-- ===== src/Btier/KeyMap/Tests.antt =====
-- Runs of btier/key_map.cc on a few keys.
use Prim.Native.String.{String}
use cxxlab.Prelude.{ℕ, ◌≡◌, refl, List, [], ◌∷◌, some, string_eq}
use cxxlab.Btier.Types.{KeyLocation}
use cxxlab.Btier.KeyMap.{
  KeyMap, Change, change, erase_key, batch_update, update_one, put_entry, putting, erasing,
  updating, changes, empty_key_map, lookup_loc, put_key, keys_in_extent, member,
  get_consecutive_sequential, next_run,
}
use cxxlab.Btier.KeyMap.Consistent.{keys_in_extent-lookup_loc, in_extent}
use cxxlab.Prelude.{lookup, put, erase}

abbrev at : ℕ → KeyLocation
at n = record { extent_id = n; offset = 0; length = 4096 }

abbrev few : List (Change String)
few =
    putting "a" (at 1) 4096
    ∷ putting "b" (at 1) 8192
    ∷ putting "a" (at 2) 12288
    ∷ updating (("b", at 3) ∷ ("c", at 3) ∷ [])
    ∷ erasing "c"
    ∷ []

abbrev few_keys : KeyMap String
few_keys = changes few empty_key_map

b_moved : lookup_loc "b" few_keys ≡ some (at 3)
unfolding lookup_loc changes change put_key erase_key batch_update update_one lookup put erase
b_moved = refl

a_ran : get_consecutive_sequential "a" few_keys ≡ 2
unfolding get_consecutive_sequential changes change put_key put_entry next_run erase_key
    batch_update update_one lookup put erase
a_ran = refl

keys_in_extent-lookup_loc_example :
    member "b" (keys_in_extent 3 few_keys) ≡ in_extent 3 (lookup_loc "b" few_keys)
keys_in_extent-lookup_loc_example = keys_in_extent-lookup_loc few 3 "b"
