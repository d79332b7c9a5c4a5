-- ===== src/Examples/Uuids.antt =====
-- UUIDs of concrete bytes.
use asterism_asper.Base.{ℕ, ◌≡◌, refl, true, length, List, [], ◌∷◌, some, get_or, arith}
use asterism_asper.Base.{IsBytes}
use asterism_asper.Uuid.{uuid_valid, uuid_from_bytes, uuid_to_bytes, uuid_v4}
use asterism_asper.Uuid.RoundTrip.{to_bytes-from_bytes, uuid_v4_lem}

abbrev sixteen : List ℕ
sixteen = 222 ∷ 173 ∷ 190 ∷ 239 ∷ 1 ∷ 2 ∷ 3 ∷ 4 ∷ 5 ∷ 6 ∷ 7 ∷ 8 ∷ 9 ∷ 10 ∷ 11 ∷ 255 ∷ []

sixteen-IsBytes : IsBytes sixteen
sixteen-IsBytes = omega arith

to_bytes-from_bytes_example :
    (uuid_valid (uuid_from_bytes sixteen) ≡ true)
    × (uuid_to_bytes (uuid_from_bytes sixteen) ≡ some sixteen)
to_bytes-from_bytes_example = to_bytes-from_bytes sixteen sixteen-IsBytes refl

uuid_v4_lem_example :
    (uuid_valid (uuid_v4 sixteen) ≡ true)
    × ((bytes : List ℕ) × (uuid_to_bytes (uuid_v4 sixteen) ≡ some bytes)
        × (length bytes ≡ 16)
        × (get_or bytes 3 0 ≡ get_or sixteen 3 0))
uuid_v4_lem_example = uuid_v4_lem sixteen 3 sixteen-IsBytes refl
