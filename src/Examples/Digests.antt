-- ===== src/Examples/Digests.antt =====
-- The digest at concrete inputs.
use asterism_asper.Base.{◌%◌, ◌≡◌, [], ◌∷◌, ◌++◌, length, arith, ok, true, false}
use asterism_asper.Base.Text.{codes}
use asterism_asper.Sha256.{sha256, sha256_init, sha256_update, digest, FileRead, sha256_file}
use asterism_asper.Sha256.Stream.{sha256_update-append, absorb}
use asterism_asper.Sha256.Padding.{sha256-padding, sha256_file_lem, padding}

sha256-padding_example :
    (sha256 (codes "abc") ≡ digest (absorb sha256_init (codes "abc" ++ padding 3 24)).state)
    × (length (codes "abc" ++ padding 3 24) % 64 ≡ 0)
sha256-padding_example = sha256-padding (codes "abc")

sha256_update-append_example :
    sha256_update (sha256_update sha256_init (codes "as")) (codes "per")
    ≡ sha256_update sha256_init (codes "asper")
sha256_update-append_example =
    sha256_update-append sha256_init (codes "as") (codes "per") (omega arith)

abbrev two_pieces : FileRead
two_pieces = record {
  opened = true;
  exists = true;
  granted = true;
  pieces = codes "as" ∷ codes "per" ∷ [];
  failed = false;
}

sha256_file_lem_example : sha256_file two_pieces ≡ ok (sha256 (codes "asper"))
sha256_file_lem_example = sha256_file_lem two_pieces
