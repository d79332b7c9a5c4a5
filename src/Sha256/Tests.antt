-- ===== src/Sha256/Tests.antt =====
-- A known answer of FIPS 180-4.
use asterism_asper.Base.{◌≡◌, refl, [], ◌∷◌}
use asterism_asper.Base.Text.{codes}
use asterism_asper.Sha256.{
  sha256, sha256_final, pad_zeros, sha256_update, update_loop, transformed, sha_rounds, extended,
  block_words,
}

pub sha256_abc :
    sha256 (codes "abc")
    ≡ 0xba ∷ 0x78 ∷ 0x16 ∷ 0xbf ∷ 0x8f ∷ 0x01 ∷ 0xcf ∷ 0xea ∷ 0x41 ∷ 0x41 ∷ 0x40 ∷ 0xde ∷ 0x5d
      ∷ 0xae ∷ 0x22 ∷ 0x23 ∷ 0xb0 ∷ 0x03 ∷ 0x61 ∷ 0xa3 ∷ 0x96 ∷ 0x17 ∷ 0x7a ∷ 0x9c ∷ 0xb4 ∷ 0x10
      ∷ 0xff ∷ 0x61 ∷ 0xf2 ∷ 0x00 ∷ 0x15 ∷ 0xad ∷ []
unfolding sha256_final pad_zeros sha256_update update_loop transformed sha_rounds extended
    block_words
sha256_abc = refl
