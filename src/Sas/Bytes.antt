-- ===== src/Sas/Bytes.antt =====
-- cm_olm_sas_generate_bytes of src/cm-olm-sas.c: the seven emojis and the three numbers that the two
-- users compare, cut from the six bytes that Olm derives from the shared secret. A shift to the left
-- by `k` is `* 2 ^ k`, one to the right `/ 2 ^ k`.
pub mod Fields
use Prim.Native.Nat.{bit_and, bit_or}
use libcmatrix.Base.{ℕ, ◌+◌, ◌*◌, ◌/◌, ◌%◌, ◌^◌, List, [], ◌∷◌}

-- the NUM_SAS_BYTES bytes
pub record SasBytes : Type 0 where
  pub byte0 : ℕ
  pub byte1 : ℕ
  pub byte2 : ℕ
  pub byte3 : ℕ
  pub byte4 : ℕ
  pub byte5 : ℕ

-- what is stored in a guint8 and in a guint16
abbrev pub to_uint8 : ℕ → ℕ
to_uint8 n = n % 2 ^ 8

abbrev pub to_uint16 : ℕ → ℕ
to_uint16 n = n % 2 ^ 16

unfoldable pub sas_emoji_indices : SasBytes → List ℕ
sas_emoji_indices b =
    to_uint8 (b.byte0 / 2 ^ 2)
    ∷ to_uint8 (bit_or (bit_and b.byte0 3 * 2 ^ 4) (b.byte1 / 2 ^ 4))
    ∷ to_uint8 (bit_or (bit_and b.byte1 15 * 2 ^ 2) (b.byte2 / 2 ^ 6))
    ∷ to_uint8 (bit_and b.byte2 63)
    ∷ to_uint8 (b.byte3 / 2 ^ 2)
    ∷ to_uint8 (bit_or (bit_and b.byte3 3 * 2 ^ 4) (b.byte4 / 2 ^ 4))
    ∷ to_uint8 (bit_or (bit_and b.byte4 15 * 2 ^ 2) (b.byte5 / 2 ^ 6))
    ∷ []

unfoldable pub sas_decimals : SasBytes → List ℕ
sas_decimals b =
    to_uint16 (bit_or (b.byte0 * 2 ^ 5) (b.byte1 / 2 ^ 3) + 1000)
    ∷ to_uint16
        (bit_or (bit_or (bit_and b.byte1 7 * 2 ^ 10) (b.byte2 * 2 ^ 2)) (b.byte3 / 2 ^ 6) + 1000)
    ∷ to_uint16 (bit_or (bit_and b.byte3 63 * 2 ^ 7) (b.byte4 / 2 ^ 1) + 1000)
    ∷ []
