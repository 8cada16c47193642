-- ===== src/Sas/Bytes/Fields.antt =====
-- The six bytes of cm_olm_sas_generate_bytes of src/cm-olm-sas.c as one number of 48 bits.
use Prim.Native.Nat.{bit_and, bit_or}
use libcmatrix.Base.{
  ℕ, zero, suc, ◌+◌, ◌-◌, ◌*◌, ◌/◌, ◌%◌, ◌^◌, ◌<◌, ◌≡◌, refl, sym, ◌∙◌, List, [], ◌∷◌, map, arith,
}
use libcmatrix.Base.Bits.{bit_or-shifted, bit_and-mask}
use libcmatrix.Sas.Bytes.{SasBytes, sas_emoji_indices, sas_decimals}

-- the bytes as one number, the first byte highest
abbrev pub word : SasBytes → ℕ
word b =
    b.byte0 * 2 ^ 40
    + b.byte1 * 2 ^ 32
    + b.byte2 * 2 ^ 24
    + b.byte3 * 2 ^ 16
    + b.byte4 * 2 ^ 8
    + b.byte5

-- the next `count` fields of `width` bits below bit `high`
abbrev pub fields : ℕ → ℕ → ℕ → ℕ → List ℕ
fields width zero high x = []
fields width (suc count) high x =
    x / 2 ^ (high - width) % 2 ^ width ∷ fields width count (high - width) x

abbrev pub AreBytes : SasBytes → Type 0
AreBytes b =
    (b.byte0 < 256)
    × (b.byte1 < 256)
    × (b.byte2 < 256)
    × (b.byte3 < 256)
    × (b.byte4 < 256)
    × (b.byte5 < 256)

-- an index that lies in two bytes, of which the first gives its `j` low bits
shared :
    (a c j k m : ℕ)
    → suc m ≡ 2 ^ j
    → c / 2 ^ k < 2 ^ (8 - k)
    → bit_or (bit_and a m * 2 ^ (8 - k)) (c / 2 ^ k) ≡ a % 2 ^ j * 2 ^ (8 - k) + c / 2 ^ k
shared a c j k m e h = rw (bit_and-mask a j m e) (bit_or-shifted (a % 2 ^ j) (8 - k) (c / 2 ^ k) h)

-- The emoji indices are the seven highest fields of six bits of the six bytes.
pub sas_emoji_indices-fields :
    (b : SasBytes) → AreBytes b → sas_emoji_indices b ≡ fields 6 7 48 (word b)
unfolding sas_emoji_indices
sas_emoji_indices-fields b (h0, h1, h2, h3, h4, h5) =
    rw
      (
        shared b.byte0 b.byte1 2 4 3 refl (omega arith),
        shared b.byte1 b.byte2 4 6 15 refl (omega arith),
        bit_and-mask b.byte2 6 63 refl,
        shared b.byte3 b.byte4 2 4 3 refl (omega arith),
        shared b.byte4 b.byte5 4 6 15 refl (omega arith),
      )
      (ground arith)

-- the middle number takes bits of three bytes
middle :
    (b : SasBytes)
    → AreBytes b
    → bit_or (bit_or (bit_and b.byte1 7 * 2 ^ 10) (b.byte2 * 2 ^ 2)) (b.byte3 / 2 ^ 6)
      ≡ b.byte1 % 2 ^ 3 * 2 ^ 10 + b.byte2 * 2 ^ 2 + b.byte3 / 2 ^ 6
middle b (h0, h1, h2, h3, h4, h5) =
    let low = bit_or-shifted (b.byte1 % 8) 10 (b.byte2 * 4) (omega arith) in
    let high = bit_or-shifted (b.byte1 % 8 * 2 ^ 8 + b.byte2) 2 (b.byte3 / 64) (omega arith) in
    let same : (b.byte1 % 8 * 2 ^ 8 + b.byte2) * 2 ^ 2 ≡ b.byte1 % 8 * 2 ^ 10 + b.byte2 * 4 =
      omega arith in
    rw (bit_and-mask b.byte1 3 7 refl, low) (rw (sym same) (high ∙ omega arith))

-- Less 1000, the three numbers are the three highest fields of thirteen bits of the six bytes.
pub sas_decimals-fields :
    (b : SasBytes)
    → AreBytes b
    → sas_decimals b ≡ map (λ field. field + 1000) (fields 13 3 48 (word b))
unfolding sas_decimals
sas_decimals-fields b (h0, h1, h2, h3, h4, h5) =
    rw
      (
        bit_or-shifted b.byte0 5 (b.byte1 / 8) (omega arith),
        middle b (h0, h1, h2, h3, h4, h5),
        shared b.byte3 b.byte4 6 1 63 refl (omega arith),
      )
      (ground arith)
