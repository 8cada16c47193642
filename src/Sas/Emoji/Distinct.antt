-- ===== src/Sas/Emoji/Distinct.antt =====
-- The place of an emoji in the table of src/cm-olm-sas.c.
use libcmatrix.Base.{
  ℕ, zero, suc, ◌<◌, String, ◌≡◌, refl, inl, inr, Bool, true, ◌&&◌, Option, none, some, List, [],
  ◌∷◌, map, get_elem?, All, ◌==◌, ==_iff, Bool-cases, if◌then◌else◌, arith,
}
use libcmatrix.Base.Text.{str_eq}
use libcmatrix.Sas.Bytes.{SasBytes}
use libcmatrix.Sas.Bytes.Fields.{fields, word, AreBytes, sas_emoji_indices-fields}
use libcmatrix.Sas.Emoji.{emojis, emojis_at, sas_emojis}

-- the place of the first such emoji, counted from `start` on
abbrev index_of : String → List String → ℕ → ℕ
index_of s [] start = start
index_of s (x ∷ xs) start = if str_eq s x then start else index_of s xs (suc start)

-- 64 for what is not in the table
abbrev pub read : Option String → ℕ
read none = 64
read (some s) = index_of s emojis 0

abbrev reads_back : ℕ → Bool
reads_back zero = true
reads_back (suc n) = reads_back n && (read (get_elem? emojis n) == n)

reads_back_all : reads_back 64 ≡ true
reads_back_all = refl

both : (a b : Bool) → (a && b) ≡ true → (a ≡ true) × (b ≡ true)
both a b h = ground arith

read_back : (n i : ℕ) → reads_back n ≡ true → i < n → read (get_elem? emojis i) ≡ i
read_back zero i h k = omega (arith, k)
read_back (suc n) i h k =
    let (before, here) = both (reads_back n) (read (get_elem? emojis n) == n) h in
    elim (Bool-cases (i == n)) [
      | inl e ↦ rw ((==_iff i n).0 e) ((==_iff (read (get_elem? emojis n)) n).0 here)
      | inr e ↦ read_back n i before (ground arith)
    ]

read-emojis_at :
    (indices : List ℕ) → All (λ i. i < 64) indices → map read (emojis_at indices) ≡ indices
unfolding emojis_at
read-emojis_at [] h = refl
read-emojis_at (i ∷ indices) (h, hs) =
    rw (read_back 64 i reads_back_all h, read-emojis_at indices hs) refl

fields_bound : (b : SasBytes) → All (λ i. i < 64) (fields 6 7 48 (word b))
fields_bound b = ground arith

-- Of six bytes, the emojis that are shown are all in the table, and the index of each can be read
-- back: they are the seven highest fields of six bits.
pub sas_emojis-read : (b : SasBytes) → AreBytes b → map read (sas_emojis b) ≡ fields 6 7 48 (word b)
unfolding sas_emojis
sas_emojis-read b h =
    rw (sas_emoji_indices-fields b h) (read-emojis_at (fields 6 7 48 (word b)) (fields_bound b))
