-- ===== src/Sas/Emoji.antt =====
-- The table `emojis` of src/cm-olm-sas.c, and the emojis that cm_olm_sas_get_emojis shows.
pub mod Distinct
use libcmatrix.Base.{ℕ, String, Option, none, some, List, [], ◌∷◌, get_elem?}
use libcmatrix.Sas.Bytes.{SasBytes, sas_emoji_indices}

abbrev pub emojis : List String
emojis =
    "🐶" ∷ "🐱" ∷ "🦁" ∷ "🐎" ∷ "🦄" ∷ "🐷" ∷ "🐘" ∷ "🐰" ∷ "🐼" ∷ "🐓" ∷ "🐧" ∷ "🐢" ∷ "🐟" ∷ "🐙" ∷ "🦋" ∷ "🌷"
    ∷ "🌳" ∷ "🌵" ∷ "🍄" ∷ "🌏" ∷ "🌙" ∷ "☁\u{fe0f}" ∷ "🔥" ∷ "🍌" ∷ "🍎" ∷ "🍓" ∷ "🌽" ∷ "🍕" ∷ "🎂"
    ∷ "❤\u{fe0f}" ∷ "😀" ∷ "🤖" ∷ "🎩" ∷ "👓" ∷ "🔧" ∷ "🎅" ∷ "👍" ∷ "☂\u{fe0f}" ∷ "⌛" ∷ "⏰" ∷ "🎁" ∷ "💡"
    ∷ "📕" ∷ "✏\u{fe0f}" ∷ "📎" ∷ "✂\u{fe0f}" ∷ "🔒" ∷ "🔑" ∷ "🔨" ∷ "☎\u{fe0f}" ∷ "🏁" ∷ "🚂" ∷ "🚲"
    ∷ "✈\u{fe0f}" ∷ "🚀" ∷ "🏆" ∷ "⚽" ∷ "🎸" ∷ "🎺" ∷ "🔔" ∷ "⚓" ∷ "🎧" ∷ "📁" ∷ "📌" ∷ []

-- An index outside of the table has no emoji.
unfoldable pub emojis_at : List ℕ → List (Option String)
emojis_at [] = []
emojis_at (index ∷ indices) = get_elem? emojis index ∷ emojis_at indices

unfoldable pub sas_emojis : SasBytes → List (Option String)
sas_emojis b = emojis_at (sas_emoji_indices b)
