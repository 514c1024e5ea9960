-- ===== src/Concurrency/Sort.antt =====
-- sort.Strings and uniqueStrings of internal/service/transaction/concurrency_lock.go.
use Prim.Native.String.{compare}
use text.Mathlib.Text.{is_le}
use double_entry_ledger_engi.Base.{Bool, String, List, [], ◌∷◌, same, if◌then◌else◌}

-- The order of texts by their bytes.
abbrev pub text_le : String → String → Bool
text_le s t = is_le (compare s t)

unfoldable pub insert_text : String → List String → List String
insert_text s [] = s ∷ []
insert_text s (t ∷ ts) = if text_le s t then s ∷ t ∷ ts else t ∷ insert_text s ts

-- sort.Strings, whose result is the one sorted arrangement of the texts.
unfoldable pub sort_strings : List String → List String
unfolding insert_text
sort_strings [] = []
sort_strings (s ∷ ss) = insert_text s (sort_strings ss)

-- The loop after its first round; `last` is the text kept before.
unfoldable pub unique_after : String → List String → List String
unique_after last [] = []
unique_after last (s ∷ ss) = if same s last then unique_after last ss else s ∷ unique_after s ss

unfoldable pub unique_strings : List String → List String
unfolding unique_after
unique_strings [] = []
unique_strings (s ∷ ss) = s ∷ unique_after s ss
