-- ===== src/Filter/Trim.antt =====
-- `find_first_not_of` and `find_last_not_of`, as the loaders use them to trim a text.
use code_scope.Prelude.{ℕ, Bool, ◌≡◌, ap, ◌∙◌, [], ◌∷◌, Bytes, if◌then◌else◌}

module _ (blank : ℕ → Bool) where
  unfoldable pub trim_front : Bytes → Bytes
  trim_front [] = []
  trim_front (c ∷ s) = let rest = trim_front s in if blank c then rest else c ∷ s

  -- A byte in front of what trimming leaves behind it.
  abbrev pub put_front : ℕ → Bytes → Bytes
  put_front c [] = if blank c then [] else c ∷ []
  put_front c (x ∷ s) = c ∷ x ∷ s

  unfoldable pub trim_back : Bytes → Bytes
  trim_back [] = []
  trim_back (c ∷ s) = put_front c (trim_back s)

  unfoldable pub trim : Bytes → Bytes
  unfolding trim_front trim_back
  trim s = trim_back (trim_front s)

  -- A text that starts and ends with something that stays.
  abbrev pub IsTight : Bytes → Type 0
  IsTight s = (trim_front s ≡ s) × (trim_back s ≡ s)

  pub trim-IsTight : (s : Bytes) → IsTight s → trim s ≡ s
  unfolding trim
  trim-IsTight s (front, back) = ap trim_back front ∙ back
