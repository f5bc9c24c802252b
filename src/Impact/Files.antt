-- ===== src/Impact/Files.antt =====
-- The loop over the list of modified files comes to an end.
use code_scope.Prelude.{
  ℕ, zero, suc, ◌+◌, ◌≤◌, ◌<◌, Bool, ◌||◌, Option, some, List, [], ◌∷◌, Bytes, length, ◌==◌, ◌≡◌,
  refl, sym, ap, inl, inr, Bool-cases, Option-cases, arith, some_inj,
}
use code_scope.Impact.{
  is_list_blank, skip_blanks_of, quoted_path, cons_path, file_items, parse_file_list,
}

length-skip_blanks_of : (t : ℕ → Bool) (s : Bytes) → length (skip_blanks_of t s) ≤ length s
unfolding skip_blanks_of
length-skip_blanks_of t [] = omega arith
length-skip_blanks_of t (c ∷ s) = elim (Bool-cases (t c)) [
  | inl y ↦ rw y (omega (arith, length-skip_blanks_of t s))
  | inr n ↦ rw n (omega arith)
]

shorter : (p q : Bytes × Bytes) → some p ≡ some q → length q.1 ≡ length p.1
shorter p q e = ap (λ r. length r.1) (sym (some_inj p q e))

-- A path takes its closing quote at least.
length-quoted_path : (s path u : Bytes) → quoted_path s ≡ some (path, u) → length u < length s
unfolding quoted_path
length-quoted_path [] path u h = absurd (ground (arith, h))
length-quoted_path (c ∷ []) path u h = elim (Bool-cases (c == 34)) [
  | inl y ↦ omega (arith, shorter ([], []) (path, u) (rw y at h))
  | inr n ↦ absurd (ground (arith, rw n at h))
]
length-quoted_path (c ∷ d ∷ s) path u h = elim (Bool-cases (c == 34)) [
  | inl y ↦ omega (arith, shorter ([], d ∷ s) (path, u) (rw (y, quoted_path) at h))
  | inr n ↦ elim (Bool-cases (c == 92)) [
    | inl y ↦ elim (Option-cases (quoted_path s)) [
      | inl e ↦ absurd (ground (arith, rw (n, y, e, quoted_path) at h))
      | inr ((q, t), e) ↦ omega (
        arith,
        length-quoted_path s q t e,
        shorter (d ∷ q, t) (path, u) (rw (n, y, e, quoted_path) at h),
      )
    ]
    | inr m ↦ elim (Option-cases (quoted_path (d ∷ s))) [
      | inl e ↦ absurd (ground (arith, rw (n, m, e, quoted_path) at h))
      | inr ((q, t), e) ↦ omega (
        arith,
        length-quoted_path (d ∷ s) q t e,
        shorter (c ∷ q, t) (path, u) (rw (n, m, e, quoted_path) at h),
      )
    ]
  ]
]

cons_path_returns :
    (path : Bytes) (r : Option (List Bytes))
    → (files : List Bytes) × (r ≡ some files)
    → (files : List Bytes) × (cons_path path r ≡ some files)
cons_path_returns [] r (files, e) = (files, rw e refl)
cons_path_returns (d ∷ path) r (files, e) = ((d ∷ path) ∷ files, rw e refl)

file_items_round :
    (fuel : ℕ) (s r : Bytes)
    → skip_blanks_of (λ c. is_list_blank c || c == 44) s ≡ r
    → length r < suc fuel
    → ((u : Bytes) → length u < fuel → (files : List Bytes) × (file_items fuel u ≡ some files))
    → (files : List Bytes) × (file_items (suc fuel) s ≡ some files)
unfolding file_items
file_items_round fuel s [] e l again = ([], rw (e, file_items) refl)
file_items_round fuel s (c ∷ t) e l again = elim (Bool-cases (c == 34)) [
  | inr n ↦ ([], rw (e, n, file_items) refl)
  | inl y ↦ elim (Option-cases (quoted_path t)) [
    | inl q ↦ ([], rw (e, y, q, file_items) refl)
    | inr ((path, u), q) ↦
        let fewer : length u < fuel = omega (arith, l, length-quoted_path t path u q) in
        rw (e, y, q, file_items) (cons_path_returns path _ (again u fewer))
  ]
]

file_items_ends :
    (fuel : ℕ) (s : Bytes)
    → length s < fuel
    → (files : List Bytes) × (file_items fuel s ≡ some files)
file_items_ends zero s l = absurd (omega (arith, l))
file_items_ends (suc fuel) s l =
    let left : length (skip_blanks_of (λ c. is_list_blank c || c == 44) s) ≤ length s =
      length-skip_blanks_of (λ c. is_list_blank c || c == 44) s in
    file_items_round fuel s (skip_blanks_of (λ c. is_list_blank c || c == 44) s) refl
      (omega (arith, l, left)) (λ u m. file_items_ends fuel u m)

-- `parseFileList` returns on every text: its loop has a round more than the text has bytes.
pub parse_file_list_ends : (s : Bytes) → (files : List Bytes) × (parse_file_list s ≡ some files)
unfolding parse_file_list
parse_file_list_ends s = array (skip_blanks_of is_list_blank s) refl
  where
    array :
        (r : Bytes)
        → skip_blanks_of is_list_blank s ≡ r
        → (files : List Bytes) × (parse_file_list s ≡ some files)
    array [] e = ([], rw (e, parse_file_list) refl)
    array (c ∷ t) e = elim (Bool-cases (c == 91)) [
      | inr n ↦ ([], rw (e, n, parse_file_list) refl)
      | inl y ↦ rw (e, y, parse_file_list) (file_items_ends (length t + 1) t (omega arith))
    ]
