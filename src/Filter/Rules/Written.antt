-- ===== src/Filter/Rules/Written.antt =====
-- `loadGitignore` on the lines of rules.
use code_scope.Prelude.{
  ℕ, Bool, true, false, ◌||◌, some, List, [], ◌∷◌, ◌++◌, append_assoc, append-nil, Bytes, ◌==◌, All,
  if◌then◌else◌, ◌≡◌, refl, sym, ap, ◌∙◌, arith, false≢true,
}
use code_scope.Filter.Glob.{star, slash}
use code_scope.Filter.Trim.{trim_front, trim_back, put_front, trim-IsTight}
use code_scope.Filter.Ignore.{Rule}
use code_scope.Filter.Rules.{
  is_edge, has_star_byte, take_mark, take_end, make_rule, with_end, parse_trimmed, parse_line,
  add_rule, load_lines, load_gitignore,
}

abbrev mark_if : Bool → ℕ → Bytes
mark_if true c = c ∷ []
mark_if false c = []

-- The line of a rule.
abbrev pub rule_text : Rule → Bytes
rule_text r =
    mark_if r.negate b'!' ++ (mark_if r.anchored slash ++ (r.pattern ++ mark_if r.dir_only slash))

-- A byte that may start a pattern: no mark and no margin.
abbrev is_start : Bytes → Bool
is_start [] = false
is_start (c ∷ s) = if c == b'#' || c == b'!' || c == slash || is_edge c then false else true

-- A byte inside a line.
abbrev IsInline : ℕ → Type 0
IsInline c = (c == 10) ≡ false

-- A rule that is written without escapes: its pattern is not empty, starts with no mark and no slash,
-- ends with no slash, has no white space at its ends and no newline, and `has_star` tells whether
-- it has a star. Lines state other patterns too, such as `#x` after a leading slash.
abbrev pub IsWritten : Rule → Type 0
IsWritten r =
    (is_start r.pattern ≡ true)
    × (take_end r.pattern ≡ (false, r.pattern))
    × (trim_back is_edge r.pattern ≡ r.pattern)
    × (has_star_byte r.pattern ≡ r.has_star)
    × All IsInline r.pattern

take_end-slash : (s : Bytes) → take_end (s ++ slash ∷ []) ≡ (true, s)
unfolding take_end
take_end-slash [] = refl
take_end-slash (c ∷ []) = refl
take_end-slash (c ∷ d ∷ s) = ap (λ (found, rest). (found, c ∷ rest)) (take_end-slash (d ∷ s))

take_end-front :
    (c x : ℕ) (s : Bytes) → take_end (c ∷ x ∷ s) ≡ ((take_end (x ∷ s)).0, c ∷ (take_end (x ∷ s)).1)
unfolding take_end
take_end-front c x s = refl

trim_back-front :
    (blank : ℕ → Bool) (c x : ℕ) (s : Bytes)
    → trim_back blank (x ∷ s) ≡ x ∷ s
    → trim_back blank (c ∷ x ∷ s) ≡ c ∷ x ∷ s
unfolding trim_back
trim_back-front blank c x s h = ap (put_front blank c) h

trim_back-slash : (s : Bytes) → trim_back is_edge (s ++ slash ∷ []) ≡ s ++ slash ∷ []
unfolding trim_back
trim_back-slash [] = refl
trim_back-slash (c ∷ []) = refl
trim_back-slash (c ∷ d ∷ s) = ap (put_front is_edge c) (trim_back-slash (d ∷ s))

module _ (x : ℕ) (s : Bytes) (h : is_start (x ∷ s) ≡ true) where
  start-hash : (x == b'#') ≡ false
  start-hash = ground arith

  start-bang : (x == b'!') ≡ false
  start-bang = ground arith

  start-slash : (x == slash) ≡ false
  start-slash = ground arith

  start-is_edge : is_edge x ≡ false
  start-is_edge = ground arith

module _ (x : ℕ) (s : Bytes) where
  -- What stands behind the `!`.
  abbrev body : Bool → Bool → Bytes
  body anchored dir_only = mark_if anchored slash ++ ((x ∷ s) ++ mark_if dir_only slash)

  take_end-body :
      (anchored dir_only : Bool)
      → take_end (x ∷ s) ≡ (false, x ∷ s)
      → take_end (body anchored dir_only) ≡ (dir_only, mark_if anchored slash ++ x ∷ s)
  take_end-body true true h = take_end-slash (slash ∷ x ∷ s)
  take_end-body false true h = take_end-slash (x ∷ s)
  take_end-body false false h = ap take_end (append-nil (x ∷ s)) ∙ h
  take_end-body true false h =
      ap (λ t. take_end (slash ∷ t)) (append-nil (x ∷ s))
      ∙ take_end-front slash x s
      ∙ ap (λ (found, rest). (found, slash ∷ rest)) h

  trim_back-body :
      (negate anchored dir_only : Bool)
      → trim_back is_edge (x ∷ s) ≡ x ∷ s
      → trim_back is_edge (mark_if negate b'!' ++ body anchored dir_only)
        ≡ mark_if negate b'!' ++ body anchored dir_only
  trim_back-body true true true h = trim_back-slash (b'!' ∷ slash ∷ x ∷ s)
  trim_back-body true false true h = trim_back-slash (b'!' ∷ x ∷ s)
  trim_back-body false true true h = trim_back-slash (slash ∷ x ∷ s)
  trim_back-body false false true h = trim_back-slash (x ∷ s)
  trim_back-body true true false h =
      rw (append-nil s)
        (trim_back-front is_edge b'!' slash (x ∷ s) (trim_back-front is_edge slash x s h))
  trim_back-body true false false h = rw (append-nil s) (trim_back-front is_edge b'!' x s h)
  trim_back-body false true false h = rw (append-nil s) (trim_back-front is_edge slash x s h)
  trim_back-body false false false h = rw (append-nil s) h

  trim_front-body :
      (negate anchored dir_only : Bool)
      → is_start (x ∷ s) ≡ true
      → trim_front is_edge (mark_if negate b'!' ++ body anchored dir_only)
        ≡ mark_if negate b'!' ++ body anchored dir_only
  unfolding trim_front
  trim_front-body true anchored dir_only h = refl
  trim_front-body false true dir_only h = refl
  trim_front-body false false dir_only h = rw (start-is_edge x s h, is_edge)

  take_root :
      (negate anchored dir_only : Bool)
      → is_start (x ∷ s) ≡ true
      → make_rule negate dir_only (take_mark slash (mark_if anchored slash ++ x ∷ s))
        ≡ make_rule negate dir_only (anchored, x ∷ s)
  take_root negate true dir_only h = refl
  take_root negate false dir_only h =
      ap (make_rule negate dir_only) {y = (false, x ∷ s)} (rw (start-slash x s h))

  parse_trimmed-body :
      (negate anchored dir_only : Bool)
      → is_start (x ∷ s) ≡ true
      → take_end (x ∷ s) ≡ (false, x ∷ s)
      → parse_trimmed (mark_if negate b'!' ++ body anchored dir_only)
        ≡ make_rule negate dir_only (anchored, x ∷ s)
  unfolding parse_trimmed
  parse_trimmed-body true anchored dir_only h e =
      ap (with_end true) (take_end-body anchored dir_only e) ∙ take_root true anchored dir_only h
  parse_trimmed-body false true dir_only h e = ap (with_end false) (take_end-body true dir_only e)
  parse_trimmed-body false false dir_only h e =
      first_byte (s ++ mark_if dir_only slash)
      ∙ ap (with_end false) (take_end-body false dir_only e)
      ∙ take_root false false dir_only h
    where
      first_byte : (t : Bytes) → parse_trimmed (x ∷ t) ≡ with_end false (take_end (x ∷ t))
      first_byte t = rw (start-hash x s h) (rw (start-bang x s h))

parse_line-written :
    (negate anchored dir_only starred : Bool) (pattern : Bytes)
    → is_start pattern ≡ true
    → take_end pattern ≡ (false, pattern)
    → trim_back is_edge pattern ≡ pattern
    → has_star_byte pattern ≡ starred
    → parse_line
        (mark_if negate b'!' ++ (mark_if anchored slash ++ (pattern ++ mark_if dir_only slash)))
      ≡ some (record {
        pattern = pattern;
        negate = negate;
        dir_only = dir_only;
        anchored = anchored;
        has_star = starred;
      })
unfolding parse_line
parse_line-written negate anchored dir_only starred [] h e t star = absurd (false≢true h)
parse_line-written negate anchored dir_only starred (x ∷ s) h e t star =
    ap parse_trimmed (
      trim-IsTight is_edge (mark_if negate b'!' ++ body x s anchored dir_only) (
        trim_front-body x s negate anchored dir_only h,
        trim_back-body x s negate anchored dir_only t,
      ))
    ∙ parse_trimmed-body x s negate anchored dir_only h e
    ∙ rw star

All-append {ℓ} :
    {A : Type ℓ} (P : A → Type 0) (xs ys : List A) → All P xs → All P ys → All P (xs ++ ys)
All-append P [] ys p q = q
All-append P (x ∷ xs) ys p q = (p.0, All-append P xs ys p.1 q)

mark_if-IsInline : (b : Bool) (c : ℕ) → IsInline c → All IsInline (mark_if b c)
mark_if-IsInline true c h = (h, tt)
mark_if-IsInline false c h = tt

-- The text of a file with a line for every rule.
abbrev pub file_text : List Rule → Bytes
file_text [] = []
file_text (r ∷ rs) = rule_text r ++ 10 ∷ file_text rs

load_lines-line :
    (rules : List Rule) (line t s : Bytes)
    → All IsInline t
    → load_lines rules line (t ++ 10 ∷ s)
      ≡ load_lines (add_rule rules (parse_line (line ++ t))) [] s
unfolding load_lines
load_lines-line rules line [] s h =
    ap (λ l. load_lines (add_rule rules (parse_line l)) [] s) (sym (append-nil line))
load_lines-line rules line (c ∷ t) s h =
    rw (h.0, load_lines)
      (load_lines-line rules (line ++ c ∷ []) t s h.1
        ∙ ap (λ l. load_lines (add_rule rules (parse_line l)) [] s) (append_assoc line (c ∷ []) t))

load_lines-written :
    (rules rs : List Rule) → All IsWritten rs → load_lines rules [] (file_text rs) ≡ rules ++ rs
unfolding load_lines parse_line parse_trimmed
load_lines-written rules [] h = sym (append-nil rules)
load_lines-written rules (r ∷ rs) (h, more) =
    let (start, ending, back, starred, inline) = h in
    load_lines-line rules [] (rule_text r) (file_text rs) (
      All-append IsInline (mark_if r.negate b'!')
        (mark_if r.anchored slash ++ (r.pattern ++ mark_if r.dir_only slash))
        (mark_if-IsInline r.negate b'!' refl)
        (All-append IsInline (mark_if r.anchored slash) (r.pattern ++ mark_if r.dir_only slash)
          (mark_if-IsInline r.anchored slash refl)
          (All-append IsInline r.pattern (mark_if r.dir_only slash) inline
            (mark_if-IsInline r.dir_only slash refl))))
    ∙ ap (λ o. load_lines (add_rule rules o) [] (file_text rs))
        (parse_line-written r.negate r.anchored r.dir_only r.has_star r.pattern start ending back
          starred)
    ∙ load_lines-written (rules ++ r ∷ []) rs more
    ∙ append_assoc rules (r ∷ []) rs

-- A .gitignore with a line for every rule of a list gives exactly these rules, in order, behind the old
-- ones if they are kept. The pattern of each rule is not empty, starts with no `#`, `!` or slash, ends
-- with no slash, has no white space at its ends and no newline, and `has_star` tells whether it has
-- a star.
pub load_gitignore-file_text :
    (rs rules : List Rule) (append : Bool)
    → All IsWritten rs
    → (load_gitignore (some (file_text rs)) append rules).0 ≡ (if append then rules else []) ++ rs
unfolding load_gitignore
load_gitignore-file_text rs rules append h = load_lines-written (if append then rules else []) rs h
