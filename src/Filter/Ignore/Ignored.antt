-- ===== src/Filter/Ignore/Ignored.antt =====
-- Which paths the rules of a .gitignore leave out.
use code_scope.Prelude.{
  Bool, true, false, not, ◌&&◌, ◌||◌, List, [], ◌∷◌, ◌++◌, append_assoc, append-nil, ||_left,
  ||_right, ◌≡◌, refl, sym, ap, ◌∙◌, inl, inr, Bytes, ◌==◌, false≢true, if◌then◌else◌, Bool-cases,
  arith,
}
use code_scope.Filter.Glob.{slash}
use code_scope.Filter.Ignore.{
  Rule, matches_one, any_above, rule_matches, ignore_loop, gitignore_matches,
}

-- Some rule without a `!` matches.
abbrev pub any_positive : Bytes → Bool → List Rule → Bool
any_positive path is_dir [] = false
any_positive path is_dir (r ∷ rules) =
    (not r.negate && rule_matches r path is_dir) || any_positive path is_dir rules

ignore_loop-positive :
    (path : Bytes) (is_dir ignored : Bool) (rules : List Rule)
    → ignored ≡ false
    → ignore_loop path is_dir ignored rules ≡ any_positive path is_dir rules
unfolding ignore_loop
ignore_loop-positive path is_dir ignored [] h = h
ignore_loop-positive path is_dir ignored (r ∷ rules) h =
    let reset = ignore_loop-positive path is_dir false rules refl in
    let kept = ignore_loop-positive path is_dir ignored rules h in
    elim (Bool-cases (rule_matches r path is_dir)) [
      | inl y ↦ elim (Bool-cases r.negate) [ inl n ↦ rw (y, n) reset | inr p ↦ rw (y, p) ]
      | inr n ↦ elim (Bool-cases r.negate) [ inl g ↦ rw (n, g) kept | inr g ↦ rw (n, g) kept ]
    ]

-- A path is ignored exactly if some rule without a `!` matches it: the rules with a `!` change
-- nothing, wherever they stand.
pub gitignore_matches-positive :
    (rules : List Rule) (path : Bytes) (is_dir : Bool)
    → gitignore_matches rules path is_dir ≡ any_positive path is_dir rules
unfolding gitignore_matches
gitignore_matches-positive rules path is_dir = ignore_loop-positive path is_dir false rules refl

any_above-parent :
    (test : Bytes → Bool) (above dir rest : Bytes)
    → test (above ++ dir) ≡ true
    → any_above test above (dir ++ slash ∷ rest) ≡ true
unfolding any_above
any_above-parent test above [] rest h =
    ||_left (test above) (any_above test (above ++ slash ∷ []) rest)
      (sym (ap test (append-nil above)) ∙ h)
any_above-parent test above (x ∷ dir) rest h =
    ||_right (x == slash && test above) (any_above test (above ++ x ∷ []) (dir ++ slash ∷ rest)) (
      any_above-parent test (above ++ x ∷ []) dir rest
        (ap test (append_assoc above (x ∷ []) dir) ∙ h))

above_or_here :
    (only dir here above : Bool)
    → only ≡ true
    → above ≡ true
    → (if only && not dir then above else (here || (only && above))) ≡ true
above_or_here true true true above o a = refl
above_or_here true true false above o a = a
above_or_here true false here above o a = a
above_or_here false dir here above o a = absurd (false≢true o)

positive_here :
    (neg here later : Bool) → neg ≡ false → here ≡ true → (not neg && here) || later ≡ true
positive_here neg here later n h = ground arith

rule_matches-below :
    (r : Rule) (dir rest : Bytes) (is_dir : Bool)
    → r.dir_only ≡ true
    → matches_one r dir ≡ true
    → rule_matches r (dir ++ slash ∷ rest) is_dir ≡ true
unfolding rule_matches
rule_matches-below r dir rest is_dir only h =
    above_or_here r.dir_only is_dir (matches_one r (dir ++ slash ∷ rest))
      (any_above (matches_one r) [] (dir ++ slash ∷ rest)) only
      (any_above-parent (matches_one r) [] dir rest h)

any_positive-append :
    (path : Bytes) (is_dir : Bool) (before after : List Rule) (r : Rule)
    → r.negate ≡ false
    → rule_matches r path is_dir ≡ true
    → any_positive path is_dir (before ++ r ∷ after) ≡ true
any_positive-append path is_dir [] after r n h =
    positive_here r.negate (rule_matches r path is_dir) (any_positive path is_dir after) n h
any_positive-append path is_dir (q ∷ before) after r n h =
    ||_right (not q.negate && rule_matches q path is_dir)
      (any_positive path is_dir (before ++ r ∷ after))
      (any_positive-append path is_dir before after r n h)

-- All that is in a directory which a rule for directories, without a `!`, matches is ignored: files
-- as well as directories, at any depth, and whatever the other rules are.
pub gitignore_matches-below :
    (before after : List Rule) (r : Rule) (dir rest : Bytes) (is_dir : Bool)
    → r.dir_only ≡ true
    → r.negate ≡ false
    → matches_one r dir ≡ true
    → gitignore_matches (before ++ r ∷ after) (dir ++ slash ∷ rest) is_dir ≡ true
gitignore_matches-below before after r dir rest is_dir only n h =
    gitignore_matches-positive (before ++ r ∷ after) (dir ++ slash ∷ rest) is_dir
    ∙ any_positive-append (dir ++ slash ∷ rest) is_dir before after r n
        (rule_matches-below r dir rest is_dir only h)
