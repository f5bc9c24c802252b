-- ===== src/Resolver/Apply/Fused.antt =====
-- The one search over the joined imports.
use code_scope.Prelude.{
  ℕ, Bool, true, false, not, ◌&&◌, ◌||◌, List, [], ◌∷◌, ◌++◌, Bytes, ◌==◌, ◌≡◌, refl, sym, ap, ◌∙◌,
  inl, inr, Bool-cases, false≢true, arith,
}
use code_scope.Resolver.Text.{has_byte, starts_with, contains}
use code_scope.Resolver.Factors.{is_empty_text}
use code_scope.Resolver.Apply.{join_imports, fused_match, any_import_matches}

or_assoc : (a b c : Bool) → (a || (b || c)) ≡ ((a || b) || c)
or_assoc true b c = refl
or_assoc false b c = refl

starts_with-behind :
    (m s t : Bytes) → has_byte 0 m ≡ false → starts_with m (s ++ 0 ∷ t) ≡ starts_with m s
unfolding starts_with
starts_with-behind [] s t h = refl
starts_with-behind (c ∷ m) [] t h = elim (Bool-cases (c == 0)) [
  | inl y ↦ absurd (false≢true (sym (rw y at h)))
  | inr n ↦ ground (arith, n)
]
starts_with-behind (c ∷ m) (x ∷ s) t h = elim (Bool-cases (c == 0)) [
  | inl y ↦ absurd (false≢true (sym (rw y at h)))
  | inr n ↦ ap (λ b. x == c && b) (starts_with-behind m s t (rw n at h))
]

contains-behind :
    (m s t : Bytes)
    → has_byte 0 m ≡ false
    → contains m (s ++ 0 ∷ t) ≡ (contains m s || contains m t)
unfolding contains
contains-behind m [] t h = ap (λ b. b || contains m t) (starts_with-behind m [] t h)
contains-behind m (x ∷ s) t h =
    ap (λ b. b || contains m (s ++ 0 ∷ t)) (starts_with-behind m (x ∷ s) t h)
    ∙ ap (λ b. starts_with m (x ∷ s) || b) (contains-behind m s t h)
    ∙ or_assoc (starts_with m (x ∷ s)) (contains m s) (contains m t)

contains-nil : (m s : Bytes) → (contains m s || contains m []) ≡ (contains m s || false)
unfolding contains starts_with
contains-nil [] [] = refl
contains-nil [] (x ∷ s) = refl
contains-nil (c ∷ m) s = refl

contains-join_imports :
    (m p : Bytes) (ps : List Bytes)
    → has_byte 0 m ≡ false
    → contains m (join_imports (p ∷ ps)) ≡ any_import_matches (p ∷ ps) m
unfolding join_imports any_import_matches
contains-join_imports m p [] h = contains-behind m p [] h ∙ contains-nil m p
contains-join_imports m p (q ∷ ps) h =
    contains-behind m p (join_imports (q ∷ ps)) h
    ∙ ap (λ b. contains m p || b) (contains-join_imports m q ps h)

is_empty_text-append : (s t : Bytes) (c : ℕ) → is_empty_text (s ++ c ∷ t) ≡ false
is_empty_text-append [] t c = refl
is_empty_text-append (x ∷ s) t c = refl

-- For a module name without a NUL byte, the one search over the joined imports of the caller finds what
-- a search in each of the imports finds.
pub fused_match-any_import_matches :
    (paths : List Bytes) (mod_name : Bytes)
    → has_byte 0 mod_name ≡ false
    → fused_match paths mod_name ≡ any_import_matches paths mod_name
unfolding fused_match any_import_matches join_imports
fused_match-any_import_matches [] m h = refl
fused_match-any_import_matches (p ∷ ps) m h =
    ap (λ b. not b && contains m (join_imports (p ∷ ps)))
      (is_empty_text-append p (join_imports ps) 0)
    ∙ contains-join_imports m p ps h
