-- ===== src/Filter/Ignore/Literal.antt =====
-- The loop of `gitignoreMatches` over the occurrences of a literal pattern.
use code_scope.Prelude.{
  Bool, true, false, ◌&&◌, [], ◌∷◌, ◌++◌, ||_cases, ||_left, ||_right, ◌≡◌, refl, ap, ◌↔◌, inl, inr,
  Bytes, ◌==◌, ==→≡, ==_refl, false≢true, subst,
}
use code_scope.Filter.Glob.{slash}
use code_scope.Filter.Ignore.{at_boundary, literal_here, literal_loop}

&&_split : (a b : Bool) → a && b ≡ true → (a ≡ true) × (b ≡ true)
&&_split true b h = (refl, h)
&&_split false b h = absurd (false≢true h)

-- `left` after the bytes of a text: at the start it is given, behind a slash it holds.
abbrev left_after : Bool → Bytes → Bool
left_after left [] = left
left_after left (x ∷ s) = left_after (x == slash) s

literal_here_sound :
    (p s : Bytes) → literal_here p s ≡ true → (b : Bytes) × (s ≡ p ++ b) × (at_boundary b ≡ true)
unfolding literal_here
literal_here_sound [] s h = (s, refl, h)
literal_here_sound (c ∷ p) [] h = absurd (false≢true h)
literal_here_sound (c ∷ p) (x ∷ s) h =
    let (e, h') = &&_split (x == c) (literal_here p s) h in
    let (b, e', bound) = literal_here_sound p s h' in
    (b, subst (λ c. (x ∷ s) ≡ (c ∷ p) ++ b) (==→≡ x c e) (ap (λ t. x ∷ t) e'), bound)

literal_here_complete : (p b : Bytes) → at_boundary b ≡ true → literal_here p (p ++ b) ≡ true
unfolding literal_here
literal_here_complete [] b h = h
literal_here_complete (c ∷ p) b h = rw (==_refl c) (literal_here_complete p b h)

-- A path with the pattern between two boundaries.
abbrev pub Occurs : Bool → Bytes → Bytes → Type 0
Occurs left p s =
    (a b : Bytes) × (s ≡ a ++ (p ++ b)) × (left_after left a ≡ true) × (at_boundary b ≡ true)

literal_loop_sound : (left : Bool) (p s : Bytes) → literal_loop left p s ≡ true → Occurs left p s
unfolding literal_loop
literal_loop_sound left p [] h =
    let (l, here) = &&_split left (literal_here p []) h in
    let (b, e, bound) = literal_here_sound p [] here in ([], b, e, l, bound)
literal_loop_sound left p (x ∷ s) h =
    elim (||_cases (left && literal_here p (x ∷ s)) (literal_loop (x == slash) p s) h) [
      | inl now ↦
          let (l, here) = &&_split left (literal_here p (x ∷ s)) now in
          let (b, e, bound) = literal_here_sound p (x ∷ s) here in ([], b, e, l, bound)
      | inr later ↦
          let (a, b, e, l, bound) = literal_loop_sound (x == slash) p s later in
          (x ∷ a, b, ap (λ t. x ∷ t) e, l, bound)
    ]

literal_loop-start :
    (p b : Bytes) → literal_here p (p ++ b) ≡ true → literal_loop true p (p ++ b) ≡ true
unfolding literal_loop
literal_loop-start [] [] here = here
literal_loop-start [] (x ∷ b) here =
    ||_left (literal_here [] (x ∷ b)) (literal_loop (x == slash) [] b) here
literal_loop-start (c ∷ p) b here =
    ||_left (literal_here (c ∷ p) (c ∷ (p ++ b))) (literal_loop (c == slash) (c ∷ p) (p ++ b)) here

literal_loop_complete :
    (left : Bool) (p a b : Bytes)
    → left_after left a ≡ true
    → at_boundary b ≡ true
    → literal_loop left p (a ++ (p ++ b)) ≡ true
unfolding literal_loop
literal_loop_complete left p (x ∷ a) b l bound =
    ||_right (left && literal_here p (x ∷ (a ++ (p ++ b))))
      (literal_loop (x == slash) p (a ++ (p ++ b)))
      (literal_loop_complete (x == slash) p a b l bound)
literal_loop_complete left p [] b l bound =
    rw l (literal_loop-start p b (literal_here_complete p b bound))

-- The loop over the occurrences finds the pattern exactly if it stands in the path between the
-- start or a slash and a slash or the end.
pub literal_loop-Occurs : (p s : Bytes) → (literal_loop true p s ≡ true) ↔ Occurs true p s
literal_loop-Occurs p s = (
  literal_loop_sound true p s,
  λ (a, b, e, l, bound). rw e (literal_loop_complete true p a b l bound),
)
