-- ===== src/Resolver/Factors/Receiver.antt =====
-- The receiver's type, however its use site spells it.
use code_scope.Prelude.{
  ℕ, Bool, true, [], ◌∷◌, ◌++◌, append_assoc, Bytes, codes, All, ◌≡◌, refl, sym, ap, ◌∙◌, ◌≢◌, inl,
  inr, Bool-cases, ==_refl,
}
use code_scope.Filter.Trim.{trim, trim_front, trim_back, put_front}
use code_scope.Resolver.Text.{starts_with, starts_with-append}
use code_scope.Resolver.Factors.{
  exact_match, is_sigil_or_space, plain_segment, canonical_type_name, context_of,
  build_receiver_match_context, factor_receiver_type_match,
}

module _ (blank : ℕ → Bool) where
  -- Bytes that trimming takes away.
  abbrev pub AreBlank : Bytes → Type 0
  AreBlank = All (λ c. blank c ≡ true)

  trim_front-AreBlank : (u s : Bytes) → AreBlank u → trim_front blank (u ++ s) ≡ trim_front blank s
  unfolding trim_front
  trim_front-AreBlank [] s h = refl
  trim_front-AreBlank (c ∷ u) s h = rw h.0 (trim_front-AreBlank u s h.1)

  trim_front-all : (v : Bytes) → AreBlank v → trim_front blank v ≡ []
  unfolding trim_front
  trim_front-all [] h = refl
  trim_front-all (c ∷ v) h = rw h.0 (trim_front-all v h.1)

  trim_back-all : (v : Bytes) → AreBlank v → trim_back blank v ≡ []
  unfolding trim_back
  trim_back-all [] h = refl
  trim_back-all (c ∷ v) h = ap (put_front blank c) (trim_back-all v h.1) ∙ rw h.0

  trim_back-AreBlank : (s v : Bytes) → AreBlank v → trim_back blank (s ++ v) ≡ trim_back blank s
  unfolding trim_back
  trim_back-AreBlank [] v h = trim_back-all v h
  trim_back-AreBlank (c ∷ s) v h = ap (put_front blank c) (trim_back-AreBlank s v h)

  trim-behind : (s v : Bytes) → AreBlank v → trim blank (s ++ v) ≡ trim blank s
  unfolding trim trim_front
  trim-behind [] v h = ap (trim_back blank) (trim_front-all v h)
  trim-behind (c ∷ s) v h = elim (Bool-cases (blank c)) [
    | inl y ↦ rw y (trim-behind s v h)
    | inr n ↦ rw n (trim_back-AreBlank (c ∷ s) v h)
  ]

  trim-around :
      (u s v : Bytes) → AreBlank u → AreBlank v → trim blank (u ++ (s ++ v)) ≡ trim blank s
  unfolding trim
  trim-around u s v hu hv =
      ap (trim_back blank) (trim_front-AreBlank u (s ++ v) hu) ∙ trim-behind s v hv

-- Sigils and white space around a type's name do not change the name.
pub canonical_type_name-around :
    (u name v : Bytes)
    → AreBlank is_sigil_or_space u
    → AreBlank is_sigil_or_space v
    → canonical_type_name (u ++ (name ++ v)) ≡ canonical_type_name name
unfolding canonical_type_name
canonical_type_name-around u name v hu hv =
    ap plain_segment (trim-around is_sigil_or_space u name v hu hv)

behind_type :
    (t member : Bytes) → starts_with (t ++ codes "::") (t ++ (codes "::" ++ member)) ≡ true
behind_type t member =
    ap (starts_with (t ++ codes "::")) (sym (append_assoc t (codes "::") member))
    ∙ starts_with-append (t ++ codes "::") member

context_of-prefix :
    (c : ℕ) (t member file : Bytes)
    → factor_receiver_type_match (context_of (c ∷ t)) ((c ∷ t) ++ (codes "::" ++ member)) file
      ≡ exact_match
unfolding factor_receiver_type_match
context_of-prefix c t member file = rw (==_refl c, behind_type t member)

-- A candidate whose qualified name is `T::member` has the full receiver score for a receiver that
-- is spelled as any name of `T` (a qualified name of it too) with sigils and white space around
-- it, in whatever file the candidate is.
pub factor_receiver_type_match-around :
    (u name v type_name member file : Bytes)
    → AreBlank is_sigil_or_space u
    → AreBlank is_sigil_or_space v
    → canonical_type_name name ≡ type_name
    → type_name ≢ []
    → factor_receiver_type_match
        (build_receiver_match_context (u ++ (name ++ v)))
        (type_name ++ (codes "::" ++ member))
        file
      ≡ exact_match
unfolding build_receiver_match_context
factor_receiver_type_match-around u name v [] member file hu hv e n = absurd (n refl)
factor_receiver_type_match-around u name v (c ∷ t) member file hu hv e n =
    ap (λ s. factor_receiver_type_match (context_of s) ((c ∷ t) ++ (codes "::" ++ member)) file)
      (canonical_type_name-around u name v hu hv ∙ e)
    ∙ context_of-prefix c t member file
