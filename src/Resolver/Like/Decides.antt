-- ===== src/Resolver/Like/Decides.antt =====
-- `sqliteLikeMatch` against the language of its pattern.
use code_scope.Prelude.{
  ℕ, zero, suc, ◌+◌, ◌*◌, ◌≤◌, ◌<◌, ◌≡◌, refl, sym, ◌∙◌, ◌≢◌, ◌↔◌, ◌⊎◌, inl, inr, ⊎_elim, Bool,
  true, false, Option, none, some, [], ◌∷◌, Bytes, length, ◌==◌, ==→≡, ==→≢, Bool-cases, false≢true,
  arith, subst,
}
use code_scope.Resolver.Like.{
  percent, like_byte, only_percents, behind, backtrack, like_round, like_loop, sqlite_like_match,
}
use code_scope.Resolver.Like.Language.{
  Likes, likes_byte, Suffix, whole, Suffix-behind, Likes-Suffix, Likes-split, Likes-byte,
  only_percents-Likes, Likes-only_percents, Likes-end, Likes-take, Likes-nil, Likes-unroll,
  Likes-roll, Suffix-tail, Suffix-of_behind, length-Suffix,
}

-- What the matcher still has to decide: the rests match, or the last `%` takes more than it has.
abbrev Open : Bytes → Bytes → Option (Bytes × Bytes) → Type 0
Open p t none = Likes p t
Open p t (some (q, m)) = Likes p t ⊎ Likes (percent ∷ q) (behind m)

-- What lies behind the last `%` is taken as early as it can be: whatever it matches later, the rest
-- of the pattern matches some rest of the text.
abbrev IsGreedy : Bytes → Bytes → Option (Bytes × Bytes) → Type 0
IsGreedy p t none = Unit
IsGreedy p t (some (q, m)) =
    (Suffix t m) × ((s : Bytes) → Suffix s m → Likes q s → (r : Bytes) × Suffix r t × Likes p r)

abbrev room : ℕ → Bytes → Bytes → Option (Bytes × Bytes) → ℕ
room n p t none = length t * suc n + length p
room n p t (some (q, m)) = length m * suc n + length p

abbrev Fits : ℕ → Bytes → Option (Bytes × Bytes) → Type 0
Fits n p none = length p ≤ n
Fits n p (some (q, m)) = (length p ≤ n) × (length q ≤ n)

-- A result, and that it decides a proposition.
abbrev pub Decides : Option Bool → Type 0 → Type 0
Decides o P = (b : Bool) × (o ≡ some b) × ((b ≡ true) ↔ P)

Decides-iff : {o : Option Bool} {P Q : Type 0} → (P → Q) → (Q → P) → Decides o P → Decides o Q
Decides-iff f g (b, e, (to, from)) = (b, e, (λ h. f (to h), λ q. from (g q)))

-- The loop, for as much fuel as there is room.
abbrev Correct : ℕ → ℕ → Type 0
Correct n fuel =
    (p t : Bytes) (saved : Option (Bytes × Bytes))
    → Fits n p saved
    → IsGreedy p t saved
    → room n p t saved < fuel
    → Decides (like_loop fuel p t saved) (Open p t saved)

greedy_later :
    (p t q m : Bytes)
    → IsGreedy p t (some (q, m))
    → Likes (percent ∷ q) (behind m)
    → (r : Bytes) × Suffix r t × Likes p r
greedy_later p t q m g l = let (s, h, l') = Likes-split l in g.1 s (Suffix-of_behind s m h) l'

like_loop-end :
    (p : Bytes) (saved : Option (Bytes × Bytes))
    → IsGreedy p [] saved
    → Decides (some (only_percents p)) (Open p [] saved)
like_loop-end p none g = (only_percents p, refl, (only_percents-Likes p, Likes-only_percents))
like_loop-end p (some (q, m)) g = (
  only_percents p,
  refl,
  (
    λ h. inl (only_percents-Likes p h),
    ⊎_elim Likes-only_percents
        λ l. let (r, h, l') = greedy_later p [] q m g l in Likes-only_percents (Likes-end h l'),
  ),
)

room_less : (a n p q fuel : ℕ) → suc a * suc n + p < suc fuel → q ≤ n → a * suc n + q < fuel
room_less a n p q fuel h le = grind arith

room_later : (a b n p fuel : ℕ) → a ≤ b → b * suc n + suc p < suc fuel → a * suc n + p < fuel
room_later a b n p fuel le h = grind arith

backtrack_lem :
    (n fuel : ℕ) (p : Bytes) (x : ℕ) (t : Bytes) (saved : Option (Bytes × Bytes))
    → Correct n fuel
    → Fits n p saved
    → IsGreedy p (x ∷ t) saved
    → room n p (x ∷ t) saved < suc fuel
    → (Likes p (x ∷ t) → false ≡ true)
    → Decides (backtrack (like_loop fuel) saved) (Open p (x ∷ t) saved)
backtrack_lem n fuel p x t none ih f g h fails = (false, refl, (λ e. absurd (false≢true e), fails))
backtrack_lem n fuel p x t (some (q, [])) ih f g h fails = absurd (omega (arith, length-Suffix g.0))
backtrack_lem n fuel p x t (some (q, y ∷ m)) ih f g h fails =
    Decides-iff (λ l. inr (Likes-roll q m l))
      (⊎_elim (λ l. absurd (false≢true (fails l))) Likes-unroll)
      (ih q m (some (q, m)) (f.1, f.1) (whole, λ s h l. (s, h, l))
        (room_less (length m) n (length p) (length q) fuel h f.1))

absorb :
    (p t : Bytes) (saved : Option (Bytes × Bytes))
    → IsGreedy (percent ∷ p) t saved
    → Open (percent ∷ p) t saved
    → Likes (percent ∷ p) t
absorb p t none g l = l
absorb p t (some (q, m)) g (inl l) = l
absorb p t (some (q, m)) g (inr l) =
    let (r, h, l') = greedy_later (percent ∷ p) t q m g l in Likes-Suffix h l'

Open-now : (p t : Bytes) (saved : Option (Bytes × Bytes)) → Likes p t → Open p t saved
Open-now p t none l = l
Open-now p t (some (q, m)) l = inl l

-- A `%`: what the last one could still take is taken by this one.
percent_lem :
    (n fuel : ℕ) (p : Bytes) (x : ℕ) (t : Bytes) (saved : Option (Bytes × Bytes))
    → Correct n fuel
    → Fits n (percent ∷ p) saved
    → IsGreedy (percent ∷ p) (x ∷ t) saved
    → room n (percent ∷ p) (x ∷ t) saved < suc fuel
    → Decides (like_loop fuel p (x ∷ t) (some (p, x ∷ t))) (Open (percent ∷ p) (x ∷ t) saved)
percent_lem n fuel p x t saved ih f g h =
    Decides-iff (λ o. Open-now (percent ∷ p) (x ∷ t) saved (Likes-roll p (x ∷ t) o))
      (λ o. Likes-unroll (absorb p (x ∷ t) saved g o))
      (ih p (x ∷ t) (some (p, x ∷ t)) (shorter saved f) (whole, λ s h l. (s, h, l))
        (less saved g h))
  where
    shorter :
        (saved : Option (Bytes × Bytes))
        → Fits n (percent ∷ p) saved
        → (length p ≤ n) × (length p ≤ n)
    shorter none f = (omega arith, omega arith)
    shorter (some (q, m)) f = (omega (arith, f.0), omega (arith, f.0))

    less :
        (saved : Option (Bytes × Bytes))
        → IsGreedy (percent ∷ p) (x ∷ t) saved
        → room n (percent ∷ p) (x ∷ t) saved < suc fuel
        → suc (length t) * suc n + length p < fuel
    less none g h = room_later (suc (length t)) (suc (length t)) n (length p) fuel (omega arith) h
    less (some (q, m)) g h =
        room_later (suc (length t)) (length m) n (length p) fuel (length-Suffix g.0) h

-- A byte that matches.
byte_lem :
    (n fuel : ℕ) (c : ℕ) (p : Bytes) (x : ℕ) (t : Bytes) (saved : Option (Bytes × Bytes))
    → Correct n fuel
    → Fits n (c ∷ p) saved
    → IsGreedy (c ∷ p) (x ∷ t) saved
    → room n (c ∷ p) (x ∷ t) saved < suc fuel
    → c ≢ percent
    → like_byte c x ≡ true
    → Decides (like_loop fuel p t saved) (Open (c ∷ p) (x ∷ t) saved)
byte_lem n fuel c p x t none ih f g h other same =
    Decides-iff (likes_byte c x other same) (λ l. (Likes-byte other l).1)
      (ih p t none (omega arith) tt
        (room_later (length t) (suc (length t)) n (length p) fuel (omega arith) h))
byte_lem n fuel c p x t (some (q, m)) ih f g h other same =
    Decides-iff (⊎_elim (λ l. inl (likes_byte c x other same l)) inr)
      (⊎_elim (λ l. inl (Likes-byte other l).1) inr)
      (ih p t (some (q, m)) (omega (arith, f.0), f.1) (Suffix-behind g.0, greedy)
        (room_later (length m) (length m) n (length p) fuel (omega arith) h))
  where
    greedy : (s : Bytes) → Suffix s m → Likes q s → (r : Bytes) × Suffix r t × Likes p r
    greedy s h l =
        let (r, hr, lr) = g.1 s h l in
        let (y, r', e, l') = Likes-take other lr in
        (r', Suffix-tail (subst (λ r. Suffix r (x ∷ t)) e hr), l')

like_loop_lem : (n fuel : ℕ) → Correct n fuel
unfolding like_loop like_round
like_loop_lem n zero p t saved f g h = absurd (omega arith)
like_loop_lem n (suc fuel) p [] saved f g h = like_loop-end p saved g
like_loop_lem n (suc fuel) [] (x ∷ t) saved f g h =
    backtrack_lem n fuel [] x t saved (like_loop_lem n fuel) f g h
      (λ l. absurd (ground (arith, Likes-nil l refl)))
like_loop_lem n (suc fuel) (c ∷ p) (x ∷ t) saved f g h = elim (Bool-cases (c == percent)) [
  | inl e ↦
      rw (e, like_round)
        (subst
          (λ c.
            Fits n (c ∷ p) saved
            → IsGreedy (c ∷ p) (x ∷ t) saved
            → room n (c ∷ p) (x ∷ t) saved < suc fuel
            → Decides (like_loop fuel p (x ∷ t) (some (p, x ∷ t))) (Open (c ∷ p) (x ∷ t) saved))
          (sym (==→≡ c percent e)) (percent_lem n fuel p x t saved (like_loop_lem n fuel)) f g h)
  | inr o ↦ elim (Bool-cases (like_byte c x)) [
    | inl same ↦
        rw (o, like_round)
          (rw (same, like_round)
            (byte_lem n fuel c p x t saved (like_loop_lem n fuel) f g h (==→≢ c percent o) same))
    | inr differs ↦
        rw (o, like_round)
          (rw (differs, like_round)
            (backtrack_lem n fuel (c ∷ p) x t saved (like_loop_lem n fuel) f g h
              (λ l. sym differs ∙ (Likes-byte (==→≢ c percent o) l).0)))
  ]
]

pub sqlite_like_match-Decides :
    (pattern text : Bytes) → Decides (sqlite_like_match pattern text) (Likes pattern text)
unfolding sqlite_like_match
sqlite_like_match-Decides pattern text =
    like_loop_lem (length pattern) (suc (length text) * suc (length pattern)) pattern text none
      (omega arith) tt (enough (length text) (length pattern))
  where
    enough : (a b : ℕ) → a * suc b + b < suc a * suc b
    enough a b = grind arith
