-- ===== src/AutoEnroll/Approve.antt =====
-- The identities that are approved at once.
use mikrotik_cpe_cloud.Base.{
  ℕ, ◌≡◌, ◌≢◌, ◌↔◌, refl, ap, subst, ◌⊎◌, inl, inr, Bool, true, List, [], ◌∷◌, ◌++◌, arith, All,
  Bool-cases, if◌then◌else◌,
}
use mikrotik_cpe_cloud.Base.Text.{Text}
use mikrotik_cpe_cloud.Models.{active, pending}
use mikrotik_cpe_cloud.AutoEnroll.Identity.{
  Item, chr, dots, newline, at_end, matches, identity_pattern, initial_status_for,
}

-- A text with no line break.
abbrev pub OneLine : Text → Type 0
OneLine = All (λ c. c ≢ newline)

-- What a pattern means, with no search: `.+` stands for any text of one line that is not empty.
abbrev pub Matches : List Item → Text → Type 0
Matches [] s = (s ≡ []) ⊎ (s ≡ newline ∷ [])
Matches (chr c ∷ p) s = (t : Text) × (s ≡ c ∷ t) × Matches p t
Matches (dots ∷ p) s =
    (word : Text) × (t : Text) × (s ≡ word ++ t) × (word ≢ []) × OneLine word × Matches p t

at_end_iff : (s : Text) → (at_end s ≡ true) ↔ ((s ≡ []) ⊎ (s ≡ newline ∷ []))
at_end_iff [] = (λ h. inl refl, λ h. refl)
at_end_iff (c ∷ []) = ground arith
at_end_iff (c ∷ d ∷ s) = ground arith

dots_char : (p : List Item) (d : ℕ) (s : Text) → matches (dots ∷ p) (d ∷ s) ≡ true → d ≢ newline
unfolding matches
dots_char p d s h = ground arith

matches_sound : (p : List Item) (s : Text) → matches p s ≡ true → Matches p s
unfolding matches
matches_sound [] s h = (at_end_iff s).0 h
matches_sound (chr c ∷ p) [] h = cc
matches_sound (chr c ∷ p) (d ∷ s) h = (s, ground arith, matches_sound p s (ground arith))
matches_sound (dots ∷ p) [] h = cc
matches_sound (dots ∷ p) (d ∷ s) h = elim (Bool-cases (matches p s)) [
  | inl e ↦ (d ∷ [], s, refl, ground arith, (dots_char p d s h, tt), matches_sound p s e)
  | inr e ↦
      let (word, t, eq, ne, line, m) = matches_sound (dots ∷ p) s (ground (arith, e, h)) in
      (d ∷ word, t, ap (λ u. d ∷ u) eq, ground arith, (dots_char p d s h, line), m)
]

matches_complete : (p : List Item) (s : Text) → Matches p s → matches p s ≡ true
unfolding matches
matches_complete [] s h = (at_end_iff s).1 h
matches_complete (chr c ∷ p) [] (t, e, m) = cc
matches_complete (chr c ∷ p) (d ∷ s) (t, e, m) =
    let same : t ≡ s = cc in
    let ih = matches_complete p s (subst (Matches p) same m) in ground (arith, ih, e)
matches_complete (dots ∷ p) s ([], t, e, ne, line, m) = absurd (ne refl)
matches_complete (dots ∷ p) [] (w ∷ word, t, e, ne, line, m) = cc
matches_complete (dots ∷ p) (d ∷ s) (w ∷ [], t, e, ne, (line, _), m) =
    let same : t ≡ s = cc in
    let ih = matches_complete p s (subst (Matches p) same m) in ground (arith, ih, e, line)
matches_complete (dots ∷ p) (d ∷ s) (w ∷ x ∷ word, t, e, ne, (line, lines), m) =
    let same : s ≡ (x ∷ word) ++ t = cc in
    let ih = matches_complete (dots ∷ p) s (x ∷ word, t, same, ground arith, lines, m) in
    ground (arith, ih, e, line)

-- The status of a new router is `active` exactly if its identity is `hAP `, a word, ` - `, a word,
-- `, ` and a word, where a word is a text of one line that is not empty, and perhaps a line break at
-- the end; otherwise it is `pending`.
pub initial_status_for_lem :
    (identity : Text)
    → ((initial_status_for identity ≡ active) ↔ Matches identity_pattern identity)
      × ((initial_status_for identity ≡ pending) ↔ (¬ Matches identity_pattern identity))
unfolding initial_status_for
initial_status_for_lem identity =
    let sound = matches_sound identity_pattern identity in
    let complete = matches_complete identity_pattern identity in
    let (a, b) = status_of (matches identity_pattern identity) in
    (
      (λ h. sound (a.0 h), λ m. a.1 (complete m)),
      (λ h m. b.0 h (complete m), λ n. b.1 (λ t. n (sound t))),
    )
  where
    status_of :
        (x : Bool)
        → (((if x then active else pending) ≡ active) ↔ (x ≡ true))
          × (((if x then active else pending) ≡ pending) ↔ (¬ (x ≡ true)))
    status_of x = ground arith
