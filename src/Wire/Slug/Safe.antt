-- ===== src/Wire/Slug/Safe.antt =====
-- The slug is a subject-safe token, and such a token is its own slug: `Slug` of
-- internal/wire/subjects.go.
use inferbus.Base.{Bool, [], ap, arith, false, inl, inr, refl, true, ℕ, ◌&&◌, ◌∙◌, ◌∷◌, ◌≡◌, ◌⊎◌}
use inferbus.Text.{Text}
use inferbus.Wire.Slug.{
  is_dash, is_slug_char, keep_or_trim, slug, slug_char, slug_loop, trim_left, trim_right,
}

-- Only slug characters, no two dashes together, and no dash at the end; the flag says that a dash
-- stands before, or that the text starts here.
abbrev pub SlugFrom : Bool → Text → Type 0
SlugFrom prev [] = prev ≡ false
SlugFrom prev (c ∷ s) =
    (is_slug_char c ≡ true) × ((is_dash c && prev) ≡ false) × SlugFrom (is_dash c) s

-- A subject-safe token: empty, or neither starting nor ending with a dash.
abbrev pub IsSlug : Text → Type 0
IsSlug [] = Unit {0}
IsSlug (c ∷ s) = SlugFrom true (c ∷ s)

-- The same without the condition at the end.
abbrev Collapsed : Bool → Text → Type 0
Collapsed prev [] = Unit {0}
Collapsed prev (c ∷ s) =
    (is_slug_char c ≡ true) × ((is_dash c && prev) ≡ false) × Collapsed (is_dash c) s

slug_char_safe : (c : ℕ) → is_slug_char (slug_char c) ≡ true
unfolding slug_char
slug_char_safe c = ground arith

slug_loop-Collapsed : (prev : Bool) (s : Text) → Collapsed prev (slug_loop prev s)
unfolding slug_loop
slug_loop-Collapsed prev [] = tt
slug_loop-Collapsed prev (c ∷ s) = ground (
  arith,
  slug_char_safe c,
  slug_loop-Collapsed prev s,
  slug_loop-Collapsed (is_dash (slug_char c)) s,
)

trim_left-Collapsed : (prev : Bool) (s : Text) → Collapsed prev s → Collapsed true (trim_left s)
unfolding trim_left
trim_left-Collapsed prev [] h = tt
trim_left-Collapsed prev (c ∷ s) h = ground (arith, trim_left-Collapsed (is_dash c) s h.2)

trim_right_cases :
    (prev : Bool) (s : Text) → Collapsed prev s → (trim_right s ≡ []) ⊎ SlugFrom prev (trim_right s)
unfolding trim_right
trim_right_cases prev [] h = inl refl
trim_right_cases prev (c ∷ s) h = kept (trim_right s) (trim_right_cases (is_dash c) s h.2)
  where
    kept :
        (r : Text)
        → (r ≡ []) ⊎ SlugFrom (is_dash c) r
        → (keep_or_trim c r ≡ []) ⊎ SlugFrom prev (keep_or_trim c r)
    kept [] e = ground arith
    kept (d ∷ r) (inl e) = cc
    kept (d ∷ r) (inr e) = inr (h.0, h.1, e)

IsSlug-of_cases : (s : Text) → (s ≡ []) ⊎ SlugFrom true s → IsSlug s
IsSlug-of_cases [] h = tt
IsSlug-of_cases (c ∷ s) (inl e) = absurd (cc)
IsSlug-of_cases (c ∷ s) (inr h) = h

-- The slug of any text is a subject-safe token.
pub slug-IsSlug : (s : Text) → IsSlug (slug s)
unfolding slug
slug-IsSlug s =
    let loop = slug_loop-Collapsed false s in
    IsSlug-of_cases (slug s)
      (trim_right_cases true (trim_left (slug_loop false s)) (trim_left-Collapsed false _ loop))

slug_char_fixed : (c : ℕ) → is_slug_char c ≡ true → slug_char c ≡ c
unfolding slug_char
slug_char_fixed c h = ground arith

slug_loop_fixed : (prev : Bool) (s : Text) → SlugFrom prev s → slug_loop prev s ≡ s
unfolding slug_loop
slug_loop_fixed prev [] h = refl
slug_loop_fixed prev (c ∷ s) h =
    rw (slug_char_fixed c h.0, h.1) (ap (◌∷◌ c) (slug_loop_fixed (is_dash c) s h.2))

trim_right_fixed : (prev : Bool) (s : Text) → SlugFrom prev s → trim_right s ≡ s
unfolding trim_right
trim_right_fixed prev [] h = refl
trim_right_fixed prev (c ∷ s) h = rw (trim_right_fixed (is_dash c) s h.2) (last s h.2)
  where
    last : (r : Text) → SlugFrom (is_dash c) r → keep_or_trim c r ≡ c ∷ r
    last [] e = ground arith
    last (d ∷ r) e = refl

-- A subject-safe token is its own slug.
pub slug_fixed : (s : Text) → IsSlug s → slug s ≡ s
unfolding slug trim_left slug_loop trim_right
slug_fixed [] h = refl
slug_fixed (c ∷ s) h =
    let looped : slug_loop false (c ∷ s) ≡ c ∷ s =
      slug_loop_fixed false (c ∷ s) (h.0, ground arith, h.2) in
    let trimmed : trim_left (c ∷ s) ≡ c ∷ s = ground arith in
    ap (λ t. trim_right (trim_left t)) looped
    ∙ (ap trim_right trimmed ∙ trim_right_fixed true (c ∷ s) h)

-- `Slug` is idempotent: a slug names the same subject as the model that it was made from.
pub slug-slug : (s : Text) → slug (slug s) ≡ slug s
slug-slug s = slug_fixed (slug s) (slug-IsSlug s)
