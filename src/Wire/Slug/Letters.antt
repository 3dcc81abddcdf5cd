-- ===== src/Wire/Slug/Letters.antt =====
-- What `Slug` of internal/wire/subjects.go keeps of a name, and the tokens of a usage subject.
use inferbus.Base.{
  Bool, [], ap, arith, false, if◌then◌else◌, map, refl, sym, true, ℕ, ◌++◌, ◌↔◌, ◌∙◌, ◌∷◌, ◌≡◌,
}
use inferbus.Text.{Text, codes, count_char, count_char-append}
use inferbus.Wire.Slug.{
  is_dash, is_slug_char, keep_or_trim, slug, slug_char, slug_loop, trim_left, trim_right,
  usage_subject,
}
use inferbus.Wire.Slug.Safe.{IsSlug, SlugFrom, slug-IsSlug}

-- The characters that are no dash, in order.
abbrev pub letters : Text → Text
letters [] = []
letters (c ∷ s) = let rest = letters s in if is_dash c then rest else c ∷ rest

letters-slug_loop :
    (prev : Bool) (s : Text) → letters (slug_loop prev s) ≡ letters (map slug_char s)
unfolding slug_loop
letters-slug_loop prev [] = refl
letters-slug_loop prev (c ∷ s) =
    ground (arith, letters-slug_loop prev s, letters-slug_loop (is_dash (slug_char c)) s)

letters-trim_left : (s : Text) → letters (trim_left s) ≡ letters s
unfolding trim_left
letters-trim_left [] = refl
letters-trim_left (c ∷ s) = ground (arith, letters-trim_left s)

letters-keep_or_trim : (c : ℕ) (r : Text) → letters (keep_or_trim c r) ≡ letters (c ∷ r)
letters-keep_or_trim c [] = ground arith
letters-keep_or_trim c (d ∷ r) = refl

letters-trim_right : (s : Text) → letters (trim_right s) ≡ letters s
unfolding trim_right
letters-trim_right [] = refl
letters-trim_right (c ∷ s) =
    letters-keep_or_trim c (trim_right s) ∙ ground (arith, letters-trim_right s)

-- `Slug` keeps every letter and digit of the lower-cased model name, in order; it only adds, joins
-- and drops dashes.
pub letters-slug : (s : Text) → letters (slug s) ≡ letters (map slug_char s)
unfolding slug
letters-slug s =
    letters-trim_right (trim_left (slug_loop false s))
    ∙ (letters-trim_left (slug_loop false s) ∙ letters-slug_loop false s)

letters_nil : (s : Text) → IsSlug s → letters s ≡ [] → s ≡ []
letters_nil [] h e = refl
letters_nil (c ∷ s) h e = ground arith

-- A model name has no slug exactly when it has no letter or digit at all.
pub slug-eq-nil_iff : (s : Text) → (slug s ≡ []) ↔ (letters (map slug_char s) ≡ [])
slug-eq-nil_iff s = (
  λ e. sym (letters-slug s) ∙ ap letters e,
  λ e. letters_nil (slug s) (slug-IsSlug s) (letters-slug s ∙ e),
)

SlugFrom-no_dot : (prev : Bool) (s : Text) → SlugFrom prev s → count_char b'.' s ≡ 0
unfolding is_slug_char
SlugFrom-no_dot prev [] h = refl
SlugFrom-no_dot prev (c ∷ s) h = ground (arith, SlugFrom-no_dot (is_dash c) s h.2)

IsSlug-no_dot : (s : Text) → IsSlug s → count_char b'.' s ≡ 0
IsSlug-no_dot [] h = refl
IsSlug-no_dot (c ∷ s) h = SlugFrom-no_dot true (c ∷ s) h

slug_no_dot : (s : Text) → count_char b'.' (slug s) ≡ 0
slug_no_dot s = IsSlug-no_dot (slug s) (slug-IsSlug s)

-- Whatever org, project and model are called, the usage subject has four dots: no name adds a token.
pub usage_subject_dots :
    (org project model : Text) → count_char b'.' (usage_subject org project model) ≡ 4
unfolding usage_subject
usage_subject_dots org project model = omega (
  arith,
  count_char-append b'.' (slug org) (codes "." ++ (slug project ++ (codes "." ++ slug model))),
  count_char-append b'.' (slug project) (codes "." ++ slug model),
  slug_no_dot org,
  slug_no_dot project,
  slug_no_dot model,
)
