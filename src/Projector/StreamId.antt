-- ===== src/Projector/StreamId.antt =====
-- The stream id of an alias, built by aliasStreamID (internal/controlplane/admin.go) and taken apart
-- by SplitAliasStreamID (internal/controlplane/kvproj.go), and the bucket key made of its parts.
use inferbus.Base.{
  Bool, Bool-cases, Option, [], ap, arith, false, if◌then◌else◌, inl, inr, none, refl, some, sym,
  true, ℕ, ◌++◌, ◌∙◌, ◌∷◌, ◌≡◌, ◌≢◌, ◌⊎◌,
}
use inferbus.Text.{Text, codes, count_char, cut, cut_at, text_beq, text_beq_iff}
use inferbus.Wire.Slug.{is_dash, is_slug_char}
use inferbus.Wire.Slug.Safe.{IsSlug, SlugFrom}

pub data SplitError : Type 0 where
  missing_prefix empty_name missing_separator empty_part unknown_prefix : SplitError

pub data Split : Type 0 where
  scope_name : Text → Text → Split
  bad : SplitError → Split

abbrev pub global_scope : Text
global_scope = codes "_global"

abbrev pub underscore : ℕ
underscore = b'_'

unfoldable pub alias_stream_id : Text → Text → Text
alias_stream_id scope name =
    if text_beq scope global_scope
    then codes "g_" ++ name
    else codes "o_" ++ (scope ++ (codes "_" ++ name))

split_org : Option (Text × Text) → Split
split_org none = bad missing_separator
split_org (some ([], name)) = bad empty_part
split_org (some (c ∷ org, [])) = bad empty_part
split_org (some (c ∷ org, d ∷ name)) = scope_name (c ∷ org) (d ∷ name)

split_global : Text → Split
split_global [] = bad empty_name
split_global (c ∷ name) = scope_name global_scope (c ∷ name)

split_parts : Option (Text × Text) → Split
unfolding split_org split_global
split_parts none = bad missing_prefix
split_parts (some (prefix, rest)) =
    if text_beq prefix (codes "g")
    then split_global rest
    else if text_beq prefix (codes "o")
    then split_org (cut underscore rest)
    else bad unknown_prefix

unfoldable pub split_alias_stream_id : Text → Split
unfolding split_parts
split_alias_stream_id id = split_parts (cut underscore id)

-- `scope + "/" + name`
unfoldable pub alias_key : Text → Text → Text
alias_key scope name = scope ++ (codes "/" ++ name)

SlugFrom-no_underscore : (prev : Bool) (s : Text) → SlugFrom prev s → count_char underscore s ≡ 0
unfolding is_slug_char
SlugFrom-no_underscore prev [] h = refl
SlugFrom-no_underscore prev (c ∷ s) h = ground (arith, SlugFrom-no_underscore (is_dash c) s h.2)

pub IsSlug-no_underscore : (s : Text) → IsSlug s → count_char underscore s ≡ 0
IsSlug-no_underscore [] h = refl
IsSlug-no_underscore (c ∷ s) h = SlugFrom-no_underscore true (c ∷ s) h

SlugFrom-no_slash : (prev : Bool) (s : Text) → SlugFrom prev s → count_char b'/' s ≡ 0
unfolding is_slug_char
SlugFrom-no_slash prev [] h = refl
SlugFrom-no_slash prev (c ∷ s) h = ground (arith, SlugFrom-no_slash (is_dash c) s h.2)

pub IsSlug-no_slash : (s : Text) → IsSlug s → count_char b'/' s ≡ 0
IsSlug-no_slash [] h = refl
IsSlug-no_slash (c ∷ s) h = SlugFrom-no_slash true (c ∷ s) h

-- What the admin API accepts as a scope: the global one, or an org id that is a non-empty slug.
abbrev pub IsScope : Text → Type 0
IsScope scope = (scope ≡ global_scope) ⊎ ((scope ≢ []) × IsSlug scope)

split_org_parts :
    (scope name : Text)
    → scope ≢ []
    → name ≢ []
    → split_org (some (scope, name)) ≡ scope_name scope name
unfolding split_org
split_org_parts [] name h k = absurd (h refl)
split_org_parts (c ∷ s) [] h k = absurd (k refl)
split_org_parts (c ∷ s) (d ∷ n) h k = refl

split_global_name : (name : Text) → name ≢ [] → split_global name ≡ scope_name global_scope name
unfolding split_global
split_global_name [] h = absurd (h refl)
split_global_name (c ∷ n) h = refl

slug_not_global : (scope : Text) → IsSlug scope → scope ≢ global_scope
slug_not_global scope h e =
    absurd (omega (arith, ap (count_char underscore) e, IsSlug-no_underscore scope h))

not_text_beq : (s t : Text) → s ≢ t → text_beq s t ≡ false
not_text_beq s t h = elim (Bool-cases (text_beq s t)) [
  | inl e ↦ absurd (h ((text_beq_iff s t).0 e))
  | inr e ↦ e
]

-- Splitting an alias stream id gives back its scope and name, for every scope that the admin API
-- accepts and every non-empty name.
pub split-alias_stream_id :
    (scope name : Text)
    → IsScope scope
    → name ≢ []
    → split_alias_stream_id (alias_stream_id scope name) ≡ scope_name scope name
unfolding split_alias_stream_id alias_stream_id cut
split-alias_stream_id scope name (inl e) h =
    rw e (split_global_name name h) ∙ ap (λ s. scope_name s name) (sym e)
split-alias_stream_id scope name (inr (nonempty, safe)) h =
    rw (not_text_beq scope global_scope (slug_not_global scope safe)) (
      ap split_org (cut_at underscore scope name (IsSlug-no_underscore scope safe))
      ∙ split_org_parts scope name nonempty h)

IsScope-no_slash : (scope : Text) → IsScope scope → count_char b'/' scope ≡ 0
IsScope-no_slash scope (inl e) = rw e
IsScope-no_slash scope (inr (nonempty, safe)) = IsSlug-no_slash scope safe

-- Two aliases whose scopes the admin API accepts share a bucket key only if they have the same scope
-- and the same name, so a global alias and an org's alias never overwrite one another.
pub alias_key_injective :
    (scope scope' name name' : Text)
    → IsScope scope
    → IsScope scope'
    → alias_key scope name ≡ alias_key scope' name'
    → (scope ≡ scope') × (name ≡ name')
unfolding alias_key
alias_key_injective scope scope' name name' h h' e = (cc facts, cc facts)
  where
    facts : ◌≡◌ {A = Option (Text × Text)} (some (scope, name)) (some (scope', name'))
    facts =
        sym (cut_at b'/' scope name (IsScope-no_slash scope h))
        ∙ (ap (cut b'/') e ∙ cut_at b'/' scope' name' (IsScope-no_slash scope' h'))
