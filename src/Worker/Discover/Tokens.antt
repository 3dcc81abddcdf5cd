-- ===== src/Worker/Discover/Tokens.antt =====
-- Which models Discover of internal/worker/discover.go serves under which subject token.
use inferbus.Worker.Discover.{
  Config, ModelConfig, claims, default_inflight, defaults, discover, is_unusable, or_no_models,
  responded, trim_slashes,
}
use inferbus.Base.{
  Bool-cases, List, Option, [], ap, arith, false, if◌then◌else◌, inl, inr, le_int, leb, ltb, map,
  none, pos, refl, some, subst, sym, true, ℕ, ℤ, ◌&&◌, ◌∙◌, ◌∷◌, ◌≡◌,
}
use inferbus.Text.{Text, codes, text_beq, text_beq_iff}
use inferbus.Text.{text_eq}
use inferbus.Dict.{Dict, insert, lookup, lookup-insert}
use inferbus.Wire.Slug.{slug}

-- The names of the models whose subject token this is.
abbrev pub at_token : Text → List ModelConfig → List Text
at_token t [] = []
at_token t (m ∷ ms) = if text_beq (slug m.name) t then m.name ∷ at_token t ms else at_token t ms

-- The first id of the listing with this token.
abbrev pub first_claimant : Text → List Text → List Text
first_claimant t [] = []
first_claimant t (id ∷ ids) = if text_beq (slug id) t then id ∷ [] else first_claimant t ids

at_token-claims :
    (url : Text) (n : ℤ) (t : Text) (seen : Dict Text Text) (ids : List Text)
    → at_token t (claims url n seen ids) ≡ (if is_unusable seen t then [] else first_claimant t ids)
unfolding claims
at_token-claims url n t seen [] = ground arith
at_token-claims url n t seen (id ∷ ids) =
    let token = slug id in
    let more = insert token id seen in
    elim (Bool-cases (is_unusable seen token)) [
      | inl skip ↦ elim (Bool-cases (text_beq token t)) [
        | inl same ↦
            let e : token ≡ t = (text_beq_iff token t).0 same in
            let taken = subst (λ x. is_unusable seen x ≡ true) e skip in
            rw (skip, taken)
              (at_token-claims url n t seen ids
                ∙ ap (λ b. if b then [] else first_claimant t ids) taken)
        | inr other ↦ rw (skip, other) (at_token-claims url n t seen ids)
      ]
      | inr fresh ↦ elim (Bool-cases (text_beq token t)) [
        | inl same ↦
            let e : token ≡ t = (text_beq_iff token t).0 same in
            let free = subst (λ x. is_unusable seen x ≡ false) e fresh in
            ground (
              arith,
              fresh,
              same,
              free,
              lookup-insert token t id seen,
              at_token-claims url n t more ids,
            )
        | inr other ↦
            ground
              (arith, fresh, other, lookup-insert token t id seen, at_token-claims url n t more ids)
      ]
    ]

at_token-default_inflight :
    (t : Text) (ms : List ModelConfig) → at_token t (map default_inflight ms) ≡ at_token t ms
at_token-default_inflight t [] = refl
at_token-default_inflight t (m ∷ ms) = ground (arith, at_token-default_inflight t ms)

-- No id has a token.
abbrev pub AllTokenless : List Text → Type 0
AllTokenless [] = Unit {0}
AllTokenless (id ∷ ids) = (slug id ≡ []) × AllTokenless ids

abbrev pub AllAt : Text → List ModelConfig → Type 0
AllAt url [] = Unit {0}
AllAt url (m ∷ ms) =
    (m.url ≡ url)
    × (m.engine ≡ codes "openai_http")
    × (le_int m.max_inflight (pos 0) ≡ false)
    × AllAt url ms

-- Under each token stands the first id of the listing that has it, and none under the empty one.
abbrev pub IsDiscovered : Text → List Text → Option Config → Type 0
IsDiscovered url ids none = AllTokenless ids
IsDiscovered url ids (some c) =
    ((t : Text) → at_token t c.models ≡ (if text_beq t [] then [] else first_claimant t ids))
    × AllAt url c.models

default-url : (m : ModelConfig) → (default_inflight m).url ≡ m.url
default-url m = ground arith

default-engine : (m : ModelConfig) → (default_inflight m).engine ≡ m.engine
default-engine m = ground arith

default-max_inflight : (m : ModelConfig) → le_int (default_inflight m).max_inflight (pos 0) ≡ false
default-max_inflight m = ground arith

claims-AllAt :
    (url : Text) (n : ℤ) (seen : Dict Text Text) (ids : List Text)
    → AllAt url (map default_inflight (claims url n seen ids))
unfolding claims
claims-AllAt url n seen [] = tt
claims-AllAt url n seen (id ∷ ids) = elim (Bool-cases (is_unusable seen (slug id))) [
  | inl skip ↦ rw skip (claims-AllAt url n seen ids)
  | inr fresh ↦
      let m : ModelConfig = record {
        name = id;
        engine = codes "openai_http";
        url = url;
        max_inflight = n;
      } in
      rw fresh (
        default-url m,
        default-engine m,
        default-max_inflight m,
        claims-AllAt url n (insert (slug id) id seen) ids,
      )
]

claims_empty : (url : Text) (n : ℤ) (ids : List Text) → claims url n [] ids ≡ [] → AllTokenless ids
unfolding claims lookup
claims_empty url n [] h = tt
claims_empty url n (id ∷ ids) h = elim (Bool-cases (text_beq (slug id) [])) [
  | inl bare ↦ ((text_beq_iff (slug id) []).0 bare, claims_empty url n ids (rw bare at h))
  | inr token ↦ absurd (ground (arith, h, token))
]

or_no_models-IsDiscovered :
    (url fallback : Text) (n : ℤ) (ids : List Text) (ms : List ModelConfig)
    → claims url n [] ids ≡ ms
    → IsDiscovered url ids (or_no_models fallback ms)
unfolding or_no_models defaults lookup
or_no_models-IsDiscovered url fallback n ids [] e = claims_empty url n ids e
or_no_models-IsDiscovered url fallback n ids (m ∷ ms) e = (
  λ t.
      at_token-default_inflight t (m ∷ ms)
      ∙ ap (at_token t) (sym e)
      ∙ at_token-claims url n t [] ids
      ∙ ground arith,
  subst (λ xs. AllAt url (map default_inflight xs)) e (claims-AllAt url n [] ids),
)

-- If the engine answers 2xx with a listing, Discover fails exactly if no id has a subject-safe form;
-- otherwise each non-empty subject token is served by the first id of the listing that has it and by
-- no other, all at the engine's URL and with a positive number of slots.
pub discover-IsDiscovered :
    (engine_url fallback : Text) (n : ℤ) (status : ℕ) (ids : List Text)
    → (leb 200 status && ltb status 300) ≡ true
    → IsDiscovered
        (trim_slashes engine_url)
        ids
        (discover engine_url n fallback (responded status (some ids)))
unfolding discover
discover-IsDiscovered engine_url fallback n status ids good =
    let url = trim_slashes engine_url in
    rw good (or_no_models-IsDiscovered url fallback n ids (claims url n [] ids) refl)
