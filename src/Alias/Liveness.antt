-- ===== src/Alias/Liveness.antt =====
-- When an alias is live, and what a live alias satisfies: internal/controlplane/alias/decider.go.
use mathlib.Core.Bool.{false≢true}
use inferbus.Base.{
  string_eq, Bool, Bool-cases, List, Option, String, [], ap, false, inl, inr, none, not, refl, some,
  str_eq_iff, sym, true, ◌&&◌, ◌==◌, ◌∙◌, ◌∷◌, ◌≡◌, ◌≢◌, ◌⊎◌,
}
use inferbus.Dict.{Dict}
use inferbus.Text.{codes}
use inferbus.Wire.Slug.{slug}
use inferbus.Alias.{
  Alias, Command, after, alias_deleted, decide, decide_set, delete_alias, evolve, evolve_all,
  first_reserved_param_key, handle, initial, is_empty, ok, run, set, unset,
}

-- A target was set, it has a subject, and no param is reserved.
pub record IsUsable (s : Alias) : Type 0 where
  pub has_subject : is_empty (slug (codes s.target)) ≡ false
  pub unreserved : first_reserved_param_key s.params ≡ none

-- Either no alias was ever set, or what is stored is usable, also under a deletion mark.
abbrev pub IsValid : Alias → Type 0
IsValid s = (s ≡ initial) ⊎ IsUsable s

slug_of_nothing : is_empty (slug (codes "")) ≡ true
unfolding slug
slug_of_nothing = refl

pub target_given : (s : Alias) → IsUsable s → (s.target == "") ≡ false
target_given s u = elim (Bool-cases (s.target == "")) [
  | inr e ↦ e
  | inl e ↦ absurd (not_nothing ((str_eq_iff s.target "").0 e))
]
  where
    not_nothing : s.target ≢ ""
    not_nothing p =
        false≢true (sym u.has_subject ∙ (ap (λ t. is_empty (slug (codes t))) p ∙ slug_of_nothing))

set-IsValid :
    (s : Alias) (target : String) (params : Dict String String) (o : Option String)
    → first_reserved_param_key params ≡ o
    → is_empty (slug (codes target)) ≡ false
    → IsValid s
    → IsValid (after s (decide_set target params o))
unfolding decide_set evolve evolve_all
set-IsValid s target params none e h v = inr (record { has_subject = h; unreserved = e })
set-IsValid s target params (some k) e h v = v

delete-IsValid : (s : Alias) → IsValid s → IsValid (handle s delete_alias)
unfolding handle decide evolve evolve_all
delete-IsValid s (inl e) = rw e (inl refl)
delete-IsValid s (inr u) = elim (Bool-cases s.deleted) [
  | inl gone ↦
      rw (target_given s u, gone)
        (inr (record { has_subject = u.has_subject; unreserved = u.unreserved }))
  | inr live ↦
      rw (target_given s u, live)
        (inr (record { has_subject = u.has_subject; unreserved = u.unreserved }))
]

handle-IsValid : (s : Alias) (c : Command) → IsValid s → IsValid (handle s c)
unfolding handle decide
handle-IsValid s (set target params) v = elim (Bool-cases (is_empty (slug (codes target)))) [
  | inl bad ↦ rw bad v
  | inr good ↦ rw good (set-IsValid s target params (first_reserved_param_key params) refl good v)
]
handle-IsValid s delete_alias v = delete-IsValid s v
handle-IsValid s unset v = v

-- An alias that was never set, or whose target has a subject and whose params name no reserved key,
-- is in one of these two cases again after every list of commands.
pub alias-run-IsValid : (s : Alias) (cs : List Command) → IsValid s → IsValid (run s cs)
unfolding run
alias-run-IsValid s [] v = v
alias-run-IsValid s (c ∷ cs) v = alias-run-IsValid (handle s c) cs (handle-IsValid s c v)

-- Set and not deleted.
abbrev pub is_live : Alias → Bool
is_live s = not (s.target == "") && not s.deleted

set_live :
    (s : Alias) (target : String) (params : Dict String String) (o : Option String)
    → first_reserved_param_key params ≡ o
    → is_empty (slug (codes target)) ≡ false
    → o ≡ none
    → let t = after s (decide_set target params o) in
      (t.target ≡ target)
      × (t.params ≡ params)
      × (is_live t ≡ true)
      × (decide t delete_alias ≡ ok (alias_deleted ∷ []))
unfolding decide_set decide evolve evolve_all
set_live s target params (some k) e h n = cc
set_live s target params none e h n =
    let given =
      target_given (record { target = target; params = params; deleted = false })
        (record { has_subject = h; unreserved = e }) in
    (refl, refl, rw given, rw given)

-- Whatever state an alias is in, an accepted `SetAlias` makes it live with just that target and those
-- params, and a `DeleteAlias` is then not taken for a no-op.
pub set-revives :
    (s : Alias) (target : String) (params : Dict String String)
    → is_empty (slug (codes target)) ≡ false
    → first_reserved_param_key params ≡ none
    → let t = handle s (set target params) in
      (t.target ≡ target)
      × (t.params ≡ params)
      × (is_live t ≡ true)
      × (decide t delete_alias ≡ ok (alias_deleted ∷ []))
unfolding handle decide
set-revives s target params h n =
    rw h (set_live s target params (first_reserved_param_key params) refl h n)
