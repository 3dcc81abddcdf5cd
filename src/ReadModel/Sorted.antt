-- ===== src/ReadModel/Sorted.antt =====
-- The lists that MemReadStore of internal/controlplane/readmodel.go returns: sorted, and complete.
use mathlib.Core.List.{Perm}
use mathlib.Core.List.Perm
use inferbus.Base.{Bool-cases, List, String, [], arith, false, inl, inr, refl, true, ◌==◌, ◌∷◌, ◌≡◌}
use inferbus.Base.{nat_eq, string_eq}
use inferbus.Text.{Text, codes}
use inferbus.ReadModel.{MemReadStore, list_keys, put_in_order, rows_where, sort_by, text_ltb}

-- `s < t` is a strict order in which any two texts compare.
text_ltb_asym : (s t : Text) → text_ltb s t ≡ true → text_ltb t s ≡ false
unfolding text_ltb
text_ltb_asym [] [] h = cc
text_ltb_asym [] (d ∷ t) h = refl
text_ltb_asym (c ∷ s) [] h = cc
text_ltb_asym (c ∷ s) (d ∷ t) h = ground (arith, h, text_ltb_asym s t)

-- No row comes before the one that stands in front of it.
abbrev pub IsSorted : {A : Type 0} → (A → Text) → List A → Type 0
IsSorted name_of [] = Unit {0}
IsSorted name_of (x ∷ []) = Unit {0}
IsSorted name_of (x ∷ y ∷ rows) =
    (text_ltb (name_of y) (name_of x) ≡ false) × IsSorted name_of (y ∷ rows)

module _ {A : Type 0} (name_of : A → Text) where
  put_in_order-IsSorted :
      (x : A) (ys : List A) → IsSorted name_of ys → IsSorted name_of (put_in_order name_of x ys)
  unfolding put_in_order
  put_in_order-IsSorted x [] s = tt
  put_in_order-IsSorted x (y ∷ []) s = elim (Bool-cases (text_ltb (name_of y) (name_of x))) [
    | inl less ↦ rw less (text_ltb_asym (name_of y) (name_of x) less, tt)
    | inr not_less ↦ rw not_less (not_less, tt)
  ]
  put_in_order-IsSorted x (y ∷ z ∷ zs) s = elim (Bool-cases (text_ltb (name_of y) (name_of x))) [
    | inl less ↦ elim (Bool-cases (text_ltb (name_of z) (name_of x))) [
      | inl less' ↦ rw (less, less') (s.0, rw less' at (put_in_order-IsSorted x (z ∷ zs) s.1))
      | inr last ↦ rw (less, last) (text_ltb_asym (name_of y) (name_of x) less, (last, s.1))
    ]
    | inr not_less ↦ rw not_less (not_less, s)
  ]

  pub sort_by-IsSorted : (xs : List A) → IsSorted name_of (sort_by name_of xs)
  unfolding sort_by
  sort_by-IsSorted [] = tt
  sort_by-IsSorted (x ∷ xs) = put_in_order-IsSorted x (sort_by name_of xs) (sort_by-IsSorted xs)

  put_in_order-perm : (x : A) (ys : List A) → Perm (put_in_order name_of x ys) (x ∷ ys)
  unfolding put_in_order
  put_in_order-perm x [] = Perm.refl (x ∷ [])
  put_in_order-perm x (y ∷ ys) = elim (Bool-cases (text_ltb (name_of y) (name_of x))) [
    | inl less ↦ rw less (Perm.trans (Perm.cons y (put_in_order-perm x ys)) (Perm.swap x y ys))
    | inr not_less ↦ rw not_less (Perm.refl (x ∷ y ∷ ys))
  ]

  pub sort_by-perm : (xs : List A) → Perm (sort_by name_of xs) xs
  unfolding sort_by
  sort_by-perm [] = Perm.refl []
  sort_by-perm (x ∷ xs) =
      Perm.trans (put_in_order-perm x (sort_by name_of xs)) (Perm.cons x (sort_by-perm xs))

-- ListKeys returns the keys of the org, all of them and no other, sorted by their ids.
pub list_keys-IsSorted :
    (org : String) (s : MemReadStore)
    → IsSorted (λ r. codes r.id) (list_keys org s)
      × Perm (list_keys org s) (rows_where (λ r. r.org == org) s.keys)
unfolding list_keys
list_keys-IsSorted org s =
    let rows = rows_where (λ r. r.org == org) s.keys in
    (sort_by-IsSorted (λ r. codes r.id) rows, sort_by-perm (λ r. codes r.id) rows)
