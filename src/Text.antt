-- ===== src/Text.antt =====
-- Text that the program walks: the list of a string's code points.
use Prim.Native.Char.{code}
use mathlib.Core.Option
use inferbus.Base.{
  Bool, Bool-cases, Eq, List, Option, String, [], arith, false, if◌then◌else◌, inl, inr, leb, map,
  nat_beq, none, refl, some, suc, true, ℕ, ◌&&◌, ◌++◌, ◌+◌, ◌↔◌, ◌∷◌, ◌≡◌,
}

abbrev pub Text : Type 0
Text = List ℕ

abbrev pub codes : String → Text
codes String.[] = []
codes (String.◌∷◌ first rest) = code first ∷ codes rest

abbrev pub text_beq : Text → Text → Bool
text_beq [] [] = true
text_beq [] (b ∷ bs) = false
text_beq (a ∷ xs) [] = false
text_beq (a ∷ xs) (b ∷ bs) = nat_beq a b && text_beq xs bs

pub text_beq_iff : (s t : Text) → (text_beq s t ≡ true) ↔ (s ≡ t)
text_beq_iff [] [] = ground arith
text_beq_iff [] (b ∷ t) = ground arith
text_beq_iff (a ∷ s) [] = ground arith
text_beq_iff (a ∷ s) (b ∷ t) = ground (arith, text_beq_iff s t)

instance abbrev pub text_eq : Eq Text
text_eq = record { beq = text_beq; beq_iff = text_beq_iff }

-- How often a character stands in a text.
abbrev pub count_char : ℕ → Text → ℕ
count_char x [] = 0
count_char x (c ∷ s) = let n = count_char x s in if nat_beq c x then suc n else n

pub count_char-append :
    (x : ℕ) (s t : Text) → count_char x (s ++ t) ≡ count_char x s + count_char x t
count_char-append x [] t = omega arith
count_char-append x (c ∷ s) t = ground (arith, count_char-append x s t)

-- `strings.Cut` at one character: what stands before and after its first occurrence.
unfoldable pub cut : ℕ → Text → Option (Text × Text)
cut x [] = none
cut x (c ∷ s) = if nat_beq c x then some ([], s) else Option.map (λ p. (c ∷ p.0, p.1)) (cut x s)

-- A text with no such character, then the character, is cut there.
pub cut_at : (x : ℕ) (s t : Text) → count_char x s ≡ 0 → cut x (s ++ x ∷ t) ≡ some (s, t)
unfolding cut
cut_at x [] t h = ground arith
cut_at x (c ∷ s) t h = ground (arith, cut_at x s t)

-- Whatever `cut` returns puts the text together again, and the first part has no such character.
abbrev pub IsCut : ℕ → Text → Option (Text × Text) → Type 0
IsCut x s none = count_char x s ≡ 0
IsCut x s (some (a, b)) = (s ≡ a ++ x ∷ b) × (count_char x a ≡ 0)

IsCut-step :
    (x c : ℕ) (s : Text) (o : Option (Text × Text))
    → nat_beq c x ≡ false
    → IsCut x s o
    → IsCut x (c ∷ s) (Option.map (λ p. (c ∷ p.0, p.1)) o)
IsCut-step x c s none h k = ground arith
IsCut-step x c s (some (a, b)) h k = ground arith

pub cut-IsCut : (x : ℕ) (s : Text) → IsCut x s (cut x s)
unfolding cut
cut-IsCut x [] = refl
cut-IsCut x (c ∷ s) = elim (Bool-cases (nat_beq c x)) [
  | inl here ↦ rw here (ground arith)
  | inr later ↦ rw later (IsCut-step x c s (cut x s) later (cut-IsCut x s))
]

-- One representative of each class of letters that `strings.EqualFold` identifies, as far as a
-- comparison with lower-case ASCII words can see it: besides A to Z, only U+017F folds onto s and
-- only the Kelvin sign U+212A onto k.
abbrev pub fold_char : ℕ → ℕ
fold_char c =
    if leb b'A' c && leb c b'Z'
    then c + 32
    else if nat_beq c 0x17f
    then b's'
    else if nat_beq c 0x212A
    then b'k'
    else c

-- `strings.EqualFold`
unfoldable pub equal_fold : Text → Text → Bool
equal_fold s t = text_beq (map fold_char s) (map fold_char t)
