-- ===== src/Base62/RoundTrip.antt =====
-- Reading the text of internal/controlplane/keys.go back.
use inferbus.Base.{
  Bool, Bool-cases, List, [], ap, arith, if◌then◌else◌, inl, inr, length, ltb, nat_beq, nat_beq_iff,
  refl, subst, suc, sym, true, zero, ℕ, ◌%◌, ◌&&◌, ◌*◌, ◌++◌, ◌+◌, ◌-◌, ◌/◌, ◌<◌, ◌==◌, ◌∙◌, ◌∷◌,
  ◌≡◌, ◌≤◌,
}
use inferbus.Base.{nat_eq}
use inferbus.Text.{Text}
use inferbus.Base62.{base62_encode, digit_char, digits, nth, reverse_onto, set_bytes, zeros}

-- The digit that a character of the alphabet stands for.
abbrev pub char_digit : ℕ → ℕ
char_digit c = if ltb c 58 then c - 48 else if ltb c 91 then c - 55 else c - 61

-- A text read as a number, the most significant digit first.
unfoldable pub base62_value : ℕ → Text → ℕ
base62_value n [] = n
base62_value n (c ∷ s) = base62_value (n * 62 + char_digit c) s

-- The least significant digit first.
unfoldable value_of : Text → ℕ
value_of [] = 0
value_of (c ∷ s) = char_digit c + 62 * value_of s

-- 62 ^ f
abbrev capacity : ℕ → ℕ
capacity zero = 1
capacity (suc f) = 62 * capacity f

-- A test that holds below a bound.
abbrev all_below : ℕ → (ℕ → Bool) → Bool
all_below zero p = true
all_below (suc n) p = p n && all_below n p

all_below_lem : (n k : ℕ) (p : ℕ → Bool) → all_below n p ≡ true → k < n → p k ≡ true
all_below_lem zero k p h lt = absurd (omega (arith, lt))
all_below_lem (suc n) k p h lt = elim (Bool-cases (nat_beq k n)) [
  | inl same ↦
      let e : k ≡ n = ground (arith, same, nat_beq_iff k n) in
      subst (λ m. p m ≡ true) (sym e) (ground (arith, h))
  | inr other ↦ all_below_lem n k p (ground (arith, h)) (ground (arith, lt, other, nat_beq_iff k n))
]

reads_back : ℕ → Bool
reads_back k = nat_beq (char_digit (digit_char k)) k

all_read_back : all_below 62 reads_back ≡ true
unfolding reads_back digit_char nth
all_read_back = refl

char_digit-digit_char : (k : ℕ) → k < 62 → char_digit (digit_char k) ≡ k
unfolding reads_back
char_digit-digit_char k lt =
    let h : reads_back k ≡ true = all_below_lem 62 k reads_back all_read_back lt in
    (nat_beq_iff (char_digit (digit_char k)) k).0 h

value_of-digits : (f n : ℕ) → n < capacity f → value_of (digits f n) ≡ n
unfolding digits value_of
value_of-digits zero n lt = omega (arith, lt)
value_of-digits (suc f) n lt = elim (Bool-cases (n == 0)) [
  | inl nothing ↦ rw nothing (ground (arith, nothing, nat_eq.beq_iff n 0))
  | inr more ↦ rw more (
      omega (
        arith,
        char_digit-digit_char (n % 62) (omega arith),
        value_of-digits f (n / 62) (omega (arith, lt)),
      ))
]

length-digits : (f n : ℕ) → length (digits f n) ≤ f
unfolding digits
length-digits zero n = omega arith
length-digits (suc f) n = elim (Bool-cases (n == 0)) [
  | inl nothing ↦ rw nothing (omega arith)
  | inr more ↦ rw more (omega (arith, length-digits f (n / 62)))
]

value_of-zeros : (k : ℕ) → value_of (zeros k) ≡ 0
unfolding value_of zeros
value_of-zeros zero = refl
value_of-zeros (suc k) = omega (arith, value_of-zeros k, char_digit-digit_char 0 (omega arith))

value_of-padded : (s : Text) (k : ℕ) → value_of (s ++ zeros k) ≡ value_of s
unfolding value_of
value_of-padded [] k = value_of-zeros k
value_of-padded (c ∷ s) k = omega (arith, value_of-padded s k)

length_padded : (s : Text) (k : ℕ) → length (s ++ zeros k) ≡ length s + k
unfolding zeros
length_padded [] zero = refl
length_padded [] (suc k) = omega (arith, length_padded [] k)
length_padded (c ∷ s) k = omega (arith, length_padded s k)

base62_value-reverse_onto :
    (s acc : Text) → base62_value 0 (reverse_onto s acc) ≡ base62_value (value_of s) acc
unfolding base62_value reverse_onto value_of
base62_value-reverse_onto [] acc = refl
base62_value-reverse_onto (c ∷ s) acc =
    base62_value-reverse_onto s (c ∷ acc) ∙ ap (λ n. base62_value n acc) (omega arith)

length-reverse_onto : (s acc : Text) → length (reverse_onto s acc) ≡ length s + length acc
unfolding reverse_onto
length-reverse_onto [] acc = omega arith
length-reverse_onto (c ∷ s) acc = omega (arith, length-reverse_onto s (c ∷ acc))

abbrev pub AllBytes : List ℕ → Type 0
AllBytes [] = Unit
AllBytes (b ∷ bs) = (b < 256) × AllBytes bs

-- c * 256 ^ k
abbrev scaled : ℕ → ℕ → ℕ
scaled c zero = c
scaled c (suc k) = scaled (c * 256) k

set_bytes_lt : (n c : ℕ) (bs : List ℕ) → AllBytes bs → n < c → set_bytes n bs < scaled c (length bs)
unfolding set_bytes
set_bytes_lt n c [] all lt = lt
set_bytes_lt n c (b ∷ bs) all lt =
    set_bytes_lt (n * 256 + b) (c * 256) bs all.1 (omega (arith, lt, all.0))

number_fits : (b : List ℕ) → AllBytes b → length b ≡ 32 → set_bytes 0 b < scaled 1 32
number_fits b all size =
    subst (λ k. set_bytes 0 b < scaled 1 k) size (set_bytes_lt 0 1 b all (omega arith))

more_fuel : (f g n : ℕ) → f ≤ g → n < capacity f → digits g n ≡ digits f n
unfolding digits
more_fuel zero zero n le lt = refl
more_fuel zero (suc g) n le lt = let none_left : n ≡ 0 = omega (arith, lt) in rw none_left refl
more_fuel (suc f) zero n le lt = absurd (omega (arith, le))
more_fuel (suc f) (suc g) n le lt =
    rw (more_fuel f g (n / 62) (omega (arith, le)) (omega (arith, lt))) refl

-- For 32 bytes the loop of DivMod ends within 43 rounds: more fuel gives the same digits.
pub digits_enough :
    (b : List ℕ) (fuel : ℕ)
    → AllBytes b
    → length b ≡ 32
    → 43 ≤ fuel
    → digits fuel (set_bytes 0 b) ≡ digits 43 (set_bytes 0 b)
digits_enough b fuel all size enough =
    more_fuel 43 fuel (set_bytes 0 b) enough (omega (arith, number_fits b all size))

-- The text of 32 random bytes has exactly 43 characters, and read back in base 62 it is the number
-- that the bytes are.
pub base62_value-base62_encode :
    (b : List ℕ)
    → AllBytes b
    → length b ≡ 32
    → (base62_value 0 (base62_encode b) ≡ set_bytes 0 b) × (length (base62_encode b) ≡ 43)
unfolding base62_encode base62_value value_of set_bytes
base62_value-base62_encode b all size =
    let n = set_bytes 0 b in
    let out = digits 43 n in
    (
      base62_value-reverse_onto (out ++ zeros (43 - length out)) []
          ∙ value_of-padded out (43 - length out)
          ∙ value_of-digits 43 n (omega (arith, number_fits b all size)),
      omega (
        arith,
        length-reverse_onto (out ++ zeros (43 - length out)) [],
        length_padded out (43 - length out),
        length-digits 43 n,
      ),
    )
