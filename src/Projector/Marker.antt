-- ===== src/Projector/Marker.antt =====
-- KVMarker of internal/controlplane/kvproj.go: the position that a projector has reached, kept as a
-- decimal text in the bucket CP_MARKERS. `FormatUint` and `ParseUint` of strconv at base 10, 64 bits.
use inferbus.Base.{
  Bool, Bool-cases, Option, String, [], ap, arith, if◌then◌else◌, inl, inr, leb, ltb, none, refl,
  some, suc, true, zero, ℕ, ◌%◌, ◌&&◌, ◌*◌, ◌+◌, ◌-◌, ◌/◌, ◌<◌, ◌==◌, ◌^◌, ◌∙◌, ◌∷◌, ◌≡◌,
}
use inferbus.Base.{nat_eq, string_eq}
use inferbus.Dict.{Dict, insert, lookup, lookup-insert}
use inferbus.Text.{Text}

-- The digits of `n` before those of `acc`. A uint64 has at most 20.
digits_onto : ℕ → ℕ → Text → Text
digits_onto zero n acc = acc
digits_onto (suc fuel) n acc =
    let more = digits_onto fuel (n / 10) ((48 + n % 10) ∷ acc) in
    if ltb n 10 then (48 + n) ∷ acc else more

unfoldable pub format_uint : ℕ → Text
unfolding digits_onto
format_uint n = digits_onto 20 n []

is_digit : ℕ → Bool
is_digit c = leb 48 c && leb c 57

-- A character that is no digit is a syntax error, a value past the uint64s a range error.
parse_onto : ℕ → Text → Option ℕ
parse_onto n [] = some n
parse_onto n (c ∷ s) =
    let n' = n * 10 + (c - 48) in
    let rest = parse_onto n' s in if is_digit c && ltb n' (2 ^ 64) then rest else none

unfoldable pub parse_uint : Text → Option ℕ
unfolding parse_onto is_digit
parse_uint [] = none
parse_uint (c ∷ s) = parse_onto 0 (c ∷ s)

abbrev pub Markers : Type 0
Markers = Dict String Text

parsed : Option Text → Option ℕ
parsed none = some 0
parsed (some text) = parse_uint text

-- `Load` of a bucket that answers: a marker that is not there is 0, one that is no number an error.
unfoldable pub load : String → Markers → Option ℕ
unfolding parsed
load name m = parsed (lookup name m)

-- `Save` of a bucket that answers.
unfoldable pub save : String → ℕ → Markers → Markers
save name position m = insert name (format_uint position) m

-- 10 ^ f
abbrev capacity : ℕ → ℕ
capacity zero = 1
capacity (suc f) = 10 * capacity f

parse_digit :
    (n d : ℕ) (s : Text)
    → d < 10
    → n * 10 + d < 2 ^ 64
    → parse_onto n ((48 + d) ∷ s) ≡ parse_onto (n * 10 + d) s
unfolding parse_onto is_digit
parse_digit n d s small fits = let e : 48 + d - 48 ≡ d = omega arith in rw e (ground arith)

parse_uint-digits_onto :
    (f n : ℕ) (acc : Text)
    → n < capacity (suc f)
    → n < 2 ^ 64
    → parse_uint (digits_onto (suc f) n acc) ≡ parse_onto n acc
unfolding digits_onto parse_uint
parse_uint-digits_onto zero n acc lt fits =
    let small : ltb n 10 ≡ true = ground (arith, lt) in
    rw small (
      parse_digit 0 n acc (omega (arith, lt)) (omega (arith, fits))
      ∙ ap (λ m. parse_onto m acc) (omega arith))
parse_uint-digits_onto (suc f) n acc lt fits = elim (Bool-cases (ltb n 10)) [
  | inl small ↦ rw small (
      parse_digit 0 n acc (ground (arith, small)) (omega (arith, fits))
      ∙ ap (λ m. parse_onto m acc) (omega arith))
  | inr more ↦ rw more (
      parse_uint-digits_onto f (n / 10) ((48 + n % 10) ∷ acc) (omega (arith, lt))
        (omega (arith, fits))
      ∙ parse_digit (n / 10) (n % 10) acc (omega arith) (omega (arith, fits))
      ∙ ap (λ m. parse_onto m acc) (omega arith))
]

-- A marker that is saved is loaded again as the same position, for every uint64, and no other
-- projector's marker changes.
pub load-save :
    (name other : String) (n : ℕ) (m : Markers)
    → n < 2 ^ 64
    → load other (save name n m) ≡ (if name == other then some n else load other m)
unfolding load save format_uint parse_onto
load-save name other n m fits =
    let e : parse_uint (format_uint n) ≡ some n =
      parse_uint-digits_onto 19 n [] (omega (arith, fits)) fits in
    elim (Bool-cases (name == other)) [
      | inl same ↦ rw (same, lookup-insert name other (format_uint n) m, same) e
      | inr apart ↦ rw (apart, lookup-insert name other (format_uint n) m, apart) refl
    ]
