-- ===== src/Base62.antt =====
-- The text of a new API key: base62Encode of internal/controlplane/keys.go. big.Int is a number; the
-- loop of DivMod runs on fuel.
pub mod RoundTrip
use inferbus.Base.{
  List, [], if◌then◌else◌, length, suc, zero, ℕ, ◌%◌, ◌*◌, ◌++◌, ◌+◌, ◌-◌, ◌/◌, ◌==◌, ◌∷◌,
}
use inferbus.Base.{nat_eq}
use inferbus.Text.{Text, codes}

-- `SetBytes`: big-endian.
unfoldable pub set_bytes : ℕ → List ℕ → ℕ
set_bytes n [] = n
set_bytes n (b ∷ bs) = set_bytes (n * 256 + b) bs

abbrev base62_alphabet : Text
base62_alphabet = codes "0123456789ABCDEFGHIJKLMNOPQRSTUVWXYZabcdefghijklmnopqrstuvwxyz"

unfoldable pub nth : ℕ → Text → ℕ
nth k [] = 0
nth zero (c ∷ s) = c
nth (suc k) (c ∷ s) = nth k s

unfoldable pub digit_char : ℕ → ℕ
digit_char d = nth d base62_alphabet

-- The loop: the digits, the least significant first.
unfoldable pub digits : ℕ → ℕ → Text
digits zero n = []
digits (suc fuel) n =
    let rest = digits fuel (n / 62) in if n == 0 then [] else digit_char (n % 62) ∷ rest

abbrev pub base62_key_len : ℕ
base62_key_len = 43

unfoldable pub zeros : ℕ → Text
zeros zero = []
zeros (suc k) = digit_char 0 ∷ zeros k

unfoldable pub reverse_onto : Text → Text → Text
reverse_onto [] acc = acc
reverse_onto (c ∷ s) acc = reverse_onto s (c ∷ acc)

-- `base62Encode`
unfoldable pub base62_encode : List ℕ → Text
base62_encode b =
    let out = digits base62_key_len (set_bytes 0 b) in
    reverse_onto (out ++ zeros (base62_key_len - length out)) []
