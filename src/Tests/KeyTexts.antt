-- ===== src/Tests/KeyTexts.antt =====
-- internal/controlplane/keys.go at work, on bytes that a random source might give.
use inferbus.Base.{List, [], arith, length, refl, suc, zero, ℕ, ◌∷◌, ◌≡◌}
use inferbus.Base62.{base62_encode, digits, set_bytes}
use inferbus.Base62.RoundTrip.{AllBytes, base62_value, base62_value-base62_encode, digits_enough}

abbrev sevens : ℕ → List ℕ
sevens zero = []
sevens (suc k) = 7 ∷ sevens k

sevens-AllBytes : (k : ℕ) → AllBytes (sevens k)
sevens-AllBytes zero = tt
sevens-AllBytes (suc k) = (omega arith, sevens-AllBytes k)

abbrev random_bytes : List ℕ
random_bytes = 0 ∷ 255 ∷ sevens 30

random_bytes-AllBytes : AllBytes random_bytes
random_bytes-AllBytes = (omega arith, (omega arith, sevens-AllBytes 30))

base62_value-base62_encode_example :
    (base62_value 0 (base62_encode random_bytes) ≡ set_bytes 0 random_bytes)
    × (length (base62_encode random_bytes) ≡ 43)
base62_value-base62_encode_example =
    base62_value-base62_encode random_bytes random_bytes-AllBytes refl

digits_enough_example : digits 100 (set_bytes 0 random_bytes) ≡ digits 43 (set_bytes 0 random_bytes)
digits_enough_example = digits_enough random_bytes 100 random_bytes-AllBytes refl (omega arith)
