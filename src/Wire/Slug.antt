-- ===== src/Wire/Slug.antt =====
-- `Slug` and the subjects built from it: internal/wire/subjects.go. A text is its list of code points.
pub mod Safe
pub mod Letters
use inferbus.Base.{Bool, [], false, if◌then◌else◌, leb, nat_beq, ℕ, ◌&&◌, ◌++◌, ◌+◌, ◌||◌, ◌∷◌}
use inferbus.Text.{Text, codes}

-- `unicode.ToLower`, as far as `Slug` can see it: A to Z, and the two other letters whose lower case
-- is an ASCII letter (U+0130 and the Kelvin sign U+212A). Every other letter is left as it is, since
-- its lower case lies outside ASCII, where `Slug` writes a dash for either.
unfoldable pub to_lower : ℕ → ℕ
to_lower c =
    if leb b'A' c && leb c b'Z'
    then c + 32
    else if nat_beq c 0x130
    then b'i'
    else if nat_beq c 0x212A
    then b'k'
    else c

abbrev pub dash : ℕ
dash = b'-'

abbrev pub is_dash : ℕ → Bool
is_dash c = nat_beq c dash

unfoldable pub is_slug_char : ℕ → Bool
is_slug_char c = leb b'a' c && leb c b'z' || (leb b'0' c && leb c b'9' || is_dash c)

-- `if !ok { r = '-' }`
unfoldable pub slug_char : ℕ → ℕ
unfolding is_slug_char to_lower
slug_char c = let r = to_lower c in if is_slug_char r then r else dash

-- The loop over the runes; the argument is `prevDash`.
unfoldable pub slug_loop : Bool → Text → Text
slug_loop prev [] = []
slug_loop prev (c ∷ s) =
    let r = slug_char c in
    let skipped = slug_loop prev s in
    let written = r ∷ slug_loop (is_dash r) s in if is_dash r && prev then skipped else written

unfoldable pub trim_left : Text → Text
trim_left [] = []
trim_left (c ∷ s) = let rest = trim_left s in if is_dash c then rest else c ∷ s

-- A dash is dropped if nothing but dashes follows it.
abbrev keep_or_trim : ℕ → Text → Text
keep_or_trim c [] = if is_dash c then [] else c ∷ []
keep_or_trim c (d ∷ rest) = c ∷ d ∷ rest

unfoldable pub trim_right : Text → Text
trim_right [] = []
trim_right (c ∷ s) = keep_or_trim c (trim_right s)

-- `strings.Trim(b.String(), "-")`
unfoldable pub slug : Text → Text
unfolding slug_loop trim_left trim_right slug_char
slug model = trim_right (trim_left (slug_loop false model))

unfoldable pub req_subject : Text → Text
req_subject model = codes "inference.req." ++ slug model

unfoldable pub resp_subject : Text → Text
resp_subject req_id = codes "inference.resp." ++ req_id

unfoldable pub cancel_subject : Text → Text
cancel_subject req_id = codes "inference.cancel." ++ req_id

unfoldable pub durable : Text → Text
durable model = codes "model-" ++ slug model

unfoldable pub usage_subject : Text → Text → Text → Text
usage_subject org project model =
    codes "metering.usage."
    ++ (slug org ++ (codes "." ++ (slug project ++ (codes "." ++ slug model))))
