-- ===== src/Tests/Names.antt =====
-- Subjects and stream ids at work: internal/wire/subjects.go, internal/controlplane.
use inferbus.Worker.Discover.{discover, responded, trim_slashes}
use inferbus.Worker.Discover.Tokens.{IsDiscovered, discover-IsDiscovered}
use inferbus.Base.{List, [], arith, inr, pos, refl, some, ◌∷◌, ◌≡◌}
use inferbus.Text.{Text, codes}
use inferbus.Wire.Slug.{is_slug_char}
use inferbus.Projector.StreamId.{
  IsScope, alias_stream_id, scope_name, split-alias_stream_id, split_alias_stream_id,
}

acme-IsScope : IsScope (codes "acme")
unfolding is_slug_char
acme-IsScope =
    inr (λ e. ground (arith, e), (refl, refl, (refl, refl, (refl, refl, (refl, refl, refl)))))

split-alias_stream_id_example :
    split_alias_stream_id (alias_stream_id (codes "acme") (codes "fast_1"))
    ≡ scope_name (codes "acme") (codes "fast_1")
split-alias_stream_id_example =
    split-alias_stream_id (codes "acme") (codes "fast_1") acme-IsScope (λ e. ground (arith, e))

-- Two ids share a token, one has none, and the URL ends with a slash.
abbrev listing : List Text
listing = codes "a/b" ∷ codes "a.b" ∷ codes "--" ∷ codes "c" ∷ []

discover-IsDiscovered_example :
    IsDiscovered
      (trim_slashes (codes "http://e/"))
      listing
      (discover (codes "http://e/") (pos 0) (codes "host-1") (responded 200 (some listing)))
discover-IsDiscovered_example =
    discover-IsDiscovered (codes "http://e/") (codes "host-1") (pos 0) 200 listing refl
