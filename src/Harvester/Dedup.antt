-- ===== src/Harvester/Dedup.antt =====
-- One flush of internal/harvester/harvester.go: what reaches the sink, and what OnRow is told.
use inferbus.Base.{
  Bool, List, Option, String, [], arith, false, if◌then◌else◌, none, some, true, ◌==◌, ◌||◌, ◌∷◌,
  ◌≡◌,
}
use inferbus.Base.{string_eq}
use inferbus.Harvester.{
  Action, HeldMsg, Row, acked, inserted, is_seen, mark_firsts, naked, progressed, reported, termed,
}

abbrev pub has_id : String → List Row → Bool
has_id id [] = false
has_id id (r ∷ rows) = r.req_id == id || has_id id rows

abbrev pub has_item : String → List HeldMsg → Bool
has_item id [] = false
has_item id (item ∷ batch) = item.row.req_id == id || has_item id batch

-- No two rows have the same request id.
abbrev pub DistinctIds : List Row → Type 0
DistinctIds [] = Unit {0}
DistinctIds (r ∷ rows) = (has_id r.req_id rows ≡ false) × DistinctIds rows

-- The row of the first delivery of a request id.
abbrev pub find_row : String → List Row → Option Row
find_row id [] = none
find_row id (r ∷ rows) = if r.req_id == id then some r else find_row id rows

abbrev pub first_delivered : String → List HeldMsg → Option Row
first_delivered id [] = none
first_delivered id (item ∷ batch) =
    if item.row.req_id == id then some item.row else first_delivered id batch

-- What is handed to the sink, insertion by insertion.
abbrev pub insertions : List Action → List (List Row)
insertions [] = []
insertions (acked n ∷ rest) = insertions rest
insertions (naked n ∷ rest) = insertions rest
insertions (termed n ∷ rest) = insertions rest
insertions (progressed n ∷ rest) = insertions rest
insertions (inserted rows ∷ rest) = rows ∷ insertions rest
insertions (reported r ∷ rest) = insertions rest

abbrev pub reports : List Action → List Row
reports [] = []
reports (acked n ∷ rest) = reports rest
reports (naked n ∷ rest) = reports rest
reports (termed n ∷ rest) = reports rest
reports (progressed n ∷ rest) = reports rest
reports (inserted rows ∷ rest) = reports rest
reports (reported r ∷ rest) = r ∷ reports rest

pub mark_firsts_old :
    (seen : List String) (item : HeldMsg) (batch : List HeldMsg)
    → is_seen item.row.req_id seen ≡ true
    → mark_firsts seen (item ∷ batch) ≡ (item, false) ∷ mark_firsts seen batch
unfolding mark_firsts
mark_firsts_old seen item batch h = ground (arith, h)

pub mark_firsts_new :
    (seen : List String) (item : HeldMsg) (batch : List HeldMsg)
    → is_seen item.row.req_id seen ≡ false
    → mark_firsts seen (item ∷ batch) ≡ (item, true) ∷ mark_firsts (item.row.req_id ∷ seen) batch
unfolding mark_firsts
mark_firsts_new seen item batch h = ground (arith, h)

-- The rows are inserted at once and reported in their order; each request id of the batch has one,
-- that of its first delivery.
abbrev pub InsertsOnce : List HeldMsg → List Action → Type 0
InsertsOnce batch actions =
    (rows : List Row) × (insertions actions ≡ rows ∷ [])
    × (reports actions ≡ rows)
    × DistinctIds rows
    × ((id : String) → find_row id rows ≡ first_delivered id batch)
