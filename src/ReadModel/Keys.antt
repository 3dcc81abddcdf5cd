-- ===== src/ReadModel/Keys.antt =====
-- The key rows of the admin read model against one apikey aggregate: applyApiKeyEvent of
-- internal/controlplane/readmodel.go after internal/controlplane/apikey/decider.go. Commands and
-- projected events interleave in any order; an event is projected with the aggregate as it then is.
use inferbus.Base.{List, String, [], arith, false, some, ◌++◌, ◌==◌, ◌∷◌, ◌≡◌}
use inferbus.Base.{string_eq}
use inferbus.Dict.{lookup, lookup-insert, lookup-insert_self}
use inferbus.ApiKey.{ApiKey, Command, Event, absent, decide, decided, evolve_all, handle}
use inferbus.ReadModel.{KeyRow, MemReadStore, upsert_key}
use inferbus.ReadModel.Apply.{apply_api_key_event, key_row}

-- The aggregate, the events that are committed and not projected yet, and the read model.
pub record KeyWorld : Type 0 where
  pub key : ApiKey
  pub pending : List Event
  pub rows : MemReadStore

pub data KeyStep : Type 0 where
  command : Command → KeyStep
  project : KeyStep

project_key : String → List Event → ApiKey → MemReadStore → List Event × MemReadStore
project_key id [] k s = ([], s)
project_key id (e ∷ es) k s = (es, (apply_api_key_event id (some k) s []).0)

unfoldable pub key_step : String → KeyWorld → KeyStep → KeyWorld
unfolding project_key
key_step id w (command c) = record w {
  key = handle w.key c;
  pending = w.pending ++ decided (decide w.key c);
}
key_step id w project =
    let next = project_key id w.pending w.key w.rows in record w { pending = next.0; rows = next.1 }

unfoldable pub key_steps : String → KeyWorld → List KeyStep → KeyWorld
key_steps id w [] = w
key_steps id w (t ∷ ts) = key_steps id (key_step id w t) ts

-- The row that shows a key of the aggregate.
abbrev pub shown_key : String → ApiKey → KeyRow
shown_key id k = record {
  id = id;
  org = k.org;
  project = k.project;
  name = k.name;
  allow = k.allow;
  rate_limit_rpm = k.rate_limit_rpm;
  monthly_token_budget = k.monthly_token_budget;
  disabled = k.disabled;
}

-- Once nothing is pending, the row of a created key has the fields of the aggregate; the rows of other
-- keys are as in `old`.
pub record KeyRowFollows (id : String) (old : MemReadStore) (w : KeyWorld) : Type 0 where
  pub settled :
      w.pending ≡ [] → absent w.key ≡ false → lookup id w.rows.keys ≡ some (shown_key id w.key)
  pub others_kept :
      (other : String) → (id == other) ≡ false → lookup other w.rows.keys ≡ lookup other old.keys

no_new_event :
    (before new : List Event) (k : ApiKey) (A : ApiKey → Type 0)
    → (before ≡ [] → A k)
    → before ++ new ≡ []
    → A (evolve_all k new)
unfolding evolve_all
no_new_event [] [] k A h e = h e
no_new_event [] (x ∷ new) k A h e = absurd (ground arith)
no_new_event (x ∷ before) new k A h e = absurd (ground arith)

module _ (id : String) (old : MemReadStore) where
  command-KeyRowFollows :
      (w : KeyWorld) (c : Command)
      → KeyRowFollows id old w
      → KeyRowFollows id old (key_step id w (command c))
  unfolding key_step handle
  command-KeyRowFollows w c h = record {
    settled =
        no_new_event w.pending (decided (decide w.key c)) w.key
          (λ k. absent k ≡ false → lookup id w.rows.keys ≡ some (shown_key id k)) h.settled;
    others_kept = h.others_kept;
  }

  project_key-KeyRowFollows :
      (k : ApiKey) (pending : List Event) (s : MemReadStore)
      → KeyRowFollows id old (record { key = k; pending = pending; rows = s })
      → KeyRowFollows id old (key_step id (record { key = k; pending = pending; rows = s }) project)
  unfolding key_step apply_api_key_event upsert_key
  project_key-KeyRowFollows k [] s h = h
  project_key-KeyRowFollows k (e ∷ es) s h = record {
    settled = λ none_left created. lookup-insert_self id (key_row id k) s.keys;
    others_kept = λ other apart.
        ground (arith, lookup-insert id other (key_row id k) s.keys, h.others_kept other apart);
  }

  -- If the key row follows the aggregate, it still does after any interleaving of commands and
  -- projected events: whenever no event is pending, the row of a created key has its current org,
  -- project, name, allowlist, limits and disabled flag. No other key's row changes.
  pub key_steps-KeyRowFollows :
      (w : KeyWorld) (steps : List KeyStep)
      → KeyRowFollows id old w
      → KeyRowFollows id old (key_steps id w steps)
  unfolding key_steps
  key_steps-KeyRowFollows w [] h = h
  key_steps-KeyRowFollows w (command c ∷ ts) h =
      key_steps-KeyRowFollows (key_step id w (command c)) ts (command-KeyRowFollows w c h)
  key_steps-KeyRowFollows w (project ∷ ts) h =
      key_steps-KeyRowFollows (key_step id w project) ts
        (project_key-KeyRowFollows w.key w.pending w.rows h)
