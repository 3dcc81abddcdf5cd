-- ===== src/Projector/Keys/Follows.antt =====
-- Each event of internal/controlplane/apikey/decider.go followed by the projector of
-- internal/controlplane/kvproj.go: KEYS shows the changed key.
use inferbus.Base.{
  string_eq, String, [], arith, inl, inr, refl, some, str_eq_iff, subst, sym, true, ◌≡◌,
}
use inferbus.Dict.{insert, lookup, lookup-delete, lookup-insert, lookup-insert_self}
use inferbus.ApiKey.{
  ApiKey, CreateKey, Event, absent, create, created, evolve, key_disabled, rotate, rotated,
}
use inferbus.Projector.Keys.{Step, apply_event, created_entry, done, stop}
use inferbus.Projector.Keys.Events.{created_lem, disabled_lem, rotated_lem}
use inferbus.Projector.Keys.View.{Moves, is_live, view}
use inferbus.Projector.Keys.World.{IsFresh, IsProjected, World, moved, state_of, state_of-moved}

-- The events that change a key, applied to a projector that agrees, end in a projector that shows
-- the changed key.
abbrev pub Follows : World → String → ApiKey → Step (Unit {0}) → Type 0
Follows w id t (stop x k) = ⊥
Follows w id t (done u k) =
    (k.faults ≡ [])
    × Moves (state_of w) (λ h. lookup h w.keys.bucket) (λ j. lookup j w.keys.hash_by_id) id t
        (state_of (moved w id t k)) (λ h. lookup h k.bucket) (λ j. lookup j k.hash_by_id)

module _ (w : World) (id : String) (p : IsProjected w) where
  pub created-Follows :
      (c : CreateKey)
      → absent (state_of w id) ≡ true
      → IsFresh w (create c)
      → Follows w id (evolve (state_of w id) (created c)) (apply_event id (created c) w.keys)
  unfolding evolve created_entry
  created-Follows c none_yet f =
      let entry = some (created_entry id c) in
      subst (Follows w id (evolve (state_of w id) (created c)))
        (sym (created_lem id w.keys p.no_faults c))
        (
          refl,
          record {
            new_state = state_of-moved w id _ (record w.keys { faults = [] });
            new_bucket =
                λ h. ground (arith, none_yet, f, lookup-insert c.hash h entry w.keys.bucket);
            new_hash = λ live. lookup-insert_self id c.hash w.keys.hash_by_id;
            other_hashes = λ j other. ground (arith, lookup-insert id j c.hash w.keys.hash_by_id);
            hash_given = λ live. f.1;
            hash_free = λ live. inl f.2;
          },
        )

  module _ (live : is_live (state_of w id) ≡ true) where
    pub rotated-Follows :
        (n : String)
        → IsFresh w (rotate n)
        → Follows w id
            (evolve (state_of w id) (rotated n (state_of w id).hash))
            (apply_event id (rotated n (state_of w id).hash) w.keys)
    unfolding evolve
    rotated-Follows n f =
        let (known, found, given) = p.agrees.shown id live in
        let old = (state_of w id).hash in
        let entry = view id (state_of w id) in
        subst (Follows w id (evolve (state_of w id) (rotated n old)))
          (sym (rotated_lem id w.keys p.no_faults n old entry given found))
          (
            refl,
            record {
              new_state = state_of-moved w id _ (record w.keys { faults = [] });
              new_bucket = λ h. ground (
                arith,
                live,
                f,
                found,
                lookup-delete old h (insert n (some entry) w.keys.bucket),
                lookup-insert n h (some entry) w.keys.bucket,
                str_eq_iff n h,
                str_eq_iff old h,
              );
              new_hash = λ still. lookup-insert_self id n w.keys.hash_by_id;
              other_hashes = λ j other. ground (arith, lookup-insert id j n w.keys.hash_by_id);
              hash_given = λ still. f.0;
              hash_free = λ still. inl f.1;
            },
          )

    pub disabled-Follows :
        Follows w id
          (evolve (state_of w id) (key_disabled (state_of w id).hash))
          (apply_event id (key_disabled (state_of w id).hash) w.keys)
    unfolding evolve
    disabled-Follows =
        let (known, found, given) = p.agrees.shown id live in
        let old = (state_of w id).hash in
        subst (Follows w id (evolve (state_of w id) (key_disabled old)))
          (sym (disabled_lem id w.keys p.no_faults old given))
          (
            refl,
            record {
              new_state = state_of-moved w id _ (record w.keys { faults = [] });
              new_bucket = λ h. ground (arith, live, lookup-delete old h w.keys.bucket);
              new_hash = λ still. ground arith;
              other_hashes = λ j other. refl;
              hash_given = λ still. ground arith;
              hash_free = λ still. ground arith;
            },
          )

    -- An event that rewrites the entry in place.
    pub rewritten-Follows :
        (e : Event) (t : ApiKey)
        → evolve (state_of w id) e ≡ t
        → is_live t ≡ true
        → t.hash ≡ (state_of w id).hash
        → apply_event id e w.keys
          ≡ done tt (record w.keys {
            bucket = insert (state_of w id).hash (some (view id t)) w.keys.bucket;
            faults = [];
          })
        → Follows w id (evolve (state_of w id) e) (apply_event id e w.keys)
    rewritten-Follows e t evolved still same applied =
        let (known, found, given) = p.agrees.shown id live in
        let old = (state_of w id).hash in
        rw (evolved, applied)
          (
            refl,
            record {
              new_state = state_of-moved w id _ (record w.keys { faults = [] });
              new_bucket =
                  λ h. ground (arith, live, lookup-insert old h (some (view id t)) w.keys.bucket);
              new_hash = λ l. ground arith;
              other_hashes = λ j other. refl;
              hash_given = λ l. ground arith;
              hash_free = λ l. inr (live, same);
            },
          )

  pub stays-Follows : Follows w id (state_of w id) (done tt w.keys)
  stays-Follows = (
    p.no_faults,
    record {
      new_state = state_of-moved w id _ w.keys;
      new_bucket = λ h. ground (arith, p.agrees.shown id, str_eq_iff (state_of w id).hash h);
      new_hash = λ live. (p.agrees.shown id live).0;
      other_hashes = λ j other. refl;
      hash_given = λ live. (p.agrees.shown id live).2;
      hash_free = λ live. inr (live, refl);
    },
  )
