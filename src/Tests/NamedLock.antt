-- ===== src/Tests/NamedLock.antt =====
-- The named locks of sources/misc/namedlock.go at concrete inputs.
use vss.Prelude.{codes, [], ◌∷◌, ◌≡◌, refl, false, none, ◌≤◌, ◌↔◌, str_eq}
use vss.Prelude.Dict.{find, store}
use vss.NamedLock.{Running, Reachable, start, step, enters, gives_up, acquire_named_lock}
use vss.NamedLock.Exclusion.{holders, Reachable-holders}

abbrev entered : Running
entered = record { locks = (codes "vars", false) ∷ []; inside = (1, codes "vars") ∷ [] }

entered-Reachable : Reachable entered
unfolding acquire_named_lock find store
entered-Reachable =
    step (record { locks = []; inside = [] }) entered start
      (enters 1 (codes "vars") ((codes "vars", false) ∷ []) (record { locks = []; inside = [] })
        refl)

-- A second caller does not get in.
waited-Reachable : Reachable entered
unfolding acquire_named_lock find str_eq
waited-Reachable = step entered entered entered-Reachable (gives_up (codes "vars") entered refl)

Reachable-holders_example :
    (holders (codes "vars") entered.inside ≤ 1)
    × ((acquire_named_lock (codes "vars") entered.locks ≡ none)
        ↔ (holders (codes "vars") entered.inside ≡ 1))
Reachable-holders_example = Reachable-holders (codes "vars") entered waited-Reachable
