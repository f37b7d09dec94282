-- ===== src/Examples/Clones.antt =====
-- Two clones that append to one sequence, on the small network.
use safe_client_libs.Shared.{ℕ, ◌≡◌, refl, some, none, [], ◌∷◌, arith}
use safe_client_libs.Client.State.{set_cache}
use safe_client_libs.Client.Sequences.Laws.{cached}
use safe_client_libs.Client.Sequences.Clones.{Task, called, sending, Clones, turns}
use safe_client_libs.Client.Sequences.Clones.Race.{IsLawfulAppend, appends_race}
use safe_client_libs.Examples.Toy.{put, toy, toy_api, world}
use safe_client_libs.Examples.Client.{validated, toy_cache-IsLawfulCache}

abbrev two_calls : ℕ → Task toy
two_calls i = called 5 (i ∷ [])

-- The sequence 5 is in the cache and has no entry.
abbrev both_called : Clones toy
both_called = record {
  tasks = two_calls;
  world = set_cache (put (λ _. none) 5 (5, [])) (world 8 9);
}

toy_append-IsLawfulAppend : IsLawfulAppend toy_api
toy_append-IsLawfulAppend = record {
  keeps_address = λ s entry. refl;
  keeps_permission = λ s entry key. refl;
}

appends_race_example :
    let apart = turns toy_api validated (1 ∷ 1 ∷ 2 ∷ 2 ∷ []) both_called in
    let mixed = turns toy_api validated (1 ∷ 2 ∷ 1 ∷ 2 ∷ []) both_called in
    ((apart.tasks 1 ≡ sending (1 ∷ []))
      × (apart.tasks 2 ≡ sending (2 ∷ []))
      × (cached toy_api apart.world 5 ≡ some (5, (1 ∷ []) ∷ (2 ∷ []) ∷ [])))
    × ((mixed.tasks 1 ≡ sending (1 ∷ []))
        × (mixed.tasks 2 ≡ sending (2 ∷ []))
        × (cached toy_api mixed.world 5 ≡ some (5, (2 ∷ []) ∷ [])))
appends_race_example =
    appends_race toy_api validated toy_cache-IsLawfulCache toy_append-IsLawfulAppend 5 (1 ∷ [])
      (2 ∷ []) (5, []) 1 2 both_called (λ h. omega (arith, h)) refl refl refl refl refl
