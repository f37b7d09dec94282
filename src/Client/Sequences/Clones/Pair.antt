-- ===== src/Client/Sequences/Clones/Pair.antt =====
-- The turns of two clones, as steps on their two calls and on what they share.
use safe_client_libs.Shared.{update-same, update-other, ◌≡◌, ◌≢◌, sym, ap, ◌∙◌, ℕ, [], ◌∷◌}
use safe_client_libs.External.Types.{Types}
use safe_client_libs.External.Api.{Api}
use safe_client_libs.Client.State.{World}
use safe_client_libs.Client.Money.Payments.{Validation}
use safe_client_libs.Client.Sequences.Clones.{Task, advance, Clones, turn, turns}

module _ {T : Types} (X : Api T) (await : Validation T) where
  -- The calls of two clones, and what all of them share.
  abbrev pub view : ℕ → ℕ → Clones T → Task T × Task T × World T
  view i j c = (c.tasks i, c.tasks j, c.world)

  abbrev pub left : Task T × Task T × World T → Task T × Task T × World T
  left (t, t', w) = ((advance X await t w).0, t', (advance X await t w).1)

  abbrev pub right : Task T × Task T × World T → Task T × Task T × World T
  right (t, t', w) = (t, (advance X await t' w).0, (advance X await t' w).1)

  pub view-turn-left :
      (i j : ℕ) (c : Clones T) → i ≢ j → view i j (turn X await i c) ≡ left (view i j c)
  view-turn-left i j c ne =
      let (task, w) = advance X await (c.tasks i) c.world in
      rw (update-same i task c.tasks, update-other i j task c.tasks ne)

  pub view-turn-right :
      (i j : ℕ) (c : Clones T) → i ≢ j → view i j (turn X await j c) ≡ right (view i j c)
  view-turn-right i j c ne =
      let (task, w) = advance X await (c.tasks j) c.world in
      rw (update-same j task c.tasks, update-other j i task c.tasks (λ h. ne (sym h)))

  pub mixed_turns :
      (i j : ℕ) (c : Clones T)
      → i ≢ j
      → view i j (turns X await (i ∷ j ∷ i ∷ j ∷ []) c) ≡ right (left (right (left (view i j c))))
  mixed_turns i j c ne =
      let c₁ = turn X await i c in
      let c₂ = turn X await j c₁ in
      view-turn-right i j (turn X await i c₂) ne
      ∙ ap right (
          view-turn-left i j c₂ ne
          ∙ ap left (view-turn-right i j c₁ ne ∙ ap right (view-turn-left i j c ne)))

  pub apart_turns :
      (i j : ℕ) (c : Clones T)
      → i ≢ j
      → view i j (turns X await (i ∷ i ∷ j ∷ j ∷ []) c) ≡ right (right (left (left (view i j c))))
  apart_turns i j c ne =
      let c₁ = turn X await i c in
      let c₂ = turn X await i c₁ in
      view-turn-right i j (turn X await j c₂) ne
      ∙ ap right (
          view-turn-right i j c₂ ne
          ∙ ap right (view-turn-left i j c₁ ne ∙ ap left (view-turn-left i j c ne)))
