-- ===== src/Client/Create/Laws.antt =====
-- How the creation of a client ends.
use safe_client_libs.Shared.{ℕ, suc, Option, none, some, Bool, ◌&&◌, ◌≡◌, ◌≢◌, refl, ap, ◌∙◌}
use safe_client_libs.External.Types.{Types}
use safe_client_libs.External.Api.{Api}
use safe_client_libs.Exec.{Exit, ok, blocked, continue-ne-ok, attempt}
use safe_client_libs.Connection.Link.{ConnectionManager, Link}
use safe_client_libs.Connection.Join.{attempt_bootstrap}
use safe_client_libs.Connection.Join.Laws.{attempt_bootstrap-ne-none}
use safe_client_libs.Client.State.{Client, World}
use safe_client_libs.Client.Money.Balance.{get_history, get_replica_keys}
use safe_client_libs.Client.Create.{listen_on_network, starting_money, start, build, identity, new}

module _ {T : Types} (X : Api T) where
  -- Nothing ever comes into the channel, so the client waits in the first round for ever.
  pub listen_on_network_blocks :
      (fuel : ℕ) (w : World T) → listen_on_network X (suc fuel) w ≡ (blocked, w)
  unfolding listen_on_network
  listen_on_network_blocks fuel w = refl

  start-ne-ok :
      (fuel : ℕ) (m : Bool) (w : World T) (r : Option (Client T))
      → (start X (suc fuel) m w).0 ≢ ok r
  unfolding start listen_on_network
  start-ne-ok fuel m w r = continue-ne-ok (starting_money X m w).0 _ _ r λ _ _.
      continue-ne-ok (attempt (get_history X) (starting_money X m w).1).0 _ _ r λ _ _ h. waits h
    where
      waits : ◌≡◌ {A = Exit T (Option (Client T))} blocked (ok r) → ⊥
      waits h = cc

  build-ne-ok :
      (fuel : ℕ) (m : Bool) (full_id : T.FullId) (o : Option (ConnectionManager T)) (l : Link T)
      (r : Option (Client T))
      → o ≢ none
      → (build X (suc fuel) m full_id o l).0 ≢ ok r
  build-ne-ok fuel m full_id none l r h = absurd (h refl)
  build-ne-ok fuel m full_id (some cm) l r h =
      continue-ne-ok (get_replica_keys X full_id cm l).0 _ _ r λ keys _. start-ne-ok fuel m _ r

  -- However long it listens, from one round on, `Client::new` never returns a client, nor does it
  -- come to the end of its rounds: it ends by an error or a panic, or it waits for ever.
  pub new-ne-ok :
      (fuel : ℕ) (config : T.QuicConfig) (simulated_payouts : Bool) (sk : Option T.SecretKey)
      (l : Link T) (r : Option (Client T))
      → (new X (suc fuel) config simulated_payouts sk l).0 ≢ ok r
  unfolding new
  new-ne-ok fuel config simulated_payouts sk l r =
      continue-ne-ok (identity X sk l).0 _ _ r λ (full_id, is_random) _.
        continue-ne-ok (attempt_bootstrap X.net config full_id (identity X sk l).1).0 _ _ r λ o e.
          build-ne-ok fuel (simulated_payouts && is_random) full_id o _ r (λ gone.
            attempt_bootstrap-ne-none X.net config full_id (identity X sk l).1 (e ∙ ap ok gone))
