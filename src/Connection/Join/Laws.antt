-- ===== src/Connection/Join/Laws.antt =====
-- How many elders a connection manager ends up with, and what that means for its queries.
use mathlib.Core.List.{Permᴰ}
use safe_client_libs.Shared.{ℕ, zero, suc, ◌+◌, ◌<◌, ◌≤◌, ◌≡◌, ◌≢◌, ◌↔◌, refl, ap, ◌∙◌, inl, inr}
use safe_client_libs.Shared.{Option, none, some, List, [], ◌∷◌, ◌++◌, arith, length, length-append}
use safe_client_libs.Shared.{Bool-cases, ltb, PartialEq}
use safe_client_libs.External.Types.{Types}
use safe_client_libs.External.Protocol.{Bytes, Result, Message, QueryResponse}
use safe_client_libs.External.Api.{NetApi}
use safe_client_libs.Errors.{CoreError}
use safe_client_libs.Exec.{
  Exit, ok, err, panic, blocked, Exec, continue-eq-ok, ok-injective, caught,
}
use safe_client_libs.Connection.Link.{ConnectionManager, Link}
use safe_client_libs.Connection.Election.Laws.{answered, count}
use safe_client_libs.Connection.Query.{serialise_in_envelope, send_query}
use safe_client_libs.Connection.Query.Laws.{replies, send_query_unanswered}
use safe_client_libs.Connection.Join.{
  new, collect, after_attempt, connect_to_elders, bootstrap_and_handshake, bootstrap, attempt_loop,
  attempt_bootstrap,
}

-- The tasks that came back with a connection.
abbrev pub connected : {T : Types} {A : Type 0} → List (Option (Exit T A)) → ℕ
connected [] = 0
connected (some (ok _) ∷ rest) = suc (connected rest)
connected (_ ∷ rest) = connected rest

-- No task came back with anything else.
abbrev pub NoneFailed : {T : Types} {A : Type 0} → List (Option (Exit T A)) → Type 0
NoneFailed [] = Unit
NoneFailed (none ∷ rest) = NoneFailed rest
NoneFailed (some (ok _) ∷ rest) = NoneFailed rest
NoneFailed (some _ ∷ rest) = ⊥

module _ {T : Types} (X : NetApi T) where
  -- The loop ends with exactly three connections, however many elders there are.
  collect-length :
      (todo : List (Option (Exit T T.Connection))) (elders elders' : List T.Connection)
      → length elders < 3
      → collect X todo elders ≡ ok elders'
      → length elders' ≡ 3
  unfolding collect
  collect-length [] elders elders' h e = cc
  collect-length (none ∷ todo) elders elders' h e =
      ground (arith, collect-length todo elders elders')
  collect-length (some (ok conn) ∷ todo) elders elders' h e =
      ground (
        arith,
        length-append elders (conn ∷ []),
        collect-length todo (elders ++ (conn ∷ [])) elders',
      )
  collect-length (some (err x) ∷ todo) elders elders' h e = cc
  collect-length (some panic ∷ todo) elders elders' h e = cc
  collect-length (some blocked ∷ todo) elders elders' h e = cc

  collect-panic :
      (todo : List (Option (Exit T T.Connection))) (elders : List T.Connection)
      → length elders < 3
      → NoneFailed todo
      → (collect X todo elders ≡ panic) ↔ (length elders + connected todo < 3)
  unfolding collect
  collect-panic [] elders h f = (λ _. omega arith, λ _. refl)
  collect-panic (none ∷ todo) elders h f = ground (arith, collect-panic todo elders h f)
  collect-panic (some (ok conn) ∷ todo) elders h f =
      elim (Bool-cases (ltb 2 (length (elders ++ (conn ∷ []))))) [
        | inl done ↦ ground (arith, length-append elders (conn ∷ []))
        | inr more ↦ ground (
          arith,
          length-append elders (conn ∷ []),
          collect-panic todo (elders ++ (conn ∷ [])) (ground arith) f,
        )
      ]
  collect-panic (some (err x) ∷ todo) elders h f = absurd f
  collect-panic (some panic ∷ todo) elders h f = absurd f
  collect-panic (some blocked ∷ todo) elders h f = absurd f

  -- Where no task fails, joining from no elder panics exactly when fewer than three tasks come back
  -- with a connection.
  pub collect-panic_iff :
      (todo : List (Option (Exit T T.Connection)))
      → NoneFailed todo
      → (collect X todo [] ≡ panic) ↔ (connected todo < 3)
  collect-panic_iff todo f =
      let p = collect-panic todo [] (omega arith) f in
      (λ x. omega (arith, p.0 x), λ x. p.1 (omega arith))

  connect_to_elders-length :
      (cm cm' : ConnectionManager T) (addrs : List T.SocketAddr) (l : Link T)
      → cm.elders ≡ []
      → (connect_to_elders X cm addrs l).0 ≡ ok cm'
      → length cm'.elders ≡ 3
  unfolding connect_to_elders
  connect_to_elders-length cm cm' addrs l none_yet h =
      let few : length cm.elders < 3 = rw none_yet (omega arith) in
      let (elders, found, last) = continue-eq-ok _ _ _ h in
      let fits : elders ≡ cm'.elders =
        ap (λ (c : ConnectionManager T). c.elders) (ok-injective T _ _ last) in
      rw (← fits) (collect-length _ cm.elders elders few found)

  bootstrap-length :
      (cm cm' : ConnectionManager T) (l : Link T)
      → cm.elders ≡ []
      → (bootstrap X cm l).0 ≡ ok cm'
      → length cm'.elders ≡ 3
  unfolding bootstrap
  bootstrap-length cm cm' l none_yet h =
      let (addrs, _, rest) =
        continue-eq-ok (bootstrap_and_handshake X cm l).0 (connect_to_elders X cm) _ h in
      connect_to_elders-length cm cm' addrs _ none_yet rest

  new-elders :
      (config : T.QuicConfig) (full_id : T.FullId) (l : Link T) (cm : ConnectionManager T)
      → (new X config full_id l).0 ≡ ok cm
      → cm.elders ≡ []
  unfolding new
  new-elders config full_id l cm h = ground arith

  caught-eq-ok : {A : Type 0} (r : Exit T A) (a : A) → caught r ≡ ok (Result.ok a) → r ≡ ok a
  caught-eq-ok (ok b) a h = cc
  caught-eq-ok (err x) a h = cc
  caught-eq-ok panic a h = cc
  caught-eq-ok blocked a h = cc

  after_attempt-length :
      (again : Exec T (Link T) (Option (ConnectionManager T))) (attempts : ℕ)
      (res : Result (CoreError T) (ConnectionManager T)) (l : Link T) (cm : ConnectionManager T)
      → ((cm' : ConnectionManager T) → res ≡ Result.ok cm' → length cm'.elders ≡ 3)
      → ((l' : Link T) → (again l').0 ≡ ok (some cm) → length cm.elders ≡ 3)
      → (after_attempt X again attempts res l).0 ≡ ok (some cm)
      → length cm.elders ≡ 3
  after_attempt-length again attempts (Result.ok cm') l cm now later h =
      let same : cm' ≡ cm = cc in rw (← same) (now cm' refl)
  after_attempt-length again attempts (Result.err e) l cm now later h =
      elim (Bool-cases (ltb attempts 3)) [
        | inl more ↦ later l (rw more at h)
        | inr done ↦ cc (rw done at h)
      ]

  attempt_loop-length :
      (fuel attempts : ℕ) (config : T.QuicConfig) (full_id : T.FullId) (l : Link T)
      (cm : ConnectionManager T)
      → (attempt_loop X fuel attempts config full_id l).0 ≡ ok (some cm)
      → length cm.elders ≡ 3
  unfolding attempt_loop
  attempt_loop-length zero attempts config full_id l cm h = cc
  attempt_loop-length (suc fuel) attempts config full_id l cm h =
      let (fresh, made, rest) = continue-eq-ok (new X config full_id l).0 _ _ h in
      let (res, tried, last) =
        continue-eq-ok (caught (bootstrap X fresh (new X config full_id l).1).0) _ _ rest in
      after_attempt-length _ (attempts + 1) res _ cm
        (λ cm' e.
          bootstrap-length fresh cm' _ (new-elders config full_id l fresh made)
            (caught-eq-ok _ cm' (tried ∙ ap ok e)))
        (λ l' e. attempt_loop-length fuel (attempts + 1) config full_id l' cm e) last

  -- A connection manager that has been bootstrapped is connected to exactly three elders.
  pub attempt_bootstrap-length :
      (config : T.QuicConfig) (full_id : T.FullId) (l : Link T) (cm : ConnectionManager T)
      → (attempt_bootstrap X config full_id l).0 ≡ ok (some cm)
      → length cm.elders ≡ 3
  unfolding attempt_bootstrap
  attempt_bootstrap-length config full_id l cm h = attempt_loop-length 3 0 config full_id l cm h

  after_attempt-ne-none :
      (again : Exec T (Link T) (Option (ConnectionManager T))) (attempts : ℕ)
      (res : Result (CoreError T) (ConnectionManager T)) (l : Link T)
      → (attempts < 3 → (l' : Link T) → (again l').0 ≢ ok none)
      → (after_attempt X again attempts res l).0 ≢ ok none
  after_attempt-ne-none again attempts (Result.ok cm) l later h = cc
  after_attempt-ne-none again attempts (Result.err e) l later h =
      elim (Bool-cases (ltb attempts 3)) [
        | inl more ↦ later (ground arith) l (rw more at h)
        | inr done ↦ cc (rw done at h)
      ]

  attempt_loop_fuel :
      (fuel attempts : ℕ) (config : T.QuicConfig) (full_id : T.FullId) (l : Link T)
      → attempts < 3
      → 3 ≤ fuel + attempts
      → (attempt_loop X fuel attempts config full_id l).0 ≢ ok none
  unfolding attempt_loop
  attempt_loop_fuel zero attempts config full_id l low enough h = absurd (omega arith)
  attempt_loop_fuel (suc fuel) attempts config full_id l low enough h =
      let (fresh, made, rest) = continue-eq-ok (new X config full_id l).0 _ _ h in
      let (res, tried, last) =
        continue-eq-ok (caught (bootstrap X fresh (new X config full_id l).1).0) _ _ rest in
      after_attempt-ne-none _ (attempts + 1) res _
        (λ more l'. attempt_loop_fuel fuel (attempts + 1) config full_id l' more (omega arith)) last

  -- Three rounds are enough: the loop of the bootstrap always comes to its end.
  pub attempt_bootstrap-ne-none :
      (config : T.QuicConfig) (full_id : T.FullId) (l : Link T)
      → (attempt_bootstrap X config full_id l).0 ≢ ok none
  unfolding attempt_bootstrap
  attempt_bootstrap-ne-none config full_id l =
      attempt_loop_fuel 3 0 config full_id l (omega arith) (omega arith)

count-le-answered {ℓ} :
    {R : Type ℓ} ⦃e : PartialEq R⦄ (r : R) (l : List (Option R)) → count r l ≤ answered l
count-le-answered r [] = omega arith
count-le-answered r (none ∷ l) = count-le-answered r l
count-le-answered r (some s ∷ l) = ground (arith, count-le-answered r l)

module _ {T : Types} (X : NetApi T)
    (visits : (m : List (QueryResponse T × ℕ)) → Permᴰ m (X.iterate m)) where
  -- If the walk over the vote map meets every entry once, a query of a connection manager that has
  -- been bootstrapped, whose message is in its envelope, panics when fewer than three responses
  -- come in.
  pub bootstrapped_query_panics :
      (config : T.QuicConfig) (full_id : T.FullId) (start l : Link T) (cm : ConnectionManager T)
      (msg : Message T) (bytes : Bytes)
      → (attempt_bootstrap X config full_id start).0 ≡ ok (some cm)
      → serialise_in_envelope X cm msg l ≡ (ok bytes, l)
      → answered (replies X cm bytes l) < 3
      → (send_query X cm msg l).0 ≡ panic
  bootstrapped_query_panics config full_id start l cm msg bytes up out few =
      let three = attempt_bootstrap-length X config full_id start cm up in
      send_query_unanswered X visits cm msg l bytes (omega arith) out (omega arith)
        (λ r. omega (arith, count-le-answered ⦃e = X.response_eq⦄ r (replies X cm bytes l)))
