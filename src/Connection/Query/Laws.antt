-- ===== src/Connection/Query/Laws.antt =====
-- What a query returns, against the replies of the elders that come in.
use mathlib.Core.List.{Permᴰ, append_assoc, append-nil}
use safe_client_libs.Shared.{
  ℕ, ◌<◌, ◌≤◌, ◌≡◌, ◌≢◌, ◌⊎◌, ◌∙◌, ap, refl, inl, inr, Option, none, some, List, [],
}
use safe_client_libs.Shared.{◌∷◌, ◌++◌, map, length, arith, take}
use safe_client_libs.External.Types.{Types}
use safe_client_libs.External.Protocol.{Bytes, Message, QueryResponse}
use safe_client_libs.External.Api.{NetApi}
use safe_client_libs.Exec.{Exit, ok, err, panic, blocked, continue-eq-ok}
use safe_client_libs.Connection.Link.{ConnectionManager, Link, run_tasks, send_each}
use safe_client_libs.Connection.Election.{threshold, Outcome, elected, exhausted, elect}
use safe_client_libs.Connection.Election.Laws.{
  answered, count, IsElected, elect-IsElected, elect-exhausted_iff,
}
use safe_client_libs.Connection.Query.{
  serialise_in_envelope, send_cmd, send_query, usable, conclude,
}

module _ {T : Types} (X : NetApi T) where
  -- What the tasks of a query give, in the order in which they end.
  abbrev pub replies : ConnectionManager T → Bytes → Link T → List (Option (QueryResponse T))
  replies cm bytes l =
      map (usable X)
        (run_tasks X (λ conn. X.send conn bytes) (X.elders_order l.net cm.elders) l.net).0

  -- Nothing is written before the message is in its envelope.
  pub serialise_in_envelope_keeps :
      (cm : ConnectionManager T) (msg : Message T) (l : Link T)
      → (serialise_in_envelope X cm msg l).1 ≡ l
  unfolding serialise_in_envelope
  serialise_in_envelope_keeps cm msg l = ground arith

  serialise_in_envelope-any :
      (cm : ConnectionManager T) (msg : Message T) (l l' : Link T)
      → (serialise_in_envelope X cm msg l).0 ≡ (serialise_in_envelope X cm msg l').0
  unfolding serialise_in_envelope
  serialise_in_envelope-any cm msg l l' = ground arith

  -- What the tasks of a message send that is in its envelope as `bytes`: these bytes over the
  -- connection to each elder, in the order in which the tasks end.
  abbrev pub deliveries : ConnectionManager T → Bytes → Link T → List (T.Connection × Bytes)
  deliveries cm bytes l =
      map (λ (conn : T.Connection). (conn, bytes)) (X.elders_order l.net cm.elders)

  -- The message came into its envelope, and from `l` on all that was sent is this envelope, over
  -- the connection to each elder.
  abbrev pub IsSent :
      ConnectionManager T → Message T → Link T → List (T.Connection × Bytes) → Type 0
  IsSent cm msg l after =
      (bytes : Bytes) × ((serialise_in_envelope X cm msg l).0 ≡ ok bytes)
      × (after ≡ l.trace ++ deliveries cm bytes l)

  -- The source of random names has no part in what is sent.
  pub IsSent-rng :
      (cm : ConnectionManager T) (msg : Message T) (l : Link T) (rng : T.Rng)
      (after : List (T.Connection × Bytes))
      → IsSent cm msg (record l { rng = rng }) after
      → IsSent cm msg l after
  IsSent-rng cm msg l rng after (bytes, made, held) =
      (bytes, serialise_in_envelope-any cm msg l (record l { rng = rng }) ∙ made, held)

  send_each-eq-run_tasks :
      {B : Type 0} (send : T.Connection → Bytes → T.Net → B × T.Net) (bytes : Bytes)
      (conns : List T.Connection) (l : Link T)
      → let (results, net) = run_tasks X (λ conn. send conn bytes) conns l.net in
        send_each X send bytes conns l ≡ (
          results,
          record l {
            net = net;
            trace = l.trace ++ map (λ (conn : T.Connection). (conn, bytes)) conns;
          },
        )
  unfolding send_each run_tasks
  send_each-eq-run_tasks send bytes [] l = rw (append-nil l.trace) refl
  send_each-eq-run_tasks send bytes (conn ∷ rest) l =
      let net₂ = (X.joined (send conn bytes l.net).1).1 in
      let l₁ : Link T = record l { net = net₂; trace = l.trace ++ ((conn, bytes) ∷ []) } in
      let ih = send_each-eq-run_tasks send bytes rest l₁ in
      rw ih (
        rw
          (append_assoc l.trace ((conn, bytes) ∷ [])
            (map (λ (conn : T.Connection). (conn, bytes)) rest))
          refl)

  -- A query sends its envelope to the elders, unless it does not come into one.
  pub send_query-trace :
      (cm : ConnectionManager T) (msg : Message T) (l : Link T)
      → ((send_query X cm msg l).1.trace ≡ l.trace)
        ⊎ IsSent cm msg l (send_query X cm msg l).1.trace
  unfolding send_query
  send_query-trace cm msg l = go _ refl (serialise_in_envelope_keeps cm msg l)
    where
      go :
          (r : Exit T Bytes)
          → (serialise_in_envelope X cm msg l).0 ≡ r
          → (serialise_in_envelope X cm msg l).1 ≡ l
          → ((send_query X cm msg l).1.trace ≡ l.trace)
            ⊎ IsSent cm msg l (send_query X cm msg l).1.trace
      go (ok bytes) e same =
          let sent = send_each-eq-run_tasks X.send bytes (X.elders_order l.net cm.elders) l in
          inr (bytes, e, ground (arith, sent))
      go (err x) e same = inl (ground arith)
      go panic e same = inl (ground arith)
      go blocked e same = inl (ground arith)

  -- A command whose message comes into its envelope returns, with no error, and what it has done is
  -- to run the tasks for the elders.
  send_cmd-run :
      (cm : ConnectionManager T) (msg : Message T) (l : Link T) (bytes : Bytes)
      → (serialise_in_envelope X cm msg l).0 ≡ ok bytes
      → ((send_cmd X cm msg l).0 ≡ ok tt)
        × ((send_cmd X cm msg l).1.trace ≡ l.trace ++ deliveries cm bytes l)
  unfolding send_cmd
  send_cmd-run cm msg l bytes h =
      let same = serialise_in_envelope_keeps cm msg l in
      let sent = send_each-eq-run_tasks X.send_only bytes (X.elders_order l.net cm.elders) l in
      (ground (arith, same, sent), ground (arith, same, sent))

  -- A command that returns has sent its envelope to the elders, and nothing else.
  pub send_cmd-trace :
      (cm : ConnectionManager T) (msg : Message T) (l : Link T)
      → (send_cmd X cm msg l).0 ≡ ok tt
      → IsSent cm msg l (send_cmd X cm msg l).1.trace
  unfolding send_cmd
  send_cmd-trace cm msg l h =
      let (bytes, e, _) = continue-eq-ok (serialise_in_envelope X cm msg l).0 _ _ h in
      (bytes, e, (send_cmd-run cm msg l bytes e).1)

map-Permᴰ : {A B : Type 0} (f : A → B) {l l' : List A} → Permᴰ l l' → Permᴰ (map f l) (map f l')
map-Permᴰ f Permᴰ.nil = Permᴰ.nil
map-Permᴰ f (Permᴰ.cons e p) = Permᴰ.cons (ap f e) (map-Permᴰ f p)
map-Permᴰ f (Permᴰ.swap e e') = Permᴰ.swap (ap f e) (ap f e')
map-Permᴰ f (Permᴰ.trans p q) = Permᴰ.trans (map-Permᴰ f p) (map-Permᴰ f q)

module _ {T : Types} (X : NetApi T) where
  -- The envelope of the message has been sent over the connection to every elder, once to each.
  abbrev pub ReachesAll :
      ConnectionManager T → Message T → Link T → Exit T (Unit {0}) × Link T → Type 0
  ReachesAll cm msg l (end, l') =
      (bytes : Bytes) × (sent : List (T.Connection × Bytes)) × ((serialise_in_envelope X cm msg l).0
        ≡ ok bytes)
      × (end ≡ ok tt)
      × (l'.trace ≡ l.trace ++ sent)
      × Permᴰ (map (λ (conn : T.Connection). (conn, bytes)) cm.elders) sent

  -- The message does not come into its envelope: the command does not return, and nothing is done.
  abbrev pub IsUnsent :
      ConnectionManager T → Message T → Link T → Exit T (Unit {0}) × Link T → Type 0
  IsUnsent cm msg l (end, l') =
      ((bytes : Bytes) → (serialise_in_envelope X cm msg l).0 ≢ ok bytes) × (end ≢ ok tt) × (l' ≡ l)

  -- If the tasks of a command end in some order, each of them once: a command whose message comes
  -- into its envelope has sent it over the connection to every elder, once to each, and returns,
  -- whatever the connections give. Any other command does not return, and has done nothing.
  pub send_cmd_reaches :
      ((net : T.Net) (conns : List T.Connection) → Permᴰ conns (X.elders_order net conns))
      → (cm : ConnectionManager T) (msg : Message T) (l : Link T)
      → ReachesAll cm msg l (send_cmd X cm msg l) ⊎ IsUnsent cm msg l (send_cmd X cm msg l)
  unfolding send_cmd
  send_cmd_reaches each cm msg l = go _ refl (serialise_in_envelope_keeps X cm msg l)
    where
      go :
          (r : Exit T Bytes)
          → (serialise_in_envelope X cm msg l).0 ≡ r
          → (serialise_in_envelope X cm msg l).1 ≡ l
          → ReachesAll cm msg l (send_cmd X cm msg l) ⊎ IsUnsent cm msg l (send_cmd X cm msg l)
      go (ok bytes) e same =
          let (returns, sent) = send_cmd-run X cm msg l bytes e in
          inl (
            bytes,
            deliveries X cm bytes l,
            e,
            returns,
            sent,
            map-Permᴰ (λ (conn : T.Connection). (conn, bytes)) (each l.net cm.elders),
          )
      go (err x) e same = inr ((λ b h. cc), (λ h. ground arith), ground arith)
      go panic e same = inr ((λ b h. cc), (λ h. ground arith), ground arith)
      go blocked e same = inr ((λ b h. cc), (λ h. ground arith), ground arith)

module _ {T : Types} (X : NetApi T)
    (visits : (m : List (QueryResponse T × ℕ)) → Permᴰ m (X.iterate m)) where
  -- How a query of `cm` ends whose message has gone out as `bytes`.
  abbrev pub IsAnswered : ConnectionManager T → Bytes → Link T → Exit T (QueryResponse T) → Type 0
  IsAnswered cm bytes l end =
      let elders = length cm.elders in
      let incoming = replies X cm bytes l in
      ((r : QueryResponse T) × (k : ℕ) × (v : ℕ) × (end ≡ ok r)
        × IsElected ⦃e = X.response_eq⦄ elders (take k incoming) (some r, v))
      ⊎ ((end ≡ panic)
          × (answered incoming < elders)
          × ((r : QueryResponse T) → count ⦃e = X.response_eq⦄ r incoming ≤ threshold))

  conclude-IsAnswered :
      (cm : ConnectionManager T) (bytes : Bytes) (l l' : Link T) (o : Outcome (QueryResponse T))
      → 0 < length cm.elders
      → elect ⦃e = X.response_eq⦄ X.iterate (length cm.elders) [] (replies X cm bytes l) ≡ o
      → IsAnswered cm bytes l (conclude X o l').0
  conclude-IsAnswered cm bytes l l' exhausted h e =
      let (few, low) =
        (elect-exhausted_iff ⦃e = X.response_eq⦄ X.iterate visits (length cm.elders)
            (replies X cm bytes l) h).0
          e in
      inr (refl, few, low)
  conclude-IsAnswered cm bytes l l' (elected (none, v)) h e =
      let (k, p) =
        elect-IsElected ⦃e = X.response_eq⦄ X.iterate visits (length cm.elders)
          (replies X cm bytes l) (none, v) e in
      cc (p.is_response)
  conclude-IsAnswered cm bytes l l' (elected (some r, v)) h e =
      let (k, p) =
        elect-IsElected ⦃e = X.response_eq⦄ X.iterate visits (length cm.elders)
          (replies X cm bytes l) (some r, v) e in
      inl (r, k, v, refl, p)

  -- If the walk over the vote map meets every entry once, a query with at least one elder whose
  -- message is in its envelope returns the response that some first of the replies elect, and never
  -- an error; or it panics, and then fewer responses come in than there are elders, and none of
  -- them comes in more than twice.
  pub send_query-IsAnswered :
      (cm : ConnectionManager T) (msg : Message T) (l : Link T) (bytes : Bytes)
      → 0 < length cm.elders
      → serialise_in_envelope X cm msg l ≡ (ok bytes, l)
      → IsAnswered cm bytes l (send_query X cm msg l).0
  unfolding send_query
  send_query-IsAnswered cm msg l bytes h e =
      let sent = send_each-eq-run_tasks X X.send bytes (X.elders_order l.net cm.elders) l in
      rw (e, send_query) (rw sent (conclude-IsAnswered cm bytes l _ _ h refl))

  -- If fewer responses come in than there are elders, and none more than twice, the query panics.
  pub send_query_unanswered :
      (cm : ConnectionManager T) (msg : Message T) (l : Link T) (bytes : Bytes)
      → 0 < length cm.elders
      → serialise_in_envelope X cm msg l ≡ (ok bytes, l)
      → answered (replies X cm bytes l) < length cm.elders
      → ((r : QueryResponse T) → count ⦃e = X.response_eq⦄ r (replies X cm bytes l) ≤ threshold)
      → (send_query X cm msg l).0 ≡ panic
  unfolding send_query
  send_query_unanswered cm msg l bytes h e few low = rw (
    e,
    send_each-eq-run_tasks X X.send bytes (X.elders_order l.net cm.elders) l,
    (elect-exhausted_iff ⦃e = X.response_eq⦄ X.iterate visits (length cm.elders)
          (replies X cm bytes l) h).1
        (few, low),
  )
