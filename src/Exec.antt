-- ===== src/Exec.antt =====
-- How a call of the client ends, and the monad of the calls: a state that the call may change, and
-- an end that is a value, an error, a panic, or a wait that nothing can end. What was written before
-- an error or a panic stays written.
use safe_client_libs.Shared.{◌⊎◌, inl, inr, ◌≡◌, ◌≢◌, refl, Option, none, some}
use safe_client_libs.External.Types.{Types}
use safe_client_libs.External.Protocol.{Result}
use safe_client_libs.Errors.{CoreError}

pub data Exit (T : Types) (A : Type 0) : Type 0 where
  ok : A → Exit T A
  err : CoreError T → Exit T A
  panic : Exit T A
  blocked : Exit T A

abbrev pub Exec : Types → Type 0 → Type 0 → Type 0
Exec T S A = S → Exit T A × S

module _ {T : Types} {A : Type 0} where
  abbrev pub caught : Exit T A → Exit T (Result (CoreError T) A)
  caught (ok a) = ok (Result.ok a)
  caught (err e) = ok (Result.err e)
  caught panic = panic
  caught blocked = blocked

module _ {T : Types} {S A : Type 0} where
  abbrev pub pure : A → S → Exit T A × S
  pure a s = (ok a, s)

  abbrev pub raise : CoreError T → S → Exit T A × S
  raise e s = (err e, s)

  -- `unimplemented!()`, a failed `unwrap`, or a `select_all` over no task.
  abbrev pub panics : S → Exit T A × S
  panics s = (panic, s)

  abbrev pub finish : Exit T A → S → Exit T A × S
  finish r s = (r, s)

  -- `result?`, with the conversion of its error.
  abbrev pub try : {E : Type 0} → (E → CoreError T) → Result E A → S → Exit T A × S
  try into (Result.ok a) s = (ok a, s)
  try into (Result.err e) s = (err (into e), s)

  abbrev pub unwrap : Option A → S → Exit T A × S
  unwrap (some a) s = (ok a, s)
  unwrap none s = (panic, s)

  -- `option.ok_or_else(|| error)?`
  abbrev pub ok_or : CoreError T → Option A → S → Exit T A × S
  ok_or e (some a) s = (ok a, s)
  ok_or e none s = (err e, s)

  -- The `Result` of a call, for a `match` on it.
  abbrev pub attempt : (S → Exit T A × S) → S → Exit T (Result (CoreError T) A) × S
  attempt m s = (caught (m s).0, (m s).1)

  abbrev pub gets : (S → A) → S → Exit T A × S
  gets f s = (ok (f s), s)

module _ {T : Types} {S : Type 0} where
  abbrev pub modify : (S → S) → S → Exit T (Unit {0}) × S
  modify f s = (ok tt, f s)

module _ {T : Types} {S A B : Type 0} where
  abbrev pub continue : Exit T A → (A → S → Exit T B × S) → S → Exit T B × S
  continue (ok a) f s = f a s
  continue (err e) f s = (err e, s)
  continue panic f s = (panic, s)
  continue blocked f s = (blocked, s)

  infixl 5 ◌>>=◌ ◌>>◌
  abbrev pub ◌>>=◌ : (S → Exit T A × S) → (A → S → Exit T B × S) → S → Exit T B × S
  ◌>>=◌ m f s = continue (m s).0 f (m s).1

  abbrev pub ◌>>◌ : (S → Exit T A × S) → (S → Exit T B × S) → S → Exit T B × S
  m >> k = m >>= λ _. k

  -- A call that returns a value has returned one from its first step.
  pub continue-eq-ok :
      (r : Exit T A) (f : A → S → Exit T B × S) (s : S) {b : B}
      → (continue r f s).0 ≡ ok b
      → (a : A) × (r ≡ ok a) × ((f a s).0 ≡ ok b)
  continue-eq-ok (ok a) f s h = (a, refl, h)
  continue-eq-ok (err x) f s h = cc
  continue-eq-ok panic f s h = cc
  continue-eq-ok blocked f s h = cc

  -- A call goes on with what its first step returns.
  pub continue-ok :
      (r : Exit T A) (f : A → S → Exit T B × S) (s : S) (a : A) → r ≡ ok a → continue r f s ≡ f a s
  continue-ok r f s a h = rw h refl

  -- A call that waits for ever does so in its first step or after it.
  pub continue-eq-blocked :
      (r : Exit T A) (f : A → S → Exit T B × S) (s : S)
      → (continue r f s).0 ≡ blocked
      → (r ≡ blocked) ⊎ ((a : A) × (r ≡ ok a) × ((f a s).0 ≡ blocked))
  continue-eq-blocked (ok a) f s h = inr (a, refl, h)
  continue-eq-blocked (err x) f s h = cc
  continue-eq-blocked panic f s h = cc
  continue-eq-blocked blocked f s h = inl refl

  -- A call whose later part never returns `b` does not return it either.
  pub continue-ne-ok :
      (r : Exit T A) (f : A → S → Exit T B × S) (s : S) (b : B)
      → ((a : A) → r ≡ ok a → (f a s).0 ≢ ok b)
      → (continue r f s).0 ≢ ok b
  continue-ne-ok (ok a) f s b never h = never a refl h
  continue-ne-ok (err x) f s b never h = cc
  continue-ne-ok panic f s b never h = cc
  continue-ne-ok blocked f s b never h = cc

pub ok-injective : (T : Types) {A : Type 0} (a b : A) → ◌≡◌ {A = Exit T A} (ok a) (ok b) → a ≡ b
ok-injective T a b h = cc
