-- ===== src/Client/MapInfo/Laws/Insertion.antt =====
-- What an insertion into a `BTreeMap` keeps and adds.
use Prim.Native.Nat.{Ordering}
use mathlib.Core.Path.{subst}
use safe_client_libs.Shared.{◌≡◌, ◌≢◌, ◌⊎◌, inl, inr, refl, sym, ap, ◌∙◌, List, [], ◌∷◌, arith, All}
use safe_client_libs.External.Protocol.{Bytes}
use safe_client_libs.Client.MapInfo.Entries.{order_bytes, insert}

abbrev pub Has : {A : Type 0} → A → List A → Type 0
Has a [] = ⊥
Has a (x ∷ xs) = (a ≡ x) ⊎ Has a xs

-- No key stands twice, as in every `BTreeMap`.
abbrev pub IsMap : {V : Type 0} → List (Bytes × V) → Type 0
IsMap [] = Unit
IsMap (e ∷ m) = All (λ f. f.0 ≢ e.0) m × IsMap m

Ordering-cases : (o : Ordering) → (o ≡ Ordering.lt) ⊎ ((o ≡ Ordering.eq) ⊎ (o ≡ Ordering.gt))
Ordering-cases Ordering.lt = inl refl
Ordering-cases Ordering.eq = inr (inl refl)
Ordering-cases Ordering.gt = inr (inr refl)

order_bytes-eq : (a b : Bytes) → order_bytes a b ≡ Ordering.eq → a ≡ b
unfolding order_bytes
order_bytes-eq [] [] h = refl
order_bytes-eq [] (y ∷ b) h = cc
order_bytes-eq (x ∷ a) [] h = cc
order_bytes-eq (x ∷ a) (y ∷ b) h = ground (arith, order_bytes-eq a b)

module _ {V : Type 0} (key : Bytes) (value : V) (k : Bytes) (v : V) (rest : List (Bytes × V)) where
  insert_before :
      order_bytes key k ≡ Ordering.lt
      → insert key value ((k, v) ∷ rest) ≡ (key, value) ∷ (k, v) ∷ rest
  unfolding insert
  insert_before h = rw (h, insert)

  insert_at : order_bytes key k ≡ Ordering.eq → insert key value ((k, v) ∷ rest) ≡ (k, value) ∷ rest
  unfolding insert
  insert_at h = rw (h, insert)

  insert_after :
      order_bytes key k ≡ Ordering.gt
      → insert key value ((k, v) ∷ rest) ≡ (k, v) ∷ insert key value rest
  unfolding insert
  insert_after h = rw (h, insert)

module _ {V : Type 0} (key : Bytes) (value : V) where
  -- What an insertion leaves is the new entry or an old one.
  pub insert-Has_only :
      (e : Bytes × V) (m : List (Bytes × V))
      → Has e (insert key value m)
      → (e ≡ (key, value)) ⊎ Has e m
  unfolding insert
  insert-Has_only e [] h = h
  insert-Has_only e ((k, v) ∷ rest) h = elim (Ordering-cases (order_bytes key k)) [
    | inl lt ↦ subst (Has e) (insert_before key value k v rest lt) h
    | inr (inl at) ↦ elim (subst (Has e) (insert_at key value k v rest at) h) [
      | inl now ↦ inl (now ∙ ap (λ x. (x, value)) (sym (order_bytes-eq key k at)))
      | inr later ↦ inr (inr later)
    ]
    | inr (inr gt) ↦ elim (subst (Has e) (insert_after key value k v rest gt) h) [
      | inl now ↦ inr (inl now)
      | inr later ↦ elim (insert-Has_only e rest later) [
        | inl new ↦ inl new
        | inr old ↦ inr (inr old)
      ]
    ]
  ]

  -- The new entry is in.
  pub insert-Has : (m : List (Bytes × V)) → Has (key, value) (insert key value m)
  unfolding insert
  insert-Has [] = inl refl
  insert-Has ((k, v) ∷ rest) = elim (Ordering-cases (order_bytes key k)) [
    | inl lt ↦ subst (Has (key, value)) (sym (insert_before key value k v rest lt)) (inl refl)
    | inr (inl at) ↦
        subst (Has (key, value)) (sym (insert_at key value k v rest at))
          (inl (ap (λ x. (x, value)) (order_bytes-eq key k at)))
    | inr (inr gt) ↦
        subst (Has (key, value)) (sym (insert_after key value k v rest gt)) (inr (insert-Has rest))
  ]

  -- An old entry stays, unless it has the new key.
  pub insert-Has_old :
      (e : Bytes × V) (m : List (Bytes × V)) → Has e m → Has e (insert key value m) ⊎ (e.0 ≡ key)
  insert-Has_old e [] h = absurd h
  insert-Has_old e ((k, v) ∷ rest) h = elim (Ordering-cases (order_bytes key k)) [
    | inl lt ↦ inl (subst (Has e) (sym (insert_before key value k v rest lt)) (inr h))
    | inr (inl at) ↦ elim h [
      | inl now ↦ inr (ap (λ (p : Bytes × V). p.0) now ∙ sym (order_bytes-eq key k at))
      | inr later ↦ inl (subst (Has e) (sym (insert_at key value k v rest at)) (inr later))
    ]
    | inr (inr gt) ↦ elim h [
      | inl now ↦ inl (subst (Has e) (sym (insert_after key value k v rest gt)) (inl now))
      | inr later ↦ elim (insert-Has_old e rest later) [
        | inl kept ↦ inl (subst (Has e) (sym (insert_after key value k v rest gt)) (inr kept))
        | inr same ↦ inr same
      ]
    ]
  ]
