-- ===== src/Client/MapInfo/Laws/Encrypted.antt =====
-- What stands in a map that has been encrypted.
use mathlib.Core.Path.{subst}
use safe_client_libs.Shared.{◌≡◌, ◌≢◌, ◌⊎◌, inl, inr, refl, sym, ap, ◌∙◌, List, [], ◌∷◌, All}
use safe_client_libs.External.Types.{Types}
use safe_client_libs.External.Protocol.{Bytes, Result, MapSeqValue}
use safe_client_libs.External.Cipher.{CipherApi}
use safe_client_libs.Exec.{ok, continue-eq-ok, ok-injective}
use safe_client_libs.Encryption.Laws.{IsCipher}
use safe_client_libs.Client.MapInfo.{MapInfo, enc_entry_key, enc_entry_value, decrypt}
use safe_client_libs.Client.MapInfo.Laws.{decrypt-enc_entry_value, decrypt-enc_entry_key}
use safe_client_libs.Client.MapInfo.Laws.Insertion.{
  Has, IsMap, insert-Has_only, insert-Has, insert-Has_old,
}
use safe_client_libs.Client.MapInfo.Entries.{insert, encrypt_value, decrypt_value, encrypt_onto}

abbrev pub Entry : Type 0
Entry = Bytes × MapSeqValue

All-Has : {A : Type 0} (P : A → Type 0) (a : A) (xs : List A) → All P xs → Has a xs → P a
All-Has P a [] h has = absurd has
All-Has P a (x ∷ xs) (h, hs) here = elim here [
  | inl now ↦ subst P (sym now) h
  | inr later ↦ All-Has P a xs hs later
]

pub IsMap-unique : (f g : Entry) (m : List Entry) → IsMap m → Has f m → Has g m → f.0 ≡ g.0 → f ≡ g
IsMap-unique f g [] d hf hg e = absurd hf
IsMap-unique f g (x ∷ m) (fresh, d) hf hg e = elim hf [
  | inl f_now ↦ elim hg [
    | inl g_now ↦ f_now ∙ sym g_now
    | inr g_later ↦
        absurd (All-Has (λ y. y.0 ≢ x.0) g m fresh g_later (sym e ∙ ap (λ (y : Entry). y.0) f_now))
  ]
  | inr f_later ↦ elim hg [
    | inl g_now ↦
        absurd (All-Has (λ y. y.0 ≢ x.0) f m fresh f_later (e ∙ ap (λ (y : Entry). y.0) g_now))
    | inr g_later ↦ IsMap-unique f g m d f_later g_later e
  ]
]

module _ {T : Types} (C : CipherApi T) (info : MapInfo) where
  -- The entry `e` decrypts to the entry `f`.
  abbrev pub Opens : Entry → Entry → Type 0
  Opens f e = (decrypt C info e.0 ≡ Result.ok f.0) × (decrypt_value C info e.1 ≡ Result.ok f.1)

  pub Opens-unique : (f g e : Entry) → Opens f e → Opens g e → f ≡ g
  Opens-unique f g e p q = cc (p.0, p.1, q.0, q.1)

  module _ (cipher : IsCipher C) where
    decrypt_value-encrypt_value :
        (value : MapSeqValue) (rng : T.Rng) (w : MapSeqValue)
        → (encrypt_value C info value rng).0 ≡ ok w
        → decrypt_value C info w ≡ Result.ok value
    unfolding encrypt_value decrypt_value
    decrypt_value-encrypt_value value rng w h =
        let (text, made, rest) = continue-eq-ok (enc_entry_value C info value.value rng).0 _ _ h in
        let opened = (decrypt-enc_entry_value C cipher info value.value rng text made).0 in
        rw (← ok-injective T _ _ rest) (rw (opened, decrypt_value) refl)

    -- One round of the loop that encrypts.
    encrypt_onto-cons :
        (output m : List Entry) (f : Entry) (rng : T.Rng) (out : List Entry)
        → (encrypt_onto C info output (f ∷ m) rng).0 ≡ ok out
        → (e : Entry) × (rng' : T.Rng) × Opens f e
          × ((encrypt_onto C info (insert e.0 e.1 output) m rng').0 ≡ ok out)
    unfolding encrypt_onto
    encrypt_onto-cons output m (k, v) rng out h =
        let (c, made, rest) = continue-eq-ok (enc_entry_key C info k rng).0 _ _ h in
        let (w, made', rest') = continue-eq-ok (encrypt_value C info v _).0 _ _ rest in
        (
          (c, w),
          _,
          (
            (decrypt-enc_entry_key C cipher info k rng c made).0,
            decrypt_value-encrypt_value v _ w made',
          ),
          rest',
        )

    -- Every entry of the encrypted map was there, or decrypts to an entry of the map.
    pub encrypt_onto-Opens :
        (output m : List Entry) (rng : T.Rng) (out : List Entry) (e : Entry)
        → (encrypt_onto C info output m rng).0 ≡ ok out
        → Has e out
        → Has e output ⊎ ((f : Entry) × Has f m × Opens f e)
    unfolding encrypt_onto
    encrypt_onto-Opens output [] rng out e h has =
        inl (subst (Has e) (sym (ok-injective T _ _ h)) has)
    encrypt_onto-Opens output (f ∷ m) rng out e h has =
        let (e', rng', opens, rest) = encrypt_onto-cons output m f rng out h in
        elim (encrypt_onto-Opens (insert e'.0 e'.1 output) m rng' out e rest has) [
          | inl was ↦ elim (insert-Has_only e'.0 e'.1 e output was) [
            | inl new ↦ inr (f, inl refl, subst (Opens f) (sym new) opens)
            | inr old ↦ inl old
          ]
          | inr (g, in_m, opens_g) ↦ inr (g, inr in_m, opens_g)
        ]

    -- An encrypted entry stays, since no later key is the same.
    encrypt_onto-keeps :
        (output m : List Entry) (rng : T.Rng) (out : List Entry) (e f : Entry)
        → (encrypt_onto C info output m rng).0 ≡ ok out
        → Opens f e
        → All (λ g. g.0 ≢ f.0) m
        → Has e output
        → Has e out
    unfolding encrypt_onto
    encrypt_onto-keeps output [] rng out e f h opens fresh has =
        subst (Has e) (ok-injective T _ _ h) has
    encrypt_onto-keeps output (g ∷ m) rng out e f h opens (ne, fresh) has =
        let (e', rng', opens', rest) = encrypt_onto-cons output m g rng out h in
        encrypt_onto-keeps (insert e'.0 e'.1 output) m rng' out e f rest opens fresh
          (elim (insert-Has_old e'.0 e'.1 e output has) [
            | inl kept ↦ kept
            | inr same ↦ absurd (ne (cc (same, opens.0, opens'.0)))
          ])

    -- Every entry of the map is there, encrypted.
    pub encrypt_onto-Has :
        (output m : List Entry) (rng : T.Rng) (out : List Entry) (f : Entry)
        → (encrypt_onto C info output m rng).0 ≡ ok out
        → IsMap m
        → Has f m
        → (e : Entry) × Has e out × Opens f e
    encrypt_onto-Has output [] rng out f h d has = absurd has
    encrypt_onto-Has output (g ∷ m) rng out f h (fresh, d) has =
        let (e, rng', opens, rest) = encrypt_onto-cons output m g rng out h in
        elim has [
          | inl now ↦ (
            e,
            encrypt_onto-keeps (insert e.0 e.1 output) m rng' out e g rest opens fresh
                (insert-Has e.0 e.1 output),
            subst (λ x. Opens x e) (sym now) opens,
          )
          | inr later ↦ encrypt_onto-Has (insert e.0 e.1 output) m rng' out f rest d later
        ]
