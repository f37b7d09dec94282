-- ===== src/Client/MapInfo/Laws/RoundTrip.antt =====
-- A whole map that has been encrypted is decrypted to the same entries.
use mathlib.Core.Path.{subst}
use safe_client_libs.Shared.{◌≡◌, ◌↔◌, ◌⊎◌, inl, inr, refl, sym, ◌∙◌, List, [], ◌∷◌}
use safe_client_libs.External.Types.{Types}
use safe_client_libs.External.Protocol.{Result}
use safe_client_libs.External.Cipher.{CipherApi}
use safe_client_libs.Exec.{ok}
use safe_client_libs.Encryption.Laws.{IsCipher}
use safe_client_libs.Client.MapInfo.{MapInfo}
use safe_client_libs.Client.MapInfo.Laws.Insertion.{
  Has, IsMap, insert-Has_only, insert-Has, insert-Has_old,
}
use safe_client_libs.Client.MapInfo.Laws.Encrypted.{
  Entry, IsMap-unique, Opens, Opens-unique, encrypt_onto-Opens, encrypt_onto-Has,
}
use safe_client_libs.Client.MapInfo.Entries.{insert, encrypt_entries, decrypt_onto, decrypt_entries}

module _ {T : Types} (C : CipherApi T) (info : MapInfo) where
  -- The entries of `out` that decrypt to the key of `g` decrypt to `g`.
  abbrev OpensOnly : Entry → List Entry → Type 0
  OpensOnly g out = (e f : Entry) → Has e out → Opens C info f e → f.0 ≡ g.0 → f ≡ g

  -- What the loop that decrypts gives, on top of its output.
  record Decrypts (output out res : List Entry) : Type 0 where
    ends : decrypt_onto C info output out ≡ Result.ok res
    sound : (g : Entry) → Has g res → Has g output ⊎ ((e : Entry) × Has e out × Opens C info g e)
    keeps : (g : Entry) → OpensOnly g out → Has g output → Has g res
    finds : (g e : Entry) → OpensOnly g out → Has e out → Opens C info g e → Has g res

  decrypt_onto-cons :
      (output out : List Entry) (e f : Entry)
      → Opens C info f e
      → decrypt_onto C info output (e ∷ out) ≡ decrypt_onto C info (insert f.0 f.1 output) out
  unfolding decrypt_onto
  decrypt_onto-cons output out e f (key, value) = rw (key, value, decrypt_onto) refl

  decrypt_onto-Decrypts :
      (output out : List Entry)
      → ((e : Entry) → Has e out → (f : Entry) × Opens C info f e)
      → (res : List Entry) × Decrypts output out res
  unfolding decrypt_onto
  decrypt_onto-Decrypts output [] opens = (
    output,
    record {
      ends = refl;
      sound = λ g has. inl has;
      keeps = λ g only has. has;
      finds = λ g e only has p. absurd has;
    },
  )
  decrypt_onto-Decrypts output (e ∷ out) opens =
      let (f, first) = opens e (inl refl) in
      let (res, d) =
        decrypt_onto-Decrypts (insert f.0 f.1 output) out (λ x has. opens x (inr has)) in
      (
        res,
        record {
          ends = decrypt_onto-cons output out e f first ∙ d.ends;
          sound = λ g has. elim (d.sound g has) [
            | inl was ↦ elim (insert-Has_only f.0 f.1 g output was) [
              | inl new ↦ inr (e, inl refl, subst (λ x. Opens C info x e) (sym new) first)
              | inr old ↦ inl old
            ]
            | inr (x, later, p) ↦ inr (x, inr later, p)
          ];
          keeps = λ g only has.
              d.keeps g (λ x y there. only x y (inr there))
                (elim (insert-Has_old f.0 f.1 g output has) [
                  | inl kept ↦ kept
                  | inr same ↦
                      subst (λ x. Has x (insert f.0 f.1 output))
                        (only e f (inl refl) first (sym same)) (insert-Has f.0 f.1 output)
                ]);
          finds = λ g x only has p. elim has [
            | inl now ↦
                d.keeps g (λ y z there. only y z (inr there))
                  (subst (λ y. Has y (insert f.0 f.1 output))
                    (Opens-unique C info f g e first (subst (Opens C info g) now p))
                    (insert-Has f.0 f.1 output))
            | inr later ↦ d.finds g x (λ y z there. only y z (inr there)) later p
          ];
        },
      )

  -- If the cipher opens what it has sealed, a map in which no key stands twice, and which has been
  -- encrypted, is decrypted without an error, with the same information, to a map with the same
  -- entries.
  pub decrypt_entries-encrypt_entries :
      (m : List Entry) (rng : T.Rng) (out : List Entry)
      → IsCipher C
      → IsMap m
      → (encrypt_entries C info m rng).0 ≡ ok out
      → (res : List Entry) × (decrypt_entries C info out ≡ Result.ok res)
        × ((g : Entry) → Has g res ↔ Has g m)
  unfolding encrypt_entries decrypt_entries
  decrypt_entries-encrypt_entries m rng out cipher d h =
      let (res, p) = decrypt_onto-Decrypts [] out (λ e has. opened e has) in
      (
        res,
        p.ends,
        λ g. (
          λ has. elim (p.sound g has) [
            | inl no_more ↦ absurd no_more
            | inr (e, there, opens) ↦
                let (f, in_m, opens_f) = of_m e there in
                subst (λ x. Has x m) (Opens-unique C info f g e opens_f opens) in_m
          ],
          λ has.
              let (e, there, opens) = encrypt_onto-Has C info cipher [] m rng out g h d has in
              p.finds g e
                (λ x f x_there opens_x same.
                  let (f', in_m, opens_f') = of_m x x_there in
                  let f_in_m : Has f m =
                    subst (λ y. Has y m) (Opens-unique C info f' f x opens_f' opens_x) in_m in
                  IsMap-unique f g m d f_in_m has same)
                there opens,
        ),
      )
    where
      of_m : (e : Entry) → Has e out → (f : Entry) × Has f m × Opens C info f e
      of_m e has = elim (encrypt_onto-Opens C info cipher [] m rng out e h has) [
        | inl no_more ↦ absurd no_more
        | inr found ↦ found
      ]

      opened : (e : Entry) → Has e out → (f : Entry) × Opens C info f e
      opened e has = let (f, _, opens) = of_m e has in (f, opens)
