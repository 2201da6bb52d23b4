-- ===== src/Storage/SecureStore/Aad.antt =====
-- src/storage/SecureStore.cpp: the data that bind a secret to its context tell contexts apart.
use shelf_remote.Storage.SecureStore.Seal.{aad, Crypto, Context}
use shelf_remote.Storage.Database.{Bytes}
use shelf_remote.Prelude.{refl, true, arith, [], Bool, ◌≡◌, ◌∷◌, ◌++◌, not, ◌==◌, ◌&&◌}

-- A text without a NUL.
unfoldable pub is_plain : Bytes → Bool
is_plain [] = true
is_plain (b ∷ bs) = not (b == 0) && is_plain bs

-- The first NUL ends a text that has none.
split_at_nul :
    (xs us ys vs : Bytes)
    → is_plain xs ≡ true
    → is_plain us ≡ true
    → xs ++ 0 ∷ ys ≡ us ++ 0 ∷ vs
    → (xs ≡ us) × (ys ≡ vs)
unfolding is_plain
split_at_nul [] [] ys vs h k e = (refl, cc)
split_at_nul [] (u ∷ us) ys vs h k e = absurd (ground arith)
split_at_nul (x ∷ xs) [] ys vs h k e = absurd (ground arith)
split_at_nul (x ∷ xs) (u ∷ us) ys vs h k e =
    let r = split_at_nul xs us ys vs (ground arith) (ground arith) (cc) in (ground (arith, r), r.1)

-- Two contexts whose identifiers and type have no NUL, and that are bound to the same data, have the
-- same identifiers, type and version, as texts.
pub aad-injective :
    (c : Crypto) (x y : Context)
    → is_plain (c.utf8 x.server_id) ≡ true
    → is_plain (c.utf8 y.server_id) ≡ true
    → is_plain (c.utf8 x.account_id) ≡ true
    → is_plain (c.utf8 y.account_id) ≡ true
    → is_plain (c.utf8 x.cred_type) ≡ true
    → is_plain (c.utf8 y.cred_type) ≡ true
    → aad c x ≡ aad c y
    → (c.utf8 x.server_id ≡ c.utf8 y.server_id)
      × (c.utf8 x.account_id ≡ c.utf8 y.account_id)
      × (c.utf8 x.cred_type ≡ c.utf8 y.cred_type)
      × (c.number x.schema_version ≡ c.number y.schema_version)
unfolding aad
aad-injective c x y hx hy ax ay tx ty e =
    let first = split_at_nul _ _ _ _ hx hy e in
    let second = split_at_nul _ _ _ _ ax ay first.1 in
    let third = split_at_nul _ _ _ _ tx ty second.1 in (first.0, second.0, third.0, third.1)
