-- ===== src/Storage/SecureStore/Seal.antt =====
-- src/storage/SecureStore.cpp: a secret is sealed under a key derived from the master secret, and bound
-- to its context. OpenSSL and the encodings of Qt are the parameter.
use shelf_remote.Storage.Database.{Bytes, remove_secret, get_secret, put_secret}
use shelf_remote.Storage.SecureStore.{World, Store, master_secret}
use shelf_remote.Prelude.{
  none, some, [], String, Option, ◌∷◌, if◌then◌else◌, ℕ, ◌++◌, ◌≡◌, codes, is_empty, ltb, length,
  ◌+◌, ◌≢◌, ◌||◌, not, ◌==◌, take, drop,
}

-- HKDF with the salt of the program, and AES-256-GCM: key, nonce, context and text make the sealed text
-- and its tag; key, nonce, context, sealed text and tag give the text back. `none` is a failed call.
pub record Crypto : Type 0 where
  pub utf8 : String → Bytes
  pub number : ℕ → Bytes
  pub hkdf : Bytes → Bytes → Option Bytes
  pub seal : Bytes → Bytes → Bytes → Bytes → Option (Bytes × Bytes)
  pub open_sealed : Bytes → Bytes → Bytes → Bytes → Bytes → Option Bytes

-- What AES-GCM promises: a tag of sixteen bytes, the text back under the same key, nonce and context,
-- and a failure under another key or another context.
pub record IsAead (c : Crypto) : Type 0 where
  pub tag_len :
      (key nonce aad pt ct tag : Bytes) → c.seal key nonce aad pt ≡ some (ct, tag) → length tag ≡ 16
  pub opens :
      (key nonce aad pt ct tag : Bytes)
      → c.seal key nonce aad pt ≡ some (ct, tag)
      → c.open_sealed key nonce aad ct tag ≡ some pt
  pub rejects :
      (key nonce aad pt ct tag other : Bytes)
      → c.seal key nonce aad pt ≡ some (ct, tag)
      → other ≢ aad
      → c.open_sealed key nonce other ct tag ≡ none

pub record Context : Type 0 where
  pub server_id : String
  pub account_id : String
  pub cred_type : String
  pub schema_version : ℕ

unfoldable pub aad : Crypto → Context → Bytes
aad c x =
    c.utf8 x.server_id
    ++ 0 ∷ (c.utf8 x.account_id ++ 0 ∷ (c.utf8 x.cred_type ++ 0 ∷ c.number x.schema_version))

unfoldable pub derive_key : Crypto → Bytes → Bytes → Bytes
derive_key c master context =
    if is_empty master then [] else elim (c.hkdf master context) [ none ↦ [] | some key ↦ key ]

abbrev pub purpose : Bytes
purpose = codes "token-encryption"

-- The version, the nonce, the tag and the sealed text.
unfoldable pub pack : Bytes → Option (Bytes × Bytes) → Bytes
pack nonce none = []
pack nonce (some (ct, tag)) = 2 ∷ (nonce ++ (tag ++ ct))

-- An empty blob is a failure.
unfoldable pub encrypt : Crypto → Option Bytes → Bytes → Bytes → Bytes → Bytes
encrypt c none master pt aad = []
encrypt c (some nonce) master pt aad =
    let key = derive_key c master purpose in
    if is_empty key then [] else pack nonce (c.seal key nonce aad pt)

-- The layout that `decrypt` reads: the version, 12 bytes of nonce, 16 of tag and the rest.
unfoldable pub unpack : Bytes → Option (Bytes × (Bytes × Bytes))
unpack [] = none
unpack (version ∷ rest) =
    if ltb (length rest) (12 + 16) || not (version == 2)
    then none
    else some (take 12 rest, (take 16 (drop 12 rest), drop (12 + 16) rest))

unfoldable pub open_with : Crypto → Bytes → Bytes → Option (Bytes × (Bytes × Bytes)) → Bytes
open_with c key aad none = []
open_with c key aad (some (nonce, (tag, ct))) =
    if is_empty key
    then []
    else elim (c.open_sealed key nonce aad ct tag) [ none ↦ [] | some pt ↦ pt ]

unfoldable pub decrypt : Crypto → Bytes → Bytes → Bytes → Bytes
decrypt c master blob aad = open_with c (derive_key c master purpose) aad (unpack blob)

unfoldable pub store : Crypto → World → String → Bytes → Context → Store → Store
store c w key pt x s =
    let (q, master) = master_secret w s in
    if is_empty master
    then q
    else let blob = encrypt c w.random_nonce master pt (aad c x) in
      if is_empty blob then q else record q { db = put_secret key blob q.db }

pub data Answer : Type 0 where
  missing undecryptable provider_unavailable : Answer
  ok : Bytes → Answer

unfoldable pub answer_of : Bytes → Answer
answer_of pt = if is_empty pt then undecryptable else ok pt

unfoldable pub retrieve : Crypto → World → String → Context → Store → Store × Answer
retrieve c w key x s =
    let blob = get_secret key s.db in
    if is_empty blob
    then (s, missing)
    else let (q, master) = master_secret w s in
      (
        q,
        if is_empty master
            then provider_unavailable
            else answer_of (decrypt c master blob (aad c x)),
      )

unfoldable pub remove : String → Store → Store
remove key s = record s { db = remove_secret key s.db }
