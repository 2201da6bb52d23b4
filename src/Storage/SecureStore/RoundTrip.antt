-- ===== src/Storage/SecureStore/RoundTrip.antt =====
-- src/storage/SecureStore.cpp: a secret that was stored is read back in its own context and no other.
use shelf_remote.Storage.SecureStore.Key.{master_secret-cached, master_secret-kept}
use shelf_remote.Storage.Database.{put_secret, get_secret, get-put_secret}
use shelf_remote.Storage.SecureStore.Seal.{
  pack, unpack, derive_key, decrypt, retrieve, encrypt, store, open_with, Crypto, purpose, Context,
  answer_of, aad, IsAead, ok, undecryptable, Answer,
}
use shelf_remote.Prelude.{
  some, length, ◌≡◌, sym, ap, false, none, arith, ◌++◌, drop_exact, ltb, length-append, take, drop,
  ◌∙◌, take_exact, drop-drop, ◌+◌, refl, [], String, is_empty, ◌∷◌, eq_iff, Option, if◌then◌else◌,
  same, if_elim, same-eq, same-false,
}
use shelf_remote.Storage.SecureStore.{Bytes, Store, World, master_secret}

unpack-pack :
    (nonce ct tag : Bytes)
    → length nonce ≡ 12
    → length tag ≡ 16
    → unpack (pack nonce (some (ct, tag))) ≡ some (nonce, (tag, ct))
unfolding pack unpack
unpack-pack nonce ct tag hn ht =
    let r = nonce ++ (tag ++ ct) in
    let tail : drop 12 r ≡ tag ++ ct = drop_exact 12 nonce (tag ++ ct) hn in
    let size : length r ≡ 28 + length ct =
      omega (arith, length-append nonce (tag ++ ct), length-append tag ct) in
    let fits : ltb (length r) 28 ≡ false = ground (arith, size) in
    let first : take 12 r ≡ nonce = take_exact 12 nonce (tag ++ ct) hn in
    let second : take 16 (drop 12 r) ≡ tag = ap (take 16) tail ∙ take_exact 16 tag ct ht in
    let third : drop 28 r ≡ ct =
      sym (drop-drop 12 16 r) ∙ ap (drop 16) tail ∙ drop_exact 16 tag ct ht in
    rw (fits, first, second, third)

-- What a successful `encrypt` makes.
abbrev blob_of : Bytes → Bytes → Bytes → Bytes
blob_of nonce ct tag = pack nonce (some (ct, tag))

encrypt-pack :
    (c : Crypto) (nonce master pt a ct tag : Bytes)
    → let key = derive_key c master purpose in
      is_empty key ≡ false
      → c.seal key nonce a pt ≡ some (ct, tag)
      → encrypt c (some nonce) master pt a ≡ blob_of nonce ct tag
unfolding encrypt
encrypt-pack c nonce master pt a ct tag hk hs = rw (hk, hs)

decrypt-pack :
    (c : Crypto) (master nonce ct tag a : Bytes)
    → let key = derive_key c master purpose in
      is_empty key ≡ false
      → length nonce ≡ 12
      → length tag ≡ 16
      → decrypt c master (blob_of nonce ct tag) a
        ≡ elim (c.open_sealed key nonce a ct tag) [ none ↦ [] | some pt ↦ pt ]
unfolding decrypt open_with
decrypt-pack c master nonce ct tag a hk hn ht = rw (unpack-pack nonce ct tag hn ht, hk)

pub derived-master :
    (c : Crypto) (master context : Bytes)
    → is_empty (derive_key c master context) ≡ false
    → is_empty master ≡ false
unfolding derive_key
derived-master c [] context h = h
derived-master c (b ∷ bs) context h = refl

abbrev with_blob : String → Bytes → Store → Store
with_blob key blob q = record q { db = put_secret key blob q.db }

store-written :
    (c : Crypto) (w : World) (key : String) (pt nonce ct tag : Bytes) (x : Context) (s : Store)
    → let k = derive_key c (master_secret w s).1 purpose in
      w.random_nonce ≡ some nonce
      → is_empty k ≡ false
      → c.seal k nonce (aad c x) pt ≡ some (ct, tag)
      → store c w key pt x s ≡ with_blob key (blob_of nonce ct tag) (master_secret w s).0
unfolding store pack
store-written c w key pt nonce ct tag x s hn hk hs =
    let m = (master_secret w s).1 in
    let e : encrypt c w.random_nonce m pt (aad c x) ≡ blob_of nonce ct tag =
      ap (λ n. encrypt c n m pt (aad c x)) hn ∙ encrypt-pack c nonce m pt (aad c x) ct tag hk hs in
    rw (derived-master c m purpose hk, e)

get-with_blob :
    (key : String) (blob : Bytes) (q : Store) → get_secret key (with_blob key blob q).db ≡ blob
get-with_blob key blob q = get-put_secret key key blob q.db ∙ rw ((eq_iff key key).1 refl)

retrieve-written :
    (c : Crypto) (w : World) (key : String) (y : Context) (nonce ct tag : Bytes) (q : Store)
    → is_empty q.master ≡ false
    → let r = with_blob key (blob_of nonce ct tag) q in
      retrieve c w key y r ≡ (r, answer_of (decrypt c q.master (blob_of nonce ct tag) (aad c y)))
unfolding retrieve pack
retrieve-written c w key y nonce ct tag q hm =
    let r = with_blob key (blob_of nonce ct tag) q in
    rw (get-with_blob key (blob_of nonce ct tag) q, master_secret-cached w r hm, hm)

answer_of-ok : (pt : Bytes) → is_empty pt ≡ false → answer_of pt ≡ ok pt
unfolding answer_of
answer_of-ok pt h = rw h

or_nothing : Option Bytes → Bytes
or_nothing none = []
or_nothing (some pt) = pt

abbrev reading : Store → Option Bytes → Store × Answer
reading q o = (q, answer_of (or_nothing o))

-- What is read, under any context, of what was stored.
retrieve-store :
    (c : Crypto) (w later : World) (key : String) (pt nonce ct tag : Bytes) (x z : Context)
    (s : Store)
    → let k = derive_key c (master_secret w s).1 purpose in
      let q = store c w key pt x s in
      w.random_nonce ≡ some nonce
      → length nonce ≡ 12
      → length tag ≡ 16
      → is_empty k ≡ false
      → c.seal k nonce (aad c x) pt ≡ some (ct, tag)
      → retrieve c later key z q ≡ reading q (c.open_sealed k nonce (aad c z) ct tag)
unfolding or_nothing
retrieve-store c w later key pt nonce ct tag x z s hn hl ht hk hs =
    let m = (master_secret w s).1 in
    let q0 = (master_secret w s).0 in
    let em = master_secret-kept w s in
    let hm : is_empty q0.master ≡ false = ap is_empty em ∙ derived-master c m purpose hk in
    let written = store-written c w key pt nonce ct tag x s hn hk hs in
    let opened = decrypt-pack c m nonce ct tag (aad c z) hk hl ht in
    let read = retrieve-written c later key z nonce ct tag q0 hm in
    let plain : decrypt c q0.master (blob_of nonce ct tag) (aad c z)
        ≡ decrypt c m (blob_of nonce ct tag) (aad c z) =
      ap (λ n. decrypt c n (blob_of nonce ct tag) (aad c z)) em in
    ap (retrieve c later key z) written
    ∙ read
    ∙ ap (λ v. reading (with_blob key (blob_of nonce ct tag) q0) (some v)) (plain ∙ opened)
    ∙ ap (λ r. reading r (c.open_sealed (derive_key c m purpose) nonce (aad c z) ct tag))
        (sym written)

-- A secret that `store` has sealed under a working key is read back, whatever the world then answers,
-- under any context that is bound to the same data; under any other it is undecryptable.
pub store-retrieve :
    (c : Crypto)
    → IsAead c
    → (w later : World) (key : String) (pt nonce ct tag : Bytes) (x y : Context) (s : Store)
    → let k = derive_key c (master_secret w s).1 purpose in
      let q = store c w key pt x s in
      w.random_nonce ≡ some nonce
      → length nonce ≡ 12
      → is_empty k ≡ false
      → c.seal k nonce (aad c x) pt ≡ some (ct, tag)
      → is_empty pt ≡ false
      → retrieve c later key y q ≡ (q, if same (aad c y) (aad c x) then ok pt else undecryptable)
store-retrieve c law w later key pt nonce ct tag x y s hn hl hk hs hp =
    let k = derive_key c (master_secret w s).1 purpose in
    let q = store c w key pt x s in
    let ht = law.tag_len k nonce (aad c x) pt ct tag hs in
    let read = retrieve-store c w later key pt nonce ct tag x y s hn hl ht hk hs in
    if_elim (λ (a : Answer). retrieve c later key y q ≡ (q, a)) (same (aad c y) (aad c x))
      (λ e.
        read
        ∙ ap (λ a. reading q (c.open_sealed k nonce a ct tag)) (same-eq (aad c y) (aad c x) e)
        ∙ ap (reading q) (law.opens k nonce (aad c x) pt ct tag hs)
        ∙ unfold or_nothing in ap (λ a. (q, a)) (answer_of-ok pt hp))
      λ e.
        read
        ∙ ap (reading q) (
            law.rejects k nonce (aad c x) pt ct tag (aad c y) hs (same-false (aad c y) (aad c x) e))
        ∙ unfold or_nothing answer_of in refl
