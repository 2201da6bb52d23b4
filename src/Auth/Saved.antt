-- ===== src/Auth/Saved.antt =====
-- src/auth/TokenStore.cpp and src/storage/SecureStore.cpp together: the tokens in the secret store. What
-- QJsonDocument makes of two texts, and the name of the row of a server, are a parameter.
use shelf_remote.Storage.SecureStore.RoundTrip.{store-retrieve, derived-master}
use shelf_remote.Storage.SecureStore.Restart.{restart}
use shelf_remote.Storage.SecureStore.Key.{master_secret-kept}
use shelf_remote.Storage.SecureStore.Anchor.{
  IsSteady, IsAnchored, retrieve-restart, store-IsAnchored, master_secret-IsAnchored,
}
use shelf_remote.Prelude.{
  true, false, some, Chars, String, if◌then◌else◌, Option, is_blank, ◌≡◌, ℕ, is_empty, Bool, length,
  refl, ap, sym, subst, ◌∙◌, same,
}
use shelf_remote.Auth.TokenStore.{
  Tokens, Retrieved, missing, undecryptable, provider_unavailable, found, has_tokens, persist, load,
  on_retrieved,
}
use shelf_remote.Storage.Database.{Bytes}
use shelf_remote.Storage.SecureStore.{Store, World, master_secret}
use shelf_remote.Storage.SecureStore.Seal.{
  Crypto, Context, Answer, IsAead, aad, store, retrieve, derive_key, purpose,
}
use shelf_remote.Storage.SecureStore.Switch.{SwitchResult, moved, reset, unchanged, failed}

pub record Json : Type 0 where
  pub row_of : String → String
  pub encode : Chars → Chars → Bytes
  pub decode : Bytes → Option Chars × Option Chars

-- The texts come back, and an object is never written as no bytes.
pub record IsFaithful (j : Json) : Type 0 where
  pub decodes : (a r : Chars) → j.decode (j.encode a r) ≡ (some a, some r)
  pub not_empty : (a r : Chars) → is_empty (j.encode a r) ≡ false

abbrev pub context_of : String → String → Context
context_of key account = record {
  server_id = key;
  account_id = account;
  cred_type = "tokens";
  schema_version = 1;
}

-- `persist`, as the secret store sees it.
unfoldable pub save : Crypto → Json → World → Tokens → Store → Store
save c j w t s =
    if is_blank t.server_key
    then s
    else store c w (j.row_of t.server_key) (j.encode t.access t.refresh_token)
        (context_of t.server_key t.account) s

-- What `load` reads from the answer of the secret store.
unfoldable pub read_answer : Json → Answer → Retrieved
read_answer j (Answer.missing) = missing
read_answer j (Answer.undecryptable) = undecryptable
read_answer j (Answer.provider_unavailable) = provider_unavailable
read_answer j (Answer.ok pt) = found (j.decode pt).0 (j.decode pt).1

-- `load`, with the secret store asked.
unfoldable pub load_saved :
    Crypto → Json → (Chars → Option ℕ) → World → Store → Tokens → Tokens × Bool
load_saved c j e w s t =
    load e
      (read_answer j (retrieve c w (j.row_of t.server_key) (context_of t.server_key t.account) s).1)
      t

-- `setStorage`, after the secret store has answered.
unfoldable pub after_switch : SwitchResult → Tokens → Tokens
after_switch moved t = if has_tokens t then persist t else t
after_switch reset t = if has_tokens t then persist t else t
after_switch unchanged t = t
after_switch failed t = t

saved-store :
    (c : Crypto) (j : Json) (w : World) (t : Tokens) (s : Store)
    → is_blank t.server_key ≡ false
    → save c j w t s
      ≡ store c w
          (j.row_of t.server_key)
          (j.encode t.access t.refresh_token)
          (context_of t.server_key t.account)
          s
unfolding save
saved-store c j w t s h = rw h

load-found :
    (j : Json) (e : Chars → Option ℕ) (a r : Chars) (u : Tokens)
    → IsFaithful j
    → is_blank u.server_key ≡ false
    → is_empty a ≡ false
    → is_empty r ≡ false
    → let q = load e (read_answer j (Answer.ok (j.encode a r))) u in
      (q.1 ≡ true) × (q.0.access ≡ a) × (q.0.refresh_token ≡ r) × (q.0.bearer ≡ a)
unfolding load read_answer on_retrieved has_tokens
load-found j e a r u f hk ha hr =
    let d = f.decodes a r in rw (hk, d) (rw (ha, hr) (refl, refl, refl, refl))

load-undecryptable :
    (j : Json) (e : Chars → Option ℕ) (u : Tokens)
    → is_blank u.server_key ≡ false
    → let q = load e (read_answer j Answer.undecryptable) u in
      (q.1 ≡ false)
      × (q.0.access ≡ u.access)
      × (q.0.refresh_token ≡ u.refresh_token)
      × (q.0.bearer ≡ u.bearer)
unfolding load read_answer on_retrieved
load-undecryptable j e u hk = rw hk (refl, refl, refl, refl)

load-answered :
    (j : Json) (e : Chars → Option ℕ) (b : Bool) (t u : Tokens)
    → IsFaithful j
    → is_blank u.server_key ≡ false
    → is_empty t.access ≡ false
    → is_empty t.refresh_token ≡ false
    → let a = if b then Answer.ok (j.encode t.access t.refresh_token) else Answer.undecryptable in
      let r = load e (read_answer j a) u in
      (r.1 ≡ b)
      × (r.0.access ≡ (if b then t.access else u.access))
      × (r.0.refresh_token ≡ (if b then t.refresh_token else u.refresh_token))
      × (r.0.bearer ≡ (if b then t.access else u.bearer))
load-answered j e true t u f hk ha hr = load-found j e t.access t.refresh_token u f hk ha hr
load-answered j e false t u f hk ha hr = load-undecryptable j e u hk

-- What is answered to a load depends on the server and the account alone.
answer_of_load :
    (c : Crypto) (j : Json) (later : World) (q : Store) (t u : Tokens)
    → u.server_key ≡ t.server_key
    → (retrieve c later (j.row_of u.server_key) (context_of u.server_key u.account) q).1
      ≡ (retrieve c later (j.row_of t.server_key) (context_of t.server_key u.account) q).1
answer_of_load c j later q t u h =
    ap (λ k. (retrieve c later (j.row_of k) (context_of k u.account) q).1) h

-- The tokens that were saved are read again while the program runs, under the same server.
pub load-save_running :
    (c : Crypto) (j : Json) (e : Chars → Option ℕ)
    → IsAead c
    → IsFaithful j
    → (w later : World) (t u : Tokens) (s : Store) (nonce ct tag : Bytes)
    → let x = context_of t.server_key t.account in
      let k = derive_key c (master_secret w s).1 purpose in
      let r = load_saved c j e later (save c j w t s) u in
      let b = same (aad c (context_of t.server_key u.account)) (aad c x) in
      is_blank t.server_key ≡ false
      → is_empty t.access ≡ false
      → is_empty t.refresh_token ≡ false
      → u.server_key ≡ t.server_key
      → w.random_nonce ≡ some nonce
      → length nonce ≡ 12
      → is_empty k ≡ false
      → c.seal k nonce (aad c x) (j.encode t.access t.refresh_token) ≡ some (ct, tag)
      → (r.1 ≡ b)
        × (r.0.access ≡ (if b then t.access else u.access))
        × (r.0.refresh_token ≡ (if b then t.refresh_token else u.refresh_token))
        × (r.0.bearer ≡ (if b then t.access else u.bearer))
load-save_running c j e law faithful w later t u s nonce ct tag hk ha hr hu hn hl hd hs =
    let row = j.row_of t.server_key in
    let pt = j.encode t.access t.refresh_token in
    let x = context_of t.server_key t.account in
    let y = context_of t.server_key u.account in
    let q = save c j w t s in
    let saved = saved-store c j w t s hk in
    let read =
      store-retrieve c law w later row pt nonce ct tag x y s hn hl hd hs
        (faithful.not_empty t.access t.refresh_token) in
    let hu_key : is_blank u.server_key ≡ false = ap is_blank hu ∙ hk in
    let b = same (aad c y) (aad c x) in
    let answer : (retrieve c later (j.row_of u.server_key) (context_of u.server_key u.account) q).1
        ≡ (if b then Answer.ok pt else Answer.undecryptable) =
      answer_of_load c j later q t u hu
      ∙ ap (λ r. (retrieve c later row y r).1) saved
      ∙ ap (λ (r : Store × Answer). r.1) read in
    unfold load_saved in rw answer (load-answered j e b t u faithful hu_key ha hr)

load_saved-restart :
    (c : Crypto) (j : Json) (e : Chars → Option ℕ) (next : World) (q : Store) (u : Tokens)
    → is_empty q.master ≡ false
    → IsAnchored next q
    → load_saved c j e next (restart q) u ≡ load_saved c j e next q u
unfolding load_saved
load_saved-restart c j e next q u full held =
    ap (λ a. load e (read_answer j a) u)
      (retrieve-restart c next (j.row_of u.server_key) (context_of u.server_key u.account) q full
        held)

-- A store in which the tokens were saved is read by the next start as it would be without it.
pub restarted-save :
    (c : Crypto) (j : Json) (e : Chars → Option ℕ) (w next : World) (t u : Tokens) (s : Store)
    → is_blank t.server_key ≡ false
    → is_empty (derive_key c (master_secret w s).1 purpose) ≡ false
    → IsAnchored next (master_secret w s).0
    → load_saved c j e next (restart (save c j w t s)) u ≡ load_saved c j e next (save c j w t s) u
restarted-save c j e w next t u s hk hd held =
    let row = j.row_of t.server_key in
    let pt = j.encode t.access t.refresh_token in
    let x = context_of t.server_key t.account in
    let m = (master_secret w s).1 in
    let (anchored, same_master) = store-IsAnchored c w next row pt x s held in
    let full : is_empty (store c w row pt x s).master ≡ false =
      ap is_empty (same_master ∙ master_secret-kept w s) ∙ derived-master c m purpose hd in
    subst (λ q. load_saved c j e next (restart q) u ≡ load_saved c j e next q u)
      (sym (saved-store c j w t s hk))
      (load_saved-restart c j e next (store c w row pt x s) u full anchored)

-- The tokens that were saved are the tokens that the next start of the program loads, with no master
-- secret cached, under the same server and an account that is bound to the same data: both texts, the
-- bearer of the requests, and the answer that there are tokens. Under an account that is bound to other
-- data nothing is loaded, and what is in memory stays. The disk can be read and written, random keys are
-- long enough, and the keyring hands out at the next start what it handed out before; a master secret
-- that was in use before the saving is one that the next start can have. The cipher and the JSON keep
-- their promises, neither token is empty, and the saving has a nonce and a key.
pub load-save :
    (c : Crypto) (j : Json) (e : Chars → Option ℕ)
    → IsAead c
    → IsFaithful j
    → (w next : World) (t u : Tokens) (s : Store) (nonce ct tag : Bytes) → IsSteady w next
    → (is_empty s.master ≡ false → IsAnchored next s)
    → let x = context_of t.server_key t.account in
      let k = derive_key c (master_secret w s).1 purpose in
      let r = load_saved c j e next (restart (save c j w t s)) u in
      let b = same (aad c (context_of t.server_key u.account)) (aad c x) in
      is_blank t.server_key ≡ false
      → is_empty t.access ≡ false
      → is_empty t.refresh_token ≡ false
      → u.server_key ≡ t.server_key
      → w.random_nonce ≡ some nonce
      → length nonce ≡ 12
      → is_empty k ≡ false
      → c.seal k nonce (aad c x) (j.encode t.access t.refresh_token) ≡ some (ct, tag)
      → (r.1 ≡ b)
        × (r.0.access ≡ (if b then t.access else u.access))
        × (r.0.refresh_token ≡ (if b then t.refresh_token else u.refresh_token))
        × (r.0.bearer ≡ (if b then t.access else u.bearer))
load-save c j e law faithful w next t u s nonce ct tag steady before hk ha hr hu hn hl hd hs =
    let b =
      same (aad c (context_of t.server_key u.account))
        (aad c (context_of t.server_key t.account)) in
    let held =
      master_secret-IsAnchored w next s steady before
        (derived-master c (master_secret w s).1 purpose hd) in
    subst
      (λ (r : Tokens × Bool).
        (r.1 ≡ b)
        × (r.0.access ≡ (if b then t.access else u.access))
        × (r.0.refresh_token ≡ (if b then t.refresh_token else u.refresh_token))
        × (r.0.bearer ≡ (if b then t.access else u.bearer)))
      (sym (restarted-save c j e w next t u s hk hd held))
      (load-save_running c j e law faithful w next t u s nonce ct tag hk ha hr hu hn hl hd hs)
