-- ===== src/Auth/Choice.antt =====
-- src/auth/AuthManager.cpp and src/auth/TokenStore.cpp: where the sign-ins are kept, as the user chooses
-- it. The worlds are those of the change, of its second question to the keyring, and of the saving.
use shelf_remote.Storage.SecureStore.Seal.{derive_key, purpose, aad}
use shelf_remote.App.Frames.{Bytes}
use shelf_remote.Auth.TokenStore.{Tokens, has_tokens}
use shelf_remote.Auth.Saved.{
  Json, IsFaithful, save, context_of, load_saved, load-save_running, restarted-save,
}
use shelf_remote.Storage.SecureStore.Restart.{restart}
use shelf_remote.Storage.SecureStore.Key.{master_secret-cached}
use shelf_remote.Storage.SecureStore.Anchor.{IsAnchored}
use shelf_remote.Storage.SecureStore.Anchor.Change.{IsReachable, is_done, set_storage-IsReady}
use shelf_remote.Storage.SecureStore.{Store, World, master_secret}
use shelf_remote.Storage.SecureStore.Seal.{Crypto, IsAead, derive_key}
use shelf_remote.Storage.SecureStore.Switch.{
  SwitchResult, is_place, moved, storage, unchanged, reset, device, Place, failed, set_storage,
  keyring,
}
use shelf_remote.Prelude.{
  true, false, some, refl, arith, Bool, ◌≡◌, if◌then◌else◌, ◌||◌, not, Chars, Option, ℕ, ◌&&◌,
  is_blank, is_empty, length, sym, ◌∙◌, same, same_self, ap, subst,
}

abbrev pub is_rewritten : SwitchResult → Bool
is_rewritten moved = true
is_rewritten reset = true
is_rewritten unchanged = false
is_rewritten failed = false

-- `TokenStore::setStorage`, with a secret store.
unfoldable pub switch_storage :
    Crypto → Json → World → World → World → Place → Tokens → Store → Store × SwitchResult
switch_storage c j w later saving target t s =
    let (q, result) = set_storage w later target s in
    (if is_rewritten result && has_tokens t then save c j saving t q else q, result)

unfoldable pub sign_in_on_device : Store → Bool
sign_in_on_device s = is_place (storage s) device

-- Where there is a keyring is a fact of the build.
unfoldable pub can_choose_sign_in_storage : Bool → Store → Bool
can_choose_sign_in_storage keyring_supported s = keyring_supported || not (sign_in_on_device s)

-- The sentence that is shown; empty where nothing has changed.
pub data Told : Type 0 where
  nothing_told on_this_device in_the_keyring saved_again key_not_written keyring_silent : Told

unfoldable pub told : SwitchResult → Bool → Told
told unchanged on_device = nothing_told
told moved on_device = if on_device then on_this_device else in_the_keyring
told reset on_device = saved_again
told failed on_device = if on_device then key_not_written else keyring_silent

unfoldable pub set_sign_in_on_device :
    Crypto → Json → World → World → World → Bool → Tokens → Store → Store × Told
set_sign_in_on_device c j w later saving on_device t s =
    let (q, result) =
      switch_storage c j w later saving (if on_device then device else keyring) t s in
    (q, told result on_device)

-- The user was told that the sign-in was saved.
abbrev pub is_good : Told → Bool
is_good on_this_device = true
is_good in_the_keyring = true
is_good saved_again = true
is_good t = false

good_result : (r : SwitchResult) (b : Bool) → is_good (told r b) ≡ is_rewritten r
unfolding told
good_result unchanged b = refl
good_result moved true = refl
good_result moved false = refl
good_result reset b = refl
good_result failed true = refl
good_result failed false = refl

has_access : (t : Tokens) → has_tokens t ≡ true → is_empty t.access ≡ false
unfolding has_tokens
has_access t h = ground (arith, h)

has_refresh : (t : Tokens) → has_tokens t ≡ true → is_empty t.refresh_token ≡ false
unfolding has_tokens
has_refresh t h = ground (arith, h)

abbrev pub LoadsTokens : Tokens → Tokens × Bool → Type 0
LoadsTokens t r = (r.1 ≡ true) × (r.0.access ≡ t.access) × (r.0.refresh_token ≡ t.refresh_token)

-- The tokens of `t` are what a start loads from a store.
abbrev pub Loads : Crypto → Json → (Chars → Option ℕ) → World → Tokens → Tokens → Store → Type 0
Loads c j e last t u s = LoadsTokens t (load_saved c j e last s u)

good_place : (r : SwitchResult) → is_rewritten r ≡ true → is_done r ≡ true
good_place unchanged h = absurd cc
good_place moved h = refl
good_place reset h = refl
good_place failed h = absurd cc

abbrev pub place : Bool → Place
place on_device = if on_device then device else keyring

-- The same tokens are loaded while the program runs.
load_running :
    (c : Crypto) (j : Json) (e : Chars → Option ℕ) (saving last : World) (t u : Tokens) (q : Store)
    (nonce ct tag : Bytes)
    → IsAead c
    → IsFaithful j
    → has_tokens t ≡ true
    → is_blank t.server_key ≡ false
    → u.server_key ≡ t.server_key
    → u.account ≡ t.account
    → saving.random_nonce ≡ some nonce
    → length nonce ≡ 12
    → let k = derive_key c (master_secret saving q).1 purpose in
      let x = context_of t.server_key t.account in
      is_empty k ≡ false
      → c.seal k nonce (aad c x) (j.encode t.access t.refresh_token) ≡ some (ct, tag)
      → Loads c j e last t u (save c j saving t q)
load_running c j e saving last t u q nonce ct tag law faithful has hk hu ha hn hl hd hs =
    let x = context_of t.server_key t.account in
    let bound : same (aad c (context_of t.server_key u.account)) (aad c x) ≡ true =
      rw ha (same_self (aad c x)) in
    let (ok, access, refresh, _) =
      load-save_running c j e law faithful saving last t u q nonce ct tag hk (has_access t has)
        (has_refresh t has) hu hn hl hd hs in
    (
      ok ∙ bound,
      access ∙ ap (λ b. if b then t.access else u.access) bound,
      refresh ∙ ap (λ b. if b then t.refresh_token else u.refresh_token) bound,
    )

-- A user who was told that the sign-in is kept at the chosen place, or was saved again, finds it there at
-- the next start of the program, with no master secret cached: the tokens in memory are loaded from the
-- secret store, whatever the store was before. At the next start the place can be reached: the key file
-- can be read and the key in it is long enough, or the keyring hands out what it handed out at the change.
-- The cipher keeps its promise, and the saving has a nonce and a key.
pub set_sign_in_on_device-load :
    (c : Crypto) (j : Json) (e : Chars → Option ℕ) (w later saving next : World) (on_device : Bool)
    (t u : Tokens) (s : Store) (nonce ct tag : Bytes)
    → IsAead c
    → IsFaithful j
    → is_good (set_sign_in_on_device c j w later saving on_device t s).1 ≡ true
    → has_tokens t ≡ true
    → is_blank t.server_key ≡ false
    → u.server_key ≡ t.server_key
    → u.account ≡ t.account
    → saving.random_nonce ≡ some nonce
    → length nonce ≡ 12
    → let q = (set_storage w later (place on_device) s).0 in
      let k = derive_key c (master_secret saving q).1 purpose in
      let x = context_of t.server_key t.account in
      IsReachable (place on_device) w next q
      → is_empty k ≡ false
      → c.seal k nonce (aad c x) (j.encode t.access t.refresh_token) ≡ some (ct, tag)
      → let r =
          load_saved c j e next
            (restart (set_sign_in_on_device c j w later saving on_device t s).0)
            u in
        (r.1 ≡ true) × (r.0.access ≡ t.access) × (r.0.refresh_token ≡ t.refresh_token)
unfolding set_sign_in_on_device switch_storage
set_sign_in_on_device-load c j e w later saving next on_device t u s nonce ct tag law faithful good
      has hk hu ha hn hl reach hd hs =
    let result = set_storage w later (place on_device) s in
    let q = result.0 in
    let rewritten : is_rewritten result.1 ≡ true = sym (good_result result.1 on_device) ∙ good in
    let saved : (if is_rewritten result.1 && has_tokens t then save c j saving t q else q)
        ≡ save c j saving t q =
      rw (rewritten, has) refl in
    let (held, full) =
      set_storage-IsReady w later next (place on_device) s (good_place result.1 rewritten) reach in
    let kept : IsAnchored next (master_secret saving q).0 =
      subst (λ (r : Store × Bytes). IsAnchored next r.0) (sym (master_secret-cached saving q full))
        held in
    let running =
      load_running c j e saving next t u q nonce ct tag law faithful has hk hu ha hn hl hd hs in
    subst (λ p. Loads c j e next t u (restart p)) (sym saved)
      (subst (LoadsTokens t) (sym (restarted-save c j e saving next t u q hk hd kept)) running)
