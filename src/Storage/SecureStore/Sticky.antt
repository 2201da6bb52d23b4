-- ===== src/Storage/SecureStore/Sticky.antt =====
-- src/storage/SecureStore.cpp: a provider that was chosen stays, and without its answer nothing is sealed.
use shelf_remote.Storage.SecureStore.Key.{is_chosen, master_secret-sticky}
use shelf_remote.Storage.SecureStore.Seal.{
  Crypto, Answer, store, missing, Context, retrieve, provider_unavailable, remove, encrypt, aad,
}
use shelf_remote.Prelude.{
  true, false, [], List, Bool, ◌∷◌, is_empty, String, ◌++◌, ◌&&◌, ◌≡◌, erase, refl, ap, ◌∙◌,
  if_elim,
}
use shelf_remote.Storage.SecureStore.{Store, World, portal_secret, marker, master_secret}
use shelf_remote.Storage.Database.{put_secret, remove_secret, Bytes, get_setting, get_secret}

-- The calls that others make of the store, each with what the world answers to it.
pub data Call : Type 0 where
  storing : World → String → Bytes → Context → Call
  retrieving : World → String → Context → Call
  removing : String → Call

unfoldable pub step : Crypto → Call → Store → Store × List Answer
step c (storing w key pt x) s = (store c w key pt x s, [])
step c (retrieving w key x) s = let (q, a) = retrieve c w key x s in (q, a ∷ [])
step c (removing key) s = (remove key s, [])

-- With the answers in order.
unfoldable pub run : Crypto → List Call → Store → Store × List Answer
run c [] s = (s, [])
run c (i ∷ is) s = let (q, a) = step c i s in let (r, as') = run c is q in (r, a ++ as')

-- No answer of the portal to a call is of use.
unfoldable pub is_silent : Call → Bool
is_silent (storing w key pt x) = is_empty (portal_secret w.portal_reply)
is_silent (retrieving w key x) = is_empty (portal_secret w.portal_reply)
is_silent (removing key) = true

unfoldable pub all_silent : List Call → Bool
all_silent [] = true
all_silent (i ∷ is) = is_silent i && all_silent is

-- What is left of the secrets when only the removals count.
unfoldable pub removals : List Call → List (String × Bytes) → List (String × Bytes)
removals [] m = m
removals (removing key ∷ is) m = removals is (erase key m)
removals (i ∷ is) m = removals is m

unfoldable pub gives_nothing : List Answer → Bool
gives_nothing [] = true
gives_nothing (missing ∷ as') = gives_nothing as'
gives_nothing (provider_unavailable ∷ as') = gives_nothing as'
gives_nothing (a ∷ as') = false

store-sticky :
    (c : Crypto) (w : World) (key : String) (pt : Bytes) (x : Context) (s : Store)
    → is_chosen (marker s) ≡ true
    → marker (store c w key pt x s) ≡ marker s
unfolding store
store-sticky c w key pt x s h =
    let q = (master_secret w s).0 in
    let m = (master_secret w s).1 in
    let hk = master_secret-sticky w s h in
    if_elim (λ (r : Store). marker r ≡ marker s) (is_empty m) (λ _. hk)
      λ _.
        if_elim (λ (r : Store). marker r ≡ marker s)
          (is_empty (encrypt c w.random_nonce m pt (aad c x))) (λ _. hk)
          (λ _. unfold put_secret get_setting in hk)

retrieve-sticky :
    (c : Crypto) (w : World) (key : String) (x : Context) (s : Store)
    → is_chosen (marker s) ≡ true
    → marker (retrieve c w key x s).0 ≡ marker s
unfolding retrieve
retrieve-sticky c w key x s h =
    if_elim (λ (r : Store × Answer). marker r.0 ≡ marker s) (is_empty (get_secret key s.db))
      (λ _. refl) λ _. master_secret-sticky w s h

step-sticky :
    (c : Crypto) (i : Call) (s : Store)
    → is_chosen (marker s) ≡ true
    → marker (step c i s).0 ≡ marker s
unfolding step
step-sticky c (storing w key pt x) s h = store-sticky c w key pt x s h
step-sticky c (retrieving w key x) s h = retrieve-sticky c w key x s h
step-sticky c (removing key) s h = unfold remove remove_secret get_setting in refl

-- Once a provider was chosen, no store, retrieval or removal changes the choice, whatever the world
-- answers.
pub run-sticky :
    (c : Crypto) (is : List Call) (s : Store)
    → is_chosen (marker s) ≡ true
    → marker (run c is s).0 ≡ marker s
unfolding run
run-sticky c [] s h = refl
run-sticky c (i ∷ is) s h =
    let e = step-sticky c i s h in run-sticky c is (step c i s).0 (ap is_chosen e ∙ h) ∙ e

-- The keyring is the provider, and its secret has not been had yet.
pub record IsLocked (s : Store) : Type 0 where
  pub by_keyring : marker s ≡ "portal-v1"
  pub no_master : s.master ≡ []

-- Nothing has happened but to the marks of the portal.
record IsShut (s q : Store) : Type 0 where
  locked : IsLocked q
  key_file : q.key_file ≡ s.key_file
  secrets : q.db.secrets ≡ s.db.secrets

-- After a call: still locked, the key file as it was, of the secrets only what was removed is gone, and
-- no secret was handed out.
pub record StaysShut (s : Store) (is : List Call) (r : Store × List Answer) : Type 0 where
  pub locked : IsLocked r.0
  pub key_file : r.0.key_file ≡ s.key_file
  pub secrets : r.0.db.secrets ≡ removals is s.db.secrets
  pub nothing_given : gives_nothing r.1 ≡ true
