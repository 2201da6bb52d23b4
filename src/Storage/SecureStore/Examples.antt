-- ===== src/Storage/SecureStore/Examples.antt =====
-- Runs of the theorems on the secret store, with a cipher that puts the context in front of the text.
use shelf_remote.Storage.SecureStore.Restart.{restart, moved-restart}
use shelf_remote.Storage.SecureStore.Outcome.{before, Outcome, set_storage-Outcome}
use shelf_remote.Storage.SecureStore.Aad.{aad-injective}
use shelf_remote.Storage.SecureStore.RoundTrip.{store-retrieve}
use shelf_remote.Storage.SecureStore.Switch.{
  to_device, write_device, finish_move, storage, move, set_storage, device, moved,
}
use shelf_remote.Storage.SecureStore.Seal.{encrypt, pack, store}
use shelf_remote.Storage.Database.{put_secret, get_secret}
use shelf_remote.Storage.SecureStore.Aad.{is_plain}
use shelf_remote.Storage.SecureStore.Sticky.{Call, storing, retrieving, removing}
use shelf_remote.Storage.SecureStore.{
  has_existing_local_secret, saved_key, long_enough, acquire_local_secret, new_local_secret,
  write_local_secret, key_len, portal, answered,
}
use shelf_remote.Storage.Database.{get_setting, put_setting}
use shelf_remote.Storage.SecureStore.Seal.{
  IsAead, Crypto, derive_key, aad, store, retrieve, Context, ok, undecryptable, purpose,
}
use shelf_remote.Prelude.{
  refl, sym, true, none, some, arith, [], same, codes, Option, length, ◌≢◌, ◌∷◌, ◌++◌,
  if◌then◌else◌, ◌≡◌, take, drop, take-append, if_elim, drop-append, same-eq, ap, false, String,
  same_self, ◌∙◌, is_empty, lookup, List, ◌≤◌, insert,
}
use shelf_remote.Storage.SecureStore.{
  Store, Bytes, World, unset, no_secret, master_secret, acquire_master_secret,
}

abbrev pub zeros : Bytes
zeros = 0 ∷ 0 ∷ 0 ∷ 0 ∷ 0 ∷ 0 ∷ 0 ∷ 0 ∷ 0 ∷ 0 ∷ 0 ∷ 0 ∷ 0 ∷ 0 ∷ 0 ∷ 0 ∷ []

abbrev pub labelled : Bytes → Bytes → Option Bytes
labelled a [] = none
labelled a (n ∷ rest) = if same (take n rest) a then some (drop n rest) else none

abbrev pub sealed : Bytes → Bytes → Bytes × Bytes
sealed a pt = (length a ∷ (a ++ pt), zeros)

abbrev pub label : Crypto
label = record {
  utf8 = codes;
  number = λ n. n ∷ [];
  hkdf = λ master context. some master;
  seal = λ key nonce a pt. some (sealed a pt);
  open_sealed = λ key nonce a ct tag. labelled a ct;
}

labelled-own : (a pt : Bytes) → labelled a (sealed a pt).0 ≡ some pt
labelled-own a pt = rw (take-append a pt, drop-append a pt, same_self a)

labelled-other : (a other pt : Bytes) → other ≢ a → labelled other (sealed a pt).0 ≡ none
labelled-other a other pt ne = rw (take-append a pt) (
    if_elim (λ (o : Option Bytes). o ≡ none) (same a other)
      (λ e. absurd (ne (sym (same-eq a other e)))) (λ _. refl))

sealed_parts :
    (a pt ct tag : Bytes)
    → some (sealed a pt) ≡ some (ct, tag)
    → ((sealed a pt).0 ≡ ct) × (zeros ≡ tag)
sealed_parts a pt ct tag e = (ground arith, ground arith)

pub label-IsAead : IsAead label
label-IsAead = record {
  tag_len = λ key nonce a pt ct tag e. ap length (sym (sealed_parts a pt ct tag e).1);
  opens = λ key nonce a pt ct tag e.
      ap (labelled a) (sym (sealed_parts a pt ct tag e).0) ∙ labelled-own a pt;
  rejects = λ key nonce a pt ct tag other e ne.
      ap (labelled other) (sym (sealed_parts a pt ct tag e).0) ∙ labelled-other a other pt ne;
}

abbrev key_bytes : Bytes
key_bytes = zeros ++ zeros

abbrev pub twelve : Bytes
twelve = 1 ∷ 2 ∷ 3 ∷ 4 ∷ 5 ∷ 6 ∷ 7 ∷ 8 ∷ 9 ∷ 10 ∷ 11 ∷ 12 ∷ []

-- No keyring; the disk can be read and written.
abbrev pub plain_world : World
plain_world = record {
  flatpak = false;
  portal_reply = no_secret;
  random_key = some key_bytes;
  random_nonce = some twelve;
  can_read = true;
  can_open = true;
  can_write = true;
}

-- The first start.
abbrev pub new_store : Store
new_store = record {
  db = record { settings = []; secrets = []; server_rows = []; item_rows = [] };
  key_file = none;
  provider = unset;
  master = [];
}

abbrev tokens_of : String → Context
tokens_of account = record {
  server_id = "k1";
  account_id = account;
  cred_type = "tokens";
  schema_version = 1;
}

abbrev secret : Bytes
secret = 7 ∷ 8 ∷ []

pub key_there : is_empty (derive_key label (master_secret plain_world new_store).1 purpose) ≡ false
unfolding derive_key master_secret acquire_master_secret has_existing_local_secret saved_key
    long_enough acquire_local_secret new_local_secret write_local_secret get_setting put_setting
    lookup insert
key_there = refl

store-retrieve_example :
    let q = store label plain_world "k1/tokens" secret (tokens_of "u1") new_store in
    retrieve label plain_world "k1/tokens" (tokens_of "u2") q ≡ (
      q,
      if same (aad label (tokens_of "u2")) (aad label (tokens_of "u1"))
          then ok secret
          else undecryptable,
    )
store-retrieve_example =
    store-retrieve label label-IsAead plain_world plain_world "k1/tokens" secret twelve
      (length (aad label (tokens_of "u1")) ∷ (aad label (tokens_of "u1") ++ secret)) zeros
      (tokens_of "u1") (tokens_of "u2") new_store refl refl key_there refl refl

-- A keyring that answers with the secret of the device, and one that does not answer.
abbrev keyring_world : World
keyring_world = record plain_world { portal_reply = answered "t" (some key_bytes) }

abbrev pub in_keyring : Store
in_keyring = record {
  db = record {
    settings = ("secretProvider", "portal-v1") ∷ [];
    server_rows = [];
    item_rows = [];
    secrets = ("k1/tokens", secret) ∷ ("k2/tokens", secret) ∷ [];
  };
  key_file = none;
  provider = portal;
  master = key_bytes;
}

abbrev locked : Store
locked = record in_keyring { provider = unset; master = [] }

set_storage-Outcome_example :
    let r = set_storage keyring_world keyring_world device in_keyring in
    Outcome (before keyring_world keyring_world device in_keyring) device in_keyring r.0 r.1
set_storage-Outcome_example = set_storage-Outcome keyring_world keyring_world device in_keyring

is_moved : (set_storage keyring_world keyring_world device in_keyring).1 ≡ moved
unfolding set_storage move to_device master_secret write_device write_local_secret finish_move
    storage get_setting lookup
is_moved = refl

long_key : key_len ≤ length (before keyring_world keyring_world device in_keyring)
unfolding master_secret
long_key = omega arith

moved-restart_example :
    let r = set_storage keyring_world keyring_world device in_keyring in
    (master_secret plain_world (restart r.0)).1
    ≡ before keyring_world keyring_world device in_keyring
moved-restart_example =
    moved-restart keyring_world keyring_world plain_world in_keyring is_moved long_key refl

abbrev calls : List Call
calls =
    storing plain_world "k3/tokens" secret (tokens_of "u1")
    ∷ retrieving plain_world "k1/tokens" (tokens_of "u1")
    ∷ removing "k2/tokens"
    ∷ []

aad-injective_example :
    (codes "k1" ≡ codes "k1")
    × (codes "u1" ≡ codes "u1")
    × (codes "tokens" ≡ codes "tokens")
    × (label.number 1 ≡ label.number 1)
aad-injective_example =
    unfold is_plain in
    aad-injective label (tokens_of "u1") (tokens_of "u1") refl refl refl refl refl refl refl

-- A disk that cannot be written: the secret is sealed and kept under a key that no next start finds.
abbrev stuck_world : World
stuck_world = record plain_world { can_open = false }

key_is_lost :
    let q = store label stuck_world "k1/tokens" secret (tokens_of "u1") new_store in
    (q.key_file ≡ none) × (is_empty (get_secret "k1/tokens" q.db) ≡ false)
unfolding store master_secret acquire_master_secret has_existing_local_secret saved_key long_enough
    acquire_local_secret new_local_secret write_local_secret get_setting put_setting lookup insert
    encrypt derive_key pack put_secret get_secret aad
key_is_lost = (refl, refl)
