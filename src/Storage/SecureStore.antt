-- ===== src/Storage/SecureStore.antt =====
-- src/storage/SecureStore.h and .cpp: the secrets, sealed under a key that comes from the portal or from
-- a file. OpenSSL is the parameter `Crypto`. What the world answers to an operation is its argument: the
-- portal, the random bytes, and whether the key file can be read and written. Paths and the D-Bus calls
-- that lead to the portal's answer are not modelled.
pub mod Key
pub mod Seal
pub mod RoundTrip
mod Aad
pub mod Switch
mod Outcome
pub mod Restart
pub mod Anchor
mod Sticky
pub mod Examples
use shelf_remote.Prelude.{
  ℕ, true, false, none, some, [], String, if◌then◌else◌, Option, Bool, str_eq, ltb, not, is_blank,
  is_empty, length,
}
use shelf_remote.Storage.Database.{Bytes, Db, put_setting, get_setting}

pub data Provider : Type 0 where
  unset portal local : Provider

pub record Store : Type 0 where
  pub db : Db
  pub key_file : Option Bytes
  pub provider : Provider
  pub master : Bytes

-- The portal's answer to a request: none or a refusal, else the continuation token, blank if there is
-- none, and what can be read of the pipe.
pub data PortalReply : Type 0 where
  no_secret : PortalReply
  answered : String → Option Bytes → PortalReply

pub record World : Type 0 where
  pub flatpak : Bool
  pub portal_reply : PortalReply
  pub random_key : Option Bytes
  pub random_nonce : Option Bytes
  pub can_read : Bool
  pub can_open : Bool
  pub can_write : Bool

abbrev pub key_len : ℕ
key_len = 32

abbrev pub marker : Store → String
marker s = get_setting "secretProvider" "" s.db

abbrev pub put_marker : String → Store → Store
put_marker m s = record s { db = put_setting "secretProvider" m s.db }

-- The secret counts when it has the length of a key.
unfoldable pub long_enough : Option Bytes → Bytes
long_enough none = []
long_enough (some secret) = if ltb (length secret) key_len then [] else secret

unfoldable pub portal_secret : PortalReply → Bytes
portal_secret no_secret = []
portal_secret (answered token secret) = long_enough secret

unfoldable pub on_portal_reply : PortalReply → Store → Store × Bytes
on_portal_reply no_secret s = (s, [])
on_portal_reply (answered token secret) s = (
  if is_blank token then s else record s { db = put_setting "secretPortalToken" token s.db },
  portal_secret (answered token secret),
)

unfoldable pub acquire_portal_secret : World → Store → Store × Bytes
acquire_portal_secret w s = on_portal_reply w.portal_reply s

-- A file that was opened and not written is removed.
unfoldable pub write_local_secret : World → Bytes → Store → Store × Bool
write_local_secret w secret s =
    if not w.can_open
    then (s, false)
    else if w.can_write
    then (record s { key_file = some secret }, true)
    else (record s { key_file = none }, false)

unfoldable pub new_local_secret : World → Option Bytes → Store → Store × Bytes
new_local_secret w none s = (s, [])
new_local_secret w (some secret) s = ((write_local_secret w secret s).0, secret)

-- What the key file holds, if it can be read and is long enough; else empty.
unfoldable pub saved_key : World → Store → Bytes
saved_key w s = if w.can_read then long_enough s.key_file else []

unfoldable pub acquire_local_secret : World → Store → Store × Bytes
acquire_local_secret w s =
    let k = saved_key w s in if is_empty k then new_local_secret w w.random_key s else (s, k)

unfoldable pub has_existing_local_secret : World → Store → Bool
has_existing_local_secret w s = not (is_empty (saved_key w s))

abbrev pub choose_local : World → Store → Store × Bytes
choose_local w s = acquire_local_secret w (put_marker "local-v1" (record s { provider = local }))

-- After the portal was asked for the first time.
unfoldable pub after_portal : World → Store × Bytes → Store × Bytes
after_portal w (s, secret) =
    if is_empty secret
    then choose_local w s
    else (put_marker "portal-v1" (record s { provider = portal }), secret)

unfoldable pub acquire_master_secret : World → Store → Store × Bytes
acquire_master_secret w s =
    if str_eq (marker s) "portal-v1"
    then acquire_portal_secret w (record s { provider = portal })
    else if str_eq (marker s) "local-v1"
    then acquire_local_secret w (record s { provider = local })
    else if has_existing_local_secret w s
    then choose_local w s
    else if w.flatpak
    then after_portal w (acquire_portal_secret w s)
    else choose_local w s

-- What is acquired is kept.
abbrev pub keep : Store × Bytes → Store × Bytes
keep (s, secret) = (record s { master = secret }, secret)

unfoldable pub master_secret : World → Store → Store × Bytes
master_secret w s = if is_empty s.master then keep (acquire_master_secret w s) else (s, s.master)
