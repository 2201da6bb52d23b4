-- ===== src/Storage/SecureStore/Switch.antt =====
-- src/storage/SecureStore.cpp: the move of the master secret between the keyring and the device. A file
-- can always be removed. `later` is the world when the earlier secret is asked for, after the portal.
use shelf_remote.Storage.Database.{remove_all_secrets}
use shelf_remote.Storage.SecureStore.{
  World, Store, marker, Bytes, acquire_portal_secret, master_secret, write_local_secret, put_marker,
  local, portal,
}
use shelf_remote.Prelude.{
  same, true, false, none, some, Bool, String, if◌then◌else◌, Option, is_empty, str_eq, not,
}

pub data Place : Type 0 where
  keyring device : Place

pub data SwitchResult : Type 0 where
  unchanged moved reset failed : SwitchResult

abbrev pub place_of : String → Place
place_of m = if str_eq m "portal-v1" then keyring else device

unfoldable pub storage : Store → Place
storage s = place_of (marker s)

abbrev pub is_place : Place → Place → Bool
is_place keyring keyring = true
is_place device device = true
is_place keyring device = false
is_place device keyring = false

unfoldable pub finish_move : Bool → Store → Store × SwitchResult
finish_move carried s =
    if carried then (s, moved) else (record s { db = remove_all_secrets s.db }, reset)

-- With the secret to be written, and whether it is the one that was used so far.
unfoldable pub write_device : World → Bytes → Bool → Store → Store × SwitchResult
write_device w secret carried s =
    let (q, written) = write_local_secret w secret s in
    if not written
    then (q, failed)
    else finish_move carried
        (put_marker "local-v1" (record q { provider = local; master = secret }))

unfoldable pub with_new_key : World → Option Bytes → Store → Store × SwitchResult
with_new_key w none s = (s, failed)
with_new_key w (some secret) s = write_device w secret false s

unfoldable pub to_device : World → Store → Store × SwitchResult
to_device w s =
    let (q, secret) = master_secret w s in
    if is_empty secret then with_new_key w w.random_key q else write_device w secret true q

unfoldable pub to_keyring : World → World → Store → Store × SwitchResult
to_keyring w later s =
    let (q, secret) = acquire_portal_secret w s in
    if is_empty secret
    then (q, failed)
    else let (r, previous) = master_secret later q in
      finish_move (same previous secret)
        (put_marker "portal-v1" (record r { provider = portal; master = secret; key_file = none }))

unfoldable pub move : World → World → Place → Store → Store × SwitchResult
move w later device s = to_device w s
move w later keyring s = to_keyring w later s

unfoldable pub set_storage : World → World → Place → Store → Store × SwitchResult
set_storage w later target s =
    if is_place target (storage s) then (s, unchanged) else move w later target s
