-- ===== src/Storage/SecureStore/Restart.antt =====
-- src/storage/SecureStore.cpp: the master secret that was moved to the device is there at the next start.
use shelf_remote.Storage.SecureStore.Key.{put_marker-marker}
use shelf_remote.Storage.SecureStore.Outcome.{before}
use shelf_remote.Storage.SecureStore.Switch.{
  to_device, write_device, set_storage, finish_move, SwitchResult, move, device, moved, is_place,
  with_new_key, storage,
}
use shelf_remote.Prelude.{
  refl, true, false, none, some, arith, [], Bool, ◌≡◌, if_elim, ◌≢◌, not, is_empty, ◌≤◌, length, ap,
  ltb, ◌∙◌,
}
use shelf_remote.Storage.SecureStore.{
  Store, write_local_secret, World, unset, master_secret, Bytes, acquire_master_secret,
  acquire_local_secret, local, marker, put_marker, saved_key, key_len, long_enough,
}

-- The file holds the secret and is the provider.
record IsFiled (secret : Bytes) (q : Store) : Type 0 where
  file : q.key_file ≡ some secret
  by_file : marker q ≡ "local-v1"

abbrev FiledIfMoved : Bytes → Store × SwitchResult → Type 0
FiledIfMoved secret r = r.1 ≡ moved → IsFiled secret r.0

finish_move-filed :
    (secret : Bytes) (carried : Bool) (q : Store)
    → IsFiled secret q
    → FiledIfMoved secret (finish_move carried q)
unfolding finish_move
finish_move-filed secret true q f e = f
finish_move-filed secret false q f e = absurd (ground arith)

write_local_secret-filed :
    (w : World) (secret : Bytes) (s : Store)
    → not (write_local_secret w secret s).1 ≡ false
    → (write_local_secret w secret s).0.key_file ≡ some secret
unfolding write_local_secret
write_local_secret-filed w secret s = ground arith

write_device-filed :
    (w : World) (secret : Bytes) (carried : Bool) (q : Store)
    → FiledIfMoved secret (write_device w secret carried q)
unfolding write_device
write_device-filed w secret carried q =
    let r = (write_local_secret w secret q).0 in
    let end = record r { provider = local; master = secret } in
    if_elim (FiledIfMoved secret) (not (write_local_secret w secret q).1)
      (λ _ e. absurd (ground arith))
      λ h. finish_move-filed secret carried (put_marker "local-v1" end) (record {
        file = write_local_secret-filed w secret q h;
        by_file = put_marker-marker "local-v1" end;
      })

not_moved : (w : World) (k : Bytes) (q : Store) → (write_device w k false q).1 ≢ moved
unfolding write_device finish_move
not_moved w k q = ground arith

to_device-filed : (w : World) (s : Store) → FiledIfMoved (master_secret w s).1 (to_device w s)
unfolding to_device
to_device-filed w s =
    let q = (master_secret w s).0 in
    let m = (master_secret w s).1 in
    if_elim (FiledIfMoved m) (is_empty m)
      (λ _. elim w.random_key as (λ k. FiledIfMoved m (with_new_key w k q)) [
        | none ↦ unfold with_new_key in λ e. absurd (ground arith)
        | some k ↦ unfold with_new_key in λ e. absurd (not_moved w k q e)
      ])
      λ _. write_device-filed w m true q

set_storage-filed :
    (w later : World) (s : Store)
    → FiledIfMoved (master_secret w s).1 (set_storage w later device s)
unfolding set_storage move
set_storage-filed w later s =
    if_elim (FiledIfMoved (master_secret w s).1) (is_place device (storage s))
      (λ _ e. absurd (ground arith)) λ _. to_device-filed w s

-- The program starts anew: nothing is cached.
abbrev pub restart : Store → Store
restart s = record s { provider = unset; master = [] }

pub saved_key-file :
    (w : World) (secret : Bytes) (q : Store)
    → q.key_file ≡ some secret
    → key_len ≤ length secret
    → w.can_read ≡ true
    → saved_key w q ≡ secret
unfolding saved_key
saved_key-file w secret q hf hl hr =
    let long : ltb (length secret) 32 ≡ false = ground arith in
    rw (hr, hf) (unfold long_enough in rw long)

pub acquire_local_secret-file :
    (w : World) (secret : Bytes) (q : Store)
    → saved_key w q ≡ secret
    → is_empty secret ≡ false
    → acquire_local_secret w q ≡ (q, secret)
unfolding acquire_local_secret
acquire_local_secret-file w secret q hs he = rw (hs, he)

pub master_secret-local :
    (w : World) (q : Store)
    → q.master ≡ []
    → marker q ≡ "local-v1"
    → (master_secret w q).1 ≡ (acquire_local_secret w (record q { provider = local })).1
unfolding master_secret acquire_master_secret
master_secret-local w q hm hk = rw hm (rw hk)

filed-read :
    (w : World) (secret : Bytes) (q : Store)
    → IsFiled secret q
    → q.master ≡ []
    → key_len ≤ length secret
    → w.can_read ≡ true
    → (master_secret w q).1 ≡ secret
filed-read w secret q f hm hl hr =
    let p = record q { provider = local } in
    let some_bytes : is_empty secret ≡ false = ground (arith, hl) in
    master_secret-local w q hm f.by_file
    ∙ ap (λ (r : Store × Bytes). r.1)
        (acquire_local_secret-file w secret p (saved_key-file w secret p f.file hl hr) some_bytes)

-- A master secret that was moved to the device and is as long as a key is the one that the next start
-- reads from the file, when it can.
pub moved-restart :
    (w later next : World) (s : Store)
    → let r = set_storage w later device s in
      let m = before w later device s in
      r.1 ≡ moved
      → key_len ≤ length m
      → next.can_read ≡ true
      → (master_secret next (restart r.0)).1 ≡ m
moved-restart w later next s h hl hr =
    let q = (set_storage w later device s).0 in
    let f = set_storage-filed w later s h in
    filed-read next (master_secret w s).1 (restart q)
      (record { file = f.file; by_file = f.by_file }) refl hl hr
