-- ===== src/Storage/SecureStore/Anchor/Change.antt =====
-- src/storage/SecureStore.cpp: a change of the place of the master secret leaves it where a later start has
-- it.
use shelf_remote.Storage.SecureStore.Key.{put_marker-marker, acquire_portal_secret-answer}
use shelf_remote.Storage.SecureStore.Switch.{
  SwitchResult, moved, reset, unchanged, failed, Place, device, keyring, storage, is_place,
  set_storage, move, to_device, to_keyring, write_device, finish_move, with_new_key,
}
use shelf_remote.Prelude.{
  sym, true, false, none, some, arith, Bool, ◌≡◌, inl, inr, ◌≤◌, length, if_elim, is_empty, not,
  ◌∙◌, same,
}
use shelf_remote.Storage.SecureStore.{
  Store, World, Bytes, key_len, put_marker, portal_secret, master_secret, acquire_portal_secret,
  write_local_secret, local, portal,
}
use shelf_remote.Storage.Database.{get_setting, remove_all_secrets}
use shelf_remote.Storage.SecureStore.Anchor.{IsAnchored}

-- The place was changed.
abbrev pub is_done : SwitchResult → Bool
is_done moved = true
is_done reset = true
is_done unchanged = false
is_done failed = false

-- The next start can have the secret from the place that was chosen: it can read the key file, and the key
-- in use is long enough; or the keyring hands out what it handed out at the change.
abbrev pub IsReachable : Place → World → World → Store → Type 0
IsReachable device w next q = (next.can_read ≡ true) × (key_len ≤ length q.master)
IsReachable keyring w next q = portal_secret next.portal_reply ≡ portal_secret w.portal_reply

-- A secret is in use, and the next start can have it.
abbrev pub IsReady : World → Store → Type 0
IsReady next q = IsAnchored next q × (is_empty q.master ≡ false)

abbrev AnchoredIfDone : Place → World → World → Store × SwitchResult → Type 0
AnchoredIfDone target w next r =
    is_done r.1 ≡ true → IsReachable target w next r.0 → IsReady next r.0

finish_move-anchored :
    (target : Place) (w next : World) (carried : Bool) (q : Store)
    → (IsReachable target w next q → IsReady next q)
    → AnchoredIfDone target w next (finish_move carried q)
unfolding finish_move
finish_move-anchored device w next true q f e r = f r
finish_move-anchored keyring w next true q f e r = f r
finish_move-anchored device w next false q f e r = unfold remove_all_secrets get_setting in f r
finish_move-anchored keyring w next false q f e r = unfold remove_all_secrets get_setting in f r

write_local_secret-written :
    (w : World) (secret : Bytes) (s : Store)
    → not (write_local_secret w secret s).1 ≡ false
    → (write_local_secret w secret s).0.key_file ≡ some secret
unfolding write_local_secret
write_local_secret-written w secret s = ground arith

write_device-anchored :
    (w next : World) (secret : Bytes) (carried : Bool) (q : Store)
    → AnchoredIfDone device w next (write_device w secret carried q)
unfolding write_device
write_device-anchored w next secret carried q =
    let r = (write_local_secret w secret q).0 in
    let end = record r { provider = local; master = secret } in
    if_elim (AnchoredIfDone device w next) (not (write_local_secret w secret q).1)
      (λ _ e. absurd cc)
      λ h. finish_move-anchored device w next carried (put_marker "local-v1" end) λ (reads, long). (
        inl (
          put_marker-marker "local-v1" end,
          write_local_secret-written w secret q h,
          long,
          reads,
        ),
        ground (arith, long),
      )

to_device-anchored : (w next : World) (s : Store) → AnchoredIfDone device w next (to_device w s)
unfolding to_device
to_device-anchored w next s =
    let q = (master_secret w s).0 in
    let m = (master_secret w s).1 in
    if_elim (AnchoredIfDone device w next) (is_empty m)
      (λ _. elim w.random_key as (λ k. AnchoredIfDone device w next (with_new_key w k q)) [
        | none ↦ unfold with_new_key in λ e. absurd cc
        | some k ↦ unfold with_new_key in write_device-anchored w next k false q
      ])
      λ _. write_device-anchored w next m true q

to_keyring-anchored :
    (w later next : World) (s : Store) → AnchoredIfDone keyring w next (to_keyring w later s)
unfolding to_keyring
to_keyring-anchored w later next s =
    let q = (acquire_portal_secret w s).0 in
    let secret = (acquire_portal_secret w s).1 in
    let r = (master_secret later q).0 in
    let end = record r { provider = portal; master = secret; key_file = none } in
    if_elim (AnchoredIfDone keyring w next) (is_empty secret) (λ _ e. absurd cc)
      λ had.
        finish_move-anchored keyring w next (same (master_secret later q).1 secret)
          (put_marker "portal-v1" end)
          λ again. (
            inr (put_marker-marker "portal-v1" end, again ∙ sym (acquire_portal_secret-answer w s)),
            had,
          )

-- After a change of the place the next start has the secret in use from there, if it can be had there.
pub set_storage-IsReady :
    (w later next : World) (target : Place) (s : Store)
    → let r = set_storage w later target s in
      is_done r.1 ≡ true → IsReachable target w next r.0 → IsReady next r.0
unfolding set_storage
set_storage-IsReady w later next device s =
    if_elim (AnchoredIfDone device w next) (is_place device (storage s)) (λ _ e. absurd cc)
      λ _. unfold move in to_device-anchored w next s
set_storage-IsReady w later next keyring s =
    if_elim (AnchoredIfDone keyring w next) (is_place keyring (storage s)) (λ _ e. absurd cc)
      λ _. unfold move in to_keyring-anchored w later next s
