-- ===== src/Storage/SecureStore/Outcome.antt =====
-- src/storage/SecureStore.cpp: what each result of a move of the master secret says.
use shelf_remote.Storage.SecureStore.Key.{
  is_chosen, master_secret-same, put_marker-marker, acquire_portal_secret-IsSame,
  write_local_secret-IsKeyWrite, master_secret-sticky,
}
use shelf_remote.Prelude.{
  refl, sym, ap, true, false, none, some, [], String, Bool, ◌≡◌, if_elim, is_empty, not, same, ◌∙◌,
  same-eq, arith, str_eq,
}
use shelf_remote.Storage.SecureStore.{
  Store, World, put_marker, master_secret, marker, acquire_portal_secret, write_local_secret,
  portal, local,
}
use shelf_remote.Storage.Database.{remove_all_secrets, put_setting, Bytes, Db, get_setting}
use shelf_remote.Storage.SecureStore.Switch.{
  storage, finish_move, write_device, set_storage, to_device, to_keyring, Place, is_place, device,
  SwitchResult, place_of, move, keyring, unchanged, with_new_key, failed, moved, reset,
}

-- `m` is the master secret before the move.
pub Outcome : Bytes → Place → Store → Store → SwitchResult → Type 0
Outcome m target s q unchanged = q ≡ s
Outcome m target s q failed = (q.db.secrets ≡ s.db.secrets) × (marker q ≡ marker s)
Outcome m target s q moved =
    (q.db.secrets ≡ s.db.secrets) × (storage q ≡ target) × (q.master ≡ m) × (is_empty m ≡ false)
Outcome m target s q reset = (q.db.secrets ≡ []) × (storage q ≡ target)

abbrev IsOutcome : Bytes → Place → Store → Store × SwitchResult → Type 0
IsOutcome m target s r = Outcome m target s r.0 r.1

finish_move-IsOutcome :
    (m : Bytes) (target : Place) (s q : Store) (carried : Bool)
    → q.db.secrets ≡ s.db.secrets
    → storage q ≡ target
    → (carried ≡ true → (q.master ≡ m) × (is_empty m ≡ false))
    → IsOutcome m target s (finish_move carried q)
unfolding Outcome finish_move get_setting
finish_move-IsOutcome m target s q true hs hp hm = (hs, hp, (hm refl).0, (hm refl).1)
finish_move-IsOutcome m target s q false hs hp hm =
    (unfold remove_all_secrets in refl, unfold storage remove_all_secrets in hp)

storage-put_marker : (name : String) (s : Store) → storage (put_marker name s) ≡ place_of name
unfolding storage
storage-put_marker name s = ap place_of (put_marker-marker name s)

write_device-IsOutcome :
    (w : World) (m secret : Bytes) (carried : Bool) (s q : Store)
    → q.db.secrets ≡ s.db.secrets
    → marker q ≡ marker s
    → (carried ≡ true → (secret ≡ m) × (is_empty m ≡ false))
    → IsOutcome m device s (write_device w secret carried q)
unfolding write_device
write_device-IsOutcome w m secret carried s q hs hk hm =
    let written = write_local_secret-IsKeyWrite w secret q in
    let r = (write_local_secret w secret q).0 in
    if_elim (IsOutcome m device s) (not (write_local_secret w secret q).1)
      (λ _.
        unfold Outcome in
        (
          ap (λ (d : Db). d.secrets) written.db ∙ hs,
          ap (get_setting "secretProvider" "") written.db ∙ hk,
        ))
      λ _.
        finish_move-IsOutcome m device s
          (put_marker "local-v1" (record r { provider = local; master = secret })) carried
          (unfold put_setting in (ap (λ (d : Db). d.secrets) written.db ∙ hs))
          (storage-put_marker "local-v1" (record r { provider = local; master = secret })) hm

to_device-IsOutcome :
    (w : World) (s : Store)
    → is_chosen (marker s) ≡ true
    → IsOutcome (master_secret w s).1 device s (to_device w s)
unfolding to_device
to_device-IsOutcome w s h =
    let q = (master_secret w s).0 in
    let m = (master_secret w s).1 in
    let hs = master_secret-same w s in
    let hk = master_secret-sticky w s h in
    if_elim (IsOutcome m device s) (is_empty m)
      (λ _. elim w.random_key as (λ k. IsOutcome m device s (with_new_key w k q)) [
        | none ↦ unfold with_new_key Outcome in (hs, hk)
        | some k ↦
            unfold with_new_key in write_device-IsOutcome w m k false s q hs hk (λ e. absurd cc)
      ])
      λ ne. write_device-IsOutcome w m m true s q hs hk (λ _. (refl, ne))

to_keyring-IsOutcome :
    (w later : World) (s : Store)
    → IsOutcome
        (master_secret later (acquire_portal_secret w s).0).1
        keyring
        s
        (to_keyring w later s)
unfolding to_keyring
to_keyring-IsOutcome w later s =
    let q = (acquire_portal_secret w s).0 in
    let secret = (acquire_portal_secret w s).1 in
    let r = (master_secret later q).0 in
    let m = (master_secret later q).1 in
    let asked = acquire_portal_secret-IsSame w s in
    let end = record r { provider = portal; master = secret; key_file = none } in
    if_elim (IsOutcome m keyring s) (is_empty secret)
      (λ _. unfold Outcome in (asked.secrets, asked.same_marker))
      λ ne.
        finish_move-IsOutcome m keyring s (put_marker "portal-v1" end) (same m secret)
          (unfold put_setting in (master_secret-same later q ∙ asked.secrets))
          (storage-put_marker "portal-v1" end)
          (λ e. let h = same-eq m secret e in (sym h, ap is_empty h ∙ ne))

-- The master secret before a move, as the move asks for it.
abbrev pub before : World → World → Place → Store → Bytes
before w later device s = (master_secret w s).1
before w later keyring s = (master_secret later (acquire_portal_secret w s).0).1

other_place : (m : String) → is_place device (place_of m) ≡ false → is_chosen m ≡ true
other_place m h =
    if_elim (λ (p : Place). is_place device p ≡ false → is_chosen m ≡ true) (str_eq m "portal-v1")
      (λ e k. ground (arith, e)) (λ e k. absurd cc) h

-- What each result of `setStorage` says. Unchanged: nothing has happened. Failed: the secrets and the
-- chosen provider are as before. Moved: the secrets are as before, they are kept at the place asked for,
-- and the master secret is still the one before, not empty. Reset: no secret is left, and the place is
-- the one asked for.
pub set_storage-Outcome :
    (w later : World) (target : Place) (s : Store)
    → let r = set_storage w later target s in Outcome (before w later target s) target s r.0 r.1
unfolding set_storage
set_storage-Outcome w later keyring s =
    if_elim (IsOutcome (before w later keyring s) keyring s) (is_place keyring (storage s))
      (λ _. unfold Outcome in refl) λ _. unfold move in to_keyring-IsOutcome w later s
set_storage-Outcome w later device s =
    if_elim (IsOutcome (before w later device s) device s) (is_place device (storage s))
      (λ _. unfold Outcome in refl)
      λ h. unfold move in to_device-IsOutcome w s (other_place (marker s) (unfold storage in h))
