-- ===== src/Storage/SecureStore/Anchor.antt =====
-- src/storage/SecureStore.cpp: when a later start has the master secret that was in use, and then reads what
-- was stored under it.
pub mod Change
use shelf_remote.Storage.SecureStore.Seal.{Crypto, Context, retrieve, store, encrypt, aad}
use shelf_remote.Storage.SecureStore.Key.{
  put_marker-marker, master_secret-cached, write_local_secret-IsKeyWrite,
  acquire_portal_secret-IsSame, acquire_portal_secret-answer,
}
use shelf_remote.Storage.SecureStore.Restart.{
  restart, saved_key-file, acquire_local_secret-file, master_secret-local,
}
use shelf_remote.Storage.SecureStore.Switch.{
  SwitchResult, moved, reset, unchanged, failed, Place, device, keyring, storage, is_place,
  set_storage, move, to_device, to_keyring, write_device, finish_move, with_new_key,
}
use shelf_remote.Prelude.{
  refl, sym, ap, true, false, none, some, arith, [], Bool, String, Option, ◌≡◌, ◌⊎◌, inl, inr, ◌≤◌,
  length, if_elim, is_empty, not, ◌∙◌, same, str_eq, ltb, Bool-cases, eq_iff,
}
use shelf_remote.Storage.SecureStore.{
  Store, World, Bytes, key_len, marker, put_marker, portal_secret, master_secret, saved_key,
  long_enough, acquire_local_secret, acquire_portal_secret, acquire_master_secret, new_local_secret,
  write_local_secret, local, portal, choose_local, after_portal, has_existing_local_secret,
  no_secret, answered, on_portal_reply,
}
use shelf_remote.Storage.Database.{get_setting, remove_all_secrets, get_secret, put_secret}

-- The secret `m` is where the marker says, and the next start can have it: the key file holds it and can be
-- read, or the keyring hands it out.
abbrev pub IsHeld : World → Bytes → Store → Type 0
IsHeld next m q =
    ((marker q ≡ "local-v1")
      × (q.key_file ≡ some m)
      × (key_len ≤ length m)
      × (next.can_read ≡ true))
    ⊎ ((marker q ≡ "portal-v1") × (portal_secret next.portal_reply ≡ m))

-- So it is with the secret in use.
abbrev pub IsAnchored : World → Store → Type 0
IsAnchored next q = IsHeld next q.master q

master_secret-portal :
    (w : World) (q : Store)
    → q.master ≡ []
    → marker q ≡ "portal-v1"
    → (master_secret w q).1 ≡ (acquire_portal_secret w (record q { provider = portal })).1
unfolding master_secret acquire_master_secret
master_secret-portal w q hm hk = rw hm (rw hk refl)

-- The next start acquires the secret that was in use.
pub restart-master :
    (next : World) (q : Store)
    → is_empty q.master ≡ false
    → IsAnchored next q
    → (master_secret next (restart q)).1 ≡ q.master
restart-master next q full (inl (by_file, file, long, reads)) =
    let p = record (restart q) { provider = local } in
    master_secret-local next (restart q) refl by_file
    ∙ ap (λ (r : Store × Bytes). r.1)
        (acquire_local_secret-file next q.master p (saved_key-file next q.master p file long reads)
          full)
restart-master next q full (inr (by_keyring, same_secret)) =
    master_secret-portal next (restart q) refl by_keyring
    ∙ acquire_portal_secret-answer next (record (restart q) { provider = portal })
    ∙ same_secret

-- It reads what the program would have read without the restart.
pub retrieve-restart :
    (c : Crypto) (next : World) (key : String) (y : Context) (q : Store)
    → is_empty q.master ≡ false
    → IsAnchored next q
    → (retrieve c next key y (restart q)).1 ≡ (retrieve c next key y q).1
unfolding retrieve
retrieve-restart c next key y q full held = elim (Bool-cases (is_empty (get_secret key q.db))) [
  | inl e ↦ rw e refl
  | inr e ↦
      let kept = ap (λ (r : Store × Bytes). r.1) (master_secret-cached next q full) in
      rw (e, restart-master next q full held, kept) refl
]

-- A disk that can be read and written, random keys that are long enough, and a keyring that hands out in
-- `next` what it hands out in `w`.
pub record IsSteady (w next : World) : Type 0 where
  pub reads : w.can_read ≡ true
  pub opens : w.can_open ≡ true
  pub writes : w.can_write ≡ true
  pub long_key : (k : Bytes) → w.random_key ≡ some k → key_len ≤ length k
  pub reads_next : next.can_read ≡ true
  pub same_keyring : portal_secret next.portal_reply ≡ portal_secret w.portal_reply

-- Where a secret was had, it is held.
abbrev HeldIfHad : World → Store × Bytes → Type 0
HeldIfHad next r = is_empty r.1 ≡ false → IsHeld next r.1 r.0

long_enough-inverse :
    (f : Option Bytes)
    → is_empty (long_enough f) ≡ false
    → (f ≡ some (long_enough f)) × (key_len ≤ length (long_enough f))
unfolding long_enough
long_enough-inverse none h = absurd cc
long_enough-inverse (some k) h = elim (Bool-cases (ltb (length k) key_len)) [
  | inl e ↦ absurd (ground (arith, h, e))
  | inr e ↦ rw e (refl, ground arith)
]

new_local_secret-held :
    (w next : World) (s : Store) (k : Option Bytes)
    → IsSteady w next
    → w.random_key ≡ k
    → marker s ≡ "local-v1"
    → HeldIfHad next (new_local_secret w k s)
unfolding new_local_secret
new_local_secret-held w next s none d e by_file had = absurd cc
new_local_secret-held w next s (some k) d e by_file had = inl (
  ap (get_setting "secretProvider" "") (write_local_secret-IsKeyWrite w k s).db ∙ by_file,
  unfold write_local_secret in rw (d.opens, d.writes) refl,
  d.long_key k e,
  d.reads_next,
)

acquire_local_secret-held :
    (w next : World) (s : Store)
    → IsSteady w next
    → marker s ≡ "local-v1"
    → HeldIfHad next (acquire_local_secret w s)
unfolding acquire_local_secret
acquire_local_secret-held w next s d by_file =
    if_elim (HeldIfHad next) (is_empty (saved_key w s))
      (λ _. new_local_secret-held w next s w.random_key d refl by_file)
      λ some_key _.
        let read : saved_key w s ≡ long_enough s.key_file = unfold saved_key in rw d.reads refl in
        let (file, long) = long_enough-inverse s.key_file (ap is_empty (sym read) ∙ some_key) in
        inl (by_file, file ∙ ap some (sym read), rw read long, d.reads_next)

choose_local-held :
    (w next : World) (s : Store) → IsSteady w next → HeldIfHad next (choose_local w s)
choose_local-held w next s d =
    let p = record s { provider = local } in
    acquire_local_secret-held w next (put_marker "local-v1" p) d (put_marker-marker "local-v1" p)

portal-held :
    (w next : World) (s : Store)
    → IsSteady w next
    → marker s ≡ "portal-v1"
    → HeldIfHad next (acquire_portal_secret w s)
portal-held w next s d by_keyring had = inr (
  (acquire_portal_secret-IsSame w s).same_marker ∙ by_keyring,
  d.same_keyring ∙ sym (acquire_portal_secret-answer w s),
)

after_portal-held :
    (w next : World) (s : Store)
    → IsSteady w next
    → HeldIfHad next (after_portal w (acquire_portal_secret w s))
unfolding after_portal
after_portal-held w next s d =
    let q = (acquire_portal_secret w s).0 in
    if_elim (HeldIfHad next) (is_empty (acquire_portal_secret w s).1)
      (λ _. choose_local-held w next q d)
      λ _ _. inr (
        put_marker-marker "portal-v1" (record q { provider = portal }),
        d.same_keyring ∙ sym (acquire_portal_secret-answer w s),
      )

acquire_master_secret-held :
    (w next : World) (s : Store) → IsSteady w next → HeldIfHad next (acquire_master_secret w s)
unfolding acquire_master_secret
acquire_master_secret-held w next s d =
    let here = choose_local-held w next s d in
    if_elim (HeldIfHad next) (str_eq (marker s) "portal-v1")
      (λ e. portal-held w next (record s { provider = portal }) d ((eq_iff _ _).0 e))
      λ _.
        if_elim (HeldIfHad next) (str_eq (marker s) "local-v1")
          (λ e.
            acquire_local_secret-held w next (record s { provider = local }) d ((eq_iff _ _).0 e))
          λ _.
            if_elim (HeldIfHad next) (has_existing_local_secret w s) (λ _. here)
              λ _. if_elim (HeldIfHad next) w.flatpak (λ _. after_portal-held w next s d) λ _. here

-- In steady surroundings the master secret that is handed out is one that the next start can have, if the
-- one that was in use before, if any, is.
pub master_secret-IsAnchored :
    (w next : World) (s : Store)
    → IsSteady w next
    → (is_empty s.master ≡ false → IsAnchored next s)
    → is_empty (master_secret w s).1 ≡ false
    → IsAnchored next (master_secret w s).0
unfolding master_secret
master_secret-IsAnchored w next s d before =
    if_elim {A = Store × Bytes} (λ r. is_empty r.1 ≡ false → IsAnchored next r.0)
      (is_empty s.master) (λ _. acquire_master_secret-held w next s d) λ e _. before e

-- To store a secret leaves the master secret where it is.
pub store-IsAnchored :
    (c : Crypto) (w next : World) (key : String) (pt : Bytes) (x : Context) (s : Store)
    → IsAnchored next (master_secret w s).0
    → let q = store c w key pt x s in IsAnchored next q × (q.master ≡ (master_secret w s).0.master)
unfolding store
store-IsAnchored c w next key pt x s h =
    let q = (master_secret w s).0 in
    let m = (master_secret w s).1 in
    let P = λ (r : Store). IsAnchored next r × (r.master ≡ q.master) in
    if_elim P (is_empty m) (λ _. (h, refl))
      λ _.
        if_elim P (is_empty (encrypt c w.random_nonce m pt (aad c x))) (λ _. (h, refl))
          λ _. unfold put_secret get_setting in (h, refl)
