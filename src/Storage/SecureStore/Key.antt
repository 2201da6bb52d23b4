-- ===== src/Storage/SecureStore/Key.antt =====
-- src/storage/SecureStore.cpp: what acquiring the master secret leaves alone.
use shelf_remote.Storage.SecureStore.{
  Store, acquire_portal_secret, acquire_local_secret, write_local_secret, new_local_secret, World,
  marker, choose_local, on_portal_reply, put_marker, saved_key, after_portal, local,
  acquire_master_secret, portal, has_existing_local_secret, master_secret, portal_secret,
}
use shelf_remote.Prelude.{
  refl, true, none, some, arith, String, Option, ◌≡◌, Bool, if_elim, is_empty, str_eq, ◌||◌, ap,
  is_blank, ◌∙◌, false,
}
use shelf_remote.Storage.SecureStore.{no_secret, answered}
use shelf_remote.Storage.Database.{put_setting, get_setting, Bytes, get-put_setting, Db}

abbrev pub is_chosen : String → Bool
is_chosen m = str_eq m "portal-v1" || str_eq m "local-v1"

-- The secrets stay, and the cached master secret, the key file and the marker.
pub record IsSame (s q : Store) : Type 0 where
  pub secrets : q.db.secrets ≡ s.db.secrets
  pub master : q.master ≡ s.master
  pub key_file : q.key_file ≡ s.key_file
  pub same_marker : marker q ≡ marker s

token-marker :
    (token : String) (s : Store)
    → marker (record s { db = put_setting "secretPortalToken" token s.db }) ≡ marker s
token-marker token s = get-put_setting "secretPortalToken" "secretProvider" token "" s.db

pub put_marker-marker : (m : String) (s : Store) → marker (put_marker m s) ≡ m
put_marker-marker m s = get-put_setting "secretProvider" "secretProvider" m "" s.db

pub acquire_portal_secret-IsSame : (w : World) (s : Store) → IsSame s (acquire_portal_secret w s).0
unfolding acquire_portal_secret
acquire_portal_secret-IsSame w s = elim w.portal_reply as (λ r. IsSame s (on_portal_reply r s).0) [
  | no_secret ↦
      unfold on_portal_reply in
      record { secrets = refl; master = refl; key_file = refl; same_marker = refl }
  | answered token secret ↦
      unfold on_portal_reply in
      if_elim (IsSame s) (is_blank token)
        (λ _. record { secrets = refl; master = refl; key_file = refl; same_marker = refl })
        λ _. record {
          secrets = unfold put_setting in refl;
          master = refl;
          key_file = refl;
          same_marker = token-marker token s;
        }
]

pub acquire_portal_secret-answer :
    (w : World) (s : Store) → (acquire_portal_secret w s).1 ≡ portal_secret w.portal_reply
unfolding acquire_portal_secret
acquire_portal_secret-answer w s =
    elim w.portal_reply as (λ r. (on_portal_reply r s).1 ≡ portal_secret r) [
      | no_secret ↦ unfold on_portal_reply portal_secret in refl
      | answered token secret ↦ unfold on_portal_reply in refl
    ]

-- The file alone is written.
pub record IsKeyWrite (s q : Store) : Type 0 where
  pub db : q.db ≡ s.db
  pub master : q.master ≡ s.master
  pub provider : q.provider ≡ s.provider

pub write_local_secret-IsKeyWrite :
    (w : World) (secret : Bytes) (s : Store) → IsKeyWrite s (write_local_secret w secret s).0
unfolding write_local_secret
write_local_secret-IsKeyWrite w secret s = record {
  db = ground arith;
  master = ground arith;
  provider = ground arith;
}

new_local_secret-IsKeyWrite :
    (w : World) (k : Option Bytes) (s : Store) → IsKeyWrite s (new_local_secret w k s).0
unfolding new_local_secret
new_local_secret-IsKeyWrite w none s = record { db = refl; master = refl; provider = refl }
new_local_secret-IsKeyWrite w (some secret) s = write_local_secret-IsKeyWrite w secret s

pub acquire_local_secret-IsKeyWrite :
    (w : World) (s : Store) → IsKeyWrite s (acquire_local_secret w s).0
unfolding acquire_local_secret
acquire_local_secret-IsKeyWrite w s =
    if_elim (λ (r : Store × Bytes). IsKeyWrite s r.0) (is_empty (saved_key w s))
      (λ _. new_local_secret-IsKeyWrite w w.random_key s)
      λ _. record { db = refl; master = refl; provider = refl }

abbrev SameSecrets : Store → Store × Bytes → Type 0
SameSecrets s r = (r.0.db.secrets ≡ s.db.secrets) × (r.0.master ≡ s.master)

choose_local-same : (w : World) (s : Store) → SameSecrets s (choose_local w s)
unfolding put_setting
choose_local-same w s =
    let h =
      acquire_local_secret-IsKeyWrite w (put_marker "local-v1" (record s { provider = local })) in
    (ap (λ (d : Db). d.secrets) h.db, h.master)

choose_local-marker : (w : World) (s : Store) → marker (choose_local w s).0 ≡ "local-v1"
choose_local-marker w s =
    let q = put_marker "local-v1" (record s { provider = local }) in
    ap (get_setting "secretProvider" "") (acquire_local_secret-IsKeyWrite w q).db
    ∙ put_marker-marker "local-v1" s

after_portal-same : (w : World) (r : Store × Bytes) → SameSecrets r.0 (after_portal w r)
unfolding after_portal
after_portal-same w r =
    if_elim (SameSecrets r.0) (is_empty r.1) (λ _. choose_local-same w r.0)
      λ _. (unfold put_setting in refl, refl)

-- The portal's marker, or the file's when the portal did not answer.
after_portal-marker :
    (w : World) (r : Store × Bytes) → is_chosen (marker (after_portal w r).0) ≡ true
unfolding after_portal
after_portal-marker w r =
    if_elim (λ (q : Store × Bytes). is_chosen (marker q.0) ≡ true) (is_empty r.1)
      (λ _. ap is_chosen (choose_local-marker w r.0))
      λ _. ap is_chosen (put_marker-marker "portal-v1" r.0)

-- To acquire the master secret leaves the secrets as they are.
pub acquire_master_secret-same : (w : World) (s : Store) → SameSecrets s (acquire_master_secret w s)
unfolding acquire_master_secret
acquire_master_secret-same w s =
    let h = acquire_portal_secret-IsSame w s in
    let k = after_portal-same w (acquire_portal_secret w s) in
    if_elim (SameSecrets s) (str_eq (marker s) "portal-v1")
      (λ _.
        let p = acquire_portal_secret-IsSame w (record s { provider = portal }) in
        (p.secrets, p.master))
      λ _.
        if_elim (SameSecrets s) (str_eq (marker s) "local-v1")
          (λ _.
            let f = acquire_local_secret-IsKeyWrite w (record s { provider = local }) in
            (ap (λ (d : Db). d.secrets) f.db, f.master))
          λ _.
            if_elim (SameSecrets s) (has_existing_local_secret w s) (λ _. choose_local-same w s)
              λ _.
                if_elim (SameSecrets s) w.flatpak (λ _. (k.0 ∙ h.secrets, k.1 ∙ h.master))
                  λ _. choose_local-same w s

-- A provider that was chosen stays; else one is chosen.
abbrev pub IsSticky : Store → Store × Bytes → Type 0
IsSticky s r =
    (is_chosen (marker r.0) ≡ true) × (is_chosen (marker s) ≡ true → marker r.0 ≡ marker s)

stays :
    (s : Store) (r : Store × Bytes)
    → is_chosen (marker s) ≡ true
    → marker r.0 ≡ marker s
    → IsSticky s r
stays s r h e = (ap is_chosen e ∙ h, λ _. e)

chosen_now :
    (s : Store) (r : Store × Bytes)
    → str_eq (marker s) "portal-v1" ≡ false
    → str_eq (marker s) "local-v1" ≡ false
    → is_chosen (marker r.0) ≡ true
    → IsSticky s r
chosen_now s r h k e = (e, λ c. absurd (ground (arith, h, k, c)))

pub acquire_master_secret-IsSticky :
    (w : World) (s : Store) → IsSticky s (acquire_master_secret w s)
unfolding acquire_master_secret
acquire_master_secret-IsSticky w s =
    if_elim (IsSticky s) (str_eq (marker s) "portal-v1")
      (λ h.
        stays s (acquire_portal_secret w (record s { provider = portal })) (ground (arith, h))
          (acquire_portal_secret-IsSame w (record s { provider = portal })).same_marker)
      λ h.
        if_elim (IsSticky s) (str_eq (marker s) "local-v1")
          (λ k.
            stays s (acquire_local_secret w (record s { provider = local })) (ground (arith, h, k))
              (ap (get_setting "secretProvider" "")
                (acquire_local_secret-IsKeyWrite w (record s { provider = local })).db))
          λ k.
            let own =
              chosen_now s (choose_local w s) h k (ap is_chosen (choose_local-marker w s)) in
            let asked = acquire_portal_secret w s in
            if_elim (IsSticky s) (has_existing_local_secret w s) (λ _. own)
              λ _.
                if_elim (IsSticky s) w.flatpak
                  (λ _. chosen_now s (after_portal w asked) h k (after_portal-marker w asked))
                  λ _. own

pub master_secret-same : (w : World) (s : Store) → (master_secret w s).0.db.secrets ≡ s.db.secrets
unfolding master_secret
master_secret-same w s =
    if_elim (λ (r : Store × Bytes). r.0.db.secrets ≡ s.db.secrets) (is_empty s.master)
      (λ _. (acquire_master_secret-same w s).0) λ _. refl

-- The master secret that is handed out is the one that is kept.
pub master_secret-kept :
    (w : World) (s : Store) → (master_secret w s).0.master ≡ (master_secret w s).1
unfolding master_secret
master_secret-kept w s =
    if_elim (λ (r : Store × Bytes). r.0.master ≡ r.1) (is_empty s.master) (λ _. refl) λ _. refl

-- Once there is a master secret, it is handed out at no question to the world.
pub master_secret-cached :
    (w : World) (s : Store) → is_empty s.master ≡ false → master_secret w s ≡ (s, s.master)
unfolding master_secret
master_secret-cached w s h = rw h

pub master_secret-sticky :
    (w : World) (s : Store) → is_chosen (marker s) ≡ true → marker (master_secret w s).0 ≡ marker s
unfolding master_secret
master_secret-sticky w s h =
    if_elim (λ (r : Store × Bytes). marker r.0 ≡ marker s) (is_empty s.master)
      (λ _. (acquire_master_secret-IsSticky w s).1 h) λ _. refl
