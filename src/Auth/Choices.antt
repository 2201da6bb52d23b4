-- ===== src/Auth/Choices.antt =====
-- Runs of the theorems on the place of the sign-ins and on the secrets of a sign-in by the browser.
use shelf_remote.Prelude.{insert, is_empty}
use shelf_remote.Auth.TokenStore.{has_tokens}
use shelf_remote.Storage.SecureStore.Switch.{move}
use shelf_remote.Auth.TokenStore.{has_tokens}
use shelf_remote.Storage.Database.{get_setting, put_setting}
use shelf_remote.Auth.Examples.{pairs, no_claim, signed_in, forgetful, pairs-IsFaithful}
use shelf_remote.Storage.SecureStore.Restart.{restart}
use shelf_remote.Storage.SecureStore.Anchor.Change.{IsReachable}
use shelf_remote.Auth.Saved.{context_of}
use shelf_remote.Storage.SecureStore.Switch.{
  set_storage, storage, to_device, device, finish_move, write_device,
}
use shelf_remote.Storage.SecureStore.Examples.{
  label, plain_world, in_keyring, twelve, zeros, label-IsAead,
}
use shelf_remote.Auth.Choice.{
  set_sign_in_on_device, Loads, switch_storage, told, set_sign_in_on_device-load, is_good,
}
use shelf_remote.Storage.SecureStore.{Store, master_secret, write_local_secret, long_enough}
use shelf_remote.Storage.SecureStore.Seal.{derive_key, aad, purpose}
use shelf_remote.App.Frames.{Bytes}
use shelf_remote.Auth.Pkce.{base64_url, url_digit, random_token, words_for, bytes_of_words}
use shelf_remote.Prelude.{
  arith, true, false, refl, [], ◌∷◌, zero, suc, length, ℕ, ◌≡◌, List, codes, ◌++◌, lookup, insert,
}

abbrev elsewhere : Store
elsewhere = (set_storage plain_world plain_world device in_keyring).0

abbrev moved_sealed : Bytes
moved_sealed =
    length (aad label (context_of "k1" "u1"))
    ∷ (aad label (context_of "k1" "u1") ++ (5 ∷ (codes "a.b.c" ++ codes "r1")))

told_good :
    is_good
      (set_sign_in_on_device label pairs plain_world plain_world plain_world true signed_in
        in_keyring).1
    ≡ true
unfolding move set_sign_in_on_device switch_storage told set_storage storage to_device master_secret
    finish_move write_device write_local_secret get_setting lookup
told_good = refl

key_after_move : is_empty (derive_key label (master_secret plain_world elsewhere).1 purpose) ≡ false
unfolding move derive_key set_storage storage to_device master_secret finish_move write_device
    write_local_secret get_setting lookup put_setting insert long_enough
key_after_move = refl

reach_after_move : IsReachable device plain_world plain_world elsewhere
unfolding move set_storage storage to_device master_secret finish_move write_device
    write_local_secret get_setting lookup put_setting insert
reach_after_move = (refl, omega arith)

set_sign_in_on_device-load_example : Loads label pairs no_claim plain_world signed_in forgetful (
    restart
      (set_sign_in_on_device label pairs plain_world plain_world plain_world true signed_in
        in_keyring).0)
set_sign_in_on_device-load_example =
    set_sign_in_on_device-load label pairs no_claim plain_world plain_world plain_world plain_world
      true signed_in forgetful in_keyring twelve moved_sealed zeros label-IsAead pairs-IsFaithful
      told_good (unfold has_tokens in refl) refl refl refl refl refl reach_after_move key_after_move
      refl

abbrev zero_words : ℕ → List ℕ
zero_words zero = []
zero_words (suc n) = 0 ∷ zero_words n

-- Ten bytes are three words, of which the last is cut.
zero_token : length (random_token zero_words 10) ≡ 14
unfolding random_token words_for bytes_of_words base64_url
zero_token = refl

-- The last two letters of the alphabet, and a rest of one byte.
token_text : base64_url (251 ∷ 255 ∷ 191 ∷ 1 ∷ []) ≡ codes "-_-_AQ"
unfolding base64_url url_digit
token_text = refl
