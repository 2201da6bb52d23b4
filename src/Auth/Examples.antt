-- ===== src/Auth/Examples.antt =====
-- Runs of the theorems on the token store.
use shelf_remote.Storage.SecureStore.Examples.{
  twelve, label, plain_world, new_store, label-IsAead, twelve, zeros, key_there,
}
use shelf_remote.Storage.SecureStore.Seal.{Context, aad}
use shelf_remote.App.Frames.{Bytes}
use shelf_remote.Storage.SecureStore.Restart.{restart}
use shelf_remote.Storage.SecureStore.Anchor.{IsSteady}
use shelf_remote.Auth.Saved.{IsFaithful, Json, save, context_of, load_saved, load-save}
use shelf_remote.Auth.Refresh.{run, runs, Input, posts, step, owed, ask, asked, answer}
use shelf_remote.Auth.SingleFlight.{
  Outcome, on_refresh_reply-cases, busy, answered, run-answers_all, run-single_flight,
}
use shelf_remote.Prelude.{
  refl, ap, arith, true, false, none, some, [], Chars, List, codes, ◌≡◌, Option, ℕ, ◌+◌, ◌∷◌,
  length, take, take-append, ◌++◌, drop, drop-append, same, if◌then◌else◌,
}
use shelf_remote.Auth.TokenStore.{
  Tokens, RefreshReply, refresh, on_refresh_reply, settle, set_tokens, persist, clear,
}

abbrev pub signed_in : Tokens
signed_in = record {
  server_key = "k1";
  account = "u1";
  access = codes "a.b.c";
  refresh_token = codes "r1";
  expiry = some 900;
  refreshing = false;
  pending = [];
  bearer = codes "a.b.c";
  out = [];
}

abbrev pub no_claim : Chars → Option ℕ
no_claim payload = none

abbrev renewed : RefreshReply
renewed = record {
  stale = false;
  ok = true;
  status = 200;
  root_access = none;
  user_access = some (codes "d.e.f");
  root_refresh = none;
  user_refresh = none;
}

-- Two callbacks share a refresh; a third asks after it.
abbrev asking : List Input
asking = ask 7 ∷ ask 8 ∷ answer "k1" renewed ∷ ask 7 ∷ answer "k1" renewed ∷ []

run-single_flight_example :
    let q = run no_claim asking signed_in in
    posts q.out + busy signed_in ≡ posts signed_in.out + answered no_claim asking signed_in + busy q
run-single_flight_example = run-single_flight no_claim asking signed_in

at_rest : (run no_claim asking signed_in).refreshing ≡ false
unfolding run step refresh on_refresh_reply settle set_tokens persist
at_rest = refl

run-answers_all_example :
    runs 7 (run no_claim asking signed_in).out ≡ owed 7 signed_in + asked 7 asking
run-answers_all_example = run-answers_all no_claim 7 asking signed_in (λ e. refl) at_rest

on_refresh_reply-cases_example :
    Outcome "k1" renewed signed_in (on_refresh_reply no_claim "k1" renewed signed_in)
on_refresh_reply-cases_example = on_refresh_reply-cases no_claim "k1" renewed signed_in refl

-- A reply that comes after the user has signed out signs the user in again: the tokens are saved once
-- more.
late_sign_in :
    (on_refresh_reply no_claim "k1" renewed (clear (refresh 7 signed_in))).access ≡ codes "d.e.f"
unfolding refresh on_refresh_reply settle set_tokens persist clear
late_sign_in = refl

-- Two texts as one list: the length of the first in front.
abbrev split_pair : Bytes → Option Chars × Option Chars
split_pair [] = (none, none)
split_pair (n ∷ rest) = (some (take n rest), some (drop n rest))

abbrev pub pairs : Json
pairs = record { row_of = λ key. key; encode = λ a r. length a ∷ (a ++ r); decode = split_pair }

pub pairs-IsFaithful : IsFaithful pairs
pairs-IsFaithful = record {
  decodes = λ a r. rw (take-append a r, drop-append a r);
  not_empty = λ a r. refl;
}

abbrev pub forgetful : Tokens
forgetful = record signed_in { access = []; refresh_token = []; bearer = [] }

abbrev saved_context : Context
saved_context = context_of "k1" "u1"

length_of_key : Option Bytes → ℕ
length_of_key none = 0
length_of_key (some k) = length k

pub plain-IsSteady : IsSteady plain_world plain_world
unfolding length_of_key
plain-IsSteady = record {
  reads = refl;
  opens = refl;
  writes = refl;
  long_key = λ k e. let n = ap length_of_key e in omega (arith, n);
  reads_next = refl;
  same_keyring = refl;
}

load-save_example :
    let r =
      load_saved label pairs no_claim plain_world
        (restart (save label pairs plain_world signed_in new_store))
        forgetful in
    let b = same (aad label saved_context) (aad label saved_context) in
    (r.1 ≡ b)
    × (r.0.access ≡ (if b then signed_in.access else forgetful.access))
    × (r.0.refresh_token ≡ (if b then signed_in.refresh_token else forgetful.refresh_token))
    × (r.0.bearer ≡ (if b then signed_in.access else forgetful.bearer))
load-save_example =
    load-save label pairs no_claim label-IsAead pairs-IsFaithful plain_world plain_world signed_in
      forgetful new_store twelve
      (length (aad label saved_context)
        ∷ (aad label saved_context ++ (5 ∷ (codes "a.b.c" ++ codes "r1"))))
      zeros plain-IsSteady (λ h. absurd cc) refl refl refl refl refl refl key_there refl
