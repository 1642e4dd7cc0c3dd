-- ===== src/Auth/Tests.antt =====
-- Runs of recovery codes; access tokens, envelopes and one-time passwords have modules below.
mod Tokens
mod Secrets
use mathlib.Core.List.{Memᴰ}
use mascotapp.Base.{
  ℕ, zero, suc, ◌+◌, ◌≤◌, ◌≡◌, ◌≢◌, ◌↔◌, ◌∙◌, refl, sym, ap, List, [], ◌∷◌, ◌++◌, Option, none,
  some, Bytes, Bool, true, false, any, ◌=ᵇ◌, =ᵇ_iff, =ᵇ_refl, replicate, arith, length,
  length-append, All, take, drop, if◌then◌else◌, codes, Byte,
}
use mascotapp.Base.Results.{Result, pass, fail}
use mascotapp.Encoding.Base32.{IsBase32, encode32}
use mascotapp.Db.State.{State, TotpRecoveryCode, ok, statement}
use mascotapp.Db.Tenant.{nil_uuid}
use mascotapp.Db.Auth.{with_auth_user}
use mascotapp.Db.Queries.{
  owned, update_where, delete_where, insert_recovery_code, delete_recovery_codes_for_user,
  redeem_recovery_code,
}
use mascotapp.Db.Samples.{uuid, server_with, empty_server, toy_sha256}
use mascotapp.Auth.Session.Entropy.{draw, fit, new_v7}
use mascotapp.Auth.Recovery.{
  RecoveryCode, hash_recovery_code, redeem, regenerate_recovery_codes, store_codes,
  new_recovery_codes, draw_codes,
}
use mascotapp.Auth.Recovery.Redeem.{codes_of, redeemable, redeem-once, redeem-passes}
use mascotapp.Auth.Recovery.Regenerate.{of_others, regenerate-replaces}
use mascotapp.Auth.Recovery.Fresh.{IsFresh, new_recovery_codes-IsFresh}

abbrev code : ℕ → ℕ → Bytes → TotpRecoveryCode
code id user text = record {
  id = uuid id;
  user_id = uuid user;
  code_hash = toy_sha256 text;
  used_at = none;
  created_at = 0;
}

-- A code of user 1 and one of user 2.
abbrev server : State
server = server_with [] (code 3 1 (9 ∷ []) ∷ code 4 2 (8 ∷ []) ∷ []) [] (some (uuid 6) ∷ [])

has_code : redeemable (uuid 1) (hash_recovery_code toy_sha256 (9 ∷ [])) (codes_of server) ≡ true
unfolding hash_recovery_code ◌=ᵇ◌ owned
has_code = refl

user_is_real : uuid 1 ≢ nil_uuid
user_is_real e = ground (arith, e)

first_login : (with_auth_user (uuid 1) (redeem toy_sha256 (9 ∷ [])) server).0 ≡ ok tt
unfolding with_auth_user redeem redeem_recovery_code hash_recovery_code statement ◌=ᵇ◌ owned
first_login = refl

redeem-once_example :
    (redeemable (uuid 1) (hash_recovery_code toy_sha256 (9 ∷ [])) (codes_of server) ≡ true)
    × ((with_auth_user
          (uuid 1)
          (redeem toy_sha256 (9 ∷ []))
          (with_auth_user (uuid 1) (redeem toy_sha256 (9 ∷ [])) server).1).0
        ≢ ok tt)
redeem-once_example =
    redeem-once toy_sha256 (uuid 1) (9 ∷ []) server
      (with_auth_user (uuid 1) (redeem toy_sha256 (9 ∷ [])) server).1 first_login refl

abbrev new_set : List RecoveryCode
new_set = (record { plaintext = 5 ∷ []; hash = toy_sha256 (5 ∷ []) }) ∷ []

regenerated :
    (with_auth_user (uuid 1) (regenerate_recovery_codes (uuid 1) new_set) server).0 ≡ ok tt
unfolding with_auth_user regenerate_recovery_codes store_codes delete_recovery_codes_for_user
    insert_recovery_code new_v7 statement ◌=ᵇ◌ owned
regenerated = refl

regenerate-replaces_example :
    (redeemable
        (uuid 1)
        (toy_sha256 (5 ∷ []))
        (codes_of (with_auth_user (uuid 1) (regenerate_recovery_codes (uuid 1) new_set) server).1)
      ≡ any (λ c. c.hash =ᵇ toy_sha256 (5 ∷ [])) new_set)
    × (of_others
          (uuid 1)
          (codes_of (with_auth_user (uuid 1) (regenerate_recovery_codes (uuid 1) new_set) server).1)
        ≡ of_others (uuid 1) (codes_of server))
    × (new_set ≢ [])
regenerate-replaces_example =
    regenerate-replaces (uuid 1) (toy_sha256 (5 ∷ [])) new_set server regenerated

-- Ten draws.
abbrev random_server : State
random_server = server_with [] [] (replicate 10 (some (1 ∷ 2 ∷ 3 ∷ []))) []

abbrev drawn_set : List RecoveryCode
drawn_set =
    let text = encode32 (fit 16 (1 ∷ 2 ∷ 3 ∷ [])) in
    replicate 10 (record { plaintext = text; hash = toy_sha256 text })

drawn : (new_recovery_codes toy_sha256 random_server).0 ≡ ok drawn_set
unfolding new_recovery_codes hash_recovery_code
drawn = refl
