-- ===== src/Db/Queries/Login/Tests.antt =====
-- Two users, each with a membership.
use mascotapp.Base.{◌≡◌, refl, List, [], ◌∷◌, Option, none, some, Bytes, codes, ◌=ᵇ◌, arith}
use mascotapp.Db.State.{ok, statement, nullif}
use mascotapp.Db.Samples.{uuid, empty_server}
use mascotapp.Db.Auth.{with_auth_user, with_auth_lookup}
use mascotapp.Db.Queries.Login.{
  ListOwnMembershipsRow, list_own_memberships, GetUserCredentialsByEmailRow,
  get_user_credentials_by_email,
}
use mascotapp.Db.Queries.Login.Seen.{own_rows, IsFirst, doors-rows}

abbrev member : Bytes → ListOwnMembershipsRow
member user = record {
  id = uuid 9;
  user_id = user;
  shelter_id = uuid 7;
  role = codes "owner";
  status = codes "active";
}

abbrev ana : GetUserCredentialsByEmailRow
ana = record {
  id = uuid 1;
  email = codes "ana@example.org";
  password_hash = none;
  status = codes "active";
  totp_secret_enc = [];
  email_verified_at = some 5;
  created_at = some 1;
}

abbrev rows : List ListOwnMembershipsRow
rows = member (uuid 2) ∷ member (uuid 1) ∷ []

doors-rows_example :
    ((with_auth_user (uuid 1) (list_own_memberships rows (uuid 1)) empty_server).0
      ≡ ok (own_rows (uuid 1) rows))
    × ((with_auth_user (uuid 1) (list_own_memberships rows (uuid 2)) empty_server).0 ≡ ok [])
    × ((with_auth_lookup (list_own_memberships rows (uuid 1)) empty_server).0 ≡ ok [])
    × ((o : Option GetUserCredentialsByEmailRow) × ((with_auth_lookup
            (get_user_credentials_by_email (ana ∷ []) (codes "Ana@Example.org"))
            empty_server).0
          ≡ ok o)
        × IsFirst (codes "Ana@Example.org") (ana ∷ []) o)
unfolding nullif
doors-rows_example =
    doors-rows (ana ∷ []) rows (uuid 1) (uuid 2) (codes "Ana@Example.org") empty_server refl
      (λ e. ground (arith, e)) (λ e. ground (arith, e)) refl refl

-- An email is found in another case.
finds_ana :
    (with_auth_lookup
      (get_user_credentials_by_email (ana ∷ []) (codes "Ana@Example.org"))
      empty_server).0
    ≡ ok (some ana)
unfolding with_auth_lookup get_user_credentials_by_email statement ◌=ᵇ◌
finds_ana = refl
