-- ===== src/Http.antt =====
-- apps/api/internal/httpapi: a handler writes its response into the state. It returns nothing, or it
-- panics.
pub mod ClientIp
pub mod Tenancy
pub mod Origins
pub mod Health
pub mod Resolved
mod Tests
use mascotapp.Base.{ℕ, ◌≡◌, List, ◌∷◌, Option, none, Bytes, codes}
use mascotapp.Db.State.{State, Written, answered, Outcome, ok, err, panicked, M}
use mascotapp.Http.ClientIp.{Addr}
use mascotapp.Auth.Token.{AccessClaims}

-- What the handlers read of a request. An absent header, parameter or path segment is empty.
pub record Request : Type 0 where
  pub method : Bytes
  pub remote_addr : Bytes
  pub forwarded_for : List Bytes
  pub authorization : Bytes
  pub origin : Bytes
  pub request_method : Bytes
  pub sec_fetch_site : Bytes
  pub shelter_path : Bytes
  pub shelter_query : Bytes
  pub shelter_header : Bytes

-- The values that the middlewares put in the context: the address, the claims, and the transaction,
-- of which the model knows only that it is there.
pub record Context : Type 0 where
  pub client : Option Addr
  pub claims : Option AccessClaims
  pub tx : Option (Unit {0})

pub data Served : Type 0 where
  served : Served
  crashed : ℕ → Served

abbrev pub Handler : Type 0
Handler = Context → Request → State → Served × State

abbrev pub write : Written → State → State
write x s = record s { response = x ∷ s.response }

abbrev pub reply : ℕ → Bytes → State → Served × State
reply status body s = (served, write (answered status body) s)

-- forbidden
unfoldable pub forbidden : State → Served × State
forbidden = reply 403 (codes "forbidden")

-- The callback of a transaction that runs a handler and returns nil.
abbrev pub as_callback : Served × State → Outcome (Unit {0}) × State
as_callback (served, s) = (ok tt, s)
as_callback (crashed p, s) = (panicked p, s)
