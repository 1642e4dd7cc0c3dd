-- ===== src/Http/Resolved.antt =====
-- apps/api/internal/httpapi/clientip.go: the middleware that puts the client address in the context.
use mascotapp.Base.{Option, none, some, Bytes}
use mascotapp.Http.ClientIp.{Addr, ClientIpResolver, client_ip}
use mascotapp.Http.{Context, Handler}

module _ (parse_addr : Bytes → Option Addr) (split_host_port : Bytes → Option (Bytes × Bytes)) where
  -- ClientIPResolver.Middleware: the zero Addr leaves the context as it is.
  unfoldable pub resolve_client : ClientIpResolver → Handler → Handler
  unfolding client_ip
  resolve_client res next ctx r s =
      elim (client_ip parse_addr split_host_port res r.remote_addr r.forwarded_for) [
        | none ↦ next ctx r s
        | some addr ↦ next (record ctx { client = some addr }) r s
      ]

-- ClientIPFromContext
unfoldable pub client_ip_from_context : Context → Option Addr
client_ip_from_context ctx = ctx.client
