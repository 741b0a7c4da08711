-- ===== src/Daemon/Proxy.antt =====
-- internal/daemon/proxy.go: how the HTTP entry point routes a request by its Host header. Proxy/Page has
-- its error pages. Forwarding itself, `httputil.ReverseProxy`, is not modelled: its outcome is an argument of `respond`.
pub mod Routing
pub mod Page
pub mod Escaped
mod Tests
use corenet.Common.{
  Text, ℕ, bytes, ◌++◌, Option, none, some, Unicode, split_host_port, join_host_port, decimal_ℤ,
  Bool, true, false,
}
use corenet.Protocol.{Service, Conflict, addr}
use corenet.Protocol.Names.{normalize_name}

-- The two operations of `Directory` that the proxy calls.
pub record Routes : Type 0 where
  pub lookup : Text → Option Service
  pub conflict : Text → Option Conflict

-- `hostName`
unfoldable pub host_name : Unicode → Text → Text
unfolding split_host_port
host_name u host = elim (split_host_port host) [
  | none ↦ normalize_name u host
  | some p ↦ normalize_name u p.0
]

-- What becomes of a request: it is forwarded to a backend, or gets an error page with a status, a title
-- and a message.
pub data Outcome : Type 0 where
  forwarded : Text → Outcome
  error_page : ℕ → Text → Text → Outcome

-- The routing of the handler that `NewProxy` returns, by the name that the request asks for.
unfoldable pub route_name : Routes → Text → Outcome
unfolding addr
route_name dir name = elim (dir.lookup name) [
  | some svc ↦ forwarded (addr svc)
  | none ↦ elim (dir.conflict name) [
    | some c ↦
        error_page 409 (bytes "Conflicting service")
          (name ++ (bytes " is not routed: " ++ (c.reason ++ bytes ".")))
    | none ↦
        error_page 404 (bytes "Unknown service")
          (name ++ bytes " is not registered on this CoreNet node.")
  ]
]

-- The handler that `NewProxy` returns.
unfoldable pub route : Unicode → Routes → Text → Outcome
unfolding host_name route_name
route u dir host = route_name dir (host_name u host)

-- The `ErrorHandler` that `NewProxy` sets: a backend that did not answer.
unfoldable pub backend_failed : Unicode → Text → Outcome
unfolding host_name
backend_failed u host =
    error_page 502 (bytes "Service unavailable")
      (host_name u host ++ bytes " is registered on CoreNet but did not answer.")

-- The response to a request, where `answers` tells whether a backend answers.
unfoldable pub respond : Unicode → Routes → (Text → Bool) → Text → Outcome
unfolding route backend_failed
respond u dir answers host = elim (route u dir host) [
  | forwarded target ↦ elim (answers target) [
    | true ↦ forwarded target
    | false ↦ backend_failed u host
  ]
  | error_page status title message ↦ error_page status title message
]
