-- ===== src/Daemon/Proxy/Tests.antt =====
-- Witnesses for the proxy's routing.
use corenet.Common.{
  ◌++◌, Text, bytes, ◌≡◌, ◌↔◌, refl, none, some, plain_unicode, is_some, false, if◌then◌else◌,
  contains, IsBare, join_host_port, ◌⊎◌,
}
use corenet.Protocol.{Service, addr}
use corenet.Protocol.Names.{validate_name}
use corenet.Protocol.Grammar.{IsCoreName, validate_name_iff}
use corenet.Registry.{lookup, conflict}
use corenet.Registry.Tests.{demo}
use corenet.Daemon.Proxy.{route, forwarded, error_page}
use corenet.Daemon.Proxy.Page.{escape_string, unescape, write_error_page}
use corenet.Daemon.Proxy.Escaped.{IsNoMarkup, write_error_page_lem}
use corenet.Daemon.Proxy.Routing.{routes_of, IsHostFor, route-lookup}

wiki_valid : validate_name plain_unicode (bytes "wiki.core") ≡ none
unfolding validate_name
wiki_valid = refl

wiki-IsCoreName : IsCoreName (bytes "wiki.core")
wiki-IsCoreName = (validate_name_iff plain_unicode (bytes "wiki.core")).0 wiki_valid

port-IsBare : IsBare (bytes "8080") × (contains b':' (bytes "8080") ≡ false)
unfolding contains
port-IsBare = (record { opening = refl; closing = refl }, refl)

route-lookup_example :
    ((target : Text)
      → (route plain_unicode
            (routes_of plain_unicode demo)
            (join_host_port (bytes "wiki.core") (bytes "8080"))
          ≡ forwarded target)
        ↔ ((s : Service) × (lookup plain_unicode demo (bytes "wiki.core") ≡ some s)
            × (addr s ≡ target)))
    × (((s : Service) × (lookup plain_unicode demo (bytes "wiki.core") ≡ some s))
        ⊎ ((title : Text) × (message : Text) × (route plain_unicode
                (routes_of plain_unicode demo)
                (join_host_port (bytes "wiki.core") (bytes "8080"))
              ≡ error_page
                  (if is_some (conflict plain_unicode demo (bytes "wiki.core")) then 409 else 404)
                  title
                  message)))
route-lookup_example =
    route-lookup plain_unicode demo (bytes "wiki.core")
      (join_host_port (bytes "wiki.core") (bytes "8080")) wiki-IsCoreName
      (IsHostFor.with_port (bytes "8080") port-IsBare.0 port-IsBare.1)

-- A host name that tries to be markup.
abbrev hostile : Text
hostile = bytes "<script>\"{{title}}\"&amp;'</script>"

write_error_page_lem_example :
    (before : Text) × (after : Text) × ((message : Text)
      → (write_error_page 404 (bytes "Unknown service") message
          ≡ before ++ (escape_string message ++ after))
        × (unescape (escape_string message) ≡ message)
        × IsNoMarkup (escape_string message))
write_error_page_lem_example = write_error_page_lem 404 (bytes "Unknown service")

hostile_escaped :
    escape_string hostile ≡ bytes "&lt;script&gt;&#34;{{title}}&#34;&amp;amp;&#39;&lt;/script&gt;"
unfolding escape_string
hostile_escaped = refl
