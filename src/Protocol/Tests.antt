-- ===== src/Protocol/Tests.antt =====
-- Names of the .core namespace on concrete texts, and the theorems at them.
use corenet.Common.{
  ◌↔◌, [], pos, IsBare, contains, split_host_port, decimal_ℤ, false, bytes, ◌≡◌, ◌↔◌, refl, some,
  none, plain_unicode,
}
use corenet.Protocol.{Service, addr}
use corenet.Protocol.Targets.{split-addr_iff}
use corenet.Protocol.Names.{
  normalize_name, validate_name, empty_label, hyphen_at_end, not_normalized, not_in_namespace,
  bad_label,
}
use corenet.Protocol.Grammar.{IsCoreName, validate_name_iff}

normalized : normalize_name plain_unicode (bytes " Wiki.Core. ") ≡ bytes "wiki.core"
unfolding normalize_name
normalized = refl

verdicts :
    (validate_name plain_unicode (bytes "wiki.core") ≡ none)
    × (validate_name plain_unicode (bytes "Wiki.core") ≡ some (not_normalized (bytes "Wiki.core")))
    × (validate_name plain_unicode (bytes "wiki.com") ≡ some (not_in_namespace (bytes "wiki.com")))
    × (validate_name plain_unicode (bytes "core") ≡ some (not_in_namespace (bytes "core")))
    × (validate_name plain_unicode (bytes "a..core")
        ≡ some (bad_label (bytes "a..core") empty_label))
    × (validate_name plain_unicode (bytes "-a.core")
        ≡ some (bad_label (bytes "-a.core") (hyphen_at_end (bytes "-a"))))
unfolding validate_name
verdicts = (refl, refl, refl, refl, refl, refl)

validate_name_iff_example :
    (validate_name plain_unicode (bytes "a-b.wiki.core") ≡ none)
    ↔ IsCoreName (bytes "a-b.wiki.core")
validate_name_iff_example = validate_name_iff plain_unicode (bytes "a-b.wiki.core")

abbrev loopback : Service
loopback = record { name = bytes "wiki.core"; address = bytes "::1"; port = pos 8080; source = [] }

loopback-IsBare : IsBare loopback.address
unfolding contains
loopback-IsBare = record { opening = refl; closing = refl }

split-addr_iff_example :
    (split_host_port (addr loopback) ≡ some (bytes "::1", decimal_ℤ (pos 8080)))
    ↔ (contains b':' (bytes "::1") ≡ false)
split-addr_iff_example = split-addr_iff loopback loopback-IsBare
