-- ===== src/Commands/Client/Resolver.antt =====
-- The server that dropInContent of cmd/corenet/connect.go names to the resolver.
use corenet.Common.{
  Text, bytes, ◌≡◌, refl, sym, ap, ◌∙◌, false, text_eq, text_eq_iff, contains, IsBare,
  split_host_port, join_host_port, split-join_host_port, split-host_alone, if◌then◌else◌,
  Bool-cases, inl, inr,
}
use corenet.Commands.Client.Connecting.{host_port, is_unspecified, drop_in_server}

-- Where a listener on a host is reached from the machine itself.
abbrev pub reachable : Text → Text
unfolding is_unspecified
reachable host = if is_unspecified host then bytes "127.0.0.1" else host

-- Where the resolver finds a server: at its host and port, and at the port 53 if it names none.
abbrev pub found_at : Text → Text × Text
unfolding split_host_port
found_at server = host_port server (split_host_port server)

-- A host without a colon that is no unspecified address.
record IsPlain (host : Text) : Type 0 where
  bare : IsBare host
  no_colon : contains b':' host ≡ false
  specified : is_unspecified host ≡ false

reachable-IsPlain :
    (host : Text) → IsBare host → contains b':' host ≡ false → IsPlain (reachable host)
unfolding is_unspecified text_eq contains
reachable-IsPlain host bare no_colon = elim (Bool-cases (is_unspecified host)) [
  | inl any ↦ rw any (record {
    bare = record { opening = refl; closing = refl };
    no_colon = refl;
    specified = refl;
  })
  | inr one ↦ rw one (record { bare = bare; no_colon = no_colon; specified = one })
]

drop_in_server-join :
    (host port : Text)
    → IsBare host
    → IsBare port
    → contains b':' port ≡ false
    → drop_in_server (join_host_port host port)
      ≡ (if text_eq port (bytes "53") then reachable host else join_host_port (reachable host) port)
unfolding drop_in_server
drop_in_server-join host port h p p_colon = rw (split-join_host_port host port h p p_colon) refl

-- For a listener on a host without brackets and colons, and a port without them: the resolver finds the
-- server that the drop-in file names at the listener's port, and at its host or, where that is the
-- unspecified address, at 127.0.0.1.
pub drop_in_server_lem :
    (host port : Text)
    → IsBare host
    → contains b':' host ≡ false
    → IsBare port
    → contains b':' port ≡ false
    → (found_at (drop_in_server (join_host_port host port)) ≡ (reachable host, port))
      × (is_unspecified (reachable host) ≡ false)
unfolding drop_in_server
drop_in_server_lem host port h h_colon p p_colon =
    let plain = reachable-IsPlain host h h_colon in
    (
      ap found_at (drop_in_server-join host port h p p_colon)
          ∙ elim (Bool-cases (text_eq port (bytes "53"))) [
            | inl usual ↦
                rw (usual, split-host_alone (reachable host) plain.no_colon)
                  (ap (λ p. (reachable host, p)) (sym ((text_eq_iff port (bytes "53")).0 usual)))
            | inr other ↦
                rw (other, split-join_host_port (reachable host) port plain.bare p p_colon) refl
          ],
      plain.specified,
    )
