-- ===== src/Daemon/Node/Kept.antt =====
-- What stays as it is from one reload of internal/daemon/daemon.go to the next.
use corenet.Common.{◌≡◌, refl, sym, ◌∙◌, ap, Bool, true, false, ◌&&◌, arith, text_eq_iff}
use corenet.Config.{Config, DockerConfig, equal, eq_bool, is_enabled, socket_path, poll_interval}
use corenet.Daemon.Node.Reloading.{IsKept, eq_ℤ_iff, eq_bool_refl, equal_refl}

eq_bool_iff : (a b : Bool) → eq_bool a b ≡ true → a ≡ b
eq_bool_iff true b h = sym h
eq_bool_iff false true h = cc h
eq_bool_iff false false h = refl

-- Docker settings that mean the same.
record IsSame (a b : DockerConfig) : Type 0 where
  enabled : is_enabled a ≡ is_enabled b
  socket : socket_path a ≡ socket_path b
  network : a.network ≡ b.network
  poll : poll_interval a ≡ poll_interval b

equal-IsSame : (a b : DockerConfig) → equal a b ≡ true → IsSame a b
unfolding equal
equal-IsSame a b h =
    let both : (x y : Bool) → (x && y) ≡ true → (x ≡ true) × (y ≡ true) =
      λ x y q. ground (arith, q) in
    let (enabled, h1) = both _ _ h in
    let (socket, h2) = both _ _ h1 in
    let (network, poll) = both _ _ h2 in
    record {
      enabled = eq_bool_iff _ _ enabled;
      socket = (text_eq_iff _ _).0 socket;
      network = (text_eq_iff _ _).0 network;
      poll = (eq_ℤ_iff _ _).0 poll;
    }

IsSame-equal : (a b : DockerConfig) → IsSame a b → equal a b ≡ true
unfolding equal
IsSame-equal a b h = ground (
  arith,
  ap (eq_bool (is_enabled a)) (sym h.enabled) ∙ eq_bool_refl (is_enabled a),
  (text_eq_iff (socket_path a) (socket_path b)).1 h.socket,
  (text_eq_iff a.network b.network).1 h.network,
  (eq_ℤ_iff (poll_interval a) (poll_interval b)).1 h.poll,
)

equal_trans : (a b c : DockerConfig) → equal a b ≡ true → equal b c ≡ true → equal a c ≡ true
equal_trans a b c h k =
    let x = equal-IsSame a b h in
    let y = equal-IsSame b c k in
    IsSame-equal a c (record {
      enabled = x.enabled ∙ y.enabled;
      socket = x.socket ∙ y.socket;
      network = x.network ∙ y.network;
      poll = x.poll ∙ y.poll;
    })

pub IsKept-refl : (c : Config) → IsKept c c
IsKept-refl c = record { listen = refl; node_id = refl; pull = refl; docker = equal_refl c.docker }

pub IsKept-trans : (a b c : Config) → IsKept a b → IsKept b c → IsKept a c
IsKept-trans a b c h k = record {
  listen = h.listen ∙ k.listen;
  node_id = h.node_id ∙ k.node_id;
  pull = h.pull ∙ k.pull;
  docker = equal_trans a.docker b.docker c.docker h.docker k.docker;
}
