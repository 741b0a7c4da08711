-- ===== src/Daemon/Node/InStep.antt =====
-- The registry and the puller of a node of internal/daemon/daemon.go stay in step through every write.
use corenet.Common.{
  Text, ◌≡◌, refl, arith, sym, ap, ◌∙◌, subst, Option-cases, inl, inr, List, [], Unicode, get,
}
use corenet.Protocol.{Service}
use corenet.Protocol.Names.{normalize_name}
use corenet.Registry.{Registry, directory_of, set_remote, set_docker, add, add_refusal, remove}
use corenet.Registry.Invariant.{IsWellFormed}
use corenet.Registry.Preserved.{set_remote-IsWellFormed, set_docker-IsWellFormed}
use corenet.Discovery.Container.{Refusal}
use corenet.Discovery.Polling.{Docker, Listing, poll}
use corenet.Discovery.Polling.Stored.{poll-store}
use corenet.Daemon.Peers.{Network, Round, set_endpoints, pull_all}
use corenet.Daemon.Peers.Coverage.{IsCovered, set_endpoints-IsCovered, pull_each-IsCovered}
use corenet.Daemon.Peers.Report.{IsListed, distinct_from, set_endpoints-IsListed, pull_each-Keeps}
use corenet.Daemon.Peers.Stored.{set_endpoints-kept, pull_all-kept}
use corenet.Daemon.Store.{registry_store, registry_laws}
use corenet.Daemon.Api.{Api, Request, decoded, malformed, control, handle_add}
use corenet.Daemon.Api.Serving.{handle_add-dir, handle_remove-dir}

module _ (u : Unicode) where
  remote_kept :
      (id : Text) (services : List Service) (r : Registry)
      → IsWellFormed r
      → IsWellFormed (set_remote u id services r)
  remote_kept id services r h = set_remote-IsWellFormed u id services h

  -- The state of the puller and of the registry.
  pub record IsInStep (n : Network (registry_store u)) (nodes : List Text) : Type 0 where
    pub well_formed : IsWellFormed n.store
    pub listed : IsListed n.peers
    pub order : n.peers.order ≡ distinct_from [] nodes
    pub covered : IsCovered (registry_store u) (registry_laws u) n

  -- A write to the registry that leaves what other nodes offer.
  pub with_store-IsInStep :
      (n : Network (registry_store u)) (nodes : List Text) (r : Registry)
      → r.remote ≡ n.store.remote
      → IsWellFormed r
      → IsInStep n nodes
      → IsInStep (record n { store = r }) nodes
  with_store-IsInStep n nodes r same w h = record {
    well_formed = w;
    listed = h.listed;
    order = h.order;
    covered = record {
      covered = λ id k s offered.
          h.covered.covered id k s
            (ap (λ remote. get (directory_of (get remote id)) k) (sym same) ∙ offered);
    };
  }

  pub set_endpoints-IsInStep :
      (endpoints : List Text) (n : Network (registry_store u))
      → IsWellFormed n.store
      → IsListed n.peers
      → IsCovered (registry_store u) (registry_laws u) n
      → IsInStep (set_endpoints (registry_store u) endpoints n) endpoints
  set_endpoints-IsInStep endpoints n w l c =
      let (all_listed, order) = set_endpoints-IsListed (registry_store u) endpoints n l in
      record {
        well_formed = set_endpoints-kept (registry_store u) IsWellFormed remote_kept endpoints n w;
        listed = all_listed;
        order = order;
        covered = set_endpoints-IsCovered (registry_store u) (registry_laws u) endpoints n c;
      }

  pub pull_all-IsInStep :
      (round : Round (registry_store u)) (nodes : List Text) (n : Network (registry_store u))
      → IsInStep n nodes
      → IsInStep (pull_all (registry_store u) round n) nodes
  unfolding pull_all
  pull_all-IsInStep round nodes n h =
      let (all_listed, same) = pull_each-Keeps (registry_store u) round n.peers.order n h.listed in
      record {
        well_formed =
            pull_all-kept (registry_store u) IsWellFormed remote_kept round n h.well_formed;
        listed = all_listed;
        order = same ∙ h.order;
        covered =
            pull_each-IsCovered (registry_store u) (registry_laws u) round n.peers.order n
              h.covered;
      }

  add-remote : (svc : Service) (r : Registry) → (add u svc r).1.remote ≡ r.remote
  unfolding add
  add-remote svc r =
      elim (Option-cases (add_refusal u (record svc { name = normalize_name u svc.name }) r)) [
        | inl free ↦ rw (free, add) refl
        | inr (e, refused) ↦ rw (refused, add) refl
      ]

  remove-remote : (name : Text) (r : Registry) → (remove u name r).1.remote ≡ r.remote
  unfolding remove
  remove-remote name r = ground arith

  pub control-remote : (req : Request) (a : Api) → (control u req a).1.dir.remote ≡ a.dir.remote
  unfolding control
  control-remote Request.get_status a = refl
  control-remote Request.get_info a = refl
  control-remote Request.get_services a = refl
  control-remote (Request.post_services (decoded svc)) a =
      ap (λ r. r.remote) (handle_add-dir u svc a) ∙ add-remote svc a.dir
  control-remote (Request.post_services (malformed e)) a = unfold handle_add in refl
  control-remote (Request.delete_service name) a =
      ap (λ r. r.remote) (handle_remove-dir u name a) ∙ remove-remote (normalize_name u name) a.dir
  control-remote (Request.get_resolve name) a = refl
  control-remote Request.get_nodes a = refl
  control-remote (Request.get_node id) a = refl
  control-remote (Request.other path) a = refl

  pub polled :
      (wording : Refusal → Text) (listing : Listing) (docker : Docker)
      → IsWellFormed docker.store
      → ((poll u wording listing docker).store.remote ≡ docker.store.remote)
        × IsWellFormed (poll u wording listing docker).store
  polled wording listing docker h = elim (poll-store u wording listing docker) [
    | inl same ↦ (ap (λ r. r.remote) same, subst IsWellFormed (sym same) h)
    | inr (services, cs, written) ↦ (
      ap (λ r. r.remote) written ∙ unfold set_docker in refl,
      subst IsWellFormed (sym written) (set_docker-IsWellFormed u services cs h),
    )
  ]
