-- ===== src/Daemon/Peers/Coverage.antt =====
-- Nothing learned from other nodes outlives the reason to trust it: internal/daemon/peers.go drops
-- the directory of a node that is no longer configured or no longer answers.
use corenet.Common.{
  ne-nil-is_empty, ℕ, Text, ◌≡◌, ◌≢◌, ◌⊎◌, refl, sym, ◌∙◌, true, false, not, ◌&&◌, List, [], ◌∷◌,
  some, arith, Map, get, get-put, is_some, is_empty, text_eq, text_eq_iff, text_eq_refl,
  if◌then◌else◌, Bool-cases, Option-cases, inl, inr,
}
use corenet.Protocol.{Service, Info}
use corenet.Daemon.Peers.{
  RemoteStore, PeerState, Network, Fetched, fetched, failed, Round, keep_states, fetch_both,
  seen_state, lost_state, forget_dropped, set_endpoints, mark_offline, publish, pull_result, pull,
  pull_each, pull_all,
}
use corenet.Daemon.Peers.Laws.{
  Event, pulled, configured, after, StoreLaws, Covers, keep_states-Agrees, Covers-put, apart_ne,
  fetch_both-filled,
}

module _ (S : RemoteStore) (L : StoreLaws S) where
  open L use {offers, forgets, others}

  -- Every directory that the store holds was learned from an endpoint that is configured and online.
  pub record IsCovered (n : Network S) : Type 0 where
    pub covered :
        (id k : Text) (s : Service)
        → offers n.store id k ≡ some s
        → (id ≢ []) × Covers n.peers.states id

  -- Forgetting only takes away.
  forget_dropped-offers :
      (old next : Map PeerState) (st : RemoteStore.Store S) (id k : Text) (s : Service)
      → offers (forget_dropped S old next st) id k ≡ some s
      → offers st id k ≡ some s
  unfolding forget_dropped
  forget_dropped-offers [] next st id k s h = h
  forget_dropped-offers ((e, t) ∷ old) next st id k s h =
      let before = forget_dropped-offers old next _ id k s h in
      ground (arith, before, forgets t.node_id id k st)

  -- What is still offered belongs to no endpoint that was dropped.
  forget_dropped-kept :
      (old next : Map PeerState) (st : RemoteStore.Store S) (id k : Text) (s : Service)
      → offers (forget_dropped S old next st) id k ≡ some s
      → (e : Text) (t : PeerState) → get old e ≡ some t
      → t.node_id ≡ id
      → id ≢ []
      → is_some (get next e) ≡ true
  unfolding forget_dropped get
  forget_dropped-kept [] next st id k s h e t there same filled = absurd (cc there)
  forget_dropped-kept ((e', t') ∷ old) next st id k s h e t there same filled =
      elim (Bool-cases (text_eq e' e)) [
        | inr other ↦
            forget_dropped-kept old next _ id k s h e t (ground (arith, there, other)) same filled
        | inl here ↦
            let before = forget_dropped-offers old next _ id k s h in
            let found : t' ≡ t = ground (arith, there, here) in
            let known : is_empty t.node_id ≡ false = rw same (ne-nil-is_empty id filled) in
            elim (Bool-cases (is_some (get next e))) [
              | inl kept ↦ kept
              | inr gone ↦
                  let at : e' ≡ e = (text_eq_iff e' e).0 here in
                  ground (
                    arith,
                    before,
                    found,
                    known,
                    gone,
                    at,
                    same,
                    forgets t'.node_id id k st,
                    text_eq_refl id,
                  )
            ]
      ]

  pub set_endpoints-IsCovered :
      (endpoints : List Text) (n : Network S)
      → IsCovered n
      → IsCovered (set_endpoints S endpoints n)
  unfolding set_endpoints get
  set_endpoints-IsCovered endpoints n h =
      let old = n.peers.states in
      let next = (keep_states old endpoints [] []).0 in
      record {
        covered = λ id k s offered.
            let (filled, (e, t, there, same, up)) =
              h.covered id k s (forget_dropped-offers old next n.store id k s offered) in
            let kept = forget_dropped-kept old next n.store id k s offered e t there same filled in
            let agrees = keep_states-Agrees old endpoints [] [] (λ e s q. inl refl) e t there in
            (filled, (e, t, ground (arith, kept, agrees), same, up));
      }

  -- What a node ID that differs from the written one still offers.
  forget-offers :
      (id j k : Text) (s : Service) (st : RemoteStore.Store S)
      → offers (if is_empty id then st else RemoteStore.set_remote S id [] st) j k ≡ some s
      → (offers st j k ≡ some s) × ((id ≡ []) ⊎ (id ≢ j))
  forget-offers [] j k s st h = (h, inl refl)
  forget-offers (c ∷ id) j k s st h =
      ground (arith, h, forgets (c ∷ id) j k st, text_eq_iff (c ∷ id) j)

  mark_offline-IsCovered :
      (endpoint cause : Text) (n : Network S)
      → IsCovered n
      → IsCovered (mark_offline S endpoint cause n)
  unfolding mark_offline
  mark_offline-IsCovered endpoint cause n h = elim (Option-cases (get n.peers.states endpoint)) [
    | inl gone ↦ rw (gone, mark_offline) h
    | inr (t, there) ↦
        rw (there, mark_offline)
          (record {
            covered = λ id k s offered.
                let (before, apart) = forget-offers t.node_id id k s n.store offered in
                let filled = (h.covered id k s before).0 in
                (
                  filled,
                  Covers-put n.peers.states endpoint t (lost_state cause t) there
                      (apart_ne apart filled) (h.covered id k s before).1,
                );
          })
  ]

  publish-offers :
      (previous_id node_id j k : Text) (services : List Service) (st : RemoteStore.Store S)
      (s : Service)
      → offers (publish S previous_id node_id services st) j k ≡ some s
      → (node_id ≡ j) ⊎ ((offers st j k ≡ some s) × ((previous_id ≡ []) ⊎ (previous_id ≢ j)))
  unfolding publish
  publish-offers previous_id node_id j k services st s h = elim (Bool-cases (text_eq node_id j)) [
    | inl same ↦ inl ((text_eq_iff node_id j).0 same)
    | inr other ↦ inr (left_over previous_id other (sym (others node_id j k services _ other) ∙ h))
  ]
    where
      left_over :
          (previous_id : Text)
          → text_eq node_id j ≡ false
          → offers
              (if not (is_empty previous_id) && not (text_eq previous_id node_id)
                then RemoteStore.set_remote S previous_id [] st
                else st)
              j
              k
            ≡ some s
          → (offers st j k ≡ some s) × ((previous_id ≡ []) ⊎ (previous_id ≢ j))
      left_over [] other h = (h, inl refl)
      left_over (c ∷ p) other h = ground (
        arith,
        h,
        other,
        forgets (c ∷ p) j k st,
        text_eq_iff (c ∷ p) j,
        text_eq_iff (c ∷ p) node_id,
        text_eq_iff node_id j,
      )

  pull-IsCovered :
      (endpoint : Text) (now : ℕ) (info : Fetched Info) (services : Fetched (List Service))
      (n : Network S)
      → IsCovered n
      → IsCovered (pull S endpoint now info services n)
  unfolding pull
  pull-IsCovered endpoint now info services n h =
      go (fetch_both n.peers.local_node_id info services) refl
    where
      go :
          (f : Fetched (Info × List Service))
          → fetch_both n.peers.local_node_id info services ≡ f
          → IsCovered (pull_result S endpoint now n f)
      go (failed cause) e = mark_offline-IsCovered endpoint cause n h
      go (fetched (i, l)) e = elim (Option-cases (get n.peers.states endpoint)) [
        | inl gone ↦ rw gone h
        | inr (t, there) ↦ rw there (record {
          covered = λ id k s offered.
              elim (publish-offers t.node_id i.node_id id k l n.store s offered) [
                | inl same ↦ (
                  rw (← same) ((fetch_both-filled n.peers.local_node_id info services e).0),
                  (
                    endpoint,
                    seen_state i now t,
                    ground (
                      arith,
                      get-put n.peers.states endpoint endpoint (seen_state i now t),
                      text_eq_refl endpoint,
                    ),
                    same,
                    refl,
                  ),
                )
                | inr (before, apart) ↦
                    let (filled, cover) = h.covered id k s before in
                    (
                      filled,
                      Covers-put n.peers.states endpoint t (seen_state i now t) there
                          (apart_ne apart filled) cover,
                    )
              ];
        })
      ]

  pub pull_each-IsCovered :
      (round : Round S) (endpoints : List Text) (n : Network S)
      → IsCovered n
      → IsCovered (pull_each S round endpoints n)
  unfolding pull_each
  pull_each-IsCovered round [] n h = h
  pull_each-IsCovered round (e ∷ endpoints) n h =
      pull_each-IsCovered round endpoints _
        (pull-IsCovered e round.now (round.info e) (round.services e) n h)

  -- Where each round and each reload is over before the next begins, and whatever the other nodes
  -- answer: if every directory that the store holds was learned from an endpoint that is configured
  -- and online, then this still holds after any rounds and reloads.
  pub after-IsCovered :
      (events : List (Event S)) (n : Network S) → IsCovered n → IsCovered (after S events n)
  unfolding after pull_all
  after-IsCovered [] n h = h
  after-IsCovered (pulled round ∷ events) n h =
      after-IsCovered events _ (pull_each-IsCovered round n.peers.order n h)
  after-IsCovered (configured endpoints ∷ events) n h =
      after-IsCovered events _ (set_endpoints-IsCovered endpoints n h)
