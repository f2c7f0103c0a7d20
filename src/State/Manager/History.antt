-- ===== src/State/Manager/History.antt =====
-- What stays in the database through any further calls of the manager (pkg/state/state.go).
use peerdns.Prelude.{
  ◌≡◌, ◌≢◌, refl, ap, ◌∙◌, Option, none, some, List, [], ◌∷◌, arith, Bytes, beq, beq_iff,
  Bool-cases, Option-cases, inl, inr, is_some, drop,
}
use peerdns.Prelude.Int.{ℤ, IsInt64}
use peerdns.Storage
use peerdns.Storage.{Mdbx, IsStore}
use peerdns.State.Decoder.{decoded, IsLossless}
use peerdns.State.Records.{
  Proposal, Peer, LatencyRecord, Finalization, encode_peer, decode_peer, encode_proposal,
}
use peerdns.State.Records.RoundTrip.{
  ProposalFits, PeerFits, decode_proposal-encode_proposal, decode_peer-encode_peer,
}
use peerdns.State.Manager.{
  Env, Answer, answer, refused, crashed, proposal_key, peer_key, latency_prefix, latency_key, store,
  store_new, fetch, add_proposal, get_proposal, add_peer, get_peer, mark_left, remove_found,
  remove_peer, record_latency, add_finalization,
}

-- The calls that change the database.
pub data Call : Type 0 where
  adds_proposal : Proposal → Call
  adds_peer : Peer → Call
  removes_peer : Bytes → ℤ → Call
  records_latency : LatencyRecord → Call
  adds_finalization : Finalization → Call

module _ (env : Env) where
  open env use {db, s2}

  unfoldable pub perform : Call → db.Contents → db.Contents
  perform (adds_proposal p) s = (add_proposal env p s).1
  perform (adds_peer p) s = (add_peer env p s).1
  perform (removes_peer id t) s = (remove_peer env id t s).1
  perform (records_latency r) s = (record_latency env r s).1
  perform (adds_finalization f) s = (add_finalization env f s).1

  unfoldable pub perform_all : List Call → db.Contents → db.Contents
  perform_all [] s = s
  perform_all (c ∷ cs) s = perform_all cs (perform c s)

module _ (env : Env) (law : IsStore env.db) where
  open env use {db, s2}

  -- The database answers the same under the key.
  abbrev Same : Bytes → db.Contents → db.Contents → Type 0
  Same k s t = db.get t k ≡ db.get s k

  store-Same :
      (key value k : Bytes) (s : db.Contents) → key ≢ k → Same k s (store env key value s).1
  unfolding store Storage.set
  store-Same key value k s ne = elim (Option-cases (db.put s key value)) [
    | inl e ↦ rw (store, e) refl
    | inr (t, e) ↦ rw (store, e) (law.get-put_ne s t key k value e ne)
  ]

  -- What is there is never replaced by a store under a new key.
  store_new-Same :
      (key value k v : Bytes) (s : db.Contents)
      → db.get s k ≡ some v
      → Same k s (store_new env key value s).1
  unfolding store_new Storage.exists
  store_new-Same key value k v s found = elim (Bool-cases (is_some (db.get s key))) [
    | inl old ↦ rw old refl
    | inr new ↦ rw new (
        store-Same key value k s
          (λ e. let f : db.get s key ≡ some v = rw e found in ground (arith, f, new)))
  ]

  peer_not_proposal : (a b : Bytes) → peer_key a ≢ proposal_key b
  unfolding peer_key proposal_key
  peer_not_proposal a b e = ground (arith, e)

  latency_not_proposal : (r : LatencyRecord) (b : Bytes) → latency_key r ≢ proposal_key b
  unfolding latency_key latency_prefix proposal_key
  latency_not_proposal r b e = ground (arith, e)

  mark_left-Same :
      (id : Bytes) (t : ℤ) (p : Peer) (o : Option ℤ) (k : Bytes) (s : db.Contents)
      → peer_key id ≢ k
      → Same k s (mark_left env id t p o s).1
  unfolding mark_left
  mark_left-Same id t p (some u) k s ne = refl
  mark_left-Same id t p none k s ne =
      store-Same (peer_key id) (encode_peer s2 (record p { left_at = some t })) k s ne

  remove_found-Same :
      (id : Bytes) (t : ℤ) (a : Answer Peer) (k : Bytes) (s : db.Contents)
      → peer_key id ≢ k
      → Same k s (remove_found env id t a s).1
  unfolding remove_found
  remove_found-Same id t (answer p) k s ne = mark_left-Same id t p p.left_at k s ne
  remove_found-Same id t (refused e) k s ne = refl
  remove_found-Same id t crashed k s ne = refl

  proposal-Same :
      (c : Call) (id v : Bytes) (s : db.Contents)
      → db.get s (proposal_key id) ≡ some v
      → Same (proposal_key id) s (perform env c s)
  unfolding perform add_proposal add_peer remove_peer record_latency add_finalization
  proposal-Same (adds_proposal p) id v s found = store_new-Same _ _ (proposal_key id) v s found
  proposal-Same (adds_peer p) id v s found = store_new-Same _ _ (proposal_key id) v s found
  proposal-Same (removes_peer i t) id v s found =
      remove_found-Same i t (get_peer env i s) (proposal_key id) s (peer_not_proposal i id)
  proposal-Same (records_latency r) id v s found =
      store-Same _ _ (proposal_key id) s (latency_not_proposal r id)
  proposal-Same (adds_finalization f) id v s found = store_new-Same _ _ (proposal_key id) v s found

  proposal_stays :
      (cs : List Call) (id v : Bytes) (s : db.Contents)
      → db.get s (proposal_key id) ≡ some v
      → db.get (perform_all env cs s) (proposal_key id) ≡ some v
  unfolding perform_all
  proposal_stays [] id v s found = found
  proposal_stays (c ∷ cs) id v s found =
      proposal_stays cs id v (perform env c s) (proposal-Same c id v s found ∙ found)

  -- A call that succeeds has stored its value.
  store_found :
      (key value : Bytes) (s : db.Contents)
      → (store env key value s).0 ≡ answer tt
      → db.get (store env key value s).1 key ≡ some value
  unfolding store Storage.set
  store_found key value s h = elim (Option-cases (db.put s key value)) [
    | inl e ↦ absurd (ground (arith, h, e))
    | inr (t, e) ↦ rw (store, e) (law.get-put_self s t key value e)
  ]

  store_new_found :
      (key value : Bytes) (s : db.Contents)
      → (store_new env key value s).0 ≡ answer tt
      → db.get (store_new env key value s).1 key ≡ some value
  unfolding store_new
  store_new_found key value s h = elim (Bool-cases (Storage.exists db s key)) [
    | inl old ↦ absurd (ground (arith, h, old))
    | inr new ↦ rw new (store_found key value s (rw new at h))
  ]

  latency_not_peer : (r : LatencyRecord) (b : Bytes) → latency_key r ≢ peer_key b
  unfolding latency_key latency_prefix peer_key
  latency_not_peer r b e = ground (arith, e)

  peer_key-injective : (a b : Bytes) → peer_key a ≡ peer_key b → a ≡ b
  unfolding peer_key
  peer_key-injective a b e = ap (drop 5) e

  -- A peer that has left, as it stands in the database.
  record HasLeft (id v : Bytes) (q : Peer) (t : ℤ) (s : db.Contents) : Type 0 where
    found : db.get s (peer_key id) ≡ some v
    reads : decode_peer s2 v ≡ decoded q
    left : q.left_at ≡ some t

  remove_again :
      (i : Bytes) (u : ℤ) (id v : Bytes) (q : Peer) (t : ℤ) (s : db.Contents)
      → HasLeft id v q t s
      → Same (peer_key id) s (remove_found env i u (get_peer env i s) s).1
  unfolding get_peer fetch Storage.get remove_found mark_left
  remove_again i u id v q t s h = elim (Bool-cases (beq i id)) [
    | inl same ↦ rw ((beq_iff i id).0 same, get_peer, fetch, h.found, h.reads, h.left) h.found
    | inr other ↦
        remove_found-Same i u (get_peer env i s) (peer_key id) s
          (λ e. let f = peer_key-injective i id e in ground (arith, beq_iff i id, f, other))
  ]

  left-Same :
      (c : Call) (id v : Bytes) (q : Peer) (t : ℤ) (s : db.Contents)
      → HasLeft id v q t s
      → Same (peer_key id) s (perform env c s)
  unfolding perform add_proposal add_peer remove_peer record_latency add_finalization
  left-Same (adds_proposal p) id v q t s h = store_new-Same _ _ (peer_key id) v s h.found
  left-Same (adds_peer p) id v q t s h = store_new-Same _ _ (peer_key id) v s h.found
  left-Same (removes_peer i u) id v q t s h = remove_again i u id v q t s h
  left-Same (records_latency r) id v q t s h =
      store-Same _ _ (peer_key id) s (latency_not_peer r id)
  left-Same (adds_finalization f) id v q t s h = store_new-Same _ _ (peer_key id) v s h.found

  left_stays :
      (cs : List Call) (id v : Bytes) (q : Peer) (t : ℤ) (s : db.Contents)
      → HasLeft id v q t s
      → db.get (perform_all env cs s) (peer_key id) ≡ some v
  unfolding perform_all
  left_stays [] id v q t s h = h.found
  left_stays (c ∷ cs) id v q t s h =
      left_stays cs id v q t (perform env c s)
        (record { found = left-Same c id v q t s h ∙ h.found; reads = h.reads; left = h.left })

  mark_left_found :
      (id : Bytes) (t : ℤ) (p : Peer) (o : Option ℤ) (s : db.Contents)
      → (mark_left env id t p o s).0 ≡ answer tt
      → db.get (mark_left env id t p o s).1 (peer_key id)
        ≡ some (encode_peer s2 (record p { left_at = some t }))
  unfolding mark_left
  mark_left_found id t p (some u) s h = absurd (ground (arith, h))
  mark_left_found id t p none s h = store_found _ _ s h

-- A proposal whose lengths fit an int32, once it was added, is what `GetProposal` returns for its
-- identifier after any further calls of the manager. The compression is lossless.
pub get_proposal-add_proposal :
    (env : Env) (p : Proposal) (cs : List Call) (s : env.db.Contents)
    → IsStore env.db
    → IsLossless env.s2
    → ProposalFits p
    → (add_proposal env p s).0 ≡ answer tt
    → get_proposal env p.id (perform_all env cs (add_proposal env p s).1) ≡ answer p
unfolding add_proposal get_proposal fetch Storage.get
get_proposal-add_proposal env p cs s law lossless fits added =
    let v = encode_proposal env.s2 p in
    let found = store_new_found env law (proposal_key p.id) v s added in
    rw
      (
        fetch,
        proposal_stays env law cs p.id v (add_proposal env p s).1 found,
        decode_proposal-encode_proposal env.s2 lossless p fits,
      )
      refl

-- A peer whose removal succeeded keeps the time of that removal after any further calls of the
-- manager: no call adds it again or removes it at another time. The peer's lengths fit an int32
-- and the times an int64; the compression is lossless.
pub get_peer-remove_peer :
    (env : Env) (id : Bytes) (t : ℤ) (p : Peer) (cs : List Call) (s : env.db.Contents)
    → IsStore env.db
    → IsLossless env.s2
    → PeerFits p
    → IsInt64 t
    → get_peer env id s ≡ answer p
    → (remove_peer env id t s).0 ≡ answer tt
    → get_peer env id (perform_all env cs (remove_peer env id t s).1)
      ≡ answer (record p { left_at = some t })
unfolding remove_peer remove_found get_peer fetch Storage.get
get_peer-remove_peer env id t p cs s law lossless fits time known removed =
    let q : Peer = record p { left_at = some t } in
    let v = encode_peer env.s2 q in
    let reads = decode_peer-encode_peer env.s2 lossless q (fits.0, fits.1, fits.2, time) in
    let found : env.db.get (remove_peer env id t s).1 (peer_key id) ≡ some v =
      rw (remove_peer, known)
        (mark_left_found env law id t p p.left_at s (rw (remove_peer, known) at removed)) in
    rw
      (
        get_peer,
        fetch,
        left_stays env law cs id v q t (remove_peer env id t s).1
            (record { found = found; reads = reads; left = refl }),
        reads,
      )
      refl
