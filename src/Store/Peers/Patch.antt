-- ===== src/Store/Peers/Patch.antt =====
-- `PeerPatch`, `PatchPeer`, and of internal/store/reality.go the revisions of the credentials.
use razdacha.Prelude.{
  ℕ, Bool, not, ◌&&◌, ◌||◌, List, [], ◌∷◌, map, String, ◌==◌, Option, none, some, ◌+◌, leb, eqb,
  if◌then◌else◌, any,
}
use razdacha.Store.Text.{trim_space}
use razdacha.Store.Model.{Error, Result, ok, err, Peer, Credential, validate_peer}
use razdacha.Store.Db.{Db, Tx, ◌>>=◌, ◌>>◌, pure, check, transaction}
use razdacha.Store.Peers.{select_peer, ensure_peer_reality, update_peer_tx}

-- `PeerPatch`: a field is `none` where the request left it out. `egress_tunnel` is
-- `SetEgressTunnel` with `EgressTunnelID`.
pub record PeerPatch : Type 0 where
  pub wire_guard_enabled : Option Bool
  pub reality_enabled : Option Bool
  pub name : Option String
  pub enabled : Option Bool
  pub set_egress_tunnel : Bool
  pub egress_tunnel_id : Option String

abbrev or_keep {ℓ} : {A : Type ℓ} → Option A → A → A
or_keep none old = old
or_keep (some new) old = new

-- The merge of `PeerPatch.Apply`.
unfoldable pub merged : PeerPatch → Peer → Peer
merged patch p = record p {
  wire_guard_disabled = elim patch.wire_guard_enabled [
    | none ↦ p.wire_guard_disabled
    | some on ↦ not on
  ];
  reality_enabled = or_keep patch.reality_enabled p.reality_enabled;
  name = elim patch.name [ none ↦ p.name | some name ↦ trim_space name ];
  enabled = or_keep patch.enabled p.enabled;
  egress_tunnel_id = if patch.set_egress_tunnel then patch.egress_tunnel_id else p.egress_tunnel_id;
}

unfoldable pub apply_patch : PeerPatch → Peer → Result Peer
apply_patch patch p = elim (validate_peer (merged patch p)) [
  | some e ↦ err e
  | none ↦ ok (merged patch p)
]

-- SELECT revision FROM reality_credentials, or 0.
unfoldable pub revision_of : List Credential → String → ℕ
revision_of [] id = 0
revision_of (c ∷ cs) id =
    let rest = revision_of cs id in if c.peer_id == id then c.revision else rest

unfoldable pub bump_credential : String → String → Credential → Credential
bump_credential uuid id c =
    if c.peer_id == id then record c { revision = c.revision + 1; uuid = uuid } else c

unfoldable pub bump_peer : List Credential → String → Peer → Peer
unfolding revision_of
bump_peer cs id p = if p.id == id then record p { reality_revision = revision_of cs p.id } else p

-- `invalidateReality` of one peer; the text is the value of `newID()`. A peer has one credential.
unfoldable pub invalidate_reality : String → String → Tx (Unit {0})
unfolding any bump_credential
invalidate_reality uuid id db =
    let credentials = map (bump_credential uuid id) db.credentials in
    if any (λ c. c.peer_id == id) db.credentials
      && any (λ c. not (c.peer_id == id) && (c.uuid == uuid)) db.credentials
    then err Error.unique
    else ok (
      tt,
      record db { credentials = credentials; peers = map (bump_peer credentials id) db.peers },
    )

-- `PatchPeer`; the texts are the values of `newID()`.
unfoldable pub patch_peer_tx : String → String → String → String → PeerPatch → Tx Peer
patch_peer_tx credential uuid next_uuid id patch = do
  old ← select_peer id
  next ← λ db. elim (apply_patch patch old) [ err e ↦ err e | ok p ↦ ok (p, db) ]
  p ← if next.reality_enabled then ensure_peer_reality credential uuid next else pure next
  update_peer_tx p
  if old.enabled && old.reality_enabled && (not p.enabled || not p.reality_enabled)
      then invalidate_reality next_uuid p.id
        >> pure (record p { reality_revision = p.reality_revision + 1 })
      else pure p

unfoldable pub patch_peer : String → String → String → String → PeerPatch → Db → Result Peer × Db
patch_peer credential uuid next_uuid id patch =
    transaction (patch_peer_tx credential uuid next_uuid id patch)

-- `RotateReality`.
unfoldable pub rotate_credential : String → Peer → Credential → Credential
rotate_credential uuid p c =
    if (c.peer_id == p.id) && (c.credential_id == p.reality_credential_id)
    then record c { revision = p.reality_revision; uuid = uuid }
    else c

unfoldable pub with_revision : ℕ → String → Peer → Peer
with_revision revision id p = if p.id == id then record p { reality_revision = revision } else p

unfoldable pub store_rotation : String → Peer → Tx (Unit {0})
unfolding any rotate_credential with_revision
store_rotation uuid p db =
    if any (λ c. (c.peer_id == p.id) && (c.credential_id == p.reality_credential_id)) db.credentials
      && any (λ c. not (c.peer_id == p.id) && (c.uuid == uuid)) db.credentials
    then err Error.unique
    else ok (
      tt,
      record db {
        credentials = map (rotate_credential uuid p) db.credentials;
        peers = map (with_revision p.reality_revision p.id) db.peers;
      },
    )

unfoldable pub stale : ℕ → Peer → Bool
stale expected p =
    not p.reality_enabled || not (eqb p.reality_revision expected) || not (leb 1 expected)

unfoldable pub rotate_reality_tx : String → String → ℕ → Tx Peer
rotate_reality_tx uuid id expected = do
  old ← select_peer id
  check (if stale expected old then some Error.conflict else none)
  let p = record old { reality_revision = old.reality_revision + 1 }
  store_rotation uuid p
  pure p

unfoldable pub rotate_reality : String → String → ℕ → Db → Result Peer × Db
rotate_reality uuid id expected = transaction (rotate_reality_tx uuid id expected)
