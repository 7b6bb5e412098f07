-- ===== src/Store/Peers/Runtime.antt =====
-- RealityRuntime of internal/store/reality.go: the clients that are let in with a committed policy.
use Prim.Native.String
use mathlib.Core.Bool.{not}
use razdacha.Prelude.{
  ℕ, Bool, true, false, ◌&&◌, ◌||◌, List, [], ◌∷◌, Option, none, some, String, ◌==◌, eqb, ltb, any,
  if◌then◌else◌,
}
use razdacha.Store.Model.{Peer, Credential}
use razdacha.Store.Db.{Db}
use razdacha.Store.Peers.{find_peer}

-- The query of RealityRuntime for the credentials in use: the row of a peer is found by its primary key.
unfoldable pub is_active : Option Peer → Bool
is_active none = false
is_active (some p) = p.enabled && p.reality_enabled

abbrev pub is_live : Db → Credential → Bool
is_live db c = is_active (find_peer db.peers c.peer_id)

-- RealityAdmission and RealityUser; the name of a user is made of the identifier of its peer.
pub record Admission : Type 0 where
  pub peer_id : String
  pub credential_id : String
  pub revision : ℕ

pub record User : Type 0 where
  pub peer_id : String
  pub name : String
  pub uuid : String

unfoldable pub reality_user_name : String → String
reality_user_name id = String.◌++◌ "client-" id

-- The part of a snapshot that RealityRuntime reads; the enabled REALITY settings are an input.
pub record Admitted : Type 0 where
  pub identity_id : String
  pub admissions : List Admission
  pub peers : List Peer

unfoldable pub admission_of : List Admission → String → Option Admission
admission_of [] id = none
admission_of (a ∷ admissions) id =
    let rest = admission_of admissions id in if a.peer_id == id then some a else rest

-- The loop over the admissions, with those so far: whether each is valid and none is there twice.
unfoldable pub valid_admissions : List String → List Admission → Bool
valid_admissions seen [] = true
valid_admissions seen (a ∷ admissions) =
    not (a.peer_id == "" || a.credential_id == "" || ltb a.revision 1)
    && not (any (λ id. id == a.peer_id) seen)
    && valid_admissions (a.peer_id ∷ seen) admissions

-- `policyPeers`: the last peer with the identifier stays, and a missing one has no access.
unfoldable pub policy_peer : List Peer → String → Option Peer
policy_peer [] id = none
policy_peer (p ∷ ps) id = elim (policy_peer ps id) [
  | some later ↦ some later
  | none ↦ if p.id == id then some p else none
]

-- The test in the loop over the rows of the query.
unfoldable pub matches : Option Admission → Credential → Bool
matches none c = false
matches (some a) c = a.credential_id == c.credential_id && eqb a.revision c.revision

unfoldable pub lets_in : Admitted → Db → Credential → Bool
lets_in snap db c =
    is_live db c
    && is_active (policy_peer snap.peers c.peer_id)
    && matches (admission_of snap.admissions c.peer_id) c

unfoldable pub users_of : Admitted → Db → List Credential → List User
users_of snap db [] = []
users_of snap db (c ∷ cs) =
    let rest = users_of snap db cs in
    if lets_in snap db c
    then (record { peer_id = c.peer_id; name = reality_user_name c.peer_id; uuid = c.uuid }) ∷ rest
    else rest

-- `enabled` says that REALITY is switched on in the snapshot and in the settings, and `identity` is the
-- identifier of the stored identity of the server. The rows of the query come in the order of the table.
unfoldable pub reality_users : Bool → Option String → Admitted → Db → Option (List User)
reality_users enabled identity snap db = if not enabled then some [] else elim identity [
  | none ↦ none
  | some id ↦
      if not (id == snap.identity_id)
      then none
      else if valid_admissions [] snap.admissions
      then some (users_of snap db db.credentials)
      else none
]
