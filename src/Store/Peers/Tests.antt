-- ===== src/Store/Peers/Tests.antt =====
-- The peers at concrete inputs.
use mathlib.Core.List.{Mem, mem-cons_self}
use razdacha.Prelude.{
  ◌≡◌, ◌≤◌, List, any, ◌==◌, refl, sym, subst, true, false, [], ◌∷◌, map, String, none, some,
  length,
}
use razdacha.Store.Text.{contains, contains_iff}
use razdacha.Store.Model.{Result, ok, Rule, Peer, scope_selected}
use razdacha.Store.Db.{Db, transaction}
use razdacha.Store.Rules.Assign.{ranked}
use razdacha.Store.Rules.Order.{IsPlaced}
use razdacha.Store.Tests.{rule, three, small, small-IsPlaced}
use razdacha.Store.Rules.Order.{map-IsPlaced}
use razdacha.Store.Peers.{find_peer, select_peer}
use razdacha.Store.Peers.Runtime.{
  Admitted, User, reality_user_name, reality_users, valid_admissions, users_of, lets_in, is_active,
  policy_peer, matches, admission_of,
}
use razdacha.Store.Peers.Consistent.{IsConsistent}
use razdacha.Store.Peers.Consistent.Calls.{
  PeerCall, after_peer_call, after_peer_calls, after_peer_calls-IsConsistent,
}
use razdacha.Store.Peers.Snapshot.{
  admissions_of, snapshot, IsIssued, live_users, reality_users-snapshot, snapshot-AdmitsUpTo,
}
use razdacha.Store.Peers.Revoked.{TakesAway, reality_users-revoked}
use razdacha.Store.Peers.Patch.{rotate_reality, rotate_reality_tx, stale, store_rotation}
use razdacha.Store.Peers.Deletion.{
  PeerDeletion, peer_ids_of, delete_peer_with_effects, without_peer,
}
use razdacha.Store.Peers.Kept.{those_in, first_mentions, without_text}
use razdacha.Store.Peers.Narrow.{
  restricted, forgotten, delete_peer_with_effects-present, delete_peer_with_effects-forgets,
}

abbrev peer : String → Peer
peer id = record {
  wire_guard_disabled = false;
  reality_enabled = true;
  reality_credential_id = "c";
  reality_revision = 3;
  egress_tunnel_id = none;
  id = id;
  name = "peer";
  public_key = id;
  private_key = "k";
  preshared_key = "p";
  address = id;
  enabled = true;
  created_at = some 1;
}

-- Every rule selects the peers "x" and "y".
abbrev select_both : Rule → Rule
select_both r = record r { peer_scope = scope_selected; peer_ids = "x" ∷ "y" ∷ [] }

abbrev with_peers : Db
with_peers = record {
  tunnels = [];
  rules = map select_both small.rules;
  peers = peer "x" ∷ peer "y" ∷ [];
  credentials = (record { peer_id = "x"; credential_id = "c"; revision = 3; uuid = "u" }) ∷ [];
}

with_peers-IsPlaced : IsPlaced three with_peers.rules
with_peers-IsPlaced = map-IsPlaced select_both (λ r. refl) (λ r. refl) small-IsPlaced

x-Mem : Mem "x" (peer_ids_of with_peers.peers)
unfolding contains
x-Mem = (contains_iff (peer_ids_of with_peers.peers) "x").0 refl

delete_peer_with_effects-present_example :
    (effects : PeerDeletion) × (delete_peer_with_effects "x" with_peers
      ≡ (ok effects, forgotten "x" with_peers))
delete_peer_with_effects-present_example =
    delete_peer_with_effects-present with_peers with_peers-IsPlaced "x" x-Mem

-- The first rule after the deletion of "x".
abbrev first_left : Rule
first_left = record (select_both (ranked three (rule "a"))) { peer_ids = "y" ∷ [] }

first_left-Mem : Mem first_left (delete_peer_with_effects "x" with_peers).1.rules
unfolding restricted those_in first_mentions without_text without_peer contains any
first_left-Mem =
    let (_, done) = delete_peer_with_effects-present with_peers with_peers-IsPlaced "x" x-Mem in
    subst (λ (r : Result PeerDeletion × Db). Mem first_left r.1.rules) (sym done) mem-cons_self

delete_peer_with_effects-forgets_example :
    (contains first_left.peer_ids "x" ≡ false)
    × (first_left.enabled ≡ true → 1 ≤ length first_left.peer_ids)
delete_peer_with_effects-forgets_example =
    delete_peer_with_effects-forgets with_peers with_peers-IsPlaced "x" x-Mem first_left
      first_left-Mem refl

abbrev rotated : Peer
rotated = record (peer "x") { reality_revision = 4 }

rotation_runs : (rotate_reality "v" "x" 3 with_peers).0 ≡ ok rotated
unfolding rotate_reality rotate_reality_tx stale store_rotation select_peer find_peer transaction
rotation_runs = refl

with_peers-IsConsistent : IsConsistent with_peers
unfolding find_peer
with_peers-IsConsistent = ((peer "x", refl, refl, refl), tt)

-- Two rotations, of which the second comes with the revision before the first, and a deletion.
abbrev calls : List PeerCall
calls = PeerCall.rotation "v" "x" 3 ∷ PeerCall.rotation "w" "x" 3 ∷ PeerCall.delete "y" ∷ []

after_peer_calls-IsConsistent_example : IsConsistent (after_peer_calls calls with_peers)
after_peer_calls-IsConsistent_example =
    after_peer_calls-IsConsistent calls with_peers with_peers-IsConsistent

-- Both peers with a credential.
abbrev two_users : Db
two_users = record with_peers {
  peers = peer "x" ∷ (record (peer "y") { reality_credential_id = "d" }) ∷ [];
  credentials =
      (record { peer_id = "x"; credential_id = "c"; revision = 3; uuid = "u" })
      ∷ (record { peer_id = "y"; credential_id = "d"; revision = 3; uuid = "w" })
      ∷ [];
}

two_users-IsConsistent : IsConsistent two_users
unfolding find_peer
two_users-IsConsistent = (
  (peer "x", refl, refl, refl),
  ((record (peer "y") { reality_credential_id = "d" }, refl, refl, refl), tt),
)

two_users-IsIssued : IsIssued two_users.peers
unfolding any
two_users-IsIssued = (refl, (λ on. (refl, refl)), (refl, (λ on. (refl, refl)), tt))

-- The policy that was committed before the rotation.
abbrev before_rotation : Admitted
before_rotation = snapshot "i" two_users

abbrev rotation : PeerCall
rotation = PeerCall.rotation "v" "x" 3

abbrev user : String → String → User
user id uuid = record { peer_id = id; name = reality_user_name id; uuid = uuid }

find_x : find_peer two_users.peers "x" ≡ some (peer "x")
unfolding find_peer
find_x = refl

-- The policy lets both peers in before the rotation, and one of them after it.
both_live : live_users two_users two_users.credentials ≡ user "x" "u" ∷ user "y" "w" ∷ []
unfolding live_users is_active find_peer
both_live = refl

reality_users-snapshot_example :
    reality_users true (some "i") before_rotation two_users
    ≡ some (live_users two_users two_users.credentials)
reality_users-snapshot_example =
    reality_users-snapshot "i" two_users two_users-IsConsistent two_users-IsIssued

lets_one_in :
    reality_users true (some "i") before_rotation (after_peer_call rotation two_users)
    ≡ some (user "y" "w" ∷ [])
unfolding reality_users after_peer_call rotate_reality valid_admissions admissions_of any users_of
    transaction rotate_reality_tx select_peer find_peer stale store_rotation lets_in is_active
    policy_peer matches admission_of
lets_one_in = refl

two_users-rotated : (rotate_reality "v" "x" 3 two_users).0 ≡ ok rotated
unfolding rotate_reality rotate_reality_tx stale store_rotation select_peer find_peer transaction
    any
two_users-rotated = refl

reality_users-revoked_example : any (λ u. u.peer_id == "x") (user "y" "w" ∷ []) ≡ false
reality_users-revoked_example =
    reality_users-revoked "x" (peer "x") two_users rotation true (some "i") before_rotation
      (user "y" "w" ∷ []) two_users-IsConsistent find_x
      (TakesAway.rotated rotated two_users-rotated)
      (snapshot-AdmitsUpTo "i" two_users "x" {old = peer "x"} two_users-IsIssued find_x) lets_one_in
