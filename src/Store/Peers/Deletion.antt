-- ===== src/Store/Peers/Deletion.antt =====
-- `DeletePeerWithEffects`.
use razdacha.Prelude.{
  Bool, not, ◌&&◌, List, [], ◌∷◌, ◌++◌, map, String, ◌==◌, Option, none, some, ltb, eqb,
  if◌then◌else◌, any, length,
}
use razdacha.Store.Text.{contains}
use razdacha.Store.Model.{Result, ok, Rule, Peer, Credential, is_empty, scope_selected}
use razdacha.Store.Db.{Db, Tx, ◌>>=◌, ◌>>◌, transaction}
use razdacha.Store.Tables.{order_by_priority, check_affected}
use razdacha.Store.Peers.{eqb_Bool}

-- DELETE FROM peers WHERE id = ?: the credential goes with its peer.
unfoldable pub without_peer : String → List Peer → List Peer
without_peer id [] = []
without_peer id (p ∷ ps) = let rest = without_peer id ps in if p.id == id then rest else p ∷ rest

unfoldable pub without_credential : String → List Credential → List Credential
without_credential id [] = []
without_credential id (c ∷ cs) =
    let rest = without_credential id cs in if c.peer_id == id then rest else c ∷ rest

unfoldable pub delete_peer_row : String → Tx Bool
unfolding any without_peer without_credential
delete_peer_row id db = ok (
  any (λ p. p.id == id) db.peers,
  record db {
    peers = without_peer id db.peers;
    credentials = without_credential id db.credentials;
  },
)

abbrev pub peer_ids_of : List Peer → List String
peer_ids_of = map (λ p. p.id)

-- The inner loop: the selected peers that are present, each once. `seen` is the set of the source.
unfoldable pub kept_from : List String → List String → List String → List String
unfolding contains
kept_from present seen [] = []
kept_from present seen (id ∷ ids) =
    let skipped = kept_from present seen ids in
    let kept = kept_from present (id ∷ seen) ids in
    if contains present id && not (contains seen id) then id ∷ kept else skipped

-- What the loop writes to a rule, if anything: its peers, and whether it stays enabled.
unfoldable pub pruned : List String → Rule → Option (List String × Bool)
unfolding kept_from
pruned present r =
    let kept = kept_from present [] r.peer_ids in
    let enabled = r.enabled && ltb 0 (length kept) in
    if not (r.peer_scope == scope_selected)
    then none
    else if eqb (length kept) (length r.peer_ids) && eqb_Bool enabled r.enabled
    then none
    else some (kept, enabled)

-- UPDATE rules SET peer_ids = ?, enabled = ? WHERE id = ?.
unfoldable pub set_peers : String → List String → Bool → Rule → Rule
set_peers id kept enabled r =
    if r.id == id then record r { peer_ids = kept; enabled = enabled } else r

pub record PeerDeletion : Type 0 where
  pub affected_rule_ids : List String
  pub inactivated_rule_ids : List String

unfoldable pub affect : Rule → List String → PeerDeletion → PeerDeletion
affect r kept effects = record {
  affected_rule_ids = effects.affected_rule_ids ++ r.id ∷ [];
  inactivated_rule_ids = effects.inactivated_rule_ids ++ (if is_empty kept then r.id ∷ [] else []);
}

-- The outer loop, over the rules that were read before it.
unfoldable pub prune_rules :
    List String → List Rule → PeerDeletion → List Rule → PeerDeletion × List Rule
prune_rules present [] effects table = (effects, table)
prune_rules present (r ∷ rs) effects table = elim (pruned present r) [
  | none ↦ prune_rules present rs effects table
  | some (kept, enabled) ↦
      prune_rules present rs (affect r kept effects) (map (set_peers r.id kept enabled) table)
]

abbrev pub no_effects : PeerDeletion
no_effects = record { affected_rule_ids = []; inactivated_rule_ids = [] }

unfoldable pub prune_all_rules : Tx PeerDeletion
prune_all_rules db =
    let (effects, table) =
      prune_rules (peer_ids_of db.peers) (order_by_priority db.rules) no_effects db.rules in
    ok (effects, record db { rules = table })

unfoldable pub delete_peer_with_effects : String → Db → Result PeerDeletion × Db
delete_peer_with_effects id =
    transaction do affected ← delete_peer_row id; check_affected affected; prune_all_rules
