-- ===== src/Store/Rules/Peers.antt =====
-- `validateRulePeers`.
use razdacha.Prelude.{◌≡◌, arith}
use razdacha.Store.Model.{ok, Rule}
use razdacha.Store.Db.{Db}
use razdacha.Store.Rules.{validate_rule_peers}

-- The check of the peers changes nothing but the list of peers.
pub validate_rule_peers-ok :
    (r checked : Rule) (db db' : Db)
    → validate_rule_peers r db ≡ ok (checked, db')
    → (db' ≡ db) × (checked.id ≡ r.id)
unfolding validate_rule_peers
validate_rule_peers-ok r checked db db' h = ground arith
