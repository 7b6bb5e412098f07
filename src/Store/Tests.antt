-- ===== src/Store/Tests.antt =====
-- Runs of the store on small databases, and its theorems at concrete inputs.
use mathlib.Core.List.{Mem, Nodup, Nodup-nil, Nodup-cons, Perm}
use mathlib.Core.List.Perm
use razdacha.Prelude.{ap, ◌++◌, ◌↔◌, ◌≡◌, refl, true, false, List, [], ◌∷◌, map, String, none}
use razdacha.Prelude.Int.{pos}
use razdacha.Store.Text.{contains, contains_iff}
use razdacha.Store.Model.{Error, ok, err, Rule, validate_rule}
use razdacha.Store.Db.{Db, transaction}
use razdacha.Store.Tables.{
  order_by_priority, insert_by_priority, without_rule, update_priority, tunnel_exists,
  update_rule_row, check_affected,
}
use razdacha.Store.Rules.Rank.{index}
use razdacha.Store.Rules.SameSet.{same_set_iff}
use razdacha.Store.Rules.Create.{create_rule-succeeds}
use razdacha.Store.Rules.Refinement.{RuleCall, Refined, after_call, after_call-Refined}
use razdacha.Store.Rules.{
  same_set, same_set_from, apply_order, assign_priorities, validate_rule_peers, wrap_rule_write_err,
  update_rule_tx, create_rule, update_rule, delete_rule, reorder_rules, rule_ids_by_priority,
}
use razdacha.Store.Rules.Order.{IsPlaced}
use razdacha.Store.Rules.Assign.{ranked, ranked-IsPlaced}
use razdacha.Store.Rules.Reorder.{with_rules, reorder_rules-IsPlaced}
use razdacha.Store.Rules.Delete.{others, delete_rule-IsPlaced}

abbrev pub rule : String → Rule
rule id = record {
  id = id;
  name = "rule";
  action = "direct";
  tunnel_id = "";
  via_tunnel_id = "";
  priority = pos 0;
  enabled = true;
  community_lists = [];
  domains = "example.org" ∷ [];
  subnets = [];
  remote_lists = [];
  peer_scope = "all";
  peer_ids = [];
  resolve_real_ip = false;
}

abbrev pub three : List String
three = "a" ∷ "b" ∷ "c" ∷ []

abbrev pub empty : Db
empty = record { tunnels = []; rules = []; peers = []; credentials = [] }

abbrev pub small : Db
small = record empty { rules = map (ranked three) (rule "a" ∷ rule "b" ∷ rule "c" ∷ []) }

pub absent : (x : String) (xs : List String) → contains xs x ≡ false → ¬ Mem x xs
absent x xs h m = cc (h, (contains_iff xs x).1 m)

three-Nodup : Nodup three
unfolding contains
three-Nodup = Nodup-cons.1 (
  absent "a" ("b" ∷ "c" ∷ []) refl,
  Nodup-cons.1 (absent "b" ("c" ∷ []) refl, Nodup-cons.1 (absent "c" [] refl, Nodup-nil)),
)

pub small-IsPlaced : IsPlaced three small.rules
small-IsPlaced =
    ranked-IsPlaced three (rule "a" ∷ rule "b" ∷ rule "c" ∷ []) three-Nodup (Perm.refl _)

abbrev rotated : List String
rotated = "c" ∷ "a" ∷ "b" ∷ []

rotated-perm : Perm rotated three
unfolding same_set same_set_from contains
rotated-perm = (same_set_iff three rotated three-Nodup).0 refl

short-not-perm : ¬ Perm ("c" ∷ "a" ∷ []) three
unfolding same_set
short-not-perm p = cc ((same_set_iff three ("c" ∷ "a" ∷ []) three-Nodup).1 p)

-- The direct assignment of 0, 1, … would meet a priority that another row still has.
direct_assignment_collides : assign_priorities pos 0 rotated small.rules ≡ err Error.unique
unfolding assign_priorities update_priority index
direct_assignment_collides = refl

rotation_runs : rule_ids_by_priority (reorder_rules rotated small).1.rules ≡ rotated
unfolding reorder_rules same_set same_set_from contains apply_order order_by_priority
    insert_by_priority assign_priorities update_priority rule_ids_by_priority index
rotation_runs = refl

reorder_rules-IsPlaced_example :
    (reorder_rules rotated small ≡ (ok tt, with_rules small (map (ranked rotated) small.rules)))
    × IsPlaced rotated (map (ranked rotated) small.rules)
reorder_rules-IsPlaced_example = reorder_rules-IsPlaced small small-IsPlaced rotated rotated-perm

same_set_iff_example : (same_set three rotated ≡ none) ↔ Perm rotated three
same_set_iff_example = same_set_iff three rotated three-Nodup

b-Mem : Mem "b" three
unfolding contains
b-Mem = (contains_iff three "b").0 refl

d-absent : ¬ Mem "d" three
unfolding contains
d-absent = absent "d" three refl

delete_rule-IsPlaced_example :
    (delete_rule "b" small
      ≡ (ok tt, with_rules small (map (ranked (others "b" three)) (without_rule "b" small.rules))))
    × IsPlaced (others "b" three) (map (ranked (others "b" three)) (without_rule "b" small.rules))
delete_rule-IsPlaced_example = delete_rule-IsPlaced small small-IsPlaced "b" b-Mem

abbrev fourth : Rule
fourth = record (rule "d") { priority = pos 3 }

created : (create_rule "x" (rule "d") small).0 ≡ ok fourth
created =
    ap (λ r. r.0)
      (create_rule-succeeds small small-IsPlaced "x" (rule "d") (rule "d")
        (unfold validate_rule in refl) (unfold validate_rule_peers in refl) d-absent
        (unfold tunnel_exists in refl))

abbrev newest : Rule
newest = record (rule "x") { priority = pos 3 }

create_rule-succeeds_example :
    create_rule "x" (rule "") small
    ≡ (ok newest, record small { rules = small.rules ++ newest ∷ [] })
create_rule-succeeds_example =
    create_rule-succeeds small small-IsPlaced "x" (rule "") (rule "x")
      (unfold validate_rule in refl) (unfold validate_rule_peers in refl)
      (unfold contains in absent "x" three refl) (unfold tunnel_exists in refl)

updated : (update_rule (record (rule "b") { name = "new" }) small).0 ≡ ok tt
unfolding update_rule update_rule_tx validate_rule validate_rule_peers wrap_rule_write_err
    update_rule_row check_affected transaction index
updated = refl

after_call-Refined_example : Refined three (after_call (RuleCall.delete "a") small).rules
after_call-Refined_example = after_call-Refined small small-IsPlaced (RuleCall.delete "a")
