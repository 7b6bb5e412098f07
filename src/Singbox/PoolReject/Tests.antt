-- ===== src/Singbox/PoolReject/Tests.antt =====
-- The loop over refused servers at a concrete input.
use razdacha.Prelude.{
  ◌≡◌, refl, Bool, true, false, List, [], ◌∷◌, none, some, String, ◌==◌, if◌then◌else◌,
}
use razdacha.Store.Model.{PoolServer, Tunnel, source_pool}
use razdacha.Singbox.PoolReject.{
  has_seen, select_from, select_pool_servers, members_from, pool_members, last_entry, without_url,
  without_pool_server, pool_server_count, Verdict, Environment, rejected_pool_member, Outcome,
  judge, prepare_loop, prepare,
}
use razdacha.Singbox.PoolReject.Settled.{Settles, prepare-Settles}

abbrev server : String → PoolServer
server url = record { url = url; country = ""; title = ""; ping_ms = 0; misses = 0 }

abbrev pooled : List PoolServer → Tunnel
pooled pool = record {
  id = "p";
  name = "pool";
  type = "";
  source = source_pool;
  raw = "";
  parsed = "";
  enabled = true;
  created_at = none;
  pool = pool;
  pool_updated_at = none;
  builtin = false;
  country = "";
}

abbrev starts_bad : List Tunnel → Bool
starts_bad [] = false
starts_bad (t ∷ tunnels) = elim t.pool [ [] ↦ false | s ∷ pool ↦ s.url == "bad" ]

-- A runtime that refuses the first outbound if it is the server "bad".
abbrev env : Environment
env = record {
  allows = λ s. true;
  member_tag = λ id i. id;
  generate = λ tunnels. some ("p" ∷ []);
  unchanged = λ tunnels. false;
  check = λ tunnels. if starts_bad tunnels then Verdict.refused (some 0) else Verdict.accepted;
}

-- The second server of the link goes too.
drops_bad :
    prepare env (pooled (server "bad" ∷ server "bad" ∷ []) ∷ []) ≡ Outcome.prepared (pooled [] ∷ [])
unfolding prepare prepare_loop judge rejected_pool_member last_entry pool_members members_from
    select_pool_servers select_from has_seen without_pool_server without_url pool_server_count
drops_bad = refl

prepare-Settles_example :
    Settles env (prepare env (pooled (server "bad" ∷ server "good" ∷ []) ∷ []))
prepare-Settles_example =
    prepare-Settles env (pooled (server "bad" ∷ server "good" ∷ []) ∷ []) (tt, tt)
