-- ===== src/Singbox/PoolReject.antt =====
-- internal/singbox: a server of a pool that the runtime refuses is left out, and the configuration is
-- built again. A snapshot is the list of its tunnels: nothing else in it changes here.
pub mod Removal
pub mod Settled
mod Tests
use mathlib.Core.Bool.{not}
use razdacha.Prelude.{
  ℕ, zero, suc, ◌+◌, Bool, true, false, ◌&&◌, ◌||◌, List, [], ◌∷◌, ◌++◌, Option, none, some, String,
  ◌==◌, get_elem?, length, eqb, ltb, if◌then◌else◌,
}
use razdacha.Store.Model.{PoolServer, Tunnel, source_pool}

abbrev pub pool_max_servers : ℕ
pool_max_servers = 64

unfoldable pub has_seen : String → List String → Bool
has_seen url [] = false
has_seen url (u ∷ seen) = u == url || has_seen url seen

-- selectPoolServers, with the links seen and how many servers are taken. `allows` is filter.Allows.
unfoldable pub select_from :
    (PoolServer → Bool) → List String → ℕ → List PoolServer → List PoolServer
select_from allows seen taken [] = []
select_from allows seen taken (s ∷ pool) =
    let skipped = select_from allows seen taken pool in
    let others = select_from allows (s.url ∷ seen) (suc taken) pool in
    if s.url == "" || (has_seen s.url seen || not (allows s))
    then skipped
    else if eqb (suc taken) pool_max_servers
    then s ∷ []
    else s ∷ others

unfoldable pub select_pool_servers : (PoolServer → Bool) → List PoolServer → List PoolServer
select_pool_servers allows pool = select_from allows [] 0 pool

-- `rejectedMember`: its name and its address are for the log only.
pub record RejectedMember : Type 0 where
  pub tunnel_id : String
  pub url : String

-- The entries for the servers of a tunnel from number i on. `member_tag` is poolMemberTag.
unfoldable pub members_from :
    (String → ℕ → String) → String → ℕ → List PoolServer → List (String × RejectedMember)
members_from member_tag id i [] = []
members_from member_tag id i (s ∷ servers) =
    (member_tag id i, record { tunnel_id = id; url = s.url })
    ∷ members_from member_tag id (suc i) servers

-- poolMembersByTag, as the list of its writes.
unfoldable pub pool_members :
    (PoolServer → Bool) → (String → ℕ → String) → List Tunnel → List (String × RejectedMember)
pool_members allows member_tag [] = []
pool_members allows member_tag (t ∷ tunnels) =
    let others = pool_members allows member_tag tunnels in
    if not t.enabled || not (t.source == source_pool)
    then others
    else members_from member_tag t.id 0 (select_pool_servers allows t.pool) ++ others

-- What the map holds: the last write to the key.
unfoldable pub last_entry : String → List (String × RejectedMember) → Option RejectedMember
last_entry tag [] = none
last_entry tag ((key, member) ∷ entries) = elim (last_entry tag entries) [
  | some later ↦ some later
  | none ↦ if key == tag then some member else none
]

-- withoutPoolServer.
unfoldable pub without_url : String → List PoolServer → List PoolServer
without_url url [] = []
without_url url (s ∷ pool) =
    let rest = without_url url pool in if s.url == url then rest else s ∷ rest

unfoldable pub without_pool_server : String → String → List Tunnel → List Tunnel
without_pool_server id url [] = []
without_pool_server id url (t ∷ tunnels) =
    let rest = without_pool_server id url tunnels in
    if t.id == id then (record t { pool = without_url url t.pool }) ∷ tunnels else t ∷ rest

-- poolServerCount.
unfoldable pub pool_server_count : List Tunnel → ℕ
pool_server_count [] = 0
pool_server_count (t ∷ tunnels) =
    (if t.source == source_pool then length t.pool else 0) + pool_server_count tunnels

-- What the check of the runtime says: `refused` has the number of the outbound that the error names,
-- if it names one.
pub data Verdict : Type 0 where
  accepted : Verdict
  refused : Option ℕ → Verdict

-- What the rest of the program and the runtime do: the tags of the outbounds that
-- GenerateWithReality makes, or `none` for an error of it, of Marshal or of a file; whether the file
-- on the disk is the same and need not be checked; and the check.
pub record Environment : Type 0 where
  pub allows : PoolServer → Bool
  pub member_tag : String → ℕ → String
  pub generate : List Tunnel → Option (List String)
  pub unchanged : List Tunnel → Bool
  pub check : List Tunnel → Verdict

-- rejectedPoolMember.
unfoldable pub rejected_pool_member :
    Environment → List String → List Tunnel → Option ℕ → Option RejectedMember
rejected_pool_member env outbounds tunnels none = none
rejected_pool_member env outbounds tunnels (some i) = elim (get_elem? outbounds i) [
  | none ↦ none
  | some tag ↦ last_entry tag (pool_members env.allows env.member_tag tunnels)
]

-- How prepare ends: with the snapshot of the last round.
pub data Outcome : Type 0 where
  out_of_rounds : Outcome
  failed : Outcome
  rejected : List Tunnel → List String → Option ℕ → Outcome
  kept prepared : List Tunnel → Outcome

-- The check of a round, when the outbounds are known: `retry` is the round after a removal.
unfoldable pub judge :
    Environment → (List Tunnel → Outcome) → Bool → List Tunnel → List String → Verdict → Outcome
judge env retry may_drop tunnels outbounds Verdict.accepted = Outcome.prepared tunnels
judge env retry may_drop tunnels outbounds (Verdict.refused named) =
    elim (rejected_pool_member env outbounds tunnels named) [
      | none ↦ Outcome.rejected tunnels outbounds named
      | some member ↦
          let again = retry (without_pool_server member.tunnel_id member.url tunnels) in
          if may_drop then again else Outcome.rejected tunnels outbounds named
    ]

-- The loop of prepare, for so many rounds.
unfoldable pub prepare_loop : Environment → ℕ → ℕ → ℕ → List Tunnel → Outcome
prepare_loop env zero drop max_drops tunnels = Outcome.out_of_rounds
prepare_loop env (suc rounds) drop max_drops tunnels = elim (env.generate tunnels) [
  | none ↦ Outcome.failed
  | some outbounds ↦
      if env.unchanged tunnels
      then Outcome.kept tunnels
      else judge env (prepare_loop env rounds (suc drop) max_drops) (ltb drop max_drops) tunnels
          outbounds (env.check tunnels)
]

unfoldable pub prepare : Environment → List Tunnel → Outcome
prepare env tunnels =
    prepare_loop env (pool_server_count tunnels + 1) 0 (pool_server_count tunnels) tunnels
