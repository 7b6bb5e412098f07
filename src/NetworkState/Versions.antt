-- ===== src/NetworkState/Versions.antt =====
-- internal/networkstate/state.go, Read: the version that a record needs.
use razdacha.Prelude.{
  arith, ℕ, ◌≤◌, ◌≡◌, ◌≢◌, ◌↔◌, true, false, ◌||◌, none, String, eq_iff, any, if◌then◌else◌,
}
use razdacha.NetworkState.{
  Stored, known_version, admits_transport, authenticates, native_transport, routes_peer, all_lists,
  is_nil, accepts,
}

-- The first version that has all that the record uses.
abbrev pub needed_version : Stored → ℕ
needed_version g =
    if any admits_transport g.peers || authenticates g
    then 5
    else if any native_transport (all_lists g.lists)
    then 4
    else if any routes_peer g.peers
    then 3
    else 1

is_nil_iff : (g : Stored) → (is_nil g.lists ≡ false) ↔ (g.lists ≢ none)
unfolding is_nil
is_nil_iff g = ground arith

-- A record is read exactly when it is of the kind asked for, has lists, and its version is at most 5
-- and at least the one that it needs.
pub accepts_iff :
    (kind : String) (g : Stored)
    → (accepts kind g ≡ true)
      ↔ ((g.kind ≡ kind) × (g.lists ≢ none) × (needed_version g ≤ g.version) × (g.version ≤ 5))
unfolding accepts known_version
accepts_iff kind g = (
  λ h.
      let n = is_nil_iff g in
      let k = eq_iff g.kind kind in
      (ground (arith, k), ground (arith, n), ground arith, ground arith),
  λ (a, b, c, d). ground (arith, eq_iff g.kind kind, is_nil_iff g),
)
