-- ===== src/Singbox/PoolReject/Removal.antt =====
-- internal/singbox/pool_reject.go: a member that a tag names stands in a pool, and taking it out makes
-- the pools smaller.
use mathlib.Core.Bool.{not}
use razdacha.Prelude.{
  ℕ, suc, ◌≡◌, ◌≢◌, ◌⊎◌, ap, ◌∙◌, arith, Bool, false, ◌||◌, List, [], ◌∷◌, ◌++◌, none, some, String,
  ◌==◌, eq_iff, eqb, Bool-cases, Option-cases, inl, inr,
}
use razdacha.Store.Model.{PoolServer, Tunnel, source_pool}
use razdacha.Singbox.PoolReject.{
  pool_max_servers, has_seen, select_from, select_pool_servers, RejectedMember, members_from,
  pool_members, last_entry,
}

-- A pool has a server with the link.
abbrev pub HasUrl : String → List PoolServer → Type 0
HasUrl url [] = ⊥
HasUrl url (s ∷ pool) = (s.url ≡ url) ⊎ HasUrl url pool

-- The member is a server of one of the pools.
abbrev pub IsPooled : RejectedMember → List Tunnel → Type 0
IsPooled m [] = ⊥
IsPooled m (t ∷ tunnels) =
    ((t.id ≡ m.tunnel_id) × (t.source ≡ source_pool) × HasUrl m.url t.pool) ⊎ IsPooled m tunnels

-- No tunnel has the id, and no two tunnels have the same.
abbrev pub Apart : String → List Tunnel → Type 0
Apart id [] = Unit
Apart id (t ∷ tunnels) = (t.id ≢ id) × Apart id tunnels

abbrev pub Unique : List Tunnel → Type 0
Unique [] = Unit
Unique (t ∷ tunnels) = Apart t.id tunnels × Unique tunnels

single_url :
    (url : String) (s : PoolServer) (pool : List PoolServer)
    → HasUrl url (s ∷ [])
    → HasUrl url (s ∷ pool)
single_url url s pool (inl e) = inl e
single_url url s pool (inr h) = absurd h

first_or_later :
    (url : String) (s : PoolServer) (pool rest : List PoolServer)
    → HasUrl url (s ∷ rest)
    → (HasUrl url rest → HasUrl url pool)
    → HasUrl url (s ∷ pool)
first_or_later url s pool rest (inl e) f = inl e
first_or_later url s pool rest (inr h) f = inr (f h)

select_from-HasUrl :
    (allows : PoolServer → Bool) (seen : List String) (taken : ℕ) (url : String)
    (pool : List PoolServer)
    → HasUrl url (select_from allows seen taken pool)
    → HasUrl url pool
unfolding select_from
select_from-HasUrl allows seen taken url [] h = h
select_from-HasUrl allows seen taken url (s ∷ pool) h =
    elim (Bool-cases (s.url == "" || (has_seen s.url seen || not (allows s)))) [
      | inl skipped ↦ inr (select_from-HasUrl allows seen taken url pool (rw skipped at h))
      | inr chosen ↦ elim (Bool-cases (eqb (suc taken) pool_max_servers)) [
        | inl full ↦ single_url url s pool (rw (chosen, full) at h)
        | inr room ↦
            first_or_later url s pool _ (rw (chosen, room) at h)
              (select_from-HasUrl allows (s.url ∷ seen) (suc taken) url pool)
      ]
    ]

pub none_not_some : (m : RejectedMember) → none ≢ some m
none_not_some m e = cc

pool_source :
    (t : Tunnel) → (not t.enabled || not (t.source == source_pool)) ≡ false → t.source ≡ source_pool
pool_source t h = ground (arith, eq_iff t.source source_pool)

-- The list of writes has the member.
pub EntryOf : RejectedMember → List (String × RejectedMember) → Type 0
EntryOf m [] = ⊥
EntryOf m ((key, member) ∷ entries) = (member ≡ m) ⊎ EntryOf m entries

some_injective : (m n : RejectedMember) → some m ≡ some n → m ≡ n
some_injective m n e = cc

pub last_entry-EntryOf :
    (tag : String) (m : RejectedMember) (entries : List (String × RejectedMember))
    → last_entry tag entries ≡ some m
    → EntryOf m entries
unfolding last_entry EntryOf
last_entry-EntryOf tag m [] h = absurd (none_not_some m h)
last_entry-EntryOf tag m ((key, member) ∷ entries) h =
    elim (Option-cases (last_entry tag entries)) [
      | inr (later, e) ↦ inr (last_entry-EntryOf tag m entries (e ∙ (rw (e, last_entry) at h)))
      | inl e ↦ elim (Bool-cases (key == tag)) [
        | inl here ↦ inl (some_injective member m (rw (e, here, last_entry) at h))
        | inr other ↦ absurd (none_not_some m (rw (e, other, last_entry) at h))
      ]
    ]

members_from-EntryOf :
    (member_tag : String → ℕ → String) (id : String) (i : ℕ) (servers : List PoolServer)
    (m : RejectedMember)
    → EntryOf m (members_from member_tag id i servers)
    → (id ≡ m.tunnel_id) × HasUrl m.url servers
unfolding members_from EntryOf
members_from-EntryOf member_tag id i [] m h = absurd h
members_from-EntryOf member_tag id i (s ∷ servers) m (inl e) =
    (ap RejectedMember.tunnel_id e, inl (ap RejectedMember.url e))
members_from-EntryOf member_tag id i (s ∷ servers) m (inr h) =
    let (same, there) = members_from-EntryOf member_tag id (suc i) servers m h in (same, inr there)

append-EntryOf :
    (m : RejectedMember) (xs ys : List (String × RejectedMember))
    → EntryOf m (xs ++ ys)
    → EntryOf m xs ⊎ EntryOf m ys
unfolding EntryOf
append-EntryOf m [] ys h = inr h
append-EntryOf m ((key, member) ∷ xs) ys (inl e) = inl (inl e)
append-EntryOf m ((key, member) ∷ xs) ys (inr h) = elim (append-EntryOf m xs ys h) [
  | inl x ↦ inl (inr x)
  | inr y ↦ inr y
]

pub pool_members-IsPooled :
    (allows : PoolServer → Bool) (member_tag : String → ℕ → String) (tunnels : List Tunnel)
    (m : RejectedMember)
    → EntryOf m (pool_members allows member_tag tunnels)
    → IsPooled m tunnels
unfolding pool_members EntryOf
pool_members-IsPooled allows member_tag [] m h = absurd h
pool_members-IsPooled allows member_tag (t ∷ tunnels) m h =
    elim (Bool-cases (not t.enabled || not (t.source == source_pool))) [
      | inl skipped ↦ inr (pool_members-IsPooled allows member_tag tunnels m (rw skipped at h))
      | inr used ↦
          elim (append-EntryOf m
            (members_from member_tag t.id 0 (select_pool_servers allows t.pool)) _ (rw used at h)) [
              | inr later ↦ inr (pool_members-IsPooled allows member_tag tunnels m later)
              | inl here ↦
                  let (same, there) =
                    members_from-EntryOf member_tag t.id 0 (select_pool_servers allows t.pool) m
                      here in
                  inl (
                    same,
                    pool_source t used,
                    unfold select_pool_servers in select_from-HasUrl allows [] 0 m.url t.pool there,
                  )
            ]
    ]
