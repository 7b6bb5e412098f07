-- ===== src/Store/Peers/Lookup.antt =====
-- internal/store: which peers have access after an update of the rows.
use mathlib.Core.List.{Mem, mem-cons, mem-cons_self, mem-cons_of_mem, not-mem-nil, Mem-prop}
use mathlib.Core.Logic.Or
use razdacha.Prelude.{
  ℕ, ◌≡◌, inl, inr, refl, ◌∙◌, ap, subst, true, false, List, [], ◌∷◌, map, Option, none, some,
  String, ◌==◌, eq_iff, arith, Bool-cases,
}
use razdacha.Store.Model.{Peer, Credential}
use razdacha.Store.Db.{Db}
use razdacha.Store.Peers.{find_peer, record_admission}
use razdacha.Store.Peers.Deletion.{without_peer, without_credential}
use razdacha.Store.Peers.Runtime.{is_active, is_live}

-- The credential is in the table, and in use.
abbrev pub Stays : Db → Credential → Type 0
Stays db c = Mem c db.credentials × (is_live db c ≡ true)

-- An update of the rows that leaves the identifiers, and all but the rows with one identifier.
module _ (f : Peer → Peer) (keep : (q : Peer) → (f q).id ≡ q.id) where
  find_peer-map_other :
      (id x : String) (ps : List Peer)
      → ((q : Peer) → (q.id == id) ≡ false → f q ≡ q)
      → (x == id) ≡ false
      → find_peer (map f ps) x ≡ find_peer ps x
  unfolding find_peer
  find_peer-map_other id x [] apart ne = refl
  find_peer-map_other id x (q ∷ qs) apart ne = ground (
    arith,
    keep q,
    apart q,
    eq_iff q.id id,
    eq_iff q.id x,
    eq_iff x id,
    eq_iff (f q).id x,
    find_peer-map_other id x qs apart ne,
  )

  pub find_peer-map :
      (x : String) (ps : List Peer)
      → (find_peer (map f ps) x) ≡ (elim (find_peer ps x) [ none ↦ none | some p ↦ some (f p) ])
  unfolding find_peer
  find_peer-map x [] = refl
  find_peer-map x (q ∷ qs) = elim (Bool-cases (q.id == x)) [
    | inl same ↦ ground (arith, keep q, same)
    | inr other ↦
        let there : ((f q).id == x) ≡ false = ap (λ i. i == x) (keep q) ∙ other in
        ground (arith, there, other, find_peer-map x qs)
  ]

pub find_peer-without_peer :
    (id x : String) (ps : List Peer)
    → (x == id) ≡ false
    → find_peer (without_peer id ps) x ≡ find_peer ps x
unfolding find_peer without_peer
find_peer-without_peer id x [] ne = refl
find_peer-without_peer id x (q ∷ qs) ne =
    ground (arith, eq_iff q.id id, eq_iff q.id x, eq_iff x id, find_peer-without_peer id x qs ne)

pub mem-without_credential :
    (id : String) (c : Credential) (cs : List Credential)
    → (c.peer_id == id) ≡ false
    → Mem c cs
    → Mem c (without_credential id cs)
unfolding without_credential
mem-without_credential id c [] ne m = absurd (not-mem-nil m)
mem-without_credential id c (d ∷ ds) ne m = elim (Bool-cases (d.peer_id == id)) [
  | inl gone ↦ rw gone (
      Or.elim Mem-prop (mem-cons.0 m) (λ e. absurd (ground (arith, gone, ne, e)))
        (mem-without_credential id c ds ne))
  | inr kept ↦ rw kept (
      Or.elim Mem-prop (mem-cons.0 m)
        (λ e. subst (λ x. Mem c (x ∷ without_credential id ds)) e mem-cons_self)
        (λ t. mem-cons_of_mem d (mem-without_credential id c ds ne t)))
]

-- What an update of the rows does to who has access.
pub is_active-map :
    (f : Peer → Peer) (x : String) (ps : List Peer)
    → ((q : Peer) → (f q).id ≡ q.id)
    → ((q : Peer) → is_active (some (f q)) ≡ is_active (some q))
    → is_active (find_peer (map f ps) x) ≡ is_active (find_peer ps x)
unfolding is_active
is_active-map f x ps keep same = ap is_active (find_peer-map f keep x ps) ∙ mapped (find_peer ps x)
  where
    mapped :
        (o : Option Peer) → is_active (elim o [ none ↦ none | some p ↦ some (f p) ]) ≡ is_active o
    mapped none = refl
    mapped (some p) = same p

pub record_admission-id :
    (credential : String) (n : ℕ) (id : String) (q : Peer)
    → (record_admission credential n id q).id ≡ q.id
unfolding record_admission
record_admission-id credential n id q = ground arith

pub record_admission-active :
    (credential : String) (n : ℕ) (id : String) (q : Peer)
    → is_active (some (record_admission credential n id q)) ≡ is_active (some q)
unfolding record_admission is_active
record_admission-active credential n id q = ground arith
