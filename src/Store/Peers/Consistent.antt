-- ===== src/Store/Peers/Consistent.antt =====
-- internal/store: every row of reality_credentials has its peer, which records the same credential.
pub mod Steps
pub mod Revisions
pub mod Calls
use razdacha.Prelude.{◌≡◌, refl, List, [], ◌∷◌, ◌++◌, map, some, Bool, true, false, any, arith}
use razdacha.Store.Model.{Peer, Credential}
use razdacha.Store.Db.{Db}
use razdacha.Store.Peers.{find_peer}

abbrev pub AllRows : (Credential → Type 0) → List Credential → Type 0
AllRows P [] = Unit
AllRows P (c ∷ cs) = P c × AllRows P cs

pub AllRows-map :
    (P Q : Credential → Type 0) (f : Credential → Credential)
    → ((c : Credential) → P c → Q (f c))
    → (cs : List Credential) → AllRows P cs
    → AllRows Q (map f cs)
AllRows-map P Q f k [] h = tt
AllRows-map P Q f k (c ∷ cs) h = (k c h.0, AllRows-map P Q f k cs h.1)

pub AllRows-weaken :
    (P Q : Credential → Type 0)
    → ((c : Credential) → P c → Q c)
    → (cs : List Credential) → AllRows P cs
    → AllRows Q cs
AllRows-weaken P Q k [] h = tt
AllRows-weaken P Q k (c ∷ cs) h = (k c h.0, AllRows-weaken P Q k cs h.1)

pub AllRows-append :
    (P : Credential → Type 0) (cs ds : List Credential)
    → AllRows P cs
    → AllRows P ds
    → AllRows P (cs ++ ds)
AllRows-append P [] ds h k = k
AllRows-append P (c ∷ cs) ds h k = (h.0, AllRows-append P cs ds h.1 k)

-- Where no row passes a test, each row fails it.
pub AllRows-any :
    (P : Credential → Type 0) (test : Credential → Bool) (cs : List Credential)
    → any test cs ≡ false
    → AllRows P cs
    → AllRows (λ c. P c × (test c ≡ false)) cs
unfolding any
AllRows-any P test [] e h = tt
AllRows-any P test (c ∷ cs) e h = ((h.0, ground arith), AllRows-any P test cs (ground arith) h.1)

abbrev pub Agrees : List Peer → Credential → Type 0
Agrees ps c =
    (p : Peer) × (find_peer ps c.peer_id ≡ some p)
    × (c.credential_id ≡ p.reality_credential_id)
    × (c.revision ≡ p.reality_revision)

abbrev pub IsConsistent : Db → Type 0
IsConsistent db = AllRows (Agrees db.peers) db.credentials
