-- ===== src/Store/Db.antt =====
-- The database as the store sees it: four tables, the SQL statements on them, and transactions
-- (internal/store/store.go). A nullable text column holds "" for NULL, as the rows read back do.
use razdacha.Prelude.{◌≡◌, refl, List, Option, none, some}
use razdacha.Store.Model.{Error, Result, ok, err, Tunnel, Rule, Peer, Credential}

pub record Db : Type 0 where
  pub tunnels : List Tunnel
  pub rules : List Rule
  pub peers : List Peer
  pub credentials : List Credential

-- The body of a transaction: it reads and writes the database, or fails.
abbrev pub Tx : Type 0 → Type 0
Tx A = Db → Result (A × Db)

infixl 5 ◌>>=◌ ◌>>◌
abbrev pub ◌>>=◌ : {A B : Type 0} → Tx A → (A → Tx B) → Tx B
◌>>=◌ m f db = elim (m db) [ err e ↦ err e | ok (a, db') ↦ f a db' ]

abbrev pub ◌>>◌ : {B : Type 0} → Tx (Unit {0}) → Tx B → Tx B
m >> k = m >>= λ _. k

abbrev pub pure : {A : Type 0} → A → Tx A
pure a db = ok (a, db)

abbrev pub raise : {A : Type 0} → Error → Tx A
raise e db = err e

-- A value or an error computed outside the database.
abbrev pub lift : {A : Type 0} → Result A → Tx A
lift (ok a) db = ok (a, db)
lift (err e) db = err e

-- The early `return` of a validation error.
abbrev pub check : Option Error → Tx (Unit {0})
check none db = ok (tt, db)
check (some e) db = err e

-- `Store.tx`: commit on success, roll back on an error.
unfoldable pub transaction : {A : Type 0} → Tx A → Db → Result A × Db
transaction body db = elim (body db) [ err e ↦ (err e, db) | ok (a, db') ↦ (ok a, db') ]

-- A block that succeeds has run its first step, and the rest from there.
pub bind-eq-ok :
    {A B : Type 0} (m : Tx A) (f : A → Tx B) (db : Db) {b : B} {last : Db}
    → (m >>= f) db ≡ ok (b, last)
    → (a : A) × (next : Db) × (m db ≡ ok (a, next)) × (f a next ≡ ok (b, last))
bind-eq-ok {A} {B} m f db {b} {last} = go (m db)
  where
    go :
        (r : Result (A × Db))
        → (elim r [ err e ↦ err e | ok (a, db') ↦ f a db' ]) ≡ ok (b, last)
        → (a : A) × (next : Db) × (r ≡ ok (a, next)) × (f a next ≡ ok (b, last))
    go (ok (a, next)) h = (a, next, refl, h)
    go (err e) h = cc

-- A transaction that succeeds commits what its body left.
pub transaction-ok :
    {A : Type 0} (body : Tx A) (db : Db) {a : A}
    → (transaction body db).0 ≡ ok a
    → body db ≡ ok (a, (transaction body db).1)
unfolding transaction
transaction-ok {A} body db {a} = go (body db)
  where
    go :
        (r : Result (A × Db))
        → (elim r as (λ _. Result A × Db) [ err e ↦ (err e, db) | ok (b, db') ↦ (ok b, db') ]).0
          ≡ ok a
        → r
          ≡ ok (
            a,
            (elim r as (λ _. Result A × Db) [ err e ↦ (err e, db) | ok (b, db') ↦ (ok b, db') ]).1,
          )
    go (ok (b, db')) h = cc
    go (err e) h = cc

-- Whatever holds before a transaction, and after its body where that succeeds, holds after it.
pub transaction-keeps {ℓ} :
    {A : Type 0} (P : Db → Type ℓ) (body : Tx A) (db : Db)
    → P db
    → ((a : A) (next : Db) → body db ≡ ok (a, next) → P next)
    → P (transaction body db).1
unfolding transaction
transaction-keeps {A} P body db h keep = go (body db) (λ a next e. keep a next e)
  where
    go :
        (r : Result (A × Db))
        → ((a : A) (next : Db) → r ≡ ok (a, next) → P next)
        → P (elim r as (λ _. Result A × Db) [ err e ↦ (err e, db) | ok (b, db') ↦ (ok b, db') ]).1
    go (ok (b, db')) k = k b db' refl
    go (err e) k = h

-- A transaction that fails leaves the database as it was.
pub transaction-err :
    {A : Type 0} (body : Tx A) (db : Db) {e : Error}
    → (transaction body db).0 ≡ err e
    → (transaction body db).1 ≡ db
unfolding transaction
transaction-err {A} body db {e} = go (body db)
  where
    go :
        (r : Result (A × Db))
        → (elim r as (λ _. Result A × Db) [ err e ↦ (err e, db) | ok (b, db') ↦ (ok b, db') ]).0
          ≡ err e
        → (elim r as (λ _. Result A × Db) [ err e ↦ (err e, db) | ok (b, db') ↦ (ok b, db') ]).1
          ≡ db
    go (ok (b, db')) h = cc
    go (err e) h = refl
