-- ===== src/Sync/Repo/State.antt =====
-- The state of a repository, and methods that change it and may throw. What was written before a throw
-- stays written.
use arxhub.Base.{Bytes, Error, List, Option, Result, Text, err, none, ok, refl, some, ℕ, ◌≡◌}
use arxhub.Base.Dict.{Dict}
use arxhub.Sync.Ancestry.{Snapshots}
use arxhub.Sync.Checkout.{Checkout, Tree}

pub record Repo : Type 0 where
  pub tree : Tree
  pub checkout : Checkout
  pub changes : List Text
  pub chunks : Dict Bytes
  pub snapshots : Snapshots
  pub head : Option Text
  pub last_synced : Option Text
  -- `Date.now()`, and the number of ids that `crypto.randomUUID()` gave so far
  pub now : ℕ
  pub ids : ℕ

-- A method of `Repo`.
abbrev pub Method {ℓ} : Type ℓ → Type ℓ
Method A = Repo → Result A × Repo

module _ {ℓ} {A : Type ℓ} where
  abbrev pub pure : A → Method A
  pure a r = (ok a, r)

  abbrev pub throw : Error → Method A
  throw e r = (err e, r)

  abbrev pub gets : (Repo → A) → Method A
  gets f r = (ok (f r), r)

  -- A value that is there, or the error of a read.
  abbrev pub required : Error → Option A → Method A
  required e none r = (err e, r)
  required e (some a) r = (ok a, r)

abbrev pub modify : (Repo → Repo) → Method (Unit {0})
modify f r = (ok tt, f r)

module _ {ℓ κ} {A : Type ℓ} {B : Type κ} where
  abbrev pub continue : Result A → (A → Method B) → Method B
  continue (ok a) f r = f a r
  continue (err e) f r = (err e, r)

module _ {ℓ κ} {A : Type ℓ} {B : Type κ} where
  infixl 10 ◌>>=◌
  abbrev pub ◌>>=◌ : Method A → (A → Method B) → Method B
  ◌>>=◌ m f r = let (a, r') = m r in continue a f r'

infixl 10 ◌>>◌
abbrev pub ◌>>◌ {ℓ} : {B : Type ℓ} → Method (Unit {0}) → Method B → Method B
m >> n = m >>= λ _. n

module _ {ℓ κ} {A : Type ℓ} {B : Type κ} where
  -- A method that succeeds: its first part did, and the rest from where that ended.
  pub bind-succeeds :
      (m : Method A) (f : A → Method B) (r : Repo) {b : B}
      → ((m >>= f) r).0 ≡ ok b
      → (a : A) × (r' : Repo) × (m r ≡ (ok a, r')) × ((f a r').0 ≡ ok b)
  bind-succeeds m f r {b} e = go (m r).0 refl e
    where
      go :
          (x : Result A)
          → (m r).0 ≡ x
          → (continue x f (m r).1).0 ≡ ok b
          → (a : A) × (r' : Repo) × (m r ≡ (ok a, r')) × ((f a r').0 ≡ ok b)
      go (ok a) h e = (a, (m r).1, (λ i. (h i, (m r).1)), e)
      go (err c) h e = absurd (cc)
