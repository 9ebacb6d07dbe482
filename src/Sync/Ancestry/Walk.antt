-- ===== src/Sync/Ancestry/Walk.antt =====
-- About the snapshots that the walk of `ancestry` visits.
use arxhub.Base.{
  Bool-cases, List, Option, Option-cases, Text, arith, contains, false, if◌then◌else◌, inl, inr,
  none, refl, some, suc, text_eq, text_eq_iff, text_eq_refl, true, zero, ℕ, ◌<◌, ◌∷◌, ◌≡◌, ◌⊎◌,
}
use arxhub.Base.Dict.{fresh, fresh_lt, lookup}
use arxhub.Sync.Ancestry.{Snapshots, reaches, walk}
use arxhub.Sync.Snapshot.{Snapshot}

-- The visited set when the walk ends.
pub visited_after : ℕ → Snapshots → List Text → Option Text → List Text
visited_after zero store visited current = visited
visited_after (suc n) store visited none = visited
visited_after (suc n) store visited (some current) = elim (contains visited current) [
  | true ↦ visited
  | false ↦ elim (lookup current store) [
    | none ↦ visited
    | some snapshot ↦ visited_after n store (current ∷ visited) snapshot.parent
  ]
]

-- What the walk does at an address: it stops there, or goes on to the parent.
pub data Stage (store : Snapshots) (visited : List Text) (c : Text) : Type 0 where
  again : contains visited c ≡ true → Stage store visited c
  hole : contains visited c ≡ false → lookup c store ≡ none → Stage store visited c
  forward :
      (s : Snapshot) → contains visited c ≡ false → lookup c store ≡ some s → Stage store visited c

pub stage : (store : Snapshots) (visited : List Text) (c : Text) → Stage store visited c
stage store visited c = elim (Bool-cases (contains visited c)) [
  | inl seen ↦ again seen
  | inr new ↦ elim (Option-cases (lookup c store)) [
    | inl gone ↦ hole new gone
    | inr (s, there) ↦ forward s new there
  ]
]

module _ (store : Snapshots) (n : ℕ) (visited : List Text) (c : Text) where
  pub walk-forward :
      (s : Snapshot)
      → contains visited c ≡ false
      → lookup c store ≡ some s
      → walk (suc n) store visited (some c) ≡ s ∷ walk n store (c ∷ visited) s.parent
  unfolding walk
  walk-forward s v l = rw (v, l, walk)

  pub visited_after-forward :
      (s : Snapshot)
      → contains visited c ≡ false
      → lookup c store ≡ some s
      → visited_after (suc n) store visited (some c) ≡ visited_after n store (c ∷ visited) s.parent
  unfolding visited_after
  visited_after-forward s v l = rw (v, l, visited_after)

  pub visited_after-again :
      contains visited c ≡ true → visited_after (suc n) store visited (some c) ≡ visited
  unfolding visited_after
  visited_after-again v = rw (v, visited_after)

  pub visited_after-hole :
      contains visited c ≡ false
      → lookup c store ≡ none
      → visited_after (suc n) store visited (some c) ≡ visited
  unfolding visited_after
  visited_after-hole v l = rw (v, l, visited_after)

pub reaches-parent :
    (a : Text) (s : Snapshot) (l : List Snapshot) → s.parent ≡ some a → reaches a (s ∷ l) ≡ true
unfolding reaches
reaches-parent a s l p = rw p (ground (arith, text_eq_refl a))

pub reaches-tail :
    (a : Text) (s : Snapshot) (l : List Snapshot) → reaches a l ≡ true → reaches a (s ∷ l) ≡ true
unfolding reaches
reaches-tail a s l h = ground arith

pub contains-cons :
    (c x : Text) (l : List Text) → contains (c ∷ l) x ≡ (if text_eq c x then true else contains l x)
unfolding contains
contains-cons c x l = refl

module _ (store : Snapshots) (a : Text) where
  -- Each stored snapshot that the walk visits is yielded.
  pub yields :
      (n : ℕ) (visited : List Text) (current : Option Text) (x : Text) (s : Snapshot)
      → contains (visited_after n store visited current) x ≡ true
      → contains visited x ≡ false
      → lookup x store ≡ some s
      → s.parent ≡ some a
      → reaches a (walk n store visited current) ≡ true
  unfolding visited_after
  yields zero visited current x s c v l p = cc
  yields (suc n) visited none x s c v l p = cc
  yields (suc n) visited (some d) x s c v l p = elim (stage store visited d) [
    | again seen ↦ cc (visited_after-again store n visited d seen)
    | hole new gone ↦ cc (visited_after-hole store n visited d new gone)
    | forward t new there ↦
        rw (walk-forward store n visited d t new there) (elim (Bool-cases (text_eq d x)) [
          | inl same ↦ reaches-parent a t _ (ground (arith, text_eq_iff d x))
          | inr other ↦ reaches-tail a t _ (
              yields n (d ∷ visited) t.parent x s
                (rw (visited_after-forward store n visited d t new there) at c)
                (ground (arith, contains-cons d x visited)) l p)
        ])
  ]

module _ (store : Snapshots) where
  pub grows :
      (n : ℕ) (visited : List Text) (current : Option Text) (x : Text)
      → contains visited x ≡ true
      → contains (visited_after n store visited current) x ≡ true
  unfolding visited_after
  grows zero visited current x v = v
  grows (suc n) visited none x v = v
  grows (suc n) visited (some d) x v = elim (stage store visited d) [
    | again seen ↦ rw (visited_after-again store n visited d seen) v
    | hole new gone ↦ rw (visited_after-hole store n visited d new gone) v
    | forward t new there ↦
        rw (visited_after-forward store n visited d t new there)
          (grows n (d ∷ visited) t.parent x (ground (arith, contains-cons d x visited)))
  ]

  -- Parents of visited snapshots are visited, in hand, or not stored.
  abbrev pub IsOpenAt : List Text → Option Text → Type 0
  IsOpenAt visited current =
      (x p : Text) (s : Snapshot)
      → contains visited x ≡ true
      → lookup x store ≡ some s
      → s.parent ≡ some p
      → (contains visited p ≡ true) ⊎ (current ≡ some p) ⊎ (lookup p store ≡ none)

  pub closes :
      (n : ℕ) (visited : List Text) (current : Option Text)
      → fresh visited store < n
      → IsOpenAt visited current
      → IsOpenAt (visited_after n store visited current) none
  unfolding visited_after
  closes zero visited current f o = absurd (omega arith)
  closes (suc n) visited none f o = o
  closes (suc n) visited (some d) f o = elim (stage store visited d) [
    | again seen ↦
        rw (visited_after-again store n visited d seen) (λ x p s c l q. ground (arith, o x p s))
    | hole new gone ↦
        rw (visited_after-hole store n visited d new gone) (λ x p s c l q. ground (arith, o x p s))
    | forward t new there ↦ rw (visited_after-forward store n visited d t new there) (
        closes n (d ∷ visited) t.parent (omega (arith, fresh_lt d visited store t new there))
          (λ x p s c l q. ground (
            arith,
            o x p s,
            contains-cons d x visited,
            contains-cons d p visited,
            text_eq_iff d x,
            text_eq_iff d p,
          )))
  ]
