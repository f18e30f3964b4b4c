-- ===== src/Workers/StateCache/Exclusion.antt =====
-- The persistence lease has one owner at a time.
use funi.Common.{
  ℕ, ◌+◌, ◌≡◌, refl, inl, inr, Bool-cases, Bool, true, false, not, ◌&&◌, Option, some, List, [],
  ◌∷◌, arith, Text, text_eq, ltb, All,
}
use funi.Workers.StateCache.Lease.{
  PersistenceLease, held_by_other, acquire_state_persistence_lease, release_state_persistence_lease,
}

pub data Call : Type 0 where
  acquires : Text → (lease now : ℕ) → Call
  releases : Text → ℕ → Call

unfoldable pub step : Option PersistenceLease → Call → Option PersistenceLease × Bool
step row (acquires owner lease now) = acquire_state_persistence_lease row owner lease now
step row (releases owner now) = release_state_persistence_lease row owner now

-- What each call of a run answers.
unfoldable pub answers : Option PersistenceLease → List Call → List Bool
answers row [] = []
answers row (c ∷ cs) = (step row c).1 ∷ answers (step row c).0 cs

unfoldable pub run : Option PersistenceLease → List Call → Option PersistenceLease
run row [] = row
run row (c ∷ cs) = run (step row c).0 cs

-- A call of someone else, before the end of the lease.
abbrev pub by_other : Text → ℕ → Call → Bool
by_other owner end (acquires o lease now) = not (text_eq owner o) && ltb now end
by_other owner end (releases o now) = not (text_eq owner o)

kept :
    (r : PersistenceLease) (c : Call)
    → by_other r.owner_id r.leased_until_ms c ≡ true
    → ((step (some r) c).0 ≡ some r) × ((step (some r) c).1 ≡ false)
unfolding step acquire_state_persistence_lease release_state_persistence_lease
kept r (acquires o lease now) h = ground arith
kept r (releases o now) h = ground arith

kept_always :
    (r : PersistenceLease) (cs : List Call)
    → All (λ c. by_other r.owner_id r.leased_until_ms c ≡ true) cs
    → (run (some r) cs ≡ some r) × All (λ b. b ≡ false) (answers (some r) cs)
unfolding run answers
kept_always r [] h = (refl, tt)
kept_always r (c ∷ cs) h =
    let k = kept r c h.0 in rw k.0 (let rest = kept_always r cs h.1 in (rest.0, (k.1, rest.1)))

-- Once an owner has acquired the lease, every sequence of acquisitions by others before its end, and
-- of releases by others at any time, is refused call by call and leaves the lease as it is.
pub lease_excludes :
    (row : Option PersistenceLease) (owner : Text) (lease now : ℕ) (cs : List Call)
    → (acquire_state_persistence_lease row owner lease now).1 ≡ true
    → All (λ c. by_other owner (now + lease) c ≡ true) cs
    → (run (acquire_state_persistence_lease row owner lease now).0 cs
        ≡ (acquire_state_persistence_lease row owner lease now).0)
      × All (λ b. b ≡ false) (answers (acquire_state_persistence_lease row owner lease now).0 cs)
unfolding acquire_state_persistence_lease
lease_excludes row owner lease now cs h others = elim (Bool-cases (held_by_other row owner now)) [
  | inl e ↦ absurd (ground arith)
  | inr e ↦ rw e (
      kept_always (record { owner_id = owner; leased_until_ms = now + lease; updated_at_ms = now })
        cs others)
]
