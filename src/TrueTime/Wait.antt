-- ===== src/TrueTime/Wait.antt =====
-- When `commit_wait` returns.
use spanner_paxos.Base.{
  ==→eq, Bool-cases, arith, false, inl, inr, some, subst, suc, true, zero, ℕ, ◌+◌, ◌-◌, ◌<◌, ◌==◌,
  ◌≡◌, ◌≢◌, ◌≤◌,
}
use spanner_paxos.TrueTime.{Clock, DateTime, after, commit_wait, uncertainty}

not_yet :
    (clock : Clock) (i n : ℕ) (time : DateTime)
    → time + uncertainty < clock (i + n)
    → after time (clock i) ≡ false
    → i ≢ i + n
unfolding after
not_yet clock i n time p early e =
    let q : time + uncertainty < clock i = rw (← e) at p in ground arith

-- Once a reading is more than the uncertainty past the time, that many rounds end the loop. It
-- returns at the first reading from `i` on that puts the time definitely in the past.
pub commit_wait-ends :
    (fuel : ℕ) (clock : Clock) (i : ℕ) (time : DateTime)
    → (n : ℕ) → n < fuel
    → time + uncertainty < clock (i + n)
    → (j : ℕ) × (commit_wait fuel clock i time ≡ some j)
      × (j ≤ i + n)
      × (after time (clock j) ≡ true)
      × ((k : ℕ) → i ≤ k → k < j → after time (clock k) ≡ false)
unfolding commit_wait
commit_wait-ends zero clock i time n h p = elim h [ ]
commit_wait-ends (suc fuel) clock i time n h p = elim (Bool-cases (after time (clock i))) [
  | inl over ↦ (i, rw over, omega arith, over, λ k le lt. absurd (omega arith))
  | inr early ↦
      let later : i ≢ i + n = not_yet clock i n time p early in
      let place : i + n ≡ suc i + (n - 1) = omega arith in
      let (j, e, le, passed, first) =
        commit_wait-ends fuel clock (suc i) time (n - 1) (omega arith)
          (subst (λ k. time + uncertainty < clock k) place p) in
      (
        j,
        rw (early, e),
        omega arith,
        passed,
        λ k lo hi. elim (Bool-cases (k == i)) [
          | inl now_at ↦ rw (==→eq k i now_at) early
          | inr past ↦ first k (ground arith) hi
        ],
      )
]
