-- ===== src/Stage2/Slack.antt =====
-- src/stage2.rs: the room that the tabular states reserve on the tape.
use simd_toon_improved.Base.{
  ℕ, ◌+◌, ◌-◌, ◌≤◌, ◌<◌, ◌≡◌, ◌⊎◌, inl, inr, refl, arith, Bool, true, false, ltb, leb,
  if◌then◌else◌,
}
use native.Mathlib.Numerals.{unary_clauses}
use simd_toon_improved.Error.{Result, ok}
use simd_toon_improved.Stage2.Machine.{
  Env, Machine, ◌>>◌, ◌>>=◌, pure, lift, modify, reading, larger, grow_res, spend_slack,
  reserve_rows,
}

-- `added` more slots, of which and of the slack `n` are spent.
abbrev pub reserved : ℕ → ℕ → Machine → Machine
reserved n added m = record m {
  capacity = m.capacity + added;
  tape_slack = (m.tape_slack + added) - n;
}

le→leb : (a b : ℕ) → a ≤ b → leb a b ≡ true
le→leb a b h = ground arith

spend_slack-enough :
    (n : ℕ) (m : Machine)
    → n ≤ m.tape_slack
    → spend_slack n m ≡ ok (tt, record m { tape_slack = m.tape_slack - n })
unfolding ◌>>=◌ reading lift modify spend_slack
spend_slack-enough n m h = rw (le→leb n m.tape_slack h) refl

larger-le : (a b : ℕ) → b ≤ larger a b
larger-le a b = ground arith

-- What is reserved, whether or not there is slack enough.
Reserves : Env → ℕ → Machine → Result (Unit {0} × Machine) → Type 0
Reserves env n m r =
    (added : ℕ) × (r ≡ ok (tt, reserved n added m))
    × (n ≤ m.tape_slack + added)
    × ((added ≡ 0) ⊎ (m.tape_slack < n))

by_need :
    (env : Env) (n : ℕ) (m : Machine) (g : Bool)
    → ltb m.tape_slack n ≡ g
    → Reserves env n m
        (((if g then grow_res env (n - m.tape_slack) else pure tt) >> spend_slack n) m)
unfolding ◌>>◌ grow_res modify pure Reserves
by_need env n m true h =
    let added = larger (env.growth m.capacity) (n - m.tape_slack) in
    let enough : n ≤ m.tape_slack + added =
      omega (arith, larger-le (env.growth m.capacity) (n - m.tape_slack)) in
    (
      added,
      spend_slack-enough n
          (record m { capacity = m.capacity + added; tape_slack = m.tape_slack + added }) enough,
      enough,
      inr (ground arith),
    )
by_need env n m false h =
    let enough : n ≤ m.tape_slack = ground arith in
    (0, simp unary_clauses (spend_slack-enough n m enough), ground arith, inl refl)

-- `reserve_rows` never fails and never takes the slack below 0: it spends the deficit from the slack
-- and from the slots it adds, which are none where the slack is enough.
pub reserve_rows-reserved :
    (env : Env) (n : ℕ) (m : Machine)
    → (added : ℕ) × (reserve_rows env n m ≡ ok (tt, reserved n added m))
      × (n ≤ m.tape_slack + added)
      × ((added ≡ 0) ⊎ (m.tape_slack < n))
unfolding reserve_rows reading Reserves ◌>>◌
reserve_rows-reserved env n m = by_need env n m (ltb m.tape_slack n) refl
