-- ===== src/Stage2/Triple.antt =====
-- What holds after a piece of `build_tape`: rules that follow its text.
use simd_toon_improved.Base.{Bool, true, false, ◌≡◌, ◌≢◌, refl, subst₂, if◌then◌else◌}
use simd_toon_improved.Error.{Error, ErrorType, Result, ok, err, fault, out_of_fuel}
use simd_toon_improved.Stage2.Machine.{
  Machine, M, ◌>>=◌, ◌>>◌, and_then, pure, lift, reading, panic, fail,
}

-- A chain of steps may be read from either end.
pub and_then_assoc :
    {A B C : Type 0} (r : Result A) (f : A → Result B) (g : B → Result C)
    → and_then (and_then r f) g ≡ and_then r (λ a. and_then (f a) g)
and_then_assoc (ok a) f g = refl
and_then_assoc (err e) f g = refl
and_then_assoc fault f g = refl
and_then_assoc out_of_fuel f g = refl

-- A result that kept within its fuel, and whose value, if there is one, satisfies `Q`.
pub data Ensures {A : Type 0} (Q : A → Machine → Type 0) : Result (A × Machine) → Type 0 where
  holds : {a : A} {m : Machine} → Q a m → Ensures Q (ok (a, m))
  raised : {e : Error} → Ensures Q (err e)
  panicked : Ensures Q fault

pub Ensures-ok :
    {A : Type 0} {Q : A → Machine → Type 0} {r : Result (A × Machine)} {a : A} {m : Machine}
    → Ensures Q r
    → r ≡ ok (a, m)
    → Q a m
Ensures-ok {Q} (holds {a = b} {m = k} h) e =
    let p : b ≡ _ = cc in let q : k ≡ _ = cc in subst₂ Q p q h
Ensures-ok raised e = cc
Ensures-ok panicked e = cc

pub Ensures-ne-out_of_fuel :
    {A : Type 0} {Q : A → Machine → Type 0} {r : Result (A × Machine)}
    → Ensures Q r
    → r ≢ out_of_fuel
Ensures-ne-out_of_fuel (holds h) e = cc
Ensures-ne-out_of_fuel raised e = cc
Ensures-ne-out_of_fuel panicked e = cc

module _ {A : Type 0} {Q : A → Machine → Type 0} where
  pub if_Ensures :
      (b : Bool) {r s : Result (A × Machine)}
      → Ensures Q r
      → Ensures Q s
      → Ensures Q (if b then r else s)
  if_Ensures true h k = h
  if_Ensures false h k = k

  pub branch-Ensures :
      (b : Bool) (p q : M A) {m : Machine}
      → Ensures Q (p m)
      → Ensures Q (q m)
      → Ensures Q ((if b then p else q) m)
  branch-Ensures true p q h k = h
  branch-Ensures false p q h k = k

  pub fail-Ensures : (t : ErrorType) (m : Machine) → Ensures Q (fail t m)
  unfolding fail
  fail-Ensures t m = raised

  pub ends-Ensures :
      {B : Type 0} (r : Result B) (f : B → Result (A × Machine))
      → r ≢ out_of_fuel
      → ((b : B) → Ensures Q (f b))
      → Ensures Q (and_then r f)
  ends-Ensures (ok b) f e h = h b
  ends-Ensures (err x) f e h = raised
  ends-Ensures fault f e h = panicked
  ends-Ensures out_of_fuel f e h = absurd (e refl)

pub bind-Ensures :
    {A B : Type 0} {Q : A → Machine → Type 0} {R : B → Machine → Type 0} {r : Result (A × Machine)}
    (f : A → M B)
    → Ensures Q r
    → ((a : A) (m : Machine) → Q a m → Ensures R (f a m))
    → Ensures R (and_then r λ (a, m). f a m)
bind-Ensures f (holds {a} {m} h) k = k a m h
bind-Ensures f raised k = raised
bind-Ensures f panicked k = panicked

pub mono-Ensures :
    {A : Type 0} {Q R : A → Machine → Type 0} {r : Result (A × Machine)}
    → Ensures Q r
    → ((a : A) (m : Machine) → Q a m → R a m)
    → Ensures R r
mono-Ensures (holds {a} {m} h) k = holds (k a m h)
mono-Ensures raised k = raised
mono-Ensures panicked k = panicked

pub data Triple {A : Type 0} (P : Machine → Type 0) (p : M A) (Q : A → Machine → Type 0)
    : Type 0 where
  triple : ((m : Machine) → P m → Ensures Q (p m)) → Triple P p Q

module _ {A : Type 0} {P : Machine → Type 0} {Q : A → Machine → Type 0} where
  pub run_triple : {p : M A} → Triple P p Q → (m : Machine) → P m → Ensures Q (p m)
  run_triple (triple h) m k = h m k

  pub pure_rule : (a : A) → ((m : Machine) → P m → Q a m) → Triple P (pure a) Q
  unfolding pure
  pure_rule a h = triple λ m k. holds (h m k)

  pub fail_rule : (t : ErrorType) → Triple P (fail {A = A} t) Q
  unfolding fail
  fail_rule t = triple λ m k. raised

  pub panic_rule : Triple P (panic {A = A}) Q
  unfolding panic
  panic_rule = triple λ m k. panicked

  pub if_rule :
      (b : Bool) {p q : M A} → Triple P p Q → Triple P q Q → Triple P (if b then p else q) Q
  if_rule true h k = h
  if_rule false h k = k

  pub reading_rule :
      (g : Machine → M A) → ((k : Machine) → Triple P (g k) Q) → Triple P (reading g) Q
  unfolding reading
  reading_rule g h = triple λ m k. run_triple (h m) m k

  pub lift_rule :
      (r : Result A) → r ≢ out_of_fuel → ((a : A) (m : Machine) → P m → Q a m) → Triple P (lift r) Q
  unfolding lift
  lift_rule (ok a) h k = triple λ m x. holds (k a m x)
  lift_rule (err e) h k = triple λ m x. raised
  lift_rule fault h k = triple λ m x. panicked
  lift_rule out_of_fuel h k = absurd (h refl)

module _ {A B : Type 0} {Q : A → Machine → Type 0} {R : B → Machine → Type 0} where
  bind_result :
      {r : Result (A × Machine)} (f : A → M B)
      → Ensures Q r
      → ((a : A) → Triple (Q a) (f a) R)
      → Ensures R (and_then r λ (a, m). f a m)
  bind_result f (holds {a} {m} h) k = run_triple (k a) m h
  bind_result f raised k = raised
  bind_result f panicked k = panicked

  pub bind_rule :
      {P : Machine → Type 0} {p : M A} {f : A → M B}
      → Triple P p Q
      → ((a : A) → Triple (Q a) (f a) R)
      → Triple P (p >>= f) R
  unfolding ◌>>=◌
  bind_rule {f} h k = triple λ m x. bind_result f (run_triple h m x) k

module _ {A B : Type 0} {S : Machine → Type 0} {R : B → Machine → Type 0} where
  then_result :
      {r : Result (A × Machine)} (q : M B)
      → Ensures (λ a. S) r
      → Triple S q R
      → Ensures R (and_then r λ (a, m). q m)
  then_result q (holds {a} {m} h) k = run_triple k m h
  then_result q raised k = raised
  then_result q panicked k = panicked

  pub then_rule :
      {P : Machine → Type 0} {p : M A} {q : M B}
      → Triple P p (λ a. S)
      → Triple S q R
      → Triple P (p >> q) R
  unfolding ◌>>◌
  then_rule {q} h k = triple λ m x. then_result q (run_triple h m x) k
