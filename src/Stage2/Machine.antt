-- ===== src/Stage2/Machine.antt =====
-- src/stage2.rs: the variables of `build_tape`, and the macros that change them.
-- A macro that may fail is a function of the machine to a `Result`; what `return Err(..)` leaves of
-- the machine is dropped, as the callers drop it.
use simd_toon_improved.Base.{
  ℕ, ◌+◌, ◌-◌, Bool, Option, none, some, List, [], ◌∷◌, ◌++◌, leb, ltb, if◌then◌else◌, Bytes,
  length, get_elem?, set, take, drop, ◌&&◌,
}
use simd_toon_improved.Error.{
  ErrorType, new_c, internal_error, tape_error, syntax, no_structure, Result, ok, err, fault,
  out_of_fuel,
}
use simd_toon_improved.Tape.{Node, StaticNode}

-- The start and the end of a token in the input buffer.
abbrev pub Span : Type 0
Span = ℕ × ℕ

pub data StackState : Type 0 where
  start : StackState
  object : ℕ → ℕ → StackState
  array : ℕ → ℕ → StackState

-- What does not change during a run: the input buffer, the options, the parsers of strings and of
-- numbers, and `((old_cap as f64) * 0.2) as usize`.
pub record Env : Type 0 where
  pub input2 : Bytes
  pub strict : Bool
  pub indent_size : ℕ
  pub parse_str : ℕ → ℕ → Result Bytes
  pub try_parse_number : ℕ → ℕ → Bool → Result StaticNode
  pub growth : ℕ → ℕ

-- `tape` is `res[..r_i]`, `stack` is `stack[..depth]` and `rest` is `structural_indexes[i..]`.
-- The top of `stack`, `content_ws_stack` and `pending_counts` comes first here.
pub record Machine : Type 0 where
  pub tape : List Node
  pub capacity : ℕ
  pub tape_slack : ℕ
  pub stack : List StackState
  pub depth : ℕ
  pub last_start : ℕ
  pub cnt : ℕ
  pub idx : ℕ
  pub c : ℕ
  pub rest : List ℕ
  pub content_ws_stack : List ℕ
  pub pending_counts : List (ℕ × ℕ)
  pub last_dedent_ws : ℕ

abbrev pub M : Type 0 → Type 0
M A = Machine → Result (A × Machine)

abbrev pub and_then : {A B : Type 0} → Result A → (A → Result B) → Result B
and_then (ok a) f = f a
and_then (err e) f = err e
and_then fault f = fault
and_then out_of_fuel f = out_of_fuel

infixl 5 ◌>>=◌ ◌>>◌
unfoldable pub ◌>>=◌ : {A B : Type 0} → M A → (A → M B) → M B
◌>>=◌ p f m = and_then (p m) λ (a, m'). f a m'

unfoldable pub ◌>>◌ : {A B : Type 0} → M A → M B → M B
◌>>◌ p q m = and_then (p m) λ (a, m'). q m'

unfoldable pub pure : {A : Type 0} → A → M A
pure a m = ok (a, m)

-- A result that does not depend on the machine.
unfoldable pub lift : {A : Type 0} → Result A → M A
lift r m = and_then r λ a. ok (a, m)

unfoldable pub modify : (Machine → Machine) → M (Unit {0})
modify f m = ok (tt, f m)

unfoldable pub gets : {A : Type 0} → (Machine → A) → M A
gets f m = ok (f m, m)

-- What is done may depend on the machine.
unfoldable pub reading : {A : Type 0} → (Machine → M A) → M A
reading g m = g m m

unfoldable pub panic : {A : Type 0} → M A
panic m = fault

unfoldable pub exhausted : {A : Type 0} → M A
exhausted m = out_of_fuel

-- `fail!(t)` and `fail!()`
unfoldable pub fail : {A : Type 0} → ErrorType → M A
fail t m = err (new_c m.idx m.c t)

abbrev pub fail_tape : {A : Type 0} → M A
fail_tape = fail (internal_error tape_error)

-- `a - b` on `usize`
abbrev pub checked_sub : ℕ → ℕ → Result ℕ
checked_sub a b = if leb b a then ok (a - b) else fault

abbrev pub elem_or_fault : Option ℕ → Result ℕ
elem_or_fault none = fault
elem_or_fault (some b) = ok b

-- `get!(input2, k)`
unfoldable pub byte_at : Env → ℕ → Result ℕ
byte_at env k = elem_or_fault (get_elem? env.input2 k)

-- `&input2[start..end]`
unfoldable pub slice : Env → ℕ → ℕ → Result Bytes
slice env from to =
    if leb from to && leb to (length env.input2)
    then ok (take (to - from) (drop from env.input2))
    else fault

abbrev pub move : Machine → ℕ → ℕ → List ℕ → Machine
move m k b ks = record m { idx = k; c = b; rest = ks }

abbrev pub advance : Env → List ℕ → M (Unit {0})
advance env [] m = fail syntax m
advance env (k ∷ ks) m = and_then (byte_at env k) λ b. ok (tt, move m k b ks)

unfoldable pub update_char : Env → M (Unit {0})
update_char env m = advance env m.rest m

unfoldable pub insert_res : Node → M (Unit {0})
insert_res t m = ok (tt, record m { tape = m.tape ++ t ∷ [] })

unfoldable pub insert_str : Env → ℕ → ℕ → M (Unit {0})
insert_str env from to = do s ← lift (env.parse_str from to); insert_res (Node.string s)

unfoldable pub bump_cnt : M (Unit {0})
bump_cnt m = ok (tt, record m { cnt = m.cnt + 1 })

abbrev pub last_or_zero : List ℕ → ℕ
last_or_zero [] = 0
last_or_zero (w ∷ ws) = w

abbrev pub curr_indent : Machine → ℕ
curr_indent m = last_or_zero m.content_ws_stack

abbrev pub frame_object : Machine → StackState
frame_object m = object m.last_start m.cnt

abbrev pub frame_array : Machine → StackState
frame_array m = array m.last_start m.cnt

-- `frame!(keyed key)`
abbrev pub frame_keyed : Option Span → Machine → StackState
frame_keyed (some k) m = frame_object m
frame_keyed none m = frame_array m

-- The parent's frame and the indentation are read before anything changes.
unfoldable pub open_scope : Node → (Machine → StackState) → (Machine → ℕ) → M (Unit {0})
open_scope node parent ws m = ok (
  tt,
  record m {
    stack = parent m ∷ m.stack;
    depth = m.depth + 1;
    content_ws_stack = ws m ∷ m.content_ws_stack;
    last_start = length m.tape;
    tape = m.tape ++ node ∷ [];
    cnt = 0;
  },
)

-- The root container has its node already.
unfoldable pub push_ws : (Machine → ℕ) → M (Unit {0})
push_ws ws m = ok (tt, record m { content_ws_stack = ws m ∷ m.content_ws_stack })

abbrev pub tail_of {ℓ} : {A : Type ℓ} → List A → List A
tail_of [] = []
tail_of (x ∷ xs) = xs

-- `len` and `count` written back into the container that is being closed.
abbrev pub backfilled : (ℕ → ℕ → Node) → Machine → List Node
backfilled node m = set m.tape m.last_start (node m.cnt (length m.tape - m.last_start - 1))

abbrev pub backfill_object : Option Node → M (Unit {0})
backfill_object (some (Node.object len n)) m = ok (tt, record m { tape = backfilled Node.object m })
backfill_object (some other) m = fail no_structure m
backfill_object none m = fault

abbrev pub restore_parent : List StackState → M (Unit {0})
restore_parent (object l n ∷ s) m = ok (tt, record m { last_start = l; cnt = n; stack = s })
restore_parent (array l n ∷ s) m = ok (tt, record m { last_start = l; cnt = n; stack = s })
restore_parent (start ∷ s) m = fail no_structure m
restore_parent [] m = fault

abbrev pub leave : Machine → ℕ → Machine
leave m d = record m { depth = d; content_ws_stack = tail_of m.content_ws_stack }

-- `close_and_pop_state!(Object)`
unfoldable pub close_and_pop_state : M (Unit {0})
close_and_pop_state = do
  d ← reading λ m. lift (checked_sub m.depth 1)
  modify λ m. leave m d
  reading λ m. backfill_object (get_elem? m.tape m.last_start)
  reading λ m. restore_parent m.stack

abbrev pub larger : ℕ → ℕ → ℕ
larger a b = if leb a b then b else a

-- `reserve_exact` may give more; what is recorded is what was asked for.
unfoldable pub grow_res : Env → ℕ → M (Unit {0})
grow_res env minimum_required = modify λ m.
    let added = larger (env.growth m.capacity) minimum_required in
    record m { capacity = m.capacity + added; tape_slack = m.tape_slack + added }

-- `tape_slack -= n`
unfoldable pub spend_slack : ℕ → M (Unit {0})
spend_slack n = do
  s ← reading λ m. lift (checked_sub m.tape_slack n)
  modify λ m. record m { tape_slack = s }

-- `if deficit > tape_slack { grow_res!(deficit - tape_slack) }; tape_slack -= deficit`
unfoldable pub reserve_rows : Env → ℕ → M (Unit {0})
unfolding grow_res
reserve_rows env deficit = do
  reading λ m. if ltb m.tape_slack deficit then grow_res env (deficit - m.tape_slack) else pure tt
  spend_slack deficit
