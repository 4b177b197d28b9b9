-- ===== src/Stage2/Frames/States.antt =====
-- src/stage2.rs: the frames across what the states share: headers, containers and what comes next.
pub mod Values
pub mod Arrays
pub mod Tables
pub mod Step
use simd_toon_improved.Base.{
  ℕ, suc, ◌+◌, ◌-◌, ◌≤◌, Bool, true, false, Option, none, some, arith, if◌then◌else◌, ◌==◌,
}
use simd_toon_improved.Tape.{Node}
use simd_toon_improved.Stage2.Machine.{Span, Env, Machine, M, pure, gets, frame_keyed}
use simd_toon_improved.Stage2.Triple.{
  holds, mono-Ensures, Triple, triple, run_triple, bind_rule, reading_rule, if_rule, pure_rule,
  fail_rule,
}
use simd_toon_improved.Stage2.Scan.{EolState, sibling, close_scope, nested}
use simd_toon_improved.Stage2.Header.{
  HeaderType, primitive_value, object_start, empty_object, read_header, dispatch_header,
  read_bracket, ends_key, key_of,
}
use simd_toon_improved.Stage2.States.{
  State, goto, parse_inline_array, parse_block_array, array_state, next_field, open_container,
  end_scope, require_nested, next_item,
}
use simd_toon_improved.Stage2.States.Arrays.{open_item}
use simd_toon_improved.Stage2.Quiet.{Quiet-gets}
use simd_toon_improved.Stage2.Quiet.Scan.{run-Steps, get_value_end-Quiet}
use simd_toon_improved.Stage2.Quiet.Header.{read_bracket-Steps}
use simd_toon_improved.Stage2.Frames.{
  Good, Good-Quiet, Good-steps, Good-shift, gain, open_scope-Good, push_ws-Good,
  frame_array-IsFrame, frame_keyed-IsFrame,
}
use simd_toon_improved.Stage2.Frames.Close.{rank, After}

-- A header with brackets has passed at least one structural index.
abbrev pub header_gain : HeaderType → ℕ
header_gain (primitive_value val) = 0
header_gain (object_start key) = 0
header_gain empty_object = 0
header_gain _ = 4

pub shift_rule :
    {A : Type 0} {w v b c : ℕ} {Q : A → Machine → Type 0} {p : M A}
    → v + c ≤ w + b
    → Triple (Good w c) p Q
    → Triple (Good v b) p Q
shift_rule h (triple f) = triple λ m g. f m (Good-shift h g)

-- The next state costs no more than what is left.
pub goto_rule :
    {w b : ℕ} (s : State) → suc (rank s) ≤ b → Triple (Good w b) (pure (goto s)) (After w)
goto_rule s h = pure_rule _ λ m g. Good-shift (omega arith) g

pub array_state-After :
    {w b : ℕ} (count : ℕ) (key : Option Span) (delimiter : ℕ) (is_root : Bool)
    → 3 ≤ b
    → Triple (Good w b) (gets λ m. goto (array_state count key delimiter is_root m)) (After w)
unfolding gets
array_state-After {w} {b} count key delimiter is_root h = triple λ m g. holds (at (m.c == b'\n') g)
  where
    at :
        (t : Bool) {m : Machine}
        → Good w b m
        → After w
            (goto (
              if t
              then parse_block_array count key is_root
              else parse_inline_array count key delimiter is_root))
            m
    at true g = Good-shift (omega arith) g
    at false g = Good-shift (omega arith) g

pub header_gain-le : (h : HeaderType) → header_gain h ≤ 4
header_gain-le (primitive_value val) = omega arith
header_gain-le _ = omega arith

read_bracket-Good :
    {w b : ℕ} (env : Env) (key : Option Span)
    → Triple (Good w b) (read_bracket env key) (λ h. Good w (b + header_gain h))
read_bracket-Good env key = triple λ m g.
    mono-Ensures (run-Steps (read_bracket-Steps env key) m)
      λ h m' s. Good-shift (omega (arith, header_gain-le h)) (Good-steps m m' s g)

dispatch_header-Good :
    {w b : ℕ} (env : Env) (key : Option Span)
    → Triple (Good w b) (dispatch_header env key) (λ h. Good w (b + header_gain h))
unfolding dispatch_header
dispatch_header-Good env none = reading_rule _ λ m. if_rule (m.c == b':') (fail_rule _) (
    if_rule (m.c == b'\n') (pure_rule _ λ k. Good-shift (omega arith))
      (if_rule (m.c == b'[') (read_bracket-Good env none) (fail_rule _)))
dispatch_header-Good env (some v) = reading_rule _ λ m.
    if_rule (m.c == b':') (pure_rule _ λ k. Good-shift (omega arith)) (
      if_rule (m.c == b'\n') (pure_rule _ λ k. Good-shift (omega arith))
        (if_rule (m.c == b'[') (read_bracket-Good env (some v)) (fail_rule _)))

pub read_header-Good :
    {w b : ℕ} (env : Env) → Triple (Good w b) (read_header env) (λ h. Good w (b + header_gain h))
unfolding read_header
read_header-Good env = bind_rule (Good-Quiet (Quiet-gets _)) λ from.
    bind_rule (Good-Quiet (get_value_end-Quiet env ends_key))
      λ to. dispatch_header-Good env (key_of from to)

pub require_nested-Good :
    {w : ℕ} (b : ℕ) (eol : EolState)
    → Triple (Good w (b + gain eol)) (require_nested eol) (λ a. Good w (b + 4))
require_nested-Good b nested = pure_rule _ λ m g. g
require_nested-Good b sibling = fail_rule _
require_nested-Good b close_scope = fail_rule _

-- The container of a header takes one of what is to spare, if it is not the root's.
pub open_container-Good :
    {w b : ℕ} (env : Env) (node : Node) (key : Option Span) (ws : Machine → ℕ) (is_root : Bool)
    → Triple (Good w (suc b)) (open_container env node key ws is_root) (λ a. Good w b)
unfolding open_container
open_container-Good env node key ws true =
    triple λ m g. mono-Ensures (run_triple (push_ws-Good _) m g) λ a k. Good-shift (omega arith)
open_container-Good env node key ws false =
    open_scope-Good node (frame_keyed key) ws (frame_keyed-IsFrame key)

pub open_item-Good :
    {w b : ℕ} (env : Env) (key : Option Span)
    → Triple (Good w (suc b)) (open_item env key) (λ a. Good w b)
unfolding open_item
open_item-Good env none = pure_rule _ λ m. Good-shift (omega arith)
open_item-Good env (some key) = open_scope-Good _ _ _ frame_array-IsFrame

pub next_field-Good :
    {w b : ℕ} (eol : EolState) → 1 ≤ b → Triple (Good w b) (next_field eol) (After w)
next_field-Good sibling h = goto_rule _ h
next_field-Good close_scope h = goto_rule _ h
next_field-Good nested h = fail_rule _

pub next_item-Good :
    {w b : ℕ} (eol : EolState) → 1 ≤ b → Triple (Good w b) (next_item eol) (After w)
next_item-Good sibling h = goto_rule _ h
next_item-Good close_scope h = goto_rule _ h
next_item-Good nested h = fail_rule _

pub end_scope-Good :
    {w b : ℕ} (eol : EolState) → 1 ≤ b → Triple (Good w b) (end_scope eol) (After w)
end_scope-Good sibling h = goto_rule _ h
end_scope-Good close_scope h = goto_rule _ h
end_scope-Good nested h = fail_rule _
