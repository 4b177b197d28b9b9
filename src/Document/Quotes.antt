-- ===== src/Document/Quotes.antt =====
-- src/lib.rs and src/impls/avx2/deser.rs: a string in quotes in the padded input.
use simd_toon_improved.Base.{
  false, ℕ, ◌+◌, ◌≤◌, true, some, [], ◌∷◌, ◌++◌, Bytes, length, length-append, get_elem?, drop, ◌≡◌,
  ◌≢◌, refl, sym, ◌∙◌, ap, arith,
}
use simd_toon_improved.Error.{fault}
use simd_toon_improved.Strings.Chars.{byte_of}
use simd_toon_improved.Strings.Parse.{parse_str}
use simd_toon_improved.Strings.Windows.{is_padded, is_padded-drop}
use simd_toon_improved.Strings.Loops.{unescape}
use simd_toon_improved.Strings.Text.{parse_str_quotes-unescape}
use simd_toon_improved.Document.{padding, padded}
use simd_toon_improved.Strings.Closed.{closes, is_closed, is_closed-append, drop-closes}
use simd_toon_improved.Strings.Settled.{unescape-ne-fault}

is_padded-append : (s p : Bytes) → is_padded p ≡ true → 31 ≤ length p → is_padded (s ++ p) ≡ true
unfolding is_padded
is_padded-append [] p h le = h
is_padded-append (b ∷ s) p h le = ground (arith, is_padded-append s p, length-append s p)

is_padded-padding : is_padded padding ≡ true
unfolding is_padded padding
is_padded-padding = refl

length-padding : 31 ≤ length padding
unfolding padding
length-padding = omega arith

parse_str-unescape :
    (input : Bytes) (idx end : ℕ)
    → get_elem? (padded input) idx ≡ some b'"'
    → parse_str (padded input) idx end ≡ unescape (drop (idx + 1) (padded input))
unfolding parse_str padded
parse_str-unescape input idx end e =
    rw (byte_of, e)
      (parse_str_quotes-unescape (drop (idx + 1) (padded input)) (
        is_padded-drop (idx + 1) (padded input)
          (is_padded-append input padding is_padded-padding length-padding)))

-- A token in quotes of a padded input whose quotes are closed in the input, where the byte behind a
-- backslash closes nothing: whatever the rest is, parse_str reads it as a search byte by byte from one
-- escape to the next reads it, and neither a window of 32 bytes nor an escape goes behind the padding.
pub parse_str-closes :
    (input : Bytes) (idx end : ℕ)
    → get_elem? (padded input) idx ≡ some b'"'
    → closes false (drop (idx + 1) input) ≡ true
    → (parse_str (padded input) idx end ≡ unescape (drop (idx + 1) (padded input)))
      × (parse_str (padded input) idx end ≢ fault)
unfolding padded
parse_str-closes input idx end e h =
    (read, λ f. unescape-ne-fault (drop (idx + 1) (input ++ padding)) closed (sym read ∙ f))
  where
    read : parse_str (padded input) idx end ≡ unescape (drop (idx + 1) (padded input))
    read = parse_str-unescape input idx end e

    closed : is_closed false (drop (idx + 1) (input ++ padding)) ≡ true
    closed =
        ap (is_closed false) (drop-closes (idx + 1) input padding h)
        ∙ is_closed-append false (drop (idx + 1) input) padding h length-padding
