-- ===== src/Tests/Texts.antt =====
-- Instances of the theorems on strings and on whole documents, and runs.
use simd_toon_improved.Base.{
  inl, ℕ, true, none, some, [], ◌∷◌, ◌++◌, Bytes, get_elem?, ◌≡◌, ◌≢◌, refl, arith,
}
use simd_toon_improved.Error.{ok, err, out_of_fuel, generic, invalid_utf8}
use simd_toon_improved.Options.{new}
use simd_toon_improved.Strings.Chars.{codepoint_to_utf8, hex_to_u32_nocheck, combine, digit_to_val}
use simd_toon_improved.Strings.Utf8.{decode_utf8, decode_utf8-codepoint_to_utf8}
use simd_toon_improved.Strings.Hex.{hex_value}
use simd_toon_improved.Strings.Escape.{
  handle_unicode_codepoint, get_unicode_codepoint, first_unit, second_unit, join_units, is_low,
}
use simd_toon_improved.Strings.Surrogates.{
  handle_unicode_codepoint_unit, Digits, unit_of, escaped, Writes, pair,
  handle_unicode_codepoint-pair, handle_unicode_codepoint-refuses,
}
use simd_toon_improved.Strings.Parse.{parse_str_quotes}
use simd_toon_improved.Strings.Windows.{is_padded}
use simd_toon_improved.Strings.Loops.{unescape}
use simd_toon_improved.Strings.Text.{parse_str_quotes-unescape}
use simd_toon_improved.Strings.Quoted.{quoted, letter_of, parse_str_quotes-quoted}
use simd_toon_improved.Document.{spaces, padded, to_value}
use simd_toon_improved.Strings.Closed.{closes}
use simd_toon_improved.Strings.Loops.{unescape}
use simd_toon_improved.Document.Quotes.{parse_str-closes}
use simd_toon_improved.Base.{drop, ◌+◌}
use simd_toon_improved.Error.{fault}
use simd_toon_improved.Strings.Parse.{parse_str}
use simd_toon_improved.Document.Whole.{to_value-ne-out_of_fuel}

abbrev units : ℕ → ℕ → ℕ → ℕ → Digits
units a b c d = record { d1 = a; d2 = b; d3 = c; d4 = d }

-- The code points U+20AC and U+1F600, and a unit above the surrogates behind a high one.
abbrev euro : Digits
euro = units b'2' b'0' b'a' b'C'

abbrev high : Digits
high = units b'D' b'8' b'3' b'd'

abbrev low : Digits
low = units b'd' b'E' b'0' b'0'

abbrev none_low : Digits
none_low = units b'E' b'0' b'0' b'0'

-- A high surrogate is joined to a unit that is no surrogate, and one alone is the code point 0.
joined_to_no_surrogate :
    get_unicode_codepoint (escaped high (escaped none_low [])) ≡ ok (0x1F400, 12)
unfolding get_unicode_codepoint first_unit second_unit join_units hex_to_u32_nocheck combine
    digit_to_val
joined_to_no_surrogate = refl

alone_is_zero : get_unicode_codepoint (escaped high (b'"' ∷ [])) ≡ ok (0, 6)
unfolding get_unicode_codepoint first_unit second_unit hex_to_u32_nocheck combine digit_to_val
alone_is_zero = refl

abbrev some_text : Bytes
some_text = b'a' ∷ b'"' ∷ b'\n' ∷ []

-- `"a\"\n"`, as an input.
abbrev some_input : Bytes
some_input = b'"' ∷ b'a' ∷ b'\\' ∷ b'"' ∷ b'\\' ∷ b'n' ∷ b'"' ∷ []

text_padded : is_padded (quoted some_text ++ (b'"' ∷ spaces 40)) ≡ true
unfolding is_padded quoted letter_of
text_padded = refl

starts_with_quotes : get_elem? (padded some_input) 0 ≡ some b'"'
unfolding padded
starts_with_quotes = refl

decode_utf8-codepoint_to_utf8_example :
    decode_utf8 (codepoint_to_utf8 0x20AC ++ b'x' ∷ []) ≡ some (0x20AC, b'x' ∷ [])
decode_utf8-codepoint_to_utf8_example =
    decode_utf8-codepoint_to_utf8 0x20AC (b'x' ∷ []) (inl (omega arith))

handle_unicode_codepoint_unit_example :
    Writes 0x20AC 6 (handle_unicode_codepoint (escaped euro (b'"' ∷ [])))
unfolding hex_value
handle_unicode_codepoint_unit_example =
    handle_unicode_codepoint_unit euro (b'"' ∷ []) 0x20AC refl refl refl

handle_unicode_codepoint-pair_example :
    Writes (pair 0xD83D 0xDE00) 12 (handle_unicode_codepoint (escaped high (escaped low [])))
unfolding hex_value
handle_unicode_codepoint-pair_example =
    handle_unicode_codepoint-pair high low [] 0xD83D 0xDE00 refl refl refl refl

handle_unicode_codepoint-refuses_example :
    ((n : ℕ)
      → unit_of low ≡ some n
      → is_low n ≡ true
      → handle_unicode_codepoint (escaped low []) ≡ err (generic invalid_utf8))
    × (unit_of low ≡ none → handle_unicode_codepoint (escaped low []) ≡ ok ([], 6))
handle_unicode_codepoint-refuses_example = handle_unicode_codepoint-refuses low []

parse_str_quotes-unescape_example :
    parse_str_quotes (quoted some_text ++ (b'"' ∷ spaces 40))
    ≡ unescape (quoted some_text ++ (b'"' ∷ spaces 40))
parse_str_quotes-unescape_example =
    parse_str_quotes-unescape (quoted some_text ++ (b'"' ∷ spaces 40)) text_padded

parse_str_quotes-quoted_example :
    parse_str_quotes (quoted some_text ++ (b'"' ∷ spaces 40)) ≡ ok some_text
parse_str_quotes-quoted_example = parse_str_quotes-quoted some_text (spaces 40) text_padded

parse_str-closes_example :
    (parse_str (padded some_input) 0 7 ≡ unescape (drop (0 + 1) (padded some_input)))
    × (parse_str (padded some_input) 0 7 ≢ fault)
unfolding closes
parse_str-closes_example = parse_str-closes some_input 0 7 starts_with_quotes refl

to_value-ne-out_of_fuel_example :
    to_value (λ n. n) (λ input. ok (input, 0 ∷ [])) new some_input ≢ out_of_fuel
to_value-ne-out_of_fuel_example =
    to_value-ne-out_of_fuel (λ n. n) (λ input. ok (input, 0 ∷ [])) (λ input e. cc) new some_input
