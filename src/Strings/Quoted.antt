-- ===== src/Strings/Quoted.antt =====
-- src/impls/avx2/deser.rs and src/stringparse.rs: text that a writer has put in quotes, read back.
use simd_toon_improved.Base.{
  ℕ, zero, suc, ◌+◌, ◌*◌, ◌/◌, ◌%◌, ◌≤◌, ◌<◌, true, false, Option, none, some, Option-cases, [],
  ◌∷◌, ◌++◌, Bytes, append_assoc, append-nil, ◌==◌, if◌then◌else◌, take, drop, length,
  length-append, get_elem?, inl, inr, ◌≡◌, refl, sym, ◌∙◌, ap, subst, arith,
}
use simd_toon_improved.Error.{ok}
use simd_toon_improved.Views.Slices.{take-append, drop-append, get_elem?-append}
use simd_toon_improved.Strings.Chars.{byte_of}
use simd_toon_improved.Strings.Escape.{escape_map}
use simd_toon_improved.Strings.Parse.{quote, backslash, neither, escape, parse_str_quotes}
use simd_toon_improved.Strings.Windows.{seek, beyond, seek-take, is_padded}
use simd_toon_improved.Strings.Loops.{decode, unescape, drop-add}
use simd_toon_improved.Strings.Text.{parse_str_quotes-unescape}

-- The letter that a writer puts behind a backslash for a byte, if the byte needs one.
unfoldable pub letter_of : ℕ → Option ℕ
letter_of b =
    if b == 0x22
    then some 0x22
    else if b == 0x5c
    then some 0x5c
    else if b == 0x08
    then some b'b'
    else if b == 0x0c
    then some b'f'
    else if b == 0x0a
    then some b'n'
    else if b == 0x0d
    then some b'r'
    else if b == 0x09
    then some b't'
    else none

unfoldable pub quoted : Bytes → Bytes
quoted [] = []
quoted (b ∷ s) = elim (letter_of b) [ none ↦ b ∷ quoted s | some c ↦ b'\\' ∷ c ∷ quoted s ]

letter_of-escape_map :
    (b c : ℕ)
    → letter_of b ≡ some c
    → (escape_map c ≡ b) × ((b == 0) ≡ false) × ((c == b'u') ≡ false)
unfolding letter_of escape_map
letter_of-escape_map b c h = (ground arith, ground arith, ground arith)

letter_of-none : (b : ℕ) → letter_of b ≡ none → seek (b ∷ []) ≡ neither
unfolding letter_of seek
letter_of-none b h = ground arith

seek-append : (p q : Bytes) → seek p ≡ neither → seek (p ++ q) ≡ beyond (length p) (seek q)
seek-append p q h =
    seek-take (length p) (p ++ q) (omega (arith, length-append p q))
    ∙ rw (take-append p q, drop-append p q, h) refl

get_elem?-drop : (m n : ℕ) (xs : Bytes) → get_elem? (drop m xs) n ≡ get_elem? xs (m + n)
get_elem?-drop zero n xs = ap (get_elem? xs) (omega arith)
get_elem?-drop (suc m) n [] = refl
get_elem?-drop (suc m) n (x ∷ xs) = get_elem?-drop m n xs ∙ ap (get_elem? (x ∷ xs)) (suc-add m n)
  where
    suc-add : (m n : ℕ) → suc (m + n) ≡ suc m + n
    suc-add m n = omega arith

-- The two bytes of an escape behind a prefix, reached in two steps.
module _ (p : Bytes) (c : ℕ) (rest : Bytes) (m k : ℕ) (e : m + k ≡ length p) where
  abbrev source : Bytes
  source = p ++ (b'\\' ∷ c ∷ rest)

  letter_there : get_elem? (drop m source) (k + 1) ≡ some c
  letter_there =
      get_elem?-drop m (k + 1) source
      ∙ subst (λ t. get_elem? t (m + (k + 1)) ≡ some c) (append_assoc p (b'\\' ∷ []) (c ∷ rest))
          (ap (get_elem? ((p ++ (b'\\' ∷ [])) ++ (c ∷ rest)))
              (omega (arith, length-append p (b'\\' ∷ [])))
            ∙ get_elem?-append (p ++ (b'\\' ∷ [])) (c ∷ rest))

  rest_behind : drop (k + 2) (drop m source) ≡ rest
  rest_behind =
      drop-add m (k + 2) source
      ∙ subst (λ t. drop (m + (k + 2)) t ≡ rest) (append_assoc p (b'\\' ∷ c ∷ []) rest)
          (ap (λ j. drop j ((p ++ (b'\\' ∷ c ∷ [])) ++ rest))
              (omega (arith, length-append p (b'\\' ∷ c ∷ [])))
            ∙ drop-append (p ++ (b'\\' ∷ c ∷ [])) rest)

  escape-letter :
      (b i : ℕ) → letter_of b ≡ some c → escape (drop m source) i k ≡ ok (b ∷ [], (i + k + 2, rest))
  unfolding escape
  escape-letter b i h =
      rw
        (
          byte_of,
          letter_there,
          (letter_of-escape_map b c h).2,
          (letter_of-escape_map b c h).0,
          (letter_of-escape_map b c h).1,
          rest_behind,
          (letter_of-escape_map b c h).0,
        )
        refl

decode_quote :
    (fuel : ℕ) (src : Bytes) (i d : ℕ) (dst : Bytes)
    → seek src ≡ quote d
    → decode (suc fuel) src i dst ≡ ok (dst ++ take d src)
unfolding decode
decode_quote fuel src i d dst e = rw (decode, e) refl

decode_backslash :
    (fuel : ℕ) (src : Bytes) (i d j : ℕ) (dst o rest : Bytes)
    → seek src ≡ backslash d
    → escape (drop (d / 32 * 32) src) (i + d / 32 * 32) (d % 32) ≡ ok (o, (j, rest))
    → decode (suc fuel) src i dst ≡ decode fuel rest j ((dst ++ take d src) ++ o)
unfolding decode
decode_backslash fuel src i d j dst o rest e f = rw (decode, e, f) refl

-- What is found right behind a prefix that has neither.
found_behind :
    (p q : Bytes)
    → seek p ≡ neither
    → ((seek q ≡ quote 0 → seek (p ++ q) ≡ quote (length p))
        × (seek q ≡ backslash 0 → seek (p ++ q) ≡ backslash (length p)))
found_behind p q n = (
  λ e. seek-append p q n ∙ ap (beyond (length p)) e ∙ ap quote (omega arith),
  λ e. seek-append p q n ∙ ap (beyond (length p)) e ∙ ap backslash (omega arith),
)

seek-plain :
    (p : Bytes) (b : ℕ) → seek p ≡ neither → letter_of b ≡ none → seek (p ++ (b ∷ [])) ≡ neither
seek-plain p b n e = seek-append p (b ∷ []) n ∙ ap (beyond (length p)) (letter_of-none b e)

decode-quoted :
    (s p : Bytes) (fuel i : ℕ) (dst tail : Bytes)
    → seek p ≡ neither
    → length s < fuel
    → decode fuel (p ++ (quoted s ++ (b'"' ∷ tail))) i dst ≡ ok (dst ++ (p ++ s))
unfolding quoted seek
decode-quoted s p zero i dst tail n lt = absurd (omega arith)
decode-quoted [] p (suc fuel) i dst tail n lt =
    decode_quote fuel _ i (length p) dst ((found_behind p (b'"' ∷ tail) n).0 refl)
    ∙ rw (take-append p (b'"' ∷ tail), append-nil p) refl
decode-quoted (b ∷ s) p (suc fuel) i dst tail n lt = elim (Option-cases (letter_of b)) [
  | inl e ↦
      rw (quoted, e)
        (ap (λ t. decode (suc fuel) t i dst)
            (sym (append_assoc p (b ∷ []) (quoted s ++ (b'"' ∷ tail))))
          ∙ decode-quoted s (p ++ (b ∷ [])) (suc fuel) i dst tail (seek-plain p b n e) (omega arith)
          ∙ ap (λ t. ok (dst ++ t)) (append_assoc p (b ∷ []) s))
  | inr (c, e) ↦
      let rest = quoted s ++ (b'"' ∷ tail) in
      rw (quoted, e)
        (decode_backslash fuel _ i (length p) _ dst (b ∷ []) rest
            ((found_behind p (b'\\' ∷ c ∷ rest) n).1 refl)
            (escape-letter p c rest (length p / 32 * 32) (length p % 32) (omega arith) b _ e)
          ∙ decode-quoted s [] fuel _
              ((dst ++ take (length p) (p ++ (b'\\' ∷ c ∷ rest))) ++ (b ∷ [])) tail refl
              (omega arith)
          ∙ rw
              (
                take-append p (b'\\' ∷ c ∷ rest),
                append_assoc (dst ++ p) (b ∷ []) s,
                append_assoc dst p (b ∷ s),
              )
              refl)
]

length-quoted : (s : Bytes) → length s ≤ length (quoted s)
unfolding quoted
length-quoted [] = omega arith
length-quoted (b ∷ s) = elim (Option-cases (letter_of b)) [
  | inl e ↦ rw (quoted, e) (omega (arith, length-quoted s))
  | inr (c, e) ↦ rw (quoted, e) (omega (arith, length-quoted s))
]

quoted_letter : (b c : ℕ) (s : Bytes) → letter_of b ≡ some c → quoted (b ∷ s) ≡ b'\\' ∷ c ∷ quoted s
unfolding quoted
quoted_letter b c s e = rw (quoted, e) refl

unescape-quoted :
    (s p tail : Bytes)
    → seek p ≡ neither
    → unescape (p ++ (quoted s ++ (b'"' ∷ tail))) ≡ ok (p ++ s)
unfolding quoted seek unescape
unescape-quoted [] p tail n =
    rw
      (unescape, (found_behind p (b'"' ∷ tail) n).0 refl, take-append p (b'"' ∷ tail), append-nil p)
      refl
unescape-quoted (b ∷ s) p tail n = elim (Option-cases (letter_of b)) [
  | inl e ↦
      rw (quoted, e)
        (ap (λ t. unescape t) (sym (append_assoc p (b ∷ []) (quoted s ++ (b'"' ∷ tail))))
          ∙ unescape-quoted s (p ++ (b ∷ [])) tail (seek-plain p b n e)
          ∙ ap (λ t. ok t) (append_assoc p (b ∷ []) s))
  | inr (c, e) ↦
      let rest = quoted s ++ (b'"' ∷ tail) in
      rw (quoted, e)
        (rw
          (
            unescape,
            (found_behind p (b'\\' ∷ c ∷ rest) n).1 refl,
            drop-append p (b'\\' ∷ c ∷ rest),
            take-append p (b'\\' ∷ c ∷ rest),
            subst
                (λ q.
                  decode (suc (length (p ++ (b'\\' ∷ c ∷ rest)))) (q ++ (b'"' ∷ tail)) (length p) []
                  ≡ ok (b ∷ s))
                (quoted_letter b c s e)
                (decode-quoted (b ∷ s) [] (suc (length (p ++ (b'\\' ∷ c ∷ rest)))) (length p) []
                  tail refl
                  (omega (
                    arith,
                    length-quoted s,
                    length-append p (b'\\' ∷ c ∷ rest),
                    length-append (quoted s) (b'"' ∷ tail),
                  ))),
          )
          refl)
]

-- Text put in quotes by a writer, with the short escapes for quotes, the backslash, backspace, form
-- feed, newline, carriage return and tab and all other bytes as they are, is read back as it was, where
-- the padding of an input stands behind it.
pub parse_str_quotes-quoted :
    (s tail : Bytes)
    → is_padded (quoted s ++ (b'"' ∷ tail)) ≡ true
    → parse_str_quotes (quoted s ++ (b'"' ∷ tail)) ≡ ok s
unfolding seek
parse_str_quotes-quoted s tail h = parse_str_quotes-unescape _ h ∙ unescape-quoted s [] tail refl
