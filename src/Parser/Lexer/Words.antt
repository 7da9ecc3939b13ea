-- ===== src/Parser/Lexer/Words.antt =====
-- Words in quotes, as `parse_token` reads them.
use system_prog.Common.{
  is_empty-append, ℕ, ◌⊎◌, ap₂, ==_iff, is_empty, zero-add, ◌+◌, ◌^◌, ◌<◌, ◌==◌, if◌then◌else◌, ◌≡◌,
  ◌≢◌, ◌∙◌, refl, sym, ap, true, false, inl, inr, [], ◌∷◌, ◌++◌, append-nil, append_assoc, arith,
  length, Bytes, Bool-cases,
}
use system_prog.Parser.Lexer.Bounds.{parse_token-eq}
use system_prog.Parser.Lexer.Scan.{
  scan-next_one, scan-next_two, scan-return, AllBlank, skip_spaces-blank, skip_spaces-scan,
}
use system_prog.Parser.Lexer.{
  lexed, token_str, Lexed, return_, next_one, next_two, on_quote, on_operator, on_hash,
  on_backslash, append_and_next, on_blank, round, scan, is_space, skip_spaces, parse_token,
}

-- A word between double quotes: a backslash stands before each double quote and backslash.
abbrev pub escaped : Bytes → Bytes → Bytes
escaped [] rest = b'"' ∷ rest
escaped (c ∷ w) rest =
    if c == b'"'
    then b'\\' ∷ b'"' ∷ escaped w rest
    else if c == b'\\'
    then b'\\' ∷ b'\\' ∷ escaped w rest
    else c ∷ escaped w rest

abbrev pub quoted : Bytes → Bytes → Bytes
quoted w rest = b'"' ∷ escaped w rest

-- The number of bytes that `escaped` puts before `rest`.
abbrev pub escaped_size : Bytes → ℕ
escaped_size [] = 1
escaped_size (c ∷ w) = (if c == b'"' then 2 else if c == b'\\' then 2 else 1) + escaped_size w

round_raw :
    (t : Bytes) (c : ℕ) (s : Bytes) (n : ℕ)
    → (c == b'"') ≡ false
    → (c == b'\\') ≡ false
    → round b'"' t c s n ≡ next_one b'"' (t ++ c ∷ [])
unfolding round on_quote on_operator on_hash on_blank append_and_next
round_raw t c s n h k = ground arith

round_escape :
    (t : Bytes) (c : ℕ) (s : Bytes) (n : ℕ)
    → ((c == b'"') ≡ true) ⊎ ((c == b'\\') ≡ true)
    → round b'"' t b'\\' (c ∷ s) n ≡ next_two b'"' (t ++ c ∷ [])
unfolding round on_backslash
round_escape t c s n h = ground arith

round_close :
    (q : ℕ) (t s : Bytes) (n : ℕ)
    → (q ≡ b'"') ⊎ (q ≡ b'\'')
    → round q t q s n ≡ return_ (lexed (n + 1) token_str t)
unfolding round on_quote
round_close q t s n h = ground arith

round_open :
    (q : ℕ) (s : Bytes) (n : ℕ)
    → (q ≡ b'"') ⊎ (q ≡ b'\'')
    → is_empty s ≡ false
    → round 0 [] q s n ≡ next_one q []
unfolding round on_quote
round_open q s n h k = ground arith

-- A byte read, and the rest of the word read after it.
join :
    (t w : Bytes) (c n k m : ℕ) {r : Lexed}
    → r ≡ lexed (n + k + m) token_str ((t ++ c ∷ []) ++ w)
    → r ≡ lexed (n + (k + m)) token_str (t ++ c ∷ w)
join t w c n k m h = h ∙ ap₂ (λ i x. lexed i token_str x) (omega arith) (append_assoc t (c ∷ []) w)

scan-escaped :
    (w t rest : Bytes) (n : ℕ)
    → scan b'"' t (escaped w rest) n ≡ lexed (n + escaped_size w) token_str (t ++ w)
scan-escaped [] t rest n =
    scan-return b'"' t b'"' rest n (round_close b'"' t rest n (inl refl)) ∙ rw append-nil
scan-escaped (c ∷ w) t rest n = elim (Bool-cases (c == b'"')) [
  | inl h ↦ rw h (
      join t w c n 2 (escaped_size w) (
        rw ((==_iff c b'"').0 h) (
          scan-next_two b'"' t b'\\' n b'"' (escaped w rest) (round_escape t b'"' _ n (inl refl))
          ∙ scan-escaped w (t ++ b'"' ∷ []) rest (n + 2))))
  | inr h ↦ elim (Bool-cases (c == b'\\')) [
    | inl k ↦
        rw (h, k)
          (join t w c n 2 (escaped_size w) (
            rw ((==_iff c b'\\').0 k) (
              scan-next_two b'"' t b'\\' n b'\\' (escaped w rest)
                (round_escape t b'\\' _ n (inr refl))
              ∙ scan-escaped w (t ++ b'\\' ∷ []) rest (n + 2))))
    | inr k ↦
        rw (h, k)
          (join t w c n 1 (escaped_size w) (
            scan-next_one b'"' t c n (escaped w rest) (round_raw t c _ n h k)
            ∙ scan-escaped w (t ++ c ∷ []) rest (n + 1)))
  ]
]

is_empty-escaped : (w rest : Bytes) → is_empty (escaped w rest) ≡ false
is_empty-escaped [] rest = refl
is_empty-escaped (c ∷ w) rest = ground arith

scan-quoted :
    (w rest : Bytes) (n : ℕ)
    → scan 0 [] (quoted w rest) n ≡ lexed (n + 1 + escaped_size w) token_str w
scan-quoted w rest n =
    scan-next_one 0 [] b'"' n (escaped w rest)
      (round_open b'"' _ n (inl refl) (is_empty-escaped w rest))
    ∙ scan-escaped w [] rest (n + 1)

pub skip_spaces-quoted :
    (w rest : Bytes) (n : ℕ)
    → skip_spaces (quoted w rest) n ≡ lexed (n + 1 + escaped_size w) token_str w
unfolding is_space
skip_spaces-quoted w rest n = skip_spaces-scan b'"' _ n refl ∙ scan-quoted w rest n

-- Any word between double quotes, with blanks before it and whatever follows, is read back as
-- it is, and uses the blanks, the quotes and what stands between them.
parse_token-quoted :
    (bs w rest : Bytes)
    → AllBlank bs
    → length (bs ++ quoted w rest) < 2 ^ 32
    → parse_token (bs ++ quoted w rest) ≡ lexed (length bs + 1 + escaped_size w) token_str w
parse_token-quoted bs w rest h k =
    parse_token-eq (bs ++ quoted w rest) k
    ∙ skip_spaces-blank bs (quoted w rest) 0 h
    ∙ rw zero-add (skip_spaces-quoted w rest (length bs))

-- No single quote.
abbrev pub IsVerbatim : Bytes → Type 0
IsVerbatim [] = Unit
IsVerbatim (c ∷ s) = (c ≢ b'\'') × IsVerbatim s

round_verbatim :
    (t : Bytes) (c : ℕ) (s : Bytes) (n : ℕ)
    → c ≢ b'\''
    → round b'\'' t c s n ≡ next_one b'\'' (t ++ c ∷ [])
unfolding round on_quote on_backslash on_operator on_hash on_blank append_and_next
round_verbatim t c s n h = ground arith

scan-verbatim :
    (w t rest : Bytes) (n : ℕ)
    → IsVerbatim w
    → scan b'\'' t (w ++ b'\'' ∷ rest) n ≡ lexed (n + length w + 1) token_str (t ++ w)
scan-verbatim [] t rest n h =
    scan-return b'\'' t b'\'' rest n (round_close b'\'' t rest n (inr refl))
    ∙ ap₂ (λ i x. lexed i token_str x) (omega arith) (sym (append-nil t))
scan-verbatim (c ∷ w) t rest n (h, hs) =
    scan-next_one b'\'' t c n (w ++ b'\'' ∷ rest) (round_verbatim t c _ n h)
    ∙ scan-verbatim w (t ++ c ∷ []) rest (n + 1) hs
    ∙ ap₂ (λ i x. lexed i token_str x) (omega arith) (append_assoc t (c ∷ []) w)

-- Between single quotes every byte stands for itself, backslashes and line feeds included.
parse_token-verbatim :
    (bs w rest : Bytes)
    → AllBlank bs
    → IsVerbatim w
    → length (bs ++ b'\'' ∷ (w ++ b'\'' ∷ rest)) < 2 ^ 32
    → parse_token (bs ++ b'\'' ∷ (w ++ b'\'' ∷ rest)) ≡ lexed (length bs + length w + 2) token_str w
unfolding is_space
parse_token-verbatim bs w rest h v k =
    parse_token-eq (bs ++ b'\'' ∷ (w ++ b'\'' ∷ rest)) k
    ∙ skip_spaces-blank bs (b'\'' ∷ (w ++ b'\'' ∷ rest)) 0 h
    ∙ rw zero-add (
        skip_spaces-scan b'\'' (w ++ b'\'' ∷ rest) (length bs) refl
        ∙ scan-next_one 0 [] b'\'' (length bs) (w ++ b'\'' ∷ rest)
            (round_open b'\'' _ (length bs) (inr refl) (is_empty-append w b'\'' rest))
        ∙ scan-verbatim w [] rest (length bs + 1) v
        ∙ ap (λ i. lexed i token_str w) (omega arith))
