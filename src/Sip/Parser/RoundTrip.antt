-- ===== src/Sip/Parser/RoundTrip.antt =====
-- A message that is written out is read back (src/debugger/sip/sip-listener/sip-parser.ts).
use Prim.Native.Char.{Char, code}
use text.Mathlib.TextEquality.{Char-path}
use spectrum_connect_backend.Common.{
  ℕ, ◌≡◌, refl, ap, ◌∙◌, false, List, [], ◌∷◌, ◌++◌, ==_iff, All, All-append, Bool-cases, inl, inr,
}
use spectrum_connect_backend.Common.Dict.{Dict, insert}
use spectrum_connect_backend.Common.Text.{
  Text, join, chars, string, is_char, is_space, trim, trim_start, trim_end, put_first,
  put_unless_end, split_at, split_at-break, split_at-cons, Lacks,
}
use spectrum_connect_backend.Sip.Parser.{
  drop_return, drop_returns, lines_of, is_empty, put_header, read_headers, parse_sip_message,
}

drop_return-end : (l : Text) → drop_return (l ++ chars "\r") ≡ l
unfolding drop_return
drop_return-end [] = refl
drop_return-end (c ∷ []) = refl
drop_return-end (c ∷ d ∷ l) = ap (λ t. c ∷ t) (drop_return-end (d ∷ l))

drop_return-Lacks : (l : Text) → Lacks 13 l → drop_return l ≡ l
unfolding drop_return
drop_return-Lacks [] h = refl
drop_return-Lacks (c ∷ []) h = rw h.0 refl
drop_return-Lacks (c ∷ d ∷ l) h = ap (λ t. c ∷ t) (drop_return-Lacks (d ∷ l) h.1)

drop_returns-Lacks : (ls : List Text) → All (Lacks 13) ls → drop_returns ls ≡ ls
unfolding drop_returns
drop_returns-Lacks [] h = refl
drop_returns-Lacks (l ∷ []) h = refl
drop_returns-Lacks (l ∷ m ∷ ls) h =
    rw (drop_return-Lacks l h.0) (ap (λ t. l ∷ t) (drop_returns-Lacks (m ∷ ls) h.1))

split_at-Lacks_other : (m n : ℕ) (s : Text) → Lacks m s → All (Lacks m) (split_at n s)
unfolding split_at
split_at-Lacks_other m n [] h = (tt, tt)
split_at-Lacks_other m n (c ∷ s) h =
    let (x, xs, e) = split_at-cons n s in
    let rest : All (Lacks m) (x ∷ xs) = rw e at (split_at-Lacks_other m n s h.1) in
    elim (Bool-cases (is_char n c)) [
      | inl here ↦ rw (here, e) (tt, rest)
      | inr there ↦ rw (there, e) ((h.0, rest.0), rest.1)
    ]

-- To split and to join again changes nothing.
join-put_first :
    (sep : Text) (c : Char) (x : Text) (xs : List Text)
    → join sep (put_first c (x ∷ xs)) ≡ c ∷ join sep (x ∷ xs)
unfolding join
join-put_first sep c x [] = refl
join-put_first sep c x (y ∷ xs) = refl

-- A line that ends with a carriage return and a line feed comes off.
lines_of-line :
    (l rest : Text)
    → Lacks 10 l
    → lines_of ((l ++ chars "\r") ++ (chars "\n" ++ rest)) ≡ l ∷ lines_of rest
unfolding lines_of drop_returns
lines_of-line l rest h =
    let (x, xs, e) = split_at-cons 10 rest in
    let plain = All-append (λ c. is_char 10 c ≡ false) l (chars "\r") h (refl, tt) in
    rw (split_at-break 10 (l ++ chars "\r") "\n" rest plain refl, e)
      (ap (λ t. t ∷ drop_returns (x ∷ xs)) (drop_return-end l))

join-split_at : (d : Char) (s : Text) → join (d ∷ []) (split_at (code d) s) ≡ s
unfolding split_at join
join-split_at d [] = refl
join-split_at d (c ∷ s) =
    let (x, xs, e) = split_at-cons (code d) s in
    let rest : join (d ∷ []) (x ∷ xs) ≡ s = rw e at (join-split_at d s) in
    elim (Bool-cases (is_char (code d) c)) [
      | inl here ↦
          let same : c ≡ d = Char-path c d ((==_iff (code c) (code d)).0 here) in
          rw (here, e, same) (ap (λ t. d ∷ t) rest)
      | inr there ↦ rw (there, e) (join-put_first (d ∷ []) c x xs ∙ ap (λ t. c ∷ t) rest)
    ]

-- A header as it is sent.
abbrev pub header_line : Text × Text → Text
header_line (key, value) = key ++ (chars ": " ++ value)

-- A message: each line of its head ends with a carriage return and a line feed.
unfoldable pub head_text : List (Text × Text) → Text → Text
head_text [] body = ([] ++ chars "\r") ++ (chars "\n" ++ body)
head_text (h ∷ hs) body = (header_line h ++ chars "\r") ++ (chars "\n" ++ head_text hs body)

abbrev pub message_text : Text → List (Text × Text) → Text → Text
message_text start hs body = (start ++ chars "\r") ++ (chars "\n" ++ head_text hs body)

abbrev pub StartsPlain : Text → Type 0
StartsPlain [] = ⊥
StartsPlain (c ∷ s) = is_space c ≡ false

-- The key starts with no blank and has no colon, and key and value are trimmed and on one line.
abbrev pub IsHeader : Text × Text → Type 0
IsHeader (key, value) =
    StartsPlain key
    × (trim key ≡ key)
    × Lacks 58 key
    × Lacks 10 key
    × (trim value ≡ value)
    × Lacks 10 value

trim-nonempty : (s : Text) → StartsPlain s → is_empty (trim s) ≡ false
unfolding trim trim_start trim_end
trim-nonempty [] h = absurd h
trim-nonempty (c ∷ s) h = rw h (put-nonempty (trim_end s))
  where
    put-nonempty : (t : Text) → is_empty (put_unless_end c t) ≡ false
    put-nonempty [] = rw h refl
    put-nonempty (d ∷ t) = refl

-- The dictionary after some headers, from one.
abbrev pub put_all : List (Text × Text) → Dict Text → Dict Text
put_all [] d = d
put_all ((key, value) ∷ hs) d = put_all hs (insert (string key) value d)

put_header-line :
    (key value : Text) (d : Dict Text)
    → IsHeader (key, value)
    → put_header (split_at 58 (header_line (key, value))) d ≡ insert (string key) value d
unfolding trim trim_start
put_header-line [] value d h = absurd h.0
put_header-line (c ∷ key) value d h =
    let (x, xs, e) = split_at-cons 58 (chars " " ++ value) in
    let joined : join (chars ":") (x ∷ xs) ≡ chars " " ++ value =
      rw e at (join-split_at ":" (chars " " ++ value)) in
    rw (split_at-break 58 (c ∷ key) ":" (chars " " ++ value) h.2 refl, e)
      (ap (λ t. insert (string (trim (c ∷ key))) (trim t) d) joined
        ∙ ap (λ k. insert (string k) (trim value) d) h.1
        ∙ ap (λ v. insert (string (c ∷ key)) v d) h.4)

header_line-StartsPlain :
    (key value : Text) → StartsPlain key → StartsPlain (header_line (key, value))
header_line-StartsPlain [] value h = absurd h
header_line-StartsPlain (c ∷ key) value h = h

header_line-Lacks :
    (key value : Text) → Lacks 10 key → Lacks 10 value → Lacks 10 (header_line (key, value))
header_line-Lacks key value hk hv =
    All-append (λ c. is_char 10 c ≡ false) key (chars ": " ++ value) hk (refl, (refl, hv))

read_headers-head_text :
    (hs : List (Text × Text)) (body : Text) (d : Dict Text)
    → All IsHeader hs
    → read_headers (lines_of (head_text hs body)) d ≡ (put_all hs d, lines_of body)
unfolding head_text read_headers trim trim_end trim_start
read_headers-head_text [] body d h = rw (lines_of-line [] body tt) refl
read_headers-head_text ((key, value) ∷ hs) body d h =
    let line = header_line (key, value) in
    rw
      (
        lines_of-line line (head_text hs body) (header_line-Lacks key value h.0.3 h.0.5),
        read_headers,
        trim-nonempty line (header_line-StartsPlain key value h.0.0),
        put_header-line key value d h.0,
      )
      (read_headers-head_text hs body (insert (string key) value d) h.1)

join-lines_of : (body : Text) → Lacks 13 body → join (chars "\n") (lines_of body) ≡ body
unfolding lines_of
join-lines_of body h =
    ap (join (chars "\n"))
      (drop_returns-Lacks (split_at 10 body) (split_at-Lacks_other 13 10 body h))
    ∙ join-split_at "\n" body

-- A message that is sent, with a start line, headers of one line each and a body without carriage
-- returns, is read back: its start line, its headers as a dictionary, in which the last value of a
-- key counts, and its body. The keys are not empty and have no colon, and keys and values have no
-- blanks around them.
pub parse_sip_message-message_text :
    (start : Text) (hs : List (Text × Text)) (body : Text)
    → Lacks 10 start
    → All IsHeader hs
    → Lacks 13 body
    → parse_sip_message (message_text start hs body)
      ≡ record { start_line = start; headers = put_all hs []; body = body }
unfolding parse_sip_message
parse_sip_message-message_text start hs body hstart h hbody =
    rw (lines_of-line start (head_text hs body) hstart, read_headers-head_text hs body [] h)
      (ap (λ b. record { start_line = start; headers = put_all hs []; body = b })
        (join-lines_of body hbody))
