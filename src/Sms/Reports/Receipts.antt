-- ===== src/Sms/Reports/Receipts.antt =====
-- The receipts of SMPP, and what they change (src/utils/providers/smpp).
use spectrum_connect_backend.Common.{
  suc, ◌≤◌, ◌≡◌, refl, ap, sym, ◌∙◌, Bool, true, false, none, some, [], ◌∷◌, ◌++◌, arith, length,
  length-append, subst, All, append_assoc, Option-cases, inl, inr,
}
use Prim.Native.Char.{Char, code}
use spectrum_connect_backend.Common.Text.{Text, chars, string}
use spectrum_connect_backend.Sms.{final_status}
use spectrum_connect_backend.Sms.Reports.{
  is_same, is_letter, is_hex, after_label, run_of, capture, ShortMessage, normalize, on_deliver_sm,
}

run_of-stop :
    (cls : Char → Bool) (run rest : Text) (stop : Char)
    → All (λ c. cls c ≡ true) run
    → cls stop ≡ false
    → run_of cls (run ++ stop ∷ rest) ≡ run
unfolding run_of
run_of-stop cls [] rest stop h e = rw e refl
run_of-stop cls (c ∷ run) rest stop h e =
    rw h.0 (ap (λ r. c ∷ r) (run_of-stop cls run rest stop h.1 e))

is_same-code : (c : Char) → is_same (code c) c ≡ true
is_same-code c = ground arith

after_label-append : (p s : Text) → after_label p (p ++ s) ≡ some s
unfolding after_label
after_label-append [] s = refl
after_label-append (c ∷ p) s = rw (is_same-code c) (after_label-append p s)

-- A label that is not at the start of a text that is long enough is not there in a longer one either.
after_label-longer :
    (p s more : Text)
    → length p ≤ length s
    → after_label p s ≡ none
    → after_label p (s ++ more) ≡ none
unfolding after_label
after_label-longer [] s more le e = cc
after_label-longer (c ∷ p) [] more le e = ground (arith, le)
after_label-longer (c ∷ p) (d ∷ s) more le e = ground (arith, e, after_label-longer p s more)

-- No place of a text has the label.
unfoldable pub lacks_label : Text → Text → Bool
lacks_label label [] = true
lacks_label label (c ∷ s) =
    let later = lacks_label label s in
    elim (after_label label (c ∷ s)) [ none ↦ later | some r ↦ false ]

capture-here :
    (p : Char) (ps : Text) (cls : Char → Bool) (d : Char) (run rest : Text) (stop : Char)
    → All (λ c. cls c ≡ true) (d ∷ run)
    → cls stop ≡ false
    → capture (p ∷ ps) cls ((p ∷ ps) ++ ((d ∷ run) ++ stop ∷ rest)) ≡ some (d ∷ run)
unfolding capture
capture-here p ps cls d run rest stop h e =
    rw
      (
        capture,
        after_label-append (p ∷ ps) ((d ∷ run) ++ stop ∷ rest),
        run_of-stop cls (d ∷ run) rest stop h e,
      )
      refl

-- A search passes over a text in which the label does not start, be it with all but its last character
-- to follow.
capture-later :
    (label front : Text) (cls : Char → Bool) (before more : Text)
    → length label ≤ suc (length front)
    → lacks_label label (before ++ front) ≡ true
    → capture label cls (before ++ (front ++ more)) ≡ capture label cls (front ++ more)
unfolding capture lacks_label
capture-later label front cls [] more le e = refl
capture-later label front cls (c ∷ before) more le e =
    elim (Option-cases (after_label label (c ∷ (before ++ front)))) [
      | inr (r, found) ↦ cc (rw (lacks_label, found) at e)
      | inl gone ↦
          let long : length label ≤ length (c ∷ (before ++ front)) =
            omega (arith, le, length-append before front) in
          let gone' : after_label label (c ∷ (before ++ (front ++ more))) ≡ none =
            subst (λ s. after_label label (c ∷ s) ≡ none) (append_assoc before front more)
              (after_label-longer label (c ∷ (before ++ front)) more long gone) in
          rw (capture, gone')
            (capture-later label front cls before more le (rw (lacks_label, gone) at e))
    ]

-- A receipt: the id, what stands before the status, the status, and what follows it.
abbrev pub receipt : Text → Text → Text → Text → Text
receipt id middle status tail =
    (chars "id:" ++ (id ++ (chars " " ++ middle)))
    ++ (chars "stat" ++ (chars ":" ++ (status ++ (chars " " ++ tail))))

abbrev pub sent_as : Text → ShortMessage
sent_as msg = record { as_string = some msg; message = none; buffer = none; shown = [] }

-- A text of one character at least, all of a class.
abbrev pub IsRun : (Char → Bool) → Text → Type 0
IsRun cls [] = ⊥
IsRun cls (d ∷ run) = All (λ c. cls c ≡ true) (d ∷ run)

on_deliver_sm-captured :
    (msg id status : Text)
    → capture (chars "id:") is_hex msg ≡ some id
    → capture (chars "stat:") is_letter msg ≡ some status
    → on_deliver_sm (sent_as msg) ≡ some (string id, final_status (string status))
unfolding on_deliver_sm normalize
on_deliver_sm-captured msg id status e e' = rw (on_deliver_sm, normalize, e, e') refl

pub on_deliver_sm-receipt :
    (id middle status tail : Text)
    → IsRun is_hex id
    → IsRun is_letter status
    → lacks_label (chars "stat:") ((chars "id:" ++ (id ++ (chars " " ++ middle))) ++ chars "stat")
      ≡ true
    → on_deliver_sm (sent_as (receipt id middle status tail))
      ≡ some (string id, final_status (string status))
on_deliver_sm-receipt [] middle status tail hid hs lacks = absurd hid
on_deliver_sm-receipt (d ∷ id) middle [] tail hid hs lacks = absurd hs
on_deliver_sm-receipt (d ∷ id) middle (z ∷ status) tail hid hs lacks =
    let S = chars "stat" ++ (chars ":" ++ ((z ∷ status) ++ (chars " " ++ tail))) in
    let before = chars "id:" ++ ((d ∷ id) ++ (chars " " ++ middle)) in
    let id_found : capture (chars "id:") is_hex (before ++ S) ≡ some (d ∷ id) =
      subst (λ t. capture (chars "id:") is_hex (chars "id:" ++ (d ∷ t)) ≡ some (d ∷ id))
        (sym (append_assoc id (chars " " ++ middle) S))
        (capture-here "i" (chars "d:") is_hex d id (middle ++ S) " " hid refl) in
    let status_found : capture (chars "stat:") is_letter (before ++ S) ≡ some (z ∷ status) =
      capture-later (chars "stat:") (chars "stat") is_letter before
        (chars ":" ++ ((z ∷ status) ++ (chars " " ++ tail))) (omega arith) lacks
      ∙ capture-here "s" (chars "tat:") is_letter z status tail " " hs refl in
    on_deliver_sm-captured (before ++ S) (d ∷ id) (z ∷ status) id_found status_found
