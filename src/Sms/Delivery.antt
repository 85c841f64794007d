-- ===== src/Sms/Delivery.antt =====
-- What becomes of the rows and of the balance (src/sms/processors/smpp.processor.ts and
-- src/utils/providers/smpp/dlr.processor.ts).
use spectrum_connect_backend.Common.{
  ℕ, ◌≡◌, refl, Bool, true, false, String, Option, none, some, List, [], ◌∷◌, arith, count,
  count-append, find, any, str_eq, eq_refl, ◌==◌, ◌&&◌, Option-cases, inl, inr,
}
use spectrum_connect_backend.Prisma.{Model, change}
use spectrum_connect_backend.Sms.{
  Balance, charged, SmsLog, Job, Pdu, accepted, failed_pdu, sent_log, handle_send, handle_dlr,
  final_status, has_message_id, Subscription, deduct, process_dlr,
}

-- The row is as `sendSMPPSms` created it.
abbrev pub is_waiting : SmsLog → Bool
is_waiting l = str_eq l.status "pending" && (elim l.message_id [ none ↦ true | some i ↦ false ])

count-reported :
    (message_id status : String) (t : List SmsLog)
    → count is_waiting (change (has_message_id message_id) (λ l. record l { status = status }) t)
      ≡ count is_waiting t
count-reported message_id status [] = refl
count-reported message_id status (l ∷ t) = ground (arith, count-reported message_id status t)

sent_log-not_waiting :
    (job : Job) (company : ℕ) (new_id : String) (pdu : Pdu)
    → is_waiting (sent_log job company new_id pdu) ≡ false
sent_log-not_waiting job company new_id (accepted message_id) = refl
sent_log-not_waiting job company new_id failed_pdu = refl

-- The worker never closes the pending row of a message: after `handleSend`, on every answer of the
-- server, and after a delivery report of any message, as many rows wait as before.
pub handle_dlr-handle_send-waiting :
    (m : Model SmsLog) (pdu : Pdu) (job : Job) (company : ℕ) (new_id message_id status : String)
    (t : List SmsLog)
    → count is_waiting (handle_dlr m message_id status (handle_send m pdu job company new_id t))
      ≡ count is_waiting t
unfolding handle_dlr handle_send
handle_dlr-handle_send-waiting m pdu job company new_id message_id status t =
    let row = sent_log job company new_id pdu in
    rw
      (
        m.update_many_lem (has_message_id message_id)
            (λ l. record l { status = final_status status }) (m.create row t),
        count-reported message_id (final_status status) (m.create row t),
        m.create_lem row t,
        count-append is_waiting t (row ∷ []),
        sent_log-not_waiting job company new_id pdu,
      )
      (omega arith)

-- The balance from which a company's messages are paid.
abbrev pub balance_of : ℕ → List Subscription → Option Balance
balance_of company subs = elim (find (λ s. s.company == company) subs) [
  | none ↦ none
  | some s ↦ some s.sms_balance
]

find-charged :
    (company : ℕ) (b : Balance) (subs : List Subscription) (s : Subscription)
    → find (λ r. r.company == company) subs ≡ some s
    → (any (λ r. str_eq r.id s.id) subs ≡ true)
      × (balance_of company
            (change (λ r. str_eq r.id s.id) (λ r. record r { sms_balance = b }) subs)
          ≡ some b)
find-charged company b [] s e = cc
find-charged company b (r ∷ subs) s e = ground (arith, eq_refl s.id, find-charged company b subs s)

module _ (m : Model SmsLog) (n : Model Subscription) where
  pub balance_of-deduct :
      (company : ℕ) (b : Balance) (subs : List Subscription)
      → balance_of company subs ≡ some b
      → balance_of company (deduct m n company subs) ≡ some (charged b)
  unfolding deduct
  balance_of-deduct company b subs e =
      elim (Option-cases (find (λ (s : Subscription). s.company == company) subs)) [
        | inl missing ↦ ground (arith, missing)
        | inr (s, found) ↦ ground (
          arith,
          found,
          n.find_first_lem (λ s. s.company == company) subs,
          n.update_lem (λ r. str_eq r.id s.id)
              (λ r. record r { sms_balance = charged s.sms_balance }) subs,
          find-charged company (charged s.sms_balance) subs s found,
        )
      ]

  pub find-reported :
      (message_id status : String) (t : List SmsLog) (l : SmsLog)
      → find (has_message_id message_id) t ≡ some l
      → find
          (has_message_id message_id)
          (change (has_message_id message_id) (λ r. record r { status = status }) t)
        ≡ some (record l { status = status })
  find-reported message_id status [] l e = cc
  find-reported message_id status (r ∷ t) l e = ground (arith, find-reported message_id status t l)

  abbrev pub reported : String → List SmsLog → List Subscription → List SmsLog × List Subscription
  reported id t subs = process_dlr m n id "DELIVERED" t subs

  -- The report that a message was delivered takes 0.05 from the balance of the message's company, but
  -- no more than there is, and sets a balance below 0 to 0; the same report once more does it again.
  pub process_dlr-balance :
      (message_id : String) (l : SmsLog) (b : Balance) (t : List SmsLog) (subs : List Subscription)
      → find (has_message_id message_id) t ≡ some l
      → balance_of l.company subs ≡ some b
      → (balance_of l.company (reported message_id t subs).1 ≡ some (charged b))
        × (balance_of l.company
              (reported message_id (reported message_id t subs).0 (reported message_id t subs).1).1
            ≡ some (charged (charged b)))
  unfolding process_dlr
  process_dlr-balance message_id l b t subs known paid =
      let t1 =
        change (has_message_id message_id) (λ (r : SmsLog). record r { status = "DELIVERED" }) t in
      let once = balance_of-deduct l.company b subs paid in
      ground (
        arith,
        m.find_first_lem (has_message_id message_id) t,
        m.find_first_lem (has_message_id message_id) t1,
        m.update_many_lem (has_message_id message_id) (λ r. record r { status = "DELIVERED" }) t,
        find-reported message_id "DELIVERED" t l known,
        eq_refl "DELIVERED",
        once,
        balance_of-deduct l.company (charged b) (deduct m n l.company subs) once,
      )
