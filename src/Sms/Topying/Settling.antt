-- ===== src/Sms/Topying/Settling.antt =====
-- A job of Topying settles its row (src/sms/processors/topying.processor.ts).
use spectrum_connect_backend.Common.{
  ℕ, ◌≡◌, refl, sym, ap, subst, Bool, true, false, String, Option, none, some, List, [], ◌∷◌, ◌==◌,
  arith, any, find, str_eq, eq_iff, Bool-cases, inl, inr,
}
use spectrum_connect_backend.Prisma.{Model, change}
use spectrum_connect_backend.Sms.{SmsLog, job_of}
use spectrum_connect_backend.Sms.Topying.{is_log, replied, unsent, catch_error, process_topying}

pub any-found :
    (id : String) (t : List SmsLog) (l : SmsLog)
    → find (is_log id) t ≡ some l
    → any (is_log id) t ≡ true
any-found id [] l e = cc
any-found id (x ∷ t) l e = ground (arith, any-found id t l)

module _ (f : SmsLog → SmsLog) (keeps : (l : SmsLog) → (f l).id ≡ l.id) where
  pub find-change :
      (id : String) (t : List SmsLog) (l : SmsLog)
      → find (is_log id) t ≡ some l
      → find (is_log id) (change (is_log id) f t) ≡ some (f l)
  find-change id [] l e = cc
  find-change id (x ∷ t) l e = elim (Bool-cases (is_log id x)) [
    | inl hit ↦
        let same : x ≡ l = ground (arith, e, hit) in
        let kept : is_log id (f x) ≡ true = subst (λ i. str_eq i id ≡ true) (sym (keeps x)) hit in
        rw (hit, kept) (ap (λ z. some (f z)) same)
    | inr other ↦ rw (other, other) (find-change id t l (rw other at e))
  ]

  pub find-change_other :
      (id other : String) (t : List SmsLog)
      → str_eq id other ≡ false
      → find (is_log other) (change (is_log id) f t) ≡ find (is_log other) t
  find-change_other id other [] apart = refl
  find-change_other id other (x ∷ t) apart = ground (
    arith,
    apart,
    keeps x,
    find-change_other id other t apart,
    eq_iff x.id id,
    eq_iff x.id other,
    eq_iff id other,
  )

-- What the row of a job is to be.
abbrev pub settled : Option ℕ → ℕ → SmsLog → SmsLog
settled none price l = unsent l
settled (some status) price l = replied (status == 0) price l

-- A job that was queued for a row settles it once: as sent, with the price of its number as the charge,
-- exactly if the provider answers with the status 0, and else as failed, with no new charge. It returns
-- exactly if the provider answers, and the other rows stay.
pub process_topying-job_of :
    (m : Model SmsLog) (price : String → ℕ) (reply : Option ℕ) (l : SmsLog) (t : List SmsLog)
    (other : String)
    → find (is_log l.id) t ≡ some l
    → str_eq l.id other ≡ false
    → let (after, returns) = process_topying m "send" reply (job_of price l) t in
      (find (is_log l.id) after ≡ some (settled reply (price l.numbers) l))
      × (find (is_log other) after ≡ find (is_log other) t)
      × (returns ≡ (elim reply [ none ↦ false | some status ↦ true ]))
unfolding process_topying
process_topying-job_of m price none l t other found apart =
    rw (catch_error, m.update_lem (is_log l.id) unsent t, any-found l.id t l found)
      (
        find-change unsent (λ x. refl) l.id t l found,
        find-change_other unsent (λ x. refl) l.id other t apart,
        refl,
      )
process_topying-job_of m price (some status) l t other found apart =
    let f = replied (status == 0) (price l.numbers) in
    rw (m.update_lem (is_log l.id) f t, any-found l.id t l found)
      (
        find-change f (keeps_id (status == 0)) l.id t l found,
        find-change_other f (keeps_id (status == 0)) l.id other t apart,
        refl,
      )
  where
    keeps_id : (b : Bool) (x : SmsLog) → (replied b (price l.numbers) x).id ≡ x.id
    keeps_id true x = refl
    keeps_id false x = refl
