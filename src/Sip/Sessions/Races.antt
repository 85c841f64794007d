-- ===== src/Sip/Sessions/Races.antt =====
-- Sessions that several processes look for at once (src/debugger/sip/sip-session/sip-session.service.ts).
use spectrum_connect_backend.Common.{
  ◌≤◌, ◌≡◌, refl, ap, ◌∙◌, if◌then◌else◌, Bool, true, false, String, Option, none, some, List, [],
  ◌∷◌, ◌++◌, arith, any, find, find-some, count, count-append, eq_iff, eq_refl, Option-cases,
  Bool-cases, inl, inr,
}
use spectrum_connect_backend.Sip.Sessions.{
  Session, SessionTable, has_call, add_session, SessionModel, Others, failed, create_or_retry,
  retry_find, find_or_create_session,
}

-- Other processes remove no session, and break no uniqueness.
abbrev pub IsPolite : (SessionTable → SessionTable) → Type 0
IsPolite f =
    ((c : String) (t : SessionTable) (s : Session)
      → find (has_call c) t.rows ≡ some s
      → find (has_call c) (f t).rows ≡ some s)
    × ((c : String) (t : SessionTable)
        → count (has_call c) t.rows ≤ 1
        → count (has_call c) (f t).rows ≤ 1)

any-none :
    (p : Session → Bool) (xs : List Session)
    → any p xs ≡ false
    → (find p xs ≡ none) × (count p xs ≡ 0)
any-none p [] e = (refl, refl)
any-none p (x ∷ xs) e = ground (arith, any-none p xs)

any-found :
    (p : Session → Bool) (xs : List Session)
    → any p xs ≡ true
    → (s : Session) × (find p xs ≡ some s)
any-found p [] e = cc
any-found p (x ∷ xs) e = elim (Bool-cases (p x)) [
  | inl hit ↦ (x, rw hit refl)
  | inr other ↦ let (s, found) = any-found p xs (rw other at e) in (s, rw other found)
]

find-counted :
    (p : Session → Bool) (xs : List Session) (s : Session)
    → find p xs ≡ some s
    → count p xs ≤ 1
    → count p xs ≡ 1
find-counted p [] s e le = cc
find-counted p (x ∷ xs) s e le = ground (arith, find-counted p xs s)

find-concat :
    (p : Session → Bool) (xs : List Session) (s : Session)
    → find p xs ≡ none
    → p s ≡ true
    → find p (xs ++ s ∷ []) ≡ some s
find-concat p [] s e hit = rw hit refl
find-concat p (x ∷ xs) s e hit = ground (arith, find-concat p xs s)

module _ (m : SessionModel) (others : Others) (call_id : String) (t : SessionTable) where
  -- What a search that answers is to give.
  abbrev Answers : Option (Session × SessionTable) → Type 0
  Answers r =
      (s : Session) × (after : SessionTable) × (r ≡ some (s, after))
      × (find (has_call call_id) after.rows ≡ some s)
      × (count (has_call call_id) after.rows ≡ 1)

  creation-answers :
      (u : SessionTable)
      → IsPolite others.before_retry
      → count (has_call call_id) u.rows ≤ 1
      → Answers (create_or_retry m others call_id u (m.create call_id u))
  creation-answers u polite le = elim (Bool-cases (any (has_call call_id) u.rows)) [
    | inl there ↦
        let (s, found) = any-found (has_call call_id) u.rows there in
        let kept = polite.0 call_id u s found in
        let later = others.before_retry u in
        (
          s,
          later,
          rw (m.create_lem call_id u, there, retry_find, m.find_unique_lem call_id later, kept)
              refl,
          kept,
          find-counted (has_call call_id) later.rows s kept (polite.1 call_id u le),
        )
    | inr missing ↦
        let (unfound, uncounted) = any-none (has_call call_id) u.rows missing in
        let new : Session = record { id = u.next_id; call_id = call_id } in
        let hit : has_call call_id new ≡ true = eq_refl call_id in
        (
          new,
          add_session call_id u,
          rw (m.create_lem call_id u, missing) refl,
          find-concat (has_call call_id) u.rows new unfound hit,
          ground (arith, count-append (has_call call_id) u.rows (new ∷ []), uncounted, hit),
        )
  ]

  search-answers :
      others.create_fails ≡ false
      → IsPolite others.before_create
      → IsPolite others.before_retry
      → count (has_call call_id) t.rows ≤ 1
      → Answers (find_or_create_session m others call_id t)
  unfolding find_or_create_session
  search-answers up before retry le = elim (Option-cases (find (has_call call_id) t.rows)) [
    | inr (s, found) ↦ (
      s,
      t,
      rw (find_or_create_session, m.find_unique_lem call_id t, found) refl,
      found,
      find-counted (has_call call_id) t.rows s found le,
    )
    | inl unfound ↦
        let (s, after, e, found, once) =
          creation-answers (others.before_create t) retry (before.1 call_id t le) in
        (
          s,
          after,
          rw (find_or_create_session, m.find_unique_lem call_id t, unfound)
              (ap
                  (λ b.
                    create_or_retry m others call_id (others.before_create t)
                      (if b then failed else m.create call_id (others.before_create t)))
                  up
                ∙ e),
          found,
          once,
        )
  ]

  -- While other processes may add sessions between the calls, but remove none and keep a call's
  -- session unique, and if the creation does not fail by another error than P2002,
  -- `findOrCreateSession` gives a session of the call and throws nothing. The call then has exactly
  -- one session, and a later search gives the same session and changes nothing.
  pub find_or_create_session_unique :
      (later : Others)
      → others.create_fails ≡ false
      → IsPolite others.before_create
      → IsPolite others.before_retry
      → count (has_call call_id) t.rows ≤ 1
      → (s : Session) × (after : SessionTable) × (find_or_create_session m others call_id t
          ≡ some (s, after))
        × (s.call_id ≡ call_id)
        × (count (has_call call_id) after.rows ≡ 1)
        × (find_or_create_session m later call_id after ≡ some (s, after))
  unfolding find_or_create_session
  find_or_create_session_unique later up before retry le =
      let (s, after, e, found, once) = search-answers up before retry le in
      (
        s,
        after,
        e,
        (eq_iff s.call_id call_id).0 (find-some (has_call call_id) after.rows s found),
        once,
        rw (find_or_create_session, m.find_unique_lem call_id after, found) refl,
      )
