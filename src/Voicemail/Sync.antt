-- ===== src/Voicemail/Sync.antt =====
-- What a synchronisation of a mailbox leaves (src/voicemail/voicemail.service.ts).
use spectrum_connect_backend.Common.{
  ◌≡◌, refl, sym, subst, ap, ◌∙◌, true, String, some, List, [], ◌∷◌, ◌++◌, append_assoc, append-nil,
  arith, All, any, find, eq_refl, Option-cases, Bool-cases, inl, inr,
}
use spectrum_connect_backend.Prisma.{Model}
use spectrum_connect_backend.Voicemail.{
  Owner, Mail, owner_is, url_is, file_url, new_mail, add_mail, add_files, wavs_of, sync_new_mail,
}

any-found :
    (url : String) (t : List Mail) (v : Mail)
    → find (url_is url) t ≡ some v
    → any (url_is url) t ≡ true
any-found url [] v e = cc
any-found url (x ∷ t) v e = ground (arith, any-found url t v)

find-there :
    (url : String) (t : List Mail)
    → any (url_is url) t ≡ true
    → (v : Mail) × (find (url_is url) t ≡ some v)
find-there url [] e = cc
find-there url (x ∷ t) e = elim (Bool-cases (url_is url x)) [
  | inl hit ↦ (x, rw hit refl)
  | inr other ↦ let (v, found) = find-there url t (rw other at e) in (v, rw other found)
]

any-append_left :
    (url : String) (t new : List Mail)
    → any (url_is url) t ≡ true
    → any (url_is url) (t ++ new) ≡ true
any-append_left url [] new e = cc
any-append_left url (x ∷ t) new e = ground (arith, e, any-append_left url t new)

any-append_new :
    (agent : Owner) (mailbox url : String) (t : List Mail)
    → any (url_is url) (t ++ new_mail agent mailbox url ∷ []) ≡ true
any-append_new agent mailbox url [] = ground (arith, eq_refl url)
any-append_new agent mailbox url (x ∷ t) = ground (arith, any-append_new agent mailbox url t)

module _ (m : Model Mail) (agent : Owner) (mailbox : String) where
  -- A row for the file is there.
  abbrev pub IsListed : List Mail → String → Type 0
  IsListed t file = any (url_is (file_url mailbox file)) t ≡ true

  add_mail-once :
      (url : String) (t : List Mail)
      → any (url_is url) t ≡ true
      → add_mail m agent mailbox url t ≡ t
  add_mail-once url t e =
      let (v, found) = find-there url t e in
      rw (add_mail, m.find_first_lem (url_is url) t, found) refl

  add_mail-adds :
      (url : String) (t : List Mail)
      → (new : List Mail) × (add_mail m agent mailbox url t ≡ t ++ new)
        × (any (url_is url) (t ++ new) ≡ true)
  add_mail-adds url t = elim (Option-cases (find (url_is url) t)) [
    | inl missing ↦ (
      new_mail agent mailbox url ∷ [],
      rw
          (
            add_mail,
            m.find_first_lem (url_is url) t,
            missing,
            m.create_lem (new_mail agent mailbox url) t,
          )
          refl,
      any-append_new agent mailbox url t,
    )
    | inr (v, found) ↦ (
      [],
      rw (add_mail, m.find_first_lem (url_is url) t, found, append-nil t) refl,
      rw (append-nil t) (any-found url t v found),
    )
  ]

  add_files-adds :
      (files : List String) (t : List Mail)
      → (new : List Mail) × (add_files m agent mailbox files t ≡ t ++ new)
        × All (IsListed (t ++ new)) files
  unfolding add_files
  add_files-adds [] t = ([], rw (append-nil t) refl, tt)
  add_files-adds (file ∷ files) t =
      let url = file_url mailbox file in
      let (first, e, there) = add_mail-adds url t in
      let (rest, f, listed) = add_files-adds files (t ++ first) in
      let same : (t ++ first) ++ rest ≡ t ++ (first ++ rest) = append_assoc t first rest in
      (
        first ++ rest,
        rw e (f ∙ same),
        subst (λ r. IsListed r file × All (IsListed r) files) same
            (any-append_left url (t ++ first) rest there, listed),
      )

  add_files-once :
      (files : List String) (t : List Mail)
      → All (IsListed t) files
      → add_files m agent mailbox files t ≡ t
  unfolding add_files
  add_files-once [] t h = refl
  add_files-once (file ∷ files) t h =
      rw (add_mail-once (file_url mailbox file) t h.0) (add_files-once files t h.1)

synced :
    (a : Model Owner) (m : Model Mail) (mailbox : String) (files : List String)
    (agents : List Owner) (t : List Mail) (agent : Owner)
    → find (owner_is mailbox) agents ≡ some agent
    → sync_new_mail a m mailbox files agents t
      ≡ (add_files m agent mailbox (wavs_of files) t, some agent.name)
unfolding sync_new_mail
synced a m mailbox files agents t agent found =
    rw (sync_new_mail, a.find_first_lem (owner_is mailbox) agents, found) refl

-- A synchronisation of a mailbox that has an agent removes and changes no row, leaves a row for each of
-- the sound files, and a second one, of the same files, changes nothing.
pub sync_new_mail-sync_new_mail :
    (a : Model Owner) (m : Model Mail) (mailbox : String) (files : List String)
    (agents : List Owner) (t : List Mail) (agent : Owner)
    → find (owner_is mailbox) agents ≡ some agent
    → let after = (sync_new_mail a m mailbox files agents t).0 in
      ((new : List Mail) × (after ≡ t ++ new))
      × All (IsListed m agent mailbox after) (wavs_of files)
      × (sync_new_mail a m mailbox files agents after ≡ (after, some agent.name))
sync_new_mail-sync_new_mail a m mailbox files agents t agent found =
    let (new, e, listed) = add_files-adds m agent mailbox (wavs_of files) t in
    let again =
      synced a m mailbox files agents (t ++ new) agent found
      ∙ ap (λ r. (r, some agent.name))
          (add_files-once m agent mailbox (wavs_of files) (t ++ new) listed) in
    let first = synced a m mailbox files agents t agent found ∙ ap (λ r. (r, some agent.name)) e in
    subst
      (λ r.
        ((added : List Mail) × (r.0 ≡ t ++ added))
        × All (IsListed m agent mailbox r.0) (wavs_of files)
        × (sync_new_mail a m mailbox files agents r.0 ≡ (r.0, some agent.name)))
      (sym first) ((new, refl), listed, again)
