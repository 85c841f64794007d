-- ===== src/Agi/Playback.antt =====
-- Trees that only play sounds (src/utils/agi/agi-server.ts).
use spectrum_connect_backend.Common.{
  ℕ, ◌≡◌, refl, ap, sym, ◌∙◌, Bool, true, false, String, none, some, List, [], ◌∷◌, ◌++◌,
  append_assoc, append-nil, length, arith, has_text, if◌then◌else◌,
}
use spectrum_connect_backend.Agi.{
  IvrNode, node, Children, end, child, playback, play_with_dtmf, transfer, other, Variables, Effect,
  stream_file, find_provider, Answers, Run, return, perform, ◌>>◌, file_of, handle_ivr_node,
  handle_children,
}
use spectrum_connect_backend.Agi.Walk.{files, files_of}

-- The sounds that calls play, in order.
abbrev pub sounds : List Effect → List String
sounds [] = []
sounds (stream_file f ∷ t) = f ∷ sounds t
sounds (e ∷ t) = sounds t

-- Each node of a tree is a `Playback`.
unfoldable mutual
  pub IsPlayback : IvrNode → Type 0
  IsPlayback (node playback key file cs) = ArePlayback cs
  IsPlayback (node action key file cs) = ⊥

  pub ArePlayback : Children → Type 0
  ArePlayback end = Unit
  ArePlayback (child n cs) = IsPlayback n × ArePlayback cs

sounds-append : (t u : List Effect) → sounds (t ++ u) ≡ sounds t ++ sounds u
sounds-append [] u = refl
sounds-append (e ∷ t) u = ground (arith, sounds-append t u)

-- A run returns after it has played some sounds.
abbrev Plays : Run Unit → List String → Type 0
Plays m fs =
    (t : List Effect) → (t' : List Effect) × (m t ≡ (some tt, t')) × (sounds t' ≡ sounds t ++ fs)

return-Plays : Plays return []
return-Plays t = (t, refl, sym (append-nil (sounds t)))

>>-Plays :
    (m k : Run Unit) (fs gs : List String) → Plays m fs → Plays k gs → Plays (m >> k) (fs ++ gs)
>>-Plays m k fs gs hm hk t =
    let (t', e, now) = hm t in
    let (u, e', later) = hk t' in
    (
      u,
      ap (λ r. elim r.0 [ none ↦ (none, r.1) | some a ↦ k r.1 ]) e ∙ e',
      later ∙ ap (λ x. x ++ gs) now ∙ append_assoc (sounds t) fs gs,
    )

module _ (answers : Answers) (vars : Variables) (calm : (n : ℕ) → answers.fails n ≡ false) where
  perform-Plays : (e : Effect) → Plays (perform answers vars e) (sounds (e ∷ []))
  perform-Plays e t = (t ++ e ∷ [], rw (calm (length t)) refl, sounds-append t (e ∷ []))

  if-Plays :
      (b : Bool) (f : String)
      → Plays
          (if b then perform answers vars (stream_file f) else return)
          (if b then f ∷ [] else [])
  if-Plays true f = perform-Plays (stream_file f)
  if-Plays false f = return-Plays

  mutual
    unfolding handle_ivr_node files IsPlayback

    handle_ivr_node-Plays :
        (n : IvrNode) → IsPlayback n → Plays (handle_ivr_node answers vars n) (files n)
    handle_ivr_node-Plays (node playback key file cs) h =
        let m = perform answers vars (stream_file (file_of file)) in
        let play = if has_text file then m else return in
        >>-Plays (perform answers vars find_provider) (play >> handle_children answers vars cs) []
          ((if has_text file then file_of file ∷ [] else []) ++ files_of cs)
          (perform-Plays find_provider)
          (>>-Plays play (handle_children answers vars cs)
            (if has_text file then file_of file ∷ [] else []) (files_of cs)
            (if-Plays (has_text file) (file_of file)) (handle_children-Plays cs h))
    handle_ivr_node-Plays (node play_with_dtmf key file cs) h = elim h [ ]
    handle_ivr_node-Plays (node transfer key file cs) h = elim h [ ]
    handle_ivr_node-Plays (node other key file cs) h = elim h [ ]

    handle_children-Plays :
        (cs : Children) → ArePlayback cs → Plays (handle_children answers vars cs) (files_of cs)
    handle_children-Plays end h = return-Plays
    handle_children-Plays (child n cs) h =
        >>-Plays (handle_ivr_node answers vars n) (handle_children answers vars cs) (files n)
          (files_of cs) (handle_ivr_node-Plays n h.0) (handle_children-Plays cs h.1)

  -- If no awaited call fails, the walk of a tree whose nodes are all `Playback` returns, and plays the
  -- files of the tree, each once, in the order of a depth-first search.
  pub handle_ivr_node-files :
      (root : IvrNode)
      → IsPlayback root
      → ((handle_ivr_node answers vars root []).0 ≡ some tt)
        × (sounds ((handle_ivr_node answers vars root []).1) ≡ files root)
  handle_ivr_node-files root h =
      let (t, e, played) = handle_ivr_node-Plays root h [] in
      (ap (λ r. r.0) e, ap (λ r. sounds r.1) e ∙ played)
