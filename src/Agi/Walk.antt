-- ===== src/Agi/Walk.antt =====
-- What a walk of the tree adds to the calls so far (src/utils/agi/agi-server.ts).
use spectrum_connect_backend.Common.{
  ℕ, ◌≡◌, ◌⊎◌, refl, ap, sym, ◌∙◌, String, Option, List, [], ◌∷◌, ◌++◌, append_assoc, append-nil,
  All, All-append, All-append_left, All-append_right, has_text, Bool-cases, Option-cases, inl, inr,
  if◌then◌else◌,
}
use spectrum_connect_backend.Agi.{
  IvrNode, node, Children, end, child, playback, play_with_dtmf, transfer, other, Variables, Effect,
  stream_file, get_data, find_provider, get_available_agent, dial, create_parked_call,
  music_on_hold, park, Answers, Run, return, ask, perform, connect, ◌>>=◌, ◌>>◌, file_of, same_key,
  key_of, channel_of, handle_ivr_node, handle_children, handle_pressed,
}

-- A run adds calls that have a property to those so far.
abbrev pub Adds : {A : Type 0} → (Effect → Type 0) → Run A → Type 0
Adds P m = (t : List Effect) → (new : List Effect) × ((m t).1 ≡ t ++ new) × All P new

pub ask-Adds :
    {A : Type 0} (P : Effect → Type 0) (answers : Answers) (vars : Variables) (f : ℕ → A)
    (e : Effect)
    → P e
    → Adds P (ask answers vars f e)
ask-Adds P answers vars f e h t = (e ∷ [], refl, (h, tt))

pub return-Adds : (P : Effect → Type 0) → Adds P return
return-Adds P t = ([], sym (append-nil t), tt)

pub >>=-Adds :
    {A B : Type 0} (P : Effect → Type 0) (m : Run A) (f : A → Run B)
    → Adds P m
    → ((a : A) → Adds P (f a))
    → Adds P (m >>= f)
>>=-Adds P m f hm hf t = elim (Option-cases ((m t).0)) [
  | inl stopped ↦ rw (stopped, ◌>>=◌) (hm t)
  | inr (a, e) ↦
      let (new, now, all) = hm t in
      let (more, later, all') = hf a ((m t).1) in
      (
        new ++ more,
        rw (e, ◌>>=◌) (later ∙ ap (λ x. x ++ more) now ∙ append_assoc t new more),
        All-append P new more all all',
      )
]

-- The sound files of a tree, in the order in which a depth-first search finds them.
unfoldable mutual
  pub files : IvrNode → List String
  files (node action key file cs) = (if has_text file then file_of file ∷ [] else []) ++ files_of cs

  pub files_of : Children → List String
  files_of end = []
  files_of (child n cs) = files n ++ files_of cs

-- The calls that a node makes, with a property of the files that it plays.
abbrev pub IsOfNode : (String → Type 0) → Effect → Type 0
IsOfNode Q (stream_file f) = (f ≡ "invalid") ⊎ Q f
IsOfNode Q (get_data f) = Q f
IsOfNode Q find_provider = Unit
IsOfNode Q get_available_agent = Unit
IsOfNode Q (dial agent) = Unit
IsOfNode Q (create_parked_call did channel) = Unit
IsOfNode Q music_on_hold = Unit
IsOfNode Q park = Unit
IsOfNode Q e = ⊥

module _ (answers : Answers) (vars : Variables) (Q : String → Type 0) where
  perform-Adds : (e : Effect) → IsOfNode Q e → Adds (IsOfNode Q) (perform answers vars e)
  perform-Adds e h = ask-Adds (IsOfNode Q) answers vars (λ n. tt) e h

  >>-Adds :
      {B : Type 0} (m : Run Unit) (k : Run B)
      → Adds (IsOfNode Q) m
      → Adds (IsOfNode Q) k
      → Adds (IsOfNode Q) (m >> k)
  >>-Adds m k hm hk = >>=-Adds (IsOfNode Q) m (λ _. k) hm (λ _. hk)

  connect-Adds : (available : List String) → Adds (IsOfNode Q) (connect answers vars available)
  connect-Adds (agent ∷ more) = perform-Adds (dial agent) tt
  connect-Adds [] =
      >>-Adds (perform answers vars (create_parked_call vars.dnid (channel_of answers vars)))
        (perform answers vars music_on_hold >> perform answers vars park)
        (perform-Adds (create_parked_call vars.dnid (channel_of answers vars)) tt)
        (>>-Adds (perform answers vars music_on_hold) (perform answers vars park)
          (perform-Adds music_on_hold tt) (perform-Adds park tt))

  play-Adds :
      (file : Option String) (rest : List String) (m : Run Unit)
      → All Q ((if has_text file then file_of file ∷ [] else []) ++ rest)
      → (Q (file_of file) → Adds (IsOfNode Q) m)
      → Adds (IsOfNode Q) (if has_text file then m else return) × All Q rest
  play-Adds file rest m h hm = elim (Bool-cases (has_text file)) [
    | inl e ↦ let h' : Q (file_of file) × All Q rest = rw e at h in (rw e (hm h'.0), h'.1)
    | inr e ↦ let h' : All Q rest = rw e at h in (rw e (return-Adds (IsOfNode Q)), h')
  ]

  mutual
    unfolding handle_ivr_node files

    pub handle_ivr_node-Adds :
        (n : IvrNode) → All Q (files n) → Adds (IsOfNode Q) (handle_ivr_node answers vars n)
    handle_ivr_node-Adds (node playback key file cs) h =
        let m = perform answers vars (stream_file (file_of file)) in
        let (play, rest) =
          play-Adds file (files_of cs) m h
            (λ q. perform-Adds (stream_file (file_of file)) (inr q)) in
        >>-Adds (perform answers vars find_provider)
          ((if has_text file then m else return) >> handle_children answers vars cs)
          (perform-Adds find_provider tt)
          (>>-Adds (if has_text file then m else return) (handle_children answers vars cs) play
            (handle_children-Adds cs rest))
    handle_ivr_node-Adds (node play_with_dtmf key file cs) h =
        let ask_key = ask answers vars answers.pressed (get_data (file_of file)) in
        let m = ask_key >>= (λ k. handle_pressed answers vars k cs) in
        let (play, rest) = play-Adds file (files_of cs) m h (λ q.
          >>=-Adds (IsOfNode Q) ask_key (λ k. handle_pressed answers vars k cs)
            (ask-Adds (IsOfNode Q) answers vars answers.pressed (get_data (file_of file)) q)
            (λ k. handle_pressed-Adds k cs (
              All-append_right Q (if has_text file then file_of file ∷ [] else []) (files_of cs)
                h))) in
        >>-Adds (perform answers vars find_provider) (if has_text file then m else return)
          (perform-Adds find_provider tt) play
    handle_ivr_node-Adds (node transfer key file cs) h =
        let ask_agents = ask answers vars answers.agents get_available_agent in
        >>-Adds (perform answers vars find_provider) (ask_agents >>= connect answers vars)
          (perform-Adds find_provider tt)
          (>>=-Adds (IsOfNode Q) ask_agents (connect answers vars)
            (ask-Adds (IsOfNode Q) answers vars answers.agents get_available_agent tt) connect-Adds)
    handle_ivr_node-Adds (node other key file cs) h = perform-Adds find_provider tt

    handle_children-Adds :
        (cs : Children) → All Q (files_of cs) → Adds (IsOfNode Q) (handle_children answers vars cs)
    handle_children-Adds end h = return-Adds (IsOfNode Q)
    handle_children-Adds (child n cs) h =
        >>-Adds (handle_ivr_node answers vars n) (handle_children answers vars cs)
          (handle_ivr_node-Adds n (All-append_left Q (files n) (files_of cs) h))
          (handle_children-Adds cs (All-append_right Q (files n) (files_of cs) h))

    handle_pressed-Adds :
        (k : Option String) (cs : Children)
        → All Q (files_of cs)
        → Adds (IsOfNode Q) (handle_pressed answers vars k cs)
    handle_pressed-Adds k end h = perform-Adds (stream_file "invalid") (inl refl)
    handle_pressed-Adds k (child n cs) h = elim (Bool-cases (same_key (key_of n) k)) [
      | inl e ↦ rw e (handle_ivr_node-Adds n (All-append_left Q (files n) (files_of cs) h))
      | inr e ↦ rw e (handle_pressed-Adds k cs (All-append_right Q (files n) (files_of cs) h))
    ]
