-- ===== src/Agi/Order.antt =====
-- The order of what the handler of a call does (src/utils/agi/agi-server.ts).
use spectrum_connect_backend.Common.{
  ℕ, ◌≡◌, ◌⊎◌, inl, inr, refl, ap, subst, true, String, Option, none, List, [], ◌∷◌, ◌++◌,
  append_assoc, append-nil, length, arith, All, any, Bool-cases, Option-cases, str_eq, eq_refl,
}
use spectrum_connect_backend.Agi.{
  IvrNode, Variables, Effect, log_call, answer, update_call_status, hangup, next, Answers, Run, ask,
  perform, ◌>>=◌, ◌>>◌, caller, finish, handle_ivr_node, handle_call,
}
use spectrum_connect_backend.Agi.Walk.{IsOfNode, files, handle_ivr_node-Adds}

-- A text is among some.
abbrev pub IsAmong : List String → String → Type 0
IsAmong fs f = any (str_eq f) fs ≡ true

All-IsAmong_more :
    (x : String) (fs gs : List String) → All (IsAmong fs) gs → All (IsAmong (x ∷ fs)) gs
All-IsAmong_more x fs [] h = tt
All-IsAmong_more x fs (g ∷ gs) h = ground (arith, All-IsAmong_more x fs gs, h)

All-IsAmong : (fs : List String) → All (IsAmong fs) fs
All-IsAmong [] = tt
All-IsAmong (f ∷ fs) = (ground (arith, eq_refl f), All-IsAmong_more f fs fs (All-IsAmong fs))

-- What a call that is not cut off does: the call is logged and answered, then comes the walk, then
-- the status, the hangup and the next handler.
abbrev pub whole : String → String → List Effect → List Effect
whole caller session middle =
    log_call caller ∷ answer ∷ middle ++ update_call_status session ∷ hangup ∷ next ∷ []

-- A run stops within a list of calls, or makes them all and returns.
abbrev pub IsCut : {A : Type 0} → Option A × List Effect → List Effect → Type 0
IsCut (o, t) calls = (rest : List Effect) × (t ++ rest ≡ calls) × ((o ≡ none) ⊎ (rest ≡ []))

module _ (answers : Answers) (vars : Variables) where
  ask-IsCut :
      {A B : Type 0} (f : ℕ → A) (e : Effect) (k : A → Run B) (t more : List Effect)
      → IsCut (k (f (length t)) (t ++ e ∷ [])) (t ++ e ∷ more)
      → IsCut ((ask answers vars f e >>= k) t) (t ++ e ∷ more)
  ask-IsCut f e k t more h = elim (Bool-cases (answers.fails (length t))) [
    | inl failed ↦ rw (failed, ◌>>=◌) (more, append_assoc t (e ∷ []) more, inl refl)
    | inr fine ↦ rw (fine, ◌>>=◌) h
  ]

  last-IsCut : (e : Effect) (t : List Effect) → IsCut (perform answers vars e t) (t ++ e ∷ [])
  last-IsCut e t = ([], append-nil (t ++ e ∷ []), inr refl)

  finish-IsCut :
      (session : String) (t : List Effect)
      → IsCut (finish answers vars session t) (t ++ update_call_status session ∷ hangup ∷ next ∷ [])
  finish-IsCut session t =
      let t1 = t ++ update_call_status session ∷ [] in
      let t2 = t1 ++ hangup ∷ [] in
      let last : IsCut (perform answers vars next t2) (t1 ++ hangup ∷ next ∷ []) =
        subst (IsCut (perform answers vars next t2)) (append_assoc t1 (hangup ∷ []) (next ∷ []))
          (last-IsCut next t2) in
      ask-IsCut (λ n. tt) (update_call_status session)
        (λ _. perform answers vars hangup >> perform answers vars next) t (hangup ∷ next ∷ [])
        (subst (IsCut ((perform answers vars hangup >> perform answers vars next) t1))
          (append_assoc t (update_call_status session ∷ []) (hangup ∷ next ∷ []))
          (ask-IsCut (λ n. tt) hangup (λ _. perform answers vars next) t1 (next ∷ []) last))

  -- The calls before the walk.
  abbrev pub start : List Effect
  start = log_call (caller answers vars) ∷ answer ∷ []

  walk-IsCut :
      (root : IvrNode) (session : String) (middle : List Effect)
      → (handle_ivr_node answers vars root start).1 ≡ start ++ middle
      → IsCut
          ((handle_ivr_node answers vars root >> finish answers vars session) start)
          (whole (caller answers vars) session middle)
  walk-IsCut root session middle now =
      let tail = update_call_status session ∷ hangup ∷ next ∷ [] in
      elim (Option-cases ((handle_ivr_node answers vars root start).0)) [
        | inl stopped ↦ rw (stopped, ◌>>=◌) (tail, ap (λ t. t ++ tail) now, inl refl)
        | inr (a, e) ↦
            rw (e, ◌>>=◌)
              (subst
                (λ t.
                  IsCut (finish answers vars session ((handle_ivr_node answers vars root start).1))
                    (t ++ tail))
                now (finish-IsCut session ((handle_ivr_node answers vars root start).1)))
      ]

  -- However the awaited calls turn out, the handler logs the call, answers it, walks the tree, sets
  -- the status, hangs up and goes on, in this order and each once, and stops within this list only
  -- by an error. What it does between the answer and the status is what the walk of the tree does
  -- after the call has been logged and answered. The walk plays no other files than those of the
  -- tree and the sound `invalid`, and neither answers nor hangs up.
  pub handle_call-IsCut :
      (root : IvrNode)
      → (middle : List Effect) × ((handle_ivr_node answers vars root start).1 ≡ start ++ middle)
        × All (IsOfNode (IsAmong (files root))) middle
        × IsCut
            (handle_call answers vars root [])
            (whole (caller answers vars) (answers.session 0) middle)
  unfolding handle_call
  handle_call-IsCut root =
      let Q = IsAmong (files root) in
      let session = answers.session 0 in
      let (middle, now, all) =
        handle_ivr_node-Adds answers vars Q root (All-IsAmong (files root)) start in
      let tail = middle ++ update_call_status session ∷ hangup ∷ next ∷ [] in
      let walk = λ (s : String). handle_ivr_node answers vars root >> finish answers vars s in
      (
        middle,
        now,
        all,
        ask-IsCut answers.session (log_call (caller answers vars))
            (λ s. perform answers vars answer >> walk s) [] (answer ∷ tail)
            (ask-IsCut (λ n. tt) answer (λ _. walk session) (log_call (caller answers vars) ∷ [])
              tail (walk-IsCut root session middle now)),
      )
