-- ===== src/Curator/Session.antt =====
-- A whole session of course_discovery/memory_curator/graph.py.
use course_discovery_agent.Prelude.{
  ℕ, zero, suc, ◌+◌, ◌≤◌, String, Bool, false, ◌||◌, Option, none, some, List, [], ◌++◌, ◌≡◌, refl,
  ap, sym, subst, ◌∙◌, ◌⊎◌, inl, inr, arith, Bool-cases, if◌then◌else◌,
}
use mathlib.Core.List.{append-nil, append_assoc}
use course_discovery_agent.Memory.Patches.{MemoryPatch}
use course_discovery_agent.Curator.Graph.{
  ToolCall, Reply, calls, llm_error, CuratorState, answered, curator_model, run_tools, has_failed,
  is_over, session,
}
use course_discovery_agent.Curator.Calls.{
  reads, AreStored, AreStored-append, Raises, run_calls-Tried,
}

module _ (is_printable : String → Bool) (model : List String → Reply)
    (profile : List String → Option String) (events : String) where
  abbrev asked : CuratorState → CuratorState
  asked s = curator_model is_printable model profile events s

  -- The calls of a session, in the order in which the model makes them, up to where the session ends.
  unfoldable pub history : ℕ → ℕ → CuratorState → List ToolCall
  history zero max_steps s = []
  history (suc fuel) max_steps s =
      if has_failed is_printable model profile events (asked s).failure
      then []
      else elim (run_tools is_printable model profile events (asked s)) [
        | none ↦ (asked s).last_calls
        | some ran ↦
            let rest = history fuel max_steps ran in
            (asked s).last_calls
            ++ (if is_over is_printable model profile events max_steps ran then [] else rest)
      ]

  answered_keeps :
      (s : CuratorState) (r : Reply)
      → let s' = answered is_printable model profile events s r in
        (s'.steps ≡ s.steps + 1) × (s'.profile_read ≡ s.profile_read) × (s'.proposals ≡ s.proposals)
  unfolding answered
  answered_keeps s llm_error = (refl, refl, refl)
  answered_keeps s (calls message cs) = (refl, refl, refl)

  not_over :
      (max_steps : ℕ) (s : CuratorState)
      → is_over is_printable model profile events max_steps s ≡ false
      → s.steps + 1 ≤ max_steps
  unfolding is_over
  not_over max_steps s e = ground arith

  -- How a session ends that runs these calls.
  abbrev pub Ends : CuratorState → List ToolCall → Option (Option CuratorState) → Type 0
  Ends s cs result =
      ((result ≡ some none) × Raises is_printable model profile events)
      ⊎ ((s' : CuratorState) × (ps : List MemoryPatch) × (result ≡ some (some s'))
          × (s'.proposals ≡ s.proposals ++ ps)
          × AreStored is_printable s.profile_read cs ps)

  -- With fuel for the steps that the limit leaves and for one at least, a session ends, whatever the model
  -- answers: with an exception, if the profile cannot be read, or in a state whose proposals are the earlier
  -- ones and those that the calls of the session made, in their order. Each of these was made by a call
  -- behind one that read the profile, unless the profile had been read before the session, and it may be
  -- stored for what that call proposed.
  pub session-AreStored :
      (fuel max_steps : ℕ) (s : CuratorState)
      → 1 ≤ fuel
      → max_steps ≤ fuel + s.steps
      → Ends s
          (history fuel max_steps s)
          (session is_printable model profile events fuel max_steps s)
  unfolding session history run_tools curator_model
  session-AreStored zero max_steps s positive enough = absurd (omega (arith, positive))
  session-AreStored (suc fuel) max_steps s positive enough =
      let (steps, read, made) = answered_keeps s (model s.messages) in
      let cs = (asked s).last_calls in
      elim (Bool-cases (has_failed is_printable model profile events (asked s).failure)) [
        | inl e ↦
            rw (e, session, history)
              (inr (asked s, [], refl, made ∙ sym (append-nil s.proposals), refl))
        | inr e ↦ elim (run_calls-Tried is_printable model profile events cs (asked s)) [
          | inl (f, raised) ↦ rw (e, session, history, f) (inl (refl, raised))
          | inr (ran, f, (steps', read', ps, made', stored)) ↦
              let own = subst (λ b. AreStored is_printable b cs ps) read stored in
              let mine : ran.proposals ≡ s.proposals ++ ps = made' ∙ ap (λ xs. xs ++ ps) made in
              elim (Bool-cases (is_over is_printable model profile events max_steps ran)) [
                | inl g ↦
                    rw (e, session, history, f, g)
                      (inr (
                        ran,
                        ps,
                        refl,
                        mine,
                        subst (λ ds. AreStored is_printable s.profile_read ds ps)
                            (sym (append-nil cs)) own,
                      ))
                | inr g ↦
                    rw (e, session, history, f, g)
                      (elim (session-AreStored fuel max_steps ran
                        (omega (arith, not_over max_steps ran g, steps, steps', enough))
                        (omega (arith, steps, steps', enough))) [
                          | inl (k, raised) ↦ inl (k, raised)
                          | inr (s', qs, k, done, later) ↦ inr (
                            s',
                            ps ++ qs,
                            k,
                            done ∙ ap (λ xs. xs ++ qs) mine ∙ append_assoc s.proposals ps qs,
                            AreStored-append is_printable s.profile_read ran.profile_read cs
                                (history fuel max_steps ran) ps qs
                                (read' ∙ ap (λ b. b || reads cs) read) own later,
                          )
                        ])
              ]
        ]
      ]
