-- ===== src/Curator/Calls.antt =====
-- The calls of tools of course_discovery/memory_curator/graph.py: which patches they record.
use course_discovery_agent.Prelude.{
  String, Bool, true, false, ◌||◌, Option, none, some, List, [], ◌∷◌, ◌++◌, ◌<>◌, ◌≡◌, refl, ap,
  sym, subst, ◌∙◌, ◌⊎◌, inl, inr, arith, Bool-cases, ◌==◌, eq_iff,
}
use mathlib.Core.List.{append-nil, append_assoc}
use course_discovery_agent.Memory.Patches.{MemoryPatch}
use course_discovery_agent.Curator.Tools.{Proposal, proposal, propose}
use course_discovery_agent.Curator.Graph.{
  ToolCall, Reply, CuratorState, proposed, profile_shown, call_tool, call_all, run_calls,
}
use course_discovery_agent.Curator.Proposals.{IsStorable, propose-IsStorable}

unfoldable pub is_read : ToolCall → Bool
is_read c = c.name == "read_profile"

is_read-name : (c : ToolCall) (b : Bool) → (c.name == "read_profile") ≡ b → is_read c ≡ b
unfolding is_read
is_read-name c b e = e

abbrev pub reads : List ToolCall → Bool
reads [] = false
reads (c ∷ cs) = is_read c || reads cs

module _ (is_printable : String → Bool) where
  -- The patches are made by calls, in their order: each by a call of `propose_patch` with a proposal that
  -- may be stored as this patch, and that stands behind a call of `read_profile`, unless the profile was
  -- read before all of them.
  abbrev pub AreStored : Bool → List ToolCall → List MemoryPatch → Type 0
  AreStored read [] ps = ps ≡ []
  AreStored read (c ∷ cs) ps =
      AreStored (read || is_read c) cs ps
      ⊎ ((q : Proposal) × (p : MemoryPatch) × (rest : List MemoryPatch) × (ps ≡ p ∷ rest)
          × (read ≡ true)
          × (c.name ≡ "propose_patch")
          × (c.args ≡ proposal q)
          × IsStorable is_printable q p
          × AreStored (read || is_read c) cs rest)

  pub AreStored-append :
      (read later : Bool) (cs ds : List ToolCall) (ps qs : List MemoryPatch)
      → later ≡ (read || reads cs)
      → AreStored read cs ps
      → AreStored later ds qs
      → AreStored read (cs ++ ds) (ps ++ qs)
  AreStored-append read later [] ds ps qs e h g =
      subst (λ xs. AreStored read ds (xs ++ qs)) (sym h)
        (subst (λ b. AreStored b ds qs) (ground (arith, e)) g)
  AreStored-append read later (c ∷ cs) ds ps qs e (inl h) g =
      inl (AreStored-append (read || is_read c) later cs ds ps qs (ground (arith, e)) h g)
  AreStored-append read later (c ∷ cs) ds ps qs e (inr (q, p, rest, made, r, n, a, ok, h)) g = inr (
    q,
    p,
    rest ++ qs,
    ap (λ xs. xs ++ qs) made,
    r,
    n,
    a,
    ok,
    AreStored-append (read || is_read c) later cs ds rest qs (ground (arith, e)) h g,
  )

module _ (is_printable : String → Bool) (model : List String → Reply)
    (profile : List String → Option String) (events : String) where
  -- What some calls make of a state.
  abbrev pub Batch : CuratorState → List ToolCall → CuratorState → Type 0
  Batch s cs s' =
      (s'.steps ≡ s.steps)
      × (s'.profile_read ≡ (s.profile_read || reads cs))
      × (ps : List MemoryPatch) × (s'.proposals ≡ s.proposals ++ ps)
      × AreStored is_printable s.profile_read cs ps

  -- The profile could not be read.
  abbrev pub Raises : Type 0
  Raises = (messages : List String) × (profile messages ≡ none)

  abbrev pub Tried : CuratorState → List ToolCall → Option CuratorState → Type 0
  Tried s cs o = ((o ≡ none) × Raises) ⊎ ((s' : CuratorState) × (o ≡ some s') × Batch s cs s')

  nothing :
      (c : ToolCall) (s s' : CuratorState)
      → s'.steps ≡ s.steps
      → s'.profile_read ≡ (s.profile_read || is_read c)
      → s'.proposals ≡ s.proposals
      → Batch s (c ∷ []) s'
  nothing c s s' a b e = (a, ground (arith, b), [], e ∙ sym (append-nil s.proposals), inl refl)

  shown-Tried :
      (c : ToolCall) (s : CuratorState) (o : Option String)
      → is_read c ≡ true
      → profile s.messages ≡ o
      → Tried s (c ∷ []) (profile_shown is_printable model profile events s o)
  unfolding profile_shown
  shown-Tried c s none e f = inl (refl, (s.messages, f))
  shown-Tried c s (some text) e f =
      let s' = record s { messages = s.messages ++ text ∷ []; profile_read = true } in
      inr (s', refl, nothing c s s' refl (ground (arith, e)) refl)

  proposed-Batch :
      (c : ToolCall) (s : CuratorState) (o : Option MemoryPatch × String)
      → c.name ≡ "propose_patch"
      → is_read c ≡ false
      → propose is_printable s.profile_read c.args ≡ o
      → Batch s (c ∷ []) (proposed is_printable model profile events s o)
  unfolding proposed
  proposed-Batch c s (none, message) n e h =
      nothing c s (record s { messages = s.messages ++ message ∷ [] }) refl (ground (arith, e)) refl
  proposed-Batch c s (some p, message) n e h =
      let (read, q, args, ok) =
        propose-IsStorable is_printable s.profile_read c.args p
          (ap (λ (x : Option MemoryPatch × String). x.0) h) in
      (refl, ground (arith, e), p ∷ [], refl, inr (q, p, [], refl, read, n, args, ok, refl))

  call_tool-Tried :
      (c : ToolCall) (s : CuratorState)
      → Tried s (c ∷ []) (call_tool is_printable model profile events c s)
  unfolding call_tool
  call_tool-Tried c s = elim (Bool-cases (c.name == "read_profile")) [
    | inl e ↦ rw (e, call_tool) (shown-Tried c s (profile s.messages) (is_read-name c true e) refl)
    | inr e1 ↦
        let plain = is_read-name c false e1 in
        elim (Bool-cases (c.name == "read_run_events")) [
          | inl e ↦
              let s' = record s { messages = s.messages ++ events ∷ [] } in
              rw (e1, call_tool, e)
                (inr (s', refl, nothing c s s' refl (ground (arith, plain)) refl))
          | inr e2 ↦ elim (Bool-cases (c.name == "finish")) [
            | inl e ↦
                let s' = record s { messages = s.messages ++ "ok" ∷ []; finished = true } in
                rw (e1, call_tool, e2, e)
                  (inr (s', refl, nothing c s s' refl (ground (arith, plain)) refl))
            | inr e3 ↦ elim (Bool-cases (c.name == "propose_patch")) [
              | inl e ↦
                  rw (e1, call_tool, e2, e3, e)
                    (inr (
                      proposed is_printable model profile events s
                          (propose is_printable s.profile_read c.args),
                      refl,
                      proposed-Batch c s (propose is_printable s.profile_read c.args)
                          ((eq_iff c.name "propose_patch").0 e) plain refl,
                    ))
              | inr e ↦
                  let s' = record s {
                    messages = s.messages ++ ("error: unknown tool " <> c.name) ∷ [];
                  } in
                  rw (e1, call_tool, e2, e3, e)
                    (inr (s', refl, nothing c s s' refl (ground (arith, plain)) refl))
            ]
          ]
        ]
  ]

  call_all-Tried :
      (cs : List ToolCall) (s : CuratorState)
      → Tried s cs (call_all is_printable model profile events cs s)
  unfolding call_all
  call_all-Tried [] s = inr (s, refl, (refl, ground arith, [], sym (append-nil s.proposals), refl))
  call_all-Tried (c ∷ cs) s = elim (call_tool-Tried c s) [
    | inl (e, raised) ↦ rw (e, call_all) (inl (refl, raised))
    | inr (s1, e, (steps, read, ps, made, stored)) ↦
        rw (e, call_all)
          (elim (call_all-Tried cs s1) [
            | inl (f, raised) ↦ inl (f, raised)
            | inr (s2, f, (steps', read', qs, made', stored')) ↦ inr (
              s2,
              f,
              (
                steps' ∙ steps,
                ground (arith, read, read'),
                ps ++ qs,
                made' ∙ ap (λ xs. xs ++ qs) made ∙ append_assoc s.proposals ps qs,
                AreStored-append is_printable s.profile_read s1.profile_read (c ∷ []) cs ps qs read
                    stored stored',
              ),
            )
          ])
  ]

  pub run_calls-Tried :
      (cs : List ToolCall) (s : CuratorState)
      → Tried s cs (run_calls is_printable model profile events cs s)
  unfolding run_calls
  run_calls-Tried [] s = inr (
    record s { failure = some "no_tool_call" },
    refl,
    (refl, ground arith, [], sym (append-nil s.proposals), refl),
  )
  run_calls-Tried (c ∷ cs) s = call_all-Tried (c ∷ cs) s
