-- ===== src/Tagging/Repeated.antt =====
-- course_discovery/jobs/tagging.py: the courses that need tagging are scheduled again.
use course_discovery_agent.Prelude.{
  ◌⊎◌, In, ap, some-inj, Bool-cases, ◌==◌, if◌then◌else◌, All-map, ◌<>◌, ℕ, String, Option, some,
  List, [], ◌∷◌, ◌≡◌, refl, ◌∙◌, sym, subst, inl, inr, eq_iff, eq_refl, arith, All, Option-cases,
}
use course_discovery_agent.Prelude.Dict.{Dict, get, put, get-put}
use course_discovery_agent.Effects.Models.{queued, number, text, Effect, OutboxRecord, Value}
use course_discovery_agent.Effects.MemoryStore.{Table, enqueue, enqueue_found, new_record}
use course_discovery_agent.Effects.Gateway.{submit, traced}
use course_discovery_agent.Effects.Worker.{World}
use course_discovery_agent.Tagging.Graph.{CourseRow}
use course_discovery_agent.Tagging.Schedule.{
  tag_course, scheduled, tagging_key, tagging_effect, submit_all, schedule_tagging,
}

-- The outbox has a record for the key.
abbrev pub HasRecord : String → Table → Type 0
HasRecord k s = (x : OutboxRecord) × (get k s ≡ some x)

module _ (inject : Dict Value → Dict Value) (clock : ℕ → ℕ) where
  submit-HasRecord :
      (effect : Effect) (w : World) → HasRecord effect.key (submit inject clock effect w).1.table
  unfolding submit enqueue tagging_effect
  submit-HasRecord effect w = elim (Option-cases (get effect.key w.table)) [
    | inl e ↦
        rw (e, enqueue_found)
          (let fresh = new_record (traced inject effect) (clock w.readings) in
            (fresh, get-put effect.key effect.key fresh w.table ∙ rw eq_refl refl))
    | inr (x, e) ↦ rw (e, enqueue_found) (x, e)
  ]

  submit_keeps :
      (effect : Effect) (w : World) (k : String)
      → HasRecord k w.table
      → HasRecord k (submit inject clock effect w).1.table
  unfolding submit enqueue
  submit_keeps effect w k (x, h) = elim (Option-cases (get effect.key w.table)) [
    | inl e ↦
        rw (e, enqueue_found)
          (let fresh = new_record (traced inject effect) (clock w.readings) in
            (x, get-put effect.key k fresh w.table ∙ ground (arith, eq_iff effect.key k, e, h)))
    | inr (y, e) ↦ rw (e, enqueue_found) (x, h)
  ]

  submit_known :
      (effect : Effect) (w : World)
      → HasRecord effect.key w.table
      → (submit inject clock effect w).1.table ≡ w.table
  unfolding submit enqueue
  submit_known effect w (x, h) = rw (h, enqueue_found) refl

  -- A record that was not there before is the one that the submission queued.
  submit_made :
      (effect : Effect) (w : World) (k : String) (x : OutboxRecord)
      → get k (submit inject clock effect w).1.table ≡ some x
      → (get k w.table ≡ some x)
        ⊎ ((effect.key ≡ k) × (x.status ≡ queued) × (x.effect ≡ traced inject effect))
  unfolding submit enqueue
  submit_made effect w k x = elim (Option-cases (get effect.key w.table)) [
    | inr (y, e) ↦ rw (e, enqueue_found) (λ h. inl h)
    | inl e ↦
        rw (e, enqueue_found)
          (λ h.
            new_made effect.key k (new_record (traced inject effect) (clock w.readings)) w.table x
              h)
  ]
    where
      new_made :
          (j k : String) (fresh : OutboxRecord) (s : Table) (x : OutboxRecord)
          → get k (put j fresh s) ≡ some x
          → (get k s ≡ some x) ⊎ ((j ≡ k) × (x.status ≡ fresh.status) × (x.effect ≡ fresh.effect))
      new_made j k fresh s x h = elim (Bool-cases (j == k)) [
        | inl e ↦
            let same : fresh ≡ x = some-inj (
              subst (λ b. (if b then some fresh else get k s) ≡ some x) e
                (sym (get-put j k fresh s) ∙ h)) in
            inr (
              (eq_iff j k).0 e,
              ap (λ (y : OutboxRecord). y.status) (sym same),
              ap (λ (y : OutboxRecord). y.effect) (sym same),
            )
        | inr e ↦ inl (
            subst (λ b. (if b then some fresh else get k s) ≡ some x) e
              (sym (get-put j k fresh s) ∙ h))
      ]

  module _ (url_hash : String → String) where
    -- The key of a course with its content.
    abbrev pub content_key : CourseRow → String
    content_key r = "tag:" <> (url_hash r.canonical_url <> (":" <> r.content_hash))

    -- The outbox has a record for the course with its content.
    abbrev pub IsScheduled : Table → CourseRow → Type 0
    IsScheduled s r = HasRecord (content_key r) s

    -- The record is queued, for one of the courses, with its number and its content.
    abbrev pub IsMade : List CourseRow → String → OutboxRecord → Type 0
    IsMade rows k x =
        (r : CourseRow) × In r rows
        × (content_key r ≡ k)
        × (x.status ≡ queued)
        × (x.effect.key ≡ k)
        × (x.effect.kind ≡ tag_course)
        × (x.effect.payload
            ≡ inject (("course_id", number r.id) ∷ ("content_hash", text r.content_hash) ∷ []))

    submit_all-IsMade :
        (rows : List CourseRow) (w : World) (k : String) (x : OutboxRecord)
        → get k (submit_all url_hash inject clock rows w).table ≡ some x
        → (get k w.table ≡ some x) ⊎ IsMade rows k x
    unfolding submit_all tagging_effect tagging_key
    submit_all-IsMade [] w k x h = inl h
    submit_all-IsMade (r ∷ rows) w k x h =
        let effect = tagging_effect url_hash r in
        elim (submit_all-IsMade rows (submit inject clock effect w).1 k x h) [
          | inr (r', member, own, status, key, kind, payload) ↦
              inr (r', inr member, own, status, key, kind, payload)
          | inl e ↦ elim (submit_made effect w k x e) [
            | inl old ↦ inl old
            | inr (own, status, same) ↦ inr (
              r,
              inl refl,
              own,
              status,
              ap (λ (y : Effect). y.key) same ∙ own,
              ap (λ (y : Effect). y.kind) same,
              ap (λ (y : Effect). y.payload) same,
            )
          ]
        ]

    submit_all_keeps :
        (rows : List CourseRow) (w : World) (k : String)
        → HasRecord k w.table
        → HasRecord k (submit_all url_hash inject clock rows w).table
    unfolding submit_all
    submit_all_keeps [] w k h = h
    submit_all_keeps (r ∷ rows) w k h =
        let effect = tagging_effect url_hash r in
        submit_all_keeps rows (submit inject clock effect w).1 k (submit_keeps effect w k h)

    submit_all-IsScheduled :
        (rows : List CourseRow) (w : World)
        → All (IsScheduled (submit_all url_hash inject clock rows w).table) rows
    unfolding submit_all tagging_effect tagging_key
    submit_all-IsScheduled [] w = tt
    submit_all-IsScheduled (r ∷ rows) w =
        let effect = tagging_effect url_hash r in
        let w' = (submit inject clock effect w).1 in
        (
          submit_all_keeps rows w' effect.key (submit-HasRecord effect w),
          submit_all-IsScheduled rows w',
        )

    submit_all_known :
        (rows : List CourseRow) (w : World)
        → All (IsScheduled w.table) rows
        → (submit_all url_hash inject clock rows w).table ≡ w.table
    unfolding submit_all tagging_effect tagging_key
    submit_all_known [] w h = refl
    submit_all_known (r ∷ rows) w h =
        let effect = tagging_effect url_hash r in
        let same = submit_known effect w h.0 in
        submit_all_known rows (submit inject clock effect w).1
          (subst (λ s. All (IsScheduled s) rows) (sym same) h.1)
        ∙ same

    -- The record for a course was there before, or the scheduling made it.
    abbrev pub IsHeld : List CourseRow → Table → Table → CourseRow → Type 0
    IsHeld rows before after r =
        (x : OutboxRecord) × (get (content_key r) after ≡ some x)
        × ((get (content_key r) before ≡ some x) ⊎ IsMade rows (content_key r) x)

    -- After a scheduling the outbox has, for every course that it chose, a record under "tag:", the hash of
    -- the address, ":" and the content hash. It is the one that was there before, or a queued one with that
    -- key, to tag a chosen course, whose number and content hash it carries. Scheduling the same courses
    -- again leaves the outbox as it is.
    pub schedule_tagging-twice :
        (prefix : Option String) (limit : Option ℕ) (rows : List CourseRow) (w : World)
        → let w' = (schedule_tagging url_hash inject clock prefix limit rows w).1 in
          let w'' = (schedule_tagging url_hash inject clock prefix limit rows w').1 in
          let chosen = scheduled prefix limit rows in
          All (IsHeld chosen w.table w'.table) chosen × (w''.table ≡ w'.table)
    unfolding schedule_tagging
    schedule_tagging-twice prefix limit rows w =
        let chosen = scheduled prefix limit rows in
        let done = submit_all-IsScheduled chosen w in
        (
          All-map {Q = IsHeld chosen w.table (submit_all url_hash inject clock chosen w).table}
              (λ r (x, found). (x, found, submit_all-IsMade chosen w (content_key r) x found))
              chosen done,
          submit_all_known chosen (submit_all url_hash inject clock chosen w) done,
        )
