-- ===== src/Report/Approval.antt =====
-- The approval line of backend/domains/report: the steps of a report against its status.
use project_main.Prelude.{
  ℕ, suc, ◌≤◌, ◌≡◌, refl, String, Bool, not, Option, none, some, List, [], ◌∷◌, ◌==◌, leb, ltb,
  Bool-cases, inl, inr, if◌then◌else◌, ok, >>=-eq-ok, raise_if-ok, ok-injective, some-injective,
  find, keep, length, update_where, All, ap, arith, sym, ◌∙◌, subst,
}
use project_main.Report.{
  Report, ReportStatus, draft, approval_pending, fully_approved, returned, pending, approved,
  ReportApprovalStep, ReportDb, approve_step, get_report, of_report, is_step, get_steps,
  get_current_step, or_raise, write, approve, approve_text,
}

-- What the status of a report of `n` steps says of one of its steps.
abbrev pub StepOk : ReportStatus → ℕ → ℕ → ReportApprovalStep → Type 0
StepOk draft current n s = s.status ≡ pending
StepOk approval_pending current n s =
    (s.step_number ≤ n) × (s.status ≡ (if ltb s.step_number current then approved else pending))
StepOk fully_approved current n s = s.status ≡ approved
StepOk returned current n s = Unit

-- All steps of a report agree with its status and its current step.
abbrev pub SoundAt : ReportStatus → ℕ → ℕ → List ReportApprovalStep → Type 0
SoundAt status current id steps =
    let own = keep (of_report id) steps in All (StepOk status current (length own)) own

abbrev pub Sound : ReportDb → Report → Type 0
Sound db r = SoundAt r.status r.current_step r.report_id db.steps

or_raise-ok {ℓ} : {A : Type ℓ} (o : Option A) {a : A} → or_raise o ≡ ok a → o ≡ some a
or_raise-ok none h = cc
or_raise-ok (some x) h = ap some (ok-injective h)

-- What a successful approval has found.
approve-inv :
    (db : ReportDb) (id actor now : ℕ) (comment : Option String) (out : Report × ReportDb)
    → approve db id actor comment now ≡ ok out
    → (r : Report) × (s : ReportApprovalStep) × (get_report db id ≡ some r)
      × (get_current_step db id r.current_step ≡ some s)
      × (s.approver_id ≡ actor)
      × (p : ReportApprovalStep × Report) × (approve_step s r
            (approve_text comment)
            (leb (length (get_steps db id)) r.current_step)
            now
          ≡ ok p)
      × (p.1 ≡ out.0)
      × ((write db p.0 p.1).steps ≡ out.1.steps)
unfolding approve
approve-inv db id actor now comment out h =
    let (r, found, h1) = >>=-eq-ok (or_raise (get_report db id)) _ h in
    let (s, current, h2) = >>=-eq-ok (or_raise (get_current_step db id r.current_step)) _ h1 in
    let (mine, h3) = raise_if-ok (not (s.approver_id == actor)) _ h2 in
    let (p, done, h4) =
      >>=-eq-ok
        (approve_step s r (approve_text comment) (leb (length (get_steps db id)) r.current_step)
          now)
        _ h3 in
    (
      r,
      s,
      or_raise-ok _ found,
      or_raise-ok _ current,
      ground arith,
      p,
      done,
      ap (λ (o : Report × ReportDb). o.0) (ok-injective h4),
      ap (λ (o : Report × ReportDb). o.1.steps) (ok-injective h4),
    )

get_report-id :
    (id : ℕ) (r : Report) (rs : List Report)
    → find (λ (x : Report). id == x.report_id) rs ≡ some r
    → r.report_id ≡ id
get_report-id id r [] h = cc
get_report-id id r (x ∷ rs) h = ground (arith, get_report-id id r rs)

current_step-key :
    (id n : ℕ) (s : ReportApprovalStep) (ss : List ReportApprovalStep)
    → find (is_step id n) ss ≡ some s
    → (s.report_id ≡ id) × (s.step_number ≡ n)
current_step-key id n s [] h = cc
current_step-key id n s (x ∷ ss) h = ground (arith, current_step-key id n s ss)

approve_step-ok :
    (s : ReportApprovalStep) (r : Report) (txt : String) (last : Bool) (now : ℕ)
    (p : ReportApprovalStep × Report)
    → approve_step s r txt last now ≡ ok p
    → (r.status ≡ approval_pending)
      × (s.status ≡ pending)
      × (p.0.report_id ≡ s.report_id)
      × (p.0.step_number ≡ s.step_number)
      × (p.0.status ≡ approved)
      × (p.1.report_id ≡ r.report_id)
      × (p.1.status ≡ (if last then fully_approved else approval_pending))
      × (p.1.current_step ≡ (if last then r.current_step else suc r.current_step))
unfolding approve_step
approve_step-ok s r txt last now p h = ground arith

length-get_steps :
    (id i c : ℕ) (u : ReportApprovalStep) (ss : List ReportApprovalStep)
    → u.report_id ≡ i
    → length (keep (of_report id) (update_where (is_step i c) (λ _. u) ss))
      ≡ length (keep (of_report id) ss)
length-get_steps id i c u [] h = refl
length-get_steps id i c u (x ∷ ss) h = ground (arith, length-get_steps id i c u ss)

-- The line after the current step is approved.
module _ (P : ReportApprovalStep → Type 0) (id : ℕ) where
  own_steps :
      (ss : List ReportApprovalStep)
      → All (λ (s : ReportApprovalStep). s.report_id ≡ id → P s) ss
      → All P (keep (of_report id) ss)
  own_steps [] h = tt
  own_steps (x ∷ ss) h = elim (Bool-cases (of_report id x)) [
    | inl e ↦ rw e (h.0 (ground arith), own_steps ss h.1)
    | inr e ↦ rw e (own_steps ss h.1)
  ]

  guarded_steps :
      (ss : List ReportApprovalStep)
      → All P (keep (of_report id) ss)
      → All (λ (s : ReportApprovalStep). s.report_id ≡ id → P s) ss
  guarded_steps [] h = tt
  guarded_steps (x ∷ ss) h = elim (Bool-cases (of_report id x)) [
    | inl e ↦
        let k : P x × All P (keep (of_report id) ss) = rw e at h in (λ _. k.0, guarded_steps ss k.1)
    | inr e ↦ (λ same. absurd (ground arith), guarded_steps ss (rw e at h))
  ]

line_approved :
    (id c n : ℕ) (u : ReportApprovalStep) (ss : List ReportApprovalStep)
    → u.status ≡ approved
    → u.report_id ≡ id
    → u.step_number ≡ c
    → All (λ (s : ReportApprovalStep). s.report_id ≡ id → StepOk approval_pending c n s) ss
    → let last = leb n c in
      All
        (λ (s : ReportApprovalStep).
          s.report_id ≡ id
          → StepOk
              (if last then fully_approved else approval_pending)
              (if last then c else suc c)
              n
              s)
        (update_where (is_step id c) (λ _. u) ss)
line_approved id c n u [] a i e h = tt
line_approved id c n u (x ∷ ss) a i e h = (ground arith, line_approved id c n u ss a i e h.1)

written_steps :
    (id c : ℕ) (u : ReportApprovalStep) (ss : List ReportApprovalStep)
    → u.status ≡ approved
    → u.report_id ≡ id
    → u.step_number ≡ c
    → SoundAt approval_pending c id ss
    → let last = leb (length (keep (of_report id) ss)) c in
      SoundAt
        (if last then fully_approved else approval_pending)
        (if last then c else suc c)
        id
        (update_where (is_step id c) (λ _. u) ss)
written_steps id c u ss a i e h =
    let last = leb (length (keep (of_report id) ss)) c in
    let status = if last then fully_approved else approval_pending in
    let current = if last then c else suc c in
    let written = update_where (is_step id c) (λ _. u) ss in
    subst (λ n. All (StepOk status current n) (keep (of_report id) written))
      (sym (length-get_steps id id c u ss i))
      (own_steps _ id written (line_approved id c _ u ss a i e (guarded_steps _ id ss h)))

update_at :
    (id c : ℕ) (u : ReportApprovalStep) (ss : List ReportApprovalStep)
    → u.report_id ≡ id
    → u.step_number ≡ c
    → update_where (is_step u.report_id u.step_number) (λ _. u) ss
      ≡ update_where (is_step id c) (λ _. u) ss
update_at id c u ss i e =
    ap (λ k. update_where (is_step k u.step_number) (λ _. u) ss) i
    ∙ ap (λ k. update_where (is_step id k) (λ _. u) ss) e

-- An approval keeps the report's line in order: of a report that waits, the steps before the current
-- one are approved and the others are pending; of a report that is fully approved, every step is.
pub approve-Sound :
    (db : ReportDb) (id actor now : ℕ) (comment : Option String) (r : Report)
    (out : Report × ReportDb)
    → get_report db id ≡ some r
    → Sound db r
    → approve db id actor comment now ≡ ok out
    → Sound out.1 out.0
unfolding write get_report get_current_step get_steps
approve-Sound db id actor now comment r out found sound h =
    let (r2, s, found2, current, _, p, done, eq_r, eq_s) =
      approve-inv db id actor now comment out h in
    let r_id = get_report-id id r2 db.reports found2 in
    let (s_id, s_num) = current_step-key id r2.current_step s db.steps current in
    let (waits, _, p_id, p_num, p_done, r'_id, r'_status, r'_step) =
      approve_step-ok s r2 _ _ now p done in
    let sound2 = subst (Sound db) (some-injective (sym found ∙ found2)) sound in
    let at : SoundAt approval_pending r2.current_step id db.steps =
      subst (λ st. SoundAt st r2.current_step id db.steps) waits
        (subst (λ i. SoundAt r2.status r2.current_step i db.steps) r_id sound2) in
    let line =
      written_steps id r2.current_step p.0 db.steps p_done (p_id ∙ s_id) (p_num ∙ s_num) at in
    subst (λ x. Sound out.1 x) eq_r
      (rw
        (
          r'_id ∙ r_id,
          r'_status,
          r'_step,
          sym eq_s ∙ update_at id r2.current_step p.0 db.steps (p_id ∙ s_id) (p_num ∙ s_num),
        )
        line)

-- Only the approver of the current step can approve a report, only while it waits for approval, and
-- only a step that is still pending.
pub approve-assigned :
    (db : ReportDb) (id actor now : ℕ) (comment : Option String) (out : Report × ReportDb)
    → approve db id actor comment now ≡ ok out
    → (r : Report) × (s : ReportApprovalStep) × (get_report db id ≡ some r)
      × (get_current_step db id r.current_step ≡ some s)
      × (s.approver_id ≡ actor)
      × (r.status ≡ approval_pending)
      × (s.status ≡ pending)
approve-assigned db id actor now comment out h =
    let (r, s, found, current, mine, p, done, _, _) = approve-inv db id actor now comment out h in
    let (waits, not_done, _, _, _, _, _, _) = approve_step-ok s r _ _ now p done in
    (r, s, found, current, mine, waits, not_done)
