-- ===== src/Registry/Dynamostore/Interleaving/Running.antt =====
-- internal/registry/dynamostore/store.go: what one call does to a table that others use, too: the steps of
-- the others, and steps of its own that it may do.
use mathlib.Core.List.{Memᴰ}
use spawnly.Prelude.{ℕ, String, [], ◌∷◌}
use spawnly.Registry.Requests.{open_key_of}
use spawnly.Registry.Dynamostore.Interleaving.Keeping.{Pairs}
use spawnly.Registry.Dynamostore.Interleaving.{System, Step, Reach}
use spawnly.Registry.Dynamostore.Interleaving.Sharing.{Company, Moves, act, Moves-Reach}

-- A run of the table from `s0`, with what this call has read from markers and which it owes to remove. Its
-- own steps are on the table with its own memory.
pub data Run (stamp : ℕ → String) (company : Company) (s0 : System)
    : System → Pairs → Pairs → Type 0 where
  start : Run stamp company s0 s0 [] []
  theirs :
      {t u : System} {σ δ : Pairs}
      → Run stamp company s0 t σ δ
      → Moves stamp company t u
      → Run stamp company s0 u σ δ
  ours :
      {t v : System} {σ δ : Pairs}
      → Run stamp company s0 t σ δ
      → (step : Step stamp (record t { seen = σ; due = δ }) v) → company.may (act step)
      → Run stamp company s0 (record t { contents = v.contents }) v.seen v.due

abbrev pub Within : Pairs → Pairs → Type 0
Within ps qs = (p : String × String) → Memᴰ p ps → Memᴰ p qs

-- From `s0`, steps lead to the table of `s`, and to memories that hold those of `s` and of this call.
abbrev pub Leads : (ℕ → String) → System → Pairs → Pairs → System → Type 0
Leads stamp s0 seen due s =
    (σ : Pairs) × (δ : Pairs) × Reach stamp s0 (record s { seen = σ; due = δ })
    × Within s.seen σ
    × Within s.due δ
    × Within seen σ
    × Within due δ

pub Within-both : (p : String × String) (ps qs : Pairs) → Within ps qs → Within (p ∷ ps) (p ∷ qs)
Within-both p ps qs h q (Memᴰ.head e) = Memᴰ.head e
Within-both p ps qs h q (Memᴰ.tail m) = Memᴰ.tail (h q m)

pub Within-more : (p : String × String) (ps qs : Pairs) → Within ps qs → Within ps (p ∷ qs)
Within-more p ps qs h q m = Memᴰ.tail (h q m)

module _ (stamp : ℕ → String) (s0 : System) (seen due : Pairs) where
  Leads-Step :
      (s u : System) → Step stamp s u → Leads stamp s0 seen due s → Leads stamp s0 seen due u
  Leads-Step s u (Step.opens cr new won) (σ, δ, r, a, b, c, d) =
      (σ, δ, Reach.next r (Step.opens cr new won), a, b, c, d)
  Leads-Step s u (Step.opens_resolved cr new over) (σ, δ, r, a, b, c, d) =
      (σ, δ, Reach.next r (Step.opens_resolved cr new over), a, b, c, d)
  Leads-Step s u (Step.resolves id user_id status now cr at over test) (σ, δ, r, a, b, c, d) =
      let p : String × String = (open_key_of cr, id) in
      (
        σ,
        p ∷ δ,
        Reach.next r (Step.resolves id user_id status now cr at over test),
        a,
        Within-both p s.due δ b,
        c,
        Within-more p due δ d,
      )
  Leads-Step s u (Step.approves id user_id cand now grant cr at won) (σ, δ, r, a, b, c, d) =
      let p : String × String = (open_key_of cr, id) in
      (
        σ,
        p ∷ δ,
        Reach.next r (Step.approves id user_id cand now grant cr at won),
        a,
        Within-both p s.due δ b,
        c,
        Within-more p due δ d,
      )
  Leads-Step s u (Step.reads_marker key id at) (σ, δ, r, a, b, c, d) =
      let p : String × String = (key, id) in
      (
        p ∷ σ,
        δ,
        Reach.next r (Step.reads_marker key id at),
        Within-both p s.seen σ a,
        b,
        Within-more p seen σ c,
        d,
      )
  Leads-Step s u (Step.finds_stale key id cr m at over) (σ, δ, r, a, b, c, d) =
      let p : String × String = (key, id) in
      (
        σ,
        p ∷ δ,
        Reach.next r (Step.finds_stale key id cr (a p m) at over),
        a,
        Within-both p s.due δ b,
        c,
        Within-more p due δ d,
      )
  Leads-Step s u (Step.finds_none key id m at) (σ, δ, r, a, b, c, d) =
      let p : String × String = (key, id) in
      (
        σ,
        p ∷ δ,
        Reach.next r (Step.finds_none key id (a p m) at),
        a,
        Within-both p s.due δ b,
        c,
        Within-more p due δ d,
      )
  Leads-Step s u (Step.frees key id m points) (σ, δ, r, a, b, c, d) =
      (σ, δ, Reach.next r (Step.frees key id (b (key, id) m) points), a, b, c, d)
  Leads-Step s u (Step.elsewhere f x sk i far plain) (σ, δ, r, a, b, c, d) =
      (σ, δ, Reach.next r (Step.elsewhere f x sk i far plain), a, b, c, d)

  pub Leads-Reach :
      (s u : System) → Reach stamp s u → Leads stamp s0 seen due s → Leads stamp s0 seen due u
  Leads-Reach s u Reach.here h = h
  Leads-Reach s u (Reach.next {t} r step) h = Leads-Step t u step (Leads-Reach s t r h)

module _ (stamp : ℕ → String) (s0 : System) where
  -- A step of this call on its own memory is one on the memories of all.
  mine-Step :
      (t v : System) (σ δ : Pairs)
      → Step stamp (record t { seen = σ; due = δ }) v
      → Leads stamp s0 σ δ t
      → Leads stamp s0 v.seen v.due (record t { contents = v.contents })
  mine-Step t v σ δ (Step.opens cr new won) (σ', δ', r, a, b, c, d) =
      (σ', δ', Reach.next r (Step.opens cr new won), a, b, c, d)
  mine-Step t v σ δ (Step.opens_resolved cr new over) (σ', δ', r, a, b, c, d) =
      (σ', δ', Reach.next r (Step.opens_resolved cr new over), a, b, c, d)
  mine-Step t v σ δ (Step.resolves id user_id status now cr at over test) (σ', δ', r, a, b, c, d) =
      let p : String × String = (open_key_of cr, id) in
      (
        σ',
        p ∷ δ',
        Reach.next r (Step.resolves id user_id status now cr at over test),
        a,
        Within-more p t.due δ' b,
        c,
        Within-both p δ δ' d,
      )
  mine-Step t v σ δ (Step.approves id user_id cand now grant cr at won) (σ', δ', r, a, b, c, d) =
      let p : String × String = (open_key_of cr, id) in
      (
        σ',
        p ∷ δ',
        Reach.next r (Step.approves id user_id cand now grant cr at won),
        a,
        Within-more p t.due δ' b,
        c,
        Within-both p δ δ' d,
      )
  mine-Step t v σ δ (Step.reads_marker key id at) (σ', δ', r, a, b, c, d) =
      let p : String × String = (key, id) in
      (
        p ∷ σ',
        δ',
        Reach.next r (Step.reads_marker key id at),
        Within-more p t.seen σ' a,
        b,
        Within-both p σ σ' c,
        d,
      )
  mine-Step t v σ δ (Step.finds_stale key id cr m at over) (σ', δ', r, a, b, c, d) =
      let p : String × String = (key, id) in
      (
        σ',
        p ∷ δ',
        Reach.next r (Step.finds_stale key id cr (c p m) at over),
        a,
        Within-more p t.due δ' b,
        c,
        Within-both p δ δ' d,
      )
  mine-Step t v σ δ (Step.finds_none key id m at) (σ', δ', r, a, b, c, d) =
      let p : String × String = (key, id) in
      (
        σ',
        p ∷ δ',
        Reach.next r (Step.finds_none key id (c p m) at),
        a,
        Within-more p t.due δ' b,
        c,
        Within-both p δ δ' d,
      )
  mine-Step t v σ δ (Step.frees key id m points) (σ', δ', r, a, b, c, d) =
      (σ', δ', Reach.next r (Step.frees key id (d (key, id) m) points), a, b, c, d)
  mine-Step t v σ δ (Step.elsewhere f x sk i far plain) (σ', δ', r, a, b, c, d) =
      (σ', δ', Reach.next r (Step.elsewhere f x sk i far plain), a, b, c, d)

  pub Run-Leads :
      (company : Company) (u : System) (σ δ : Pairs)
      → Run stamp company s0 u σ δ
      → Leads stamp s0 σ δ u
  Run-Leads company u σ δ Run.start = (
    s0.seen,
    s0.due,
    Reach.here,
    (λ p m. m),
    (λ p m. m),
    (λ p m. elim m [ ]),
    (λ p m. elim m [ ]),
  )
  Run-Leads company u σ δ (Run.theirs {t} run m) =
      Leads-Reach stamp s0 σ δ t u (Moves-Reach stamp company t u m) (Run-Leads company t σ δ run)
  Run-Leads company u σ' δ' (Run.ours {t} {v} {σ} {δ} run step may) =
      mine-Step t v σ δ step (Run-Leads company t σ δ run)

-- A run from `s0` leads to this table, with a memory that holds at least this of the call.
abbrev pub Holds : (ℕ → String) → Company → System → Pairs → Pairs → System → Type 0
Holds stamp company s0 seen due s =
    (σ : Pairs) × (δ : Pairs) × Run stamp company s0 s σ δ × Within seen σ × Within due δ

module _ (stamp : ℕ → String) (company : Company) (s0 : System) (seen due : Pairs) where
  pub Holds-Moves :
      (s u : System)
      → Moves stamp company s u
      → Holds stamp company s0 seen due s
      → Holds stamp company s0 seen due u
  Holds-Moves s u m (σ, δ, run, a, b) = (σ, δ, Run.theirs run m, a, b)

  -- What was written by steps from `s0`.
  pub Holds-Reach :
      (s : System)
      → Holds stamp company s0 seen due s
      → (σ : Pairs) × (δ : Pairs) × Reach stamp s0 (record s { seen = σ; due = δ })
  Holds-Reach s (σ, δ, run, a, b) =
      let leads = Run-Leads stamp s0 company s σ δ run in (leads.0, leads.1, leads.2)
