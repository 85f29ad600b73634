-- ===== src/Processor/Once.antt =====
-- `Submit` calls that follow one another (pkg/processor/processor.go), on a deduplicator that recalls
-- its marks: which events get into the channel.
use extend_game_telemetry_co.Prelude.{
  ℕ, ◌+◌, ◌≤◌, ◌++◌, ◌≡◌, ◌∙◌, refl, sym, ap, Bool, true, false, ◌||◌, Option, none, some, List, [],
  ◌∷◌, Text, text_eq, length, length-append, Bool-cases, inl, inr, arith, if◌then◌else◌,
}
use mathlib.Core.List.{append-nil, append_assoc}
use extend_game_telemetry_co.Prelude.Result.{ok}
use extend_game_telemetry_co.Runtime.{Context, with_timeout, has_room}
use extend_game_telemetry_co.Dedup.{Deduplicator}
use extend_game_telemetry_co.Processor.{
  Processor, queued, returned, moved, blocked, panicked, submit, enqueue, count_duplicated,
}
use extend_game_telemetry_co.Processor.Submission.{submit_cases}

-- A deduplicator whose answers are those of a set of keys, in the states that `IsGood` picks out.
pub record Recalls {D T : Type 0} (IsGood : D → Type 0) (key : T → Text) (knows : D → Text → Bool)
    (m : Deduplicator D T) : Type 0 where
  pub answers :
      (ctx : Context) (e : T) (d : D) → IsGood d → m.is_duplicate ctx e d ≡ ok (knows d (key e))
  pub marks :
      (ctx : Context) (now : ℕ) (e : T) (d : D) (k : Text)
      → IsGood d
      → knows (m.mark ctx now e d).1 k ≡ text_eq (key e) k || knows d k
  pub stays : (ctx : Context) (now : ℕ) (e : T) (d : D) → IsGood d → IsGood (m.mark ctx now e d).1

-- The events whose key was not seen before them.
abbrev pub firsts : {T : Type 0} → (T → Text) → (Text → Bool) → List (ℕ × T) → List T
firsts key seen [] = []
firsts key seen ((now, e) ∷ es) =
    if seen (key e)
    then firsts key seen es
    else e ∷ firsts key (λ k. text_eq (key e) k || seen k) es

module _ {D S T : Type 0} where
  -- Calls of `Submit` one after another; `none` when one of them panics, blocks or fails.
  abbrev pub submit_each : Bool → List (ℕ × T) → Processor D S T → Option (Processor D S T)
  submit_each prefer_done [] p = some p
  submit_each prefer_done ((now, e) ∷ es) p = elim (submit now prefer_done e p) [
    | moved stage p' ↦ none
    | queued p' ↦ submit_each prefer_done es p'
    | returned none p' ↦ submit_each prefer_done es p'
    | returned (some failure) p' ↦ none
    | blocked ↦ none
    | panicked ↦ none
  ]

module _ {D S T : Type 0} {IsGood : D → Type 0} {key : T → Text} {knows : D → Text → Bool}
    {m : Deduplicator D T} (law : Recalls IsGood key knows m) (prefer_done : Bool) where
  -- The processor with its deduplicator in the state `d`.
  abbrev Holding : Processor D S T → D → Type 0
  Holding p d = p.deduplicator ≡ some (record { methods = m; state = d })

  abbrev after_mark : ℕ → T → Processor D S T → D → D
  after_mark now e p d = (m.mark (with_timeout p.ctx 100) now e d).1

  abbrev marked_by : ℕ → T → Processor D S T → D → Processor D S T
  marked_by now e p d = record p {
    deduplicator = some (record { methods = m; state = after_mark now e p d });
  }

  submit_known :
      (now : ℕ) (e : T) (p : Processor D S T) (d : D)
      → Holding p d
      → IsGood d
      → knows d (key e) ≡ true
      → submit now prefer_done e p ≡ returned none (count_duplicated p)
  submit_known now e p d h good known =
      let answer = law.answers (with_timeout p.ctx 100) e d good in
      submit_cases now prefer_done e p ∙ ground arith

  submit_fresh :
      (now : ℕ) (e : T) (p : Processor D S T) (d : D)
      → Holding p d
      → IsGood d
      → knows d (key e) ≡ false
      → p.input_chan.closed ≡ false
      → has_room p.input_chan ≡ true
      → submit now prefer_done e p ≡ queued (enqueue e (marked_by now e p d))
  submit_fresh now e p d h good fresh live room =
      let answer = law.answers (with_timeout p.ctx 100) e d good in
      submit_cases now prefer_done e p ∙ ground arith

  -- On an open channel with room for all of them, calls of `Submit` that follow one another
  -- return without an error, and add to the channel each event whose key was not known before,
  -- once and in order.
  pub submit_each-firsts :
      (es : List (ℕ × T)) (p : Processor D S T) (d : D) (seen : Text → Bool)
      → Holding p d
      → IsGood d
      → ((k : Text) → knows d k ≡ seen k)
      → p.input_chan.closed ≡ false
      → length p.input_chan.buffer + length es ≤ p.input_chan.capacity
      → (p' : Processor D S T) × (submit_each prefer_done es p ≡ some p')
        × (p'.input_chan.buffer ≡ p.input_chan.buffer ++ firsts key seen es)
  submit_each-firsts [] p d seen h good same live room =
      (p, refl, sym (append-nil p.input_chan.buffer))
  submit_each-firsts ((now, e) ∷ es) p d seen h good same live room =
      elim (Bool-cases (knows d (key e))) [
        | inl known ↦
            let (p', ran, held) =
              submit_each-firsts es (count_duplicated p) d seen h good same live (omega arith) in
            (
              p',
              rw (submit_each, submit_known now e p d h good known) ran,
              held ∙ rw (sym (same (key e)), known) refl,
            )
        | inr fresh ↦
            let (p', ran, held) =
              submit_each-firsts es (enqueue e (marked_by now e p d)) (after_mark now e p d)
                (λ k. text_eq (key e) k || seen k) refl (law.stays _ now e d good)
                (λ k. law.marks _ now e d k good ∙ ap (λ b. text_eq (key e) k || b) (same k)) live
                (omega (arith, length-append p.input_chan.buffer (e ∷ []))) in
            (
              p',
              rw (submit_each, submit_fresh now e p d h good fresh live (ground arith)) ran,
              held
                  ∙ append_assoc p.input_chan.buffer (e ∷ [])
                      (firsts key (λ k. text_eq (key e) k || seen k) es)
                  ∙ rw (sym (same (key e)), fresh) refl,
            )
      ]
