-- ===== src/Detection/Steady.antt =====
-- What no stream of readings breaks: one unresolved incident for an equipment, bounded windows, and an
-- acknowledgement of each message.
use processguard_ai.Incident.{Float}
use mathlib.Core.Path.{subst}
use mathlib.Core.List.{append-nil, append_assoc}
use processguard_ai.Detection.Correlate.{Observation}
use processguard_ai.Detection.Scoring.{SensorReading, BaselineStats}
use processguard_ai.Detection.Agent.{
  DetectionAgent, SensorRow, DetectionState, Delivery, Window, put_window, trim_window, find_sensor,
}
use processguard_ai.Detection.Stream.{
  reading_of, arrive, register, update_baseline, persist_reading, score_and_register,
  process_reading, consume_message, consume_messages, consume_forever, decode,
}
use processguard_ai.Detection.Single.{IsSingle, upsert_incident-IsSingle}
use processguard_ai.Base.{
  Result, length-take, text_eq, Result-cases, if_ind, ℕ, zero, suc, ◌≤◌, ◌<◌, ◌≡◌, refl, sym, ap,
  ◌∙◌, inl, inr, Bool, true, false, Option, none, some, List, [], ◌∷◌, ◌++◌, arith, ◌==◌,
  if◌then◌else◌, Bool-cases, Option-cases, length, All, Text,
}
use processguard_ai.Detection.Kept.{register_anomaly-keeps}

-- The messages that are acknowledged: all but those whose acknowledgement fails.
abbrev pub receipts : List Delivery → List ℕ
receipts [] = []
receipts (d ∷ ds) = let rest = receipts ds in if d.ack_fails then rest else d.message_id ∷ rest

abbrev pub all_receipts : List (Option (List Delivery)) → List ℕ
all_receipts [] = []
all_receipts (none ∷ rest) = all_receipts rest
all_receipts (some ds ∷ rest) = receipts ds ++ all_receipts rest

module _ (agent : DetectionAgent) where
  abbrev IsShort : Window → Type 0
  IsShort w = length w.window_values ≤ agent.settings.window_size

  -- One unresolved incident for an equipment, short windows, and these messages acknowledged.
  abbrev pub IsSteady : List ℕ → DetectionState → Type 0
  IsSteady acks s = IsSingle s.world.db.incidents × All IsShort s.windows × (s.acked ≡ acks)

  put_window-IsShort :
      (w : Window) (ws : List Window) → IsShort w → All IsShort ws → All IsShort (put_window w ws)
  unfolding put_window
  put_window-IsShort w [] h hs = (h, tt)
  put_window-IsShort w (v ∷ vs) h hs =
      if_ind (All IsShort) (text_eq v.window_key w.window_key) _ _ (h, hs.1)
        (hs.0, put_window-IsShort w vs h hs.1)

  length-trim_window :
      (size : ℕ) (values : List Float) → 0 < size → length (trim_window size values) ≤ size
  unfolding trim_window
  length-trim_window zero values h = absurd (omega (arith, h))
  length-trim_window (suc n) values h =
      let some_size : (suc n == 0) ≡ false = ground arith in
      rw some_size (length-take (suc n) values)

  update_baseline-IsSteady :
      (acks : List ℕ) (sensor : Text) (value : Float) (now : ℕ) (fails : Bool) (s : DetectionState)
      → 0 < agent.settings.window_size
      → IsSteady acks s
      → IsSteady acks (update_baseline agent sensor value now fails s).1
  unfolding update_baseline
  update_baseline-IsSteady acks sensor value now true s some_window h = h
  update_baseline-IsSteady acks sensor value now false s some_window (single, short, same) = (
    single,
    put_window-IsShort _ s.windows (length-trim_window agent.settings.window_size _ some_window)
        short,
    same,
  )

  persist_reading-IsSteady :
      (acks : List ℕ) (r : SensorReading) (fails : Bool) (s : DetectionState)
      → IsSteady acks s
      → IsSteady acks (persist_reading agent r fails s)
  unfolding persist_reading
  persist_reading-IsSteady acks r true s h = h
  persist_reading-IsSteady acks r false s h = h

  register-IsSteady :
      (acks : List ℕ) (o : Observation) (faults : List Bool) (s : DetectionState)
      → IsSteady acks s
      → IsSteady acks (register agent o faults s).1
  register-IsSteady acks o faults s (single, short, same) = (
    register_anomaly-keeps IsSingle agent.settings.retry_attempts agent.site_of
        (λ fs e severity summary db h.
          (upsert_incident-IsSingle agent.settings.retry_attempts fs agent.site_of e severity
            summary db h).0)
        agent.doubles.divide agent.doubles.round faults agent.settings.correlation_window
        agent.settings.max_gap o (s.buffer, s.world) single,
    short,
    same,
  )

  score_and_register-IsSteady :
      (acks : List ℕ) (row : SensorRow) (r : SensorReading) (b : BaselineStats) (d : Delivery)
      (s : DetectionState)
      → IsSteady acks s
      → IsSteady acks (score_and_register agent row r b d s).1
  unfolding score_and_register
  score_and_register-IsSteady acks row r b d s h =
      let stored = persist_reading-IsSteady acks r d.insert_fails s h in
      if_ind (λ (x : Result (Unit {0}) × DetectionState). IsSteady acks x.1) _ _ _
        (register-IsSteady acks _ d.upsert_faults (persist_reading agent r d.insert_fails s) stored)
        stored

  process_reading-IsSteady :
      (acks : List ℕ) (d : Delivery) (s : DetectionState)
      → 0 < agent.settings.window_size
      → IsSteady acks s
      → IsSteady acks (process_reading agent d s).1
  unfolding process_reading
  process_reading-IsSteady acks d s some_window h = elim (Option-cases (decode agent d.fields)) [
    | inl bad ↦ rw (bad, process_reading) h
    | inr (x, read) ↦ elim (Option-cases (find_sensor x.decoded_sensor agent.registry)) [
      | inl unknown ↦ rw (read, process_reading) (rw unknown h)
      | inr (row, known) ↦
          let based =
            update_baseline agent x.decoded_sensor x.decoded_value d.arrives_at d.pipeline_fails
              s in
          let after : IsSteady acks based.1 =
            update_baseline-IsSteady acks x.decoded_sensor x.decoded_value d.arrives_at
              d.pipeline_fails s some_window h in
          elim (Result-cases based.0) [
            | inl (e, raised) ↦ rw (read, process_reading) (rw known (rw raised after))
            | inr (b, got) ↦
                rw (read, process_reading)
                  (rw known (
                    rw got (
                      score_and_register-IsSteady acks row (reading_of agent row x d.arrives_at) b d
                        based.1 after)))
          ]
    ]
  ]

  consume_message-IsSteady :
      (acks : List ℕ) (d : Delivery) (s : DetectionState)
      → 0 < agent.settings.window_size
      → IsSteady acks s
      → IsSteady (acks ++ receipts (d ∷ [])) (consume_message agent d s)
  unfolding consume_message
  consume_message-IsSteady acks d s some_window h =
      let (single, short, same) =
        process_reading-IsSteady acks d (arrive agent d.arrives_at s) some_window h in
      elim (Bool-cases d.ack_fails) [
        | inl fails ↦ rw fails (rw (append-nil acks) (single, short, same))
        | inr works ↦ rw works (single, short, ap (λ xs. xs ++ d.message_id ∷ []) same)
      ]

  receipts-append :
      (d : Delivery) (ds : List Delivery) → receipts (d ∷ ds) ≡ receipts (d ∷ []) ++ receipts ds
  receipts-append d ds = elim (Bool-cases d.ack_fails) [
    | inl fails ↦ rw fails refl
    | inr works ↦ rw works refl
  ]

  consume_messages-IsSteady :
      (ds : List Delivery) (acks : List ℕ) (s : DetectionState)
      → 0 < agent.settings.window_size
      → IsSteady acks s
      → IsSteady (acks ++ receipts ds) (consume_messages agent ds s)
  unfolding consume_messages
  consume_messages-IsSteady [] acks s some_window h = rw (append-nil acks) h
  consume_messages-IsSteady (d ∷ ds) acks s some_window h =
      subst (λ xs. IsSteady xs (consume_messages agent (d ∷ ds) s))
        (append_assoc acks (receipts (d ∷ [])) (receipts ds)
          ∙ ap (λ xs. acks ++ xs) (sym (receipts-append d ds)))
        (consume_messages-IsSteady ds (acks ++ receipts (d ∷ [])) (consume_message agent d s)
          some_window (consume_message-IsSteady acks d s some_window h))

  -- Whatever the stream delivers and whatever fails, consuming it keeps it so that no equipment has two
  -- unresolved incidents and that no baseline is of more readings than the window, which is not empty;
  -- and it acknowledges every message in order, those left out whose acknowledgement fails.
  pub consume_forever-IsSteady :
      (reads : List (Option (List Delivery))) (acks : List ℕ) (s : DetectionState)
      → 0 < agent.settings.window_size
      → IsSteady acks s
      → IsSteady (acks ++ all_receipts reads) (consume_forever agent reads s)
  unfolding consume_forever
  consume_forever-IsSteady [] acks s some_window h = rw (append-nil acks) h
  consume_forever-IsSteady (none ∷ rest) acks s some_window h =
      consume_forever-IsSteady rest acks s some_window h
  consume_forever-IsSteady (some ds ∷ rest) acks s some_window h =
      subst (λ xs. IsSteady xs (consume_forever agent (some ds ∷ rest) s))
        (append_assoc acks (receipts ds) (all_receipts rest))
        (consume_forever-IsSteady rest (acks ++ receipts ds) (consume_messages agent ds s)
          some_window (consume_messages-IsSteady ds acks s some_window h))
