-- ===== src/Orchestrator/Simulator/Submitting.antt =====
-- internal/orchestrator/simulator.go: `Submit`, `Stop` and the cleanup of results.
use test_v.Prelude.{
  ℕ, ◌-◌, ◌<◌, ◌≤◌, ◌≡◌, refl, ◌⊎◌, inl, inr, true, false, Option, [], ◌∷◌, ◌++◌, none, some,
  if◌then◌else◌, ltb, leb, string_key, Bool-cases, Option-cases, arith,
}
use test_v.Prelude.Lists.{length}
use test_v.Prelude.Maps.{Map, IsMap, lookup, insert, lookup-insert_self}
use test_v.Protocol.{TxId, SimulationStatus, CrossShardTx}
use test_v.Orchestrator.Simulation.{Host}
use test_v.Orchestrator.Simulator.{
  Simulator, SimulationResult, Submitted, pending_result, queue_size, result_ttl, begin_submit,
  send_job, enqueue, time_out, submit, get_result, fresh_results, cleanup_expired_results,
}

module _ (h : Host) where
  -- The simulator after the first part of an accepted submission: the result is pending.
  abbrev pub begun : ℕ → Simulator h → CrossShardTx → Simulator h
  begun now s tx = record s { results = insert tx.id (pending_result tx.id now) s.results }

  -- What a submission has done, by its end; `mid` is the simulator when the send or its timeout is
  -- chosen, and `late` the one after the timeout.
  abbrev pub Ended :
      Simulator h
      → Simulator h
      → Simulator h
      → CrossShardTx
      → Option (Simulator h × Submitted)
      → Type 0
  Ended s mid late tx none =
      (s.closed ≡ false)
      × ((mid.closed ≡ true) ⊎ ((queue_size ≤ length mid.queue) × (get_result h late tx.id ≡ none)))
  Ended s mid late tx (some (s', Submitted.shutting_down)) = (s.closed ≡ true) × (s' ≡ s)
  Ended s mid late tx (some (s', Submitted.accepted)) =
      (s.closed ≡ false)
      × (mid.closed ≡ false)
      × (length mid.queue < queue_size)
      × (s' ≡ record mid { queue = mid.queue ++ tx ∷ [] })
  Ended s mid late tx (some (s', Submitted.queue_full)) =
      (s.closed ≡ false)
      × (mid.closed ≡ false)
      × (queue_size ≤ length mid.queue)
      × (s'.queue ≡ late.queue)
      × (r : SimulationResult) × (get_result h late tx.id ≡ some r)
      × (get_result h s' tx.id
          ≡ some (record r { status = SimulationStatus.failed; error = "simulation queue full" }))

  send_job-Ended :
      (s mid : Simulator h) (waiting : Simulator h → Simulator h) (tx : CrossShardTx)
      → s.closed ≡ false
      → Ended s mid (waiting mid) tx (send_job h waiting mid tx)
  unfolding send_job enqueue time_out get_result
  send_job-Ended s mid waiting tx running = elim (Bool-cases mid.closed) [
    | inl shut ↦
        let panic : send_job h waiting mid tx ≡ none = rw shut refl in rw panic (running, inl shut)
    | inr open_ ↦ elim (Bool-cases (ltb (length mid.queue) queue_size)) [
      | inl room ↦
          let sent : send_job h waiting mid tx
              ≡ some (record mid { queue = mid.queue ++ tx ∷ [] }, Submitted.accepted) =
            ground (arith, open_, room) in
          rw sent (running, open_, ground arith, refl)
      | inr full ↦ elim (Option-cases (lookup tx.id (waiting mid).results)) [
        | inl gone ↦
            let panic : send_job h waiting mid tx ≡ none = ground (arith, open_, full, gone) in
            rw panic (running, inr (ground arith, gone))
        | inr (r, there) ↦
            let lost : SimulationResult = record r {
              status = SimulationStatus.failed;
              error = "simulation queue full";
            } in
            let late : Simulator h = waiting mid in
            let timed_out : send_job h waiting mid tx
                ≡ some (
                  record late { results = insert tx.id lost late.results },
                  Submitted.queue_full,
                ) =
              ground (arith, open_, full, there) in
            rw timed_out (
              running,
              open_,
              ground arith,
              refl,
              r,
              there,
              lookup-insert_self tx.id lost late.results,
            )
      ]
    ]
  ]

  -- Whatever other goroutines do between the parts of a submission, it ends in one of four ways. A
  -- simulator that is shut down at the check refuses it and changes nothing. Otherwise the result is
  -- pending, and then: if the channel has been closed before the send, the send panics; if the channel
  -- has room, the job is its last and nothing else is changed; if the timeout comes first, since the
  -- channel is full, the channel is left alone and the result that is there becomes a failure, and
  -- there is a panic if that result has been removed.
  pub submit_lem :
      (now : ℕ) (meanwhile waiting : Simulator h → Simulator h) (s : Simulator h)
      (tx : CrossShardTx)
      → Ended s
          (meanwhile (begun now s tx))
          (waiting (meanwhile (begun now s tx)))
          tx
          (submit h now meanwhile waiting s tx)
  unfolding submit begin_submit
  submit_lem now meanwhile waiting s tx =
      let mid : Simulator h = meanwhile (begun now s tx) in
      elim (Bool-cases s.closed) [
        | inl shut ↦
            let refused : submit h now meanwhile waiting s tx ≡ some (s, Submitted.shutting_down) =
              rw shut refl in
            rw refused (shut, refl)
        | inr running ↦
            let sends : submit h now meanwhile waiting s tx ≡ send_job h waiting mid tx =
              rw running refl in
            rw sends (send_job-Ended s mid waiting tx running)
      ]

  fresh_results-lookup :
      (now : ℕ) (m : Map TxId SimulationResult) (id : TxId)
      → IsMap m
      → lookup id (fresh_results h now m) ≡ elim (lookup id m) [
        | none ↦ none
        | some r ↦ if leb result_ttl (now - r.created_at) then none else some r
      ]
  unfolding fresh_results lookup
  fresh_results-lookup now [] id v = refl
  fresh_results-lookup now ((k, r) ∷ m) id v =
      ground (arith, fresh_results-lookup now m id v.1, string_key.same_iff k id)

  -- A cleanup removes exactly the results that have reached their time to live, if each id stands
  -- once among the results, and leaves the jobs alone.
  pub cleanup_expired_results_lem :
      (now : ℕ) (s : Simulator h) (id : TxId)
      → IsMap s.results
      → (get_result h (cleanup_expired_results h now s) id ≡ elim (get_result h s id) [
        | none ↦ none
        | some r ↦ if leb result_ttl (now - r.created_at) then none else some r
      ])
        × ((cleanup_expired_results h now s).queue ≡ s.queue)
  unfolding cleanup_expired_results get_result
  cleanup_expired_results_lem now s id v = (fresh_results-lookup now s.results id v, refl)
