-- ===== src/Controller/Lifecycle/Stop.antt =====
-- Stopping an agent that has a runtime.
use tgent.Prelude.{ℕ, String, true, false, ◌≡◌, refl, some, arith, eq_refl, ap, ◌∙◌}
use tgent.Result.{Result, ok}
use tgent.Json.{ℤ}
use tgent.Dict.{lookup-insert}
use tgent.Store.Metadata.{Metadata, stopping, stopped}
use tgent.Store.Files.{Stored, get_metadata}
use tgent.Store.Files.Laws.{Holds, get_metadata-Holds, insert-Holds}
use tgent.Controller.State.{
  Controller, Runtime, Monitor, watching, closing, concluded, update, runtime_of, set_runtime,
  alive, ◌>>◌, modify, query, pure,
}
use tgent.Controller.State.Laws.{
  updated_metadata, updated_record, updated_controller, update-Holds, >>-returns, >>=-returns,
}
use tgent.Controller.Lifecycle.{
  settle, monitor_process, close_socket, has_noted, stop_runtime, stop_agent, ended, await_monitor,
  final_state, note_end, mark_ended,
}

abbrev to_stopping : Metadata → Metadata
to_stopping m = record m { state = stopping }

stop_agent-stop_runtime :
    (agent_id : String) (r : Runtime) (status : ℤ) (now : ℕ) (c : Controller)
    → runtime_of agent_id c ≡ some r
    → stop_agent agent_id status now c ≡ stop_runtime agent_id r status now c
unfolding stop_agent
stop_agent-stop_runtime agent_id r status now c e = rw (e, stop_agent)

module _ (agent_id : String) (s : Stored) (c : Controller) (h : Holds agent_id s c.store)
    (r : Runtime) (running_here : runtime_of agent_id c ≡ some r) (status : ℤ) (now : ℕ) where
  marked : Controller
  marked = set_runtime agent_id (record r { stop_requested = true }) c

  noted_record : Stored
  noted_record = updated_record s to_stopping now

  noted : Controller
  unfolding marked
  noted =
      set_runtime agent_id (ended status (record r { stop_requested = true }))
        (updated_controller agent_id s to_stopping now marked)

  held : Holds agent_id noted_record noted.store
  unfolding noted_record noted
  held = insert-Holds agent_id s c.store h noted_record

  stop_agent-noted :
      stop_agent agent_id status now c
      ≡ (await_monitor agent_id r.monitor now >> query (get_metadata agent_id)) noted
  unfolding stop_runtime marked noted
  stop_agent-noted =
      stop_agent-stop_runtime agent_id r status now c running_here
      ∙ >>-returns (update agent_id to_stopping now)
          (modify (set_runtime agent_id (ended status (record r { stop_requested = true })))
            >> (await_monitor agent_id r.monitor now >> query (get_metadata agent_id)))
          marked (updated_controller agent_id s to_stopping now marked)
          (updated_metadata s to_stopping now) (update-Holds agent_id s marked h to_stopping now)

  finished : Runtime
  finished = ended status (record r { stop_requested = true })

  finished-stop_requested : finished.stop_requested ≡ true
  unfolding finished
  finished-stop_requested = ground arith

  finished-alive : alive finished ≡ false
  unfolding finished
  finished-alive = ground arith

  finished-final_state : final_state finished ≡ stopped
  finished-final_state = rw finished-stop_requested refl

  final : Metadata → Metadata
  unfolding finished
  final m = record m { state = final_state finished; exit_code = finished.returncode }

  ending : Controller
  unfolding finished final noted
  ending =
      set_runtime agent_id (record finished { timer = false; monitor = closing })
        (updated_controller agent_id noted_record final now
          (set_runtime agent_id (record finished { timer = false }) noted))

  noted-runtime : runtime_of agent_id noted ≡ some finished
  unfolding noted finished
  noted-runtime = rw lookup-insert (rw eq_refl)

  settled : Controller
  unfolding finished
  settled =
      set_runtime agent_id (record finished { timer = false; serving = false; monitor = concluded })
        ending

  ending-runtime :
      runtime_of agent_id ending ≡ some (record finished { timer = false; monitor = closing })
  unfolding ending
  ending-runtime = rw lookup-insert (rw eq_refl)

  -- what the rest of the monitor does behind the end that it has noted
  await_monitor-noted :
      (m : Monitor)
      → has_noted m ≡ true
      → (c' : Controller) × (await_monitor agent_id m now noted ≡ (ok tt, c'))
        × (c'.store ≡ noted.store)
  unfolding close_socket
  await_monitor-noted watching d = cc
  await_monitor-noted closing d = (
    set_runtime agent_id (record finished { serving = false; monitor = concluded }) noted,
    rw (noted-runtime, close_socket),
    refl,
  )
  await_monitor-noted concluded d = (noted, refl, refl)

  -- A worker that has ended, and whose end the monitor has noted, is not stopped: its agent is left in
  -- the state `stopping`, whatever its state was, also where the monitor still waits for the control
  -- socket to close.
  pub stop_settled :
      has_noted r.monitor ≡ true
      → let (result, c') = stop_agent agent_id status now c in
        (m : Metadata) × (result ≡ ok m)
        × (m.state ≡ stopping)
        × (get_metadata agent_id c'.store ≡ ok m)
  unfolding noted_record
  stop_settled d =
      let (c', waited, same) = await_monitor-noted r.monitor d in
      let read : get_metadata agent_id c'.store ≡ ok noted_record.metadata =
        ap (get_metadata agent_id) same
        ∙ get_metadata-Holds agent_id noted_record noted.store held in
      rw
        (stop_agent-noted
          ∙ >>-returns (await_monitor agent_id r.monitor now) (query (get_metadata agent_id)) noted
              c' tt waited)
        (_, read, refl, read)

  noted_metadata : Metadata
  noted_metadata = updated_metadata s to_stopping now

  quiet : Controller
  unfolding finished noted
  quiet = set_runtime agent_id (record finished { timer = false }) noted

  monitor_process-settle :
      monitor_process agent_id now noted
      ≡ (settle agent_id finished now >> close_socket agent_id) noted
  unfolding monitor_process settle
  monitor_process-settle = rw (noted-runtime, monitor_process)

  mark_ended-final :
      mark_ended agent_id finished noted_metadata now quiet
      ≡ (ok tt, updated_controller agent_id noted_record final now quiet)
  unfolding noted_metadata final quiet noted
  mark_ended-final =
      >>-returns (update agent_id final now) (pure tt) quiet
        (updated_controller agent_id noted_record final now quiet)
        (updated_metadata noted_record final now) (update-Holds agent_id _ quiet held final now)

  settle-ending : settle agent_id finished now noted ≡ (ok tt, ending)
  unfolding noted_record settle noted_metadata quiet ending final noted
  settle-ending =
      >>=-returns (query (get_metadata agent_id)) (note_end agent_id finished now) noted noted
        noted_metadata
        (ap (λ (p : Result Metadata). (p, noted)) (get_metadata-Holds agent_id _ _ held))
      ∙ >>-returns (mark_ended agent_id finished noted_metadata now)
          (modify (set_runtime agent_id (record finished { timer = false; monitor = closing })))
          quiet _ tt mark_ended-final

  close_socket-settled : close_socket agent_id ending ≡ (ok tt, settled)
  unfolding close_socket settled
  close_socket-settled = rw (ending-runtime, close_socket)

  await_monitor-settled :
      (m : Monitor) → has_noted m ≡ false → await_monitor agent_id m now noted ≡ (ok tt, settled)
  await_monitor-settled watching d =
      monitor_process-settle
      ∙ >>-returns (settle agent_id finished now) (close_socket agent_id) noted ending tt
          settle-ending
      ∙ close_socket-settled
  await_monitor-settled closing d = cc
  await_monitor-settled concluded d = cc

  stop_agent-settled :
      (d : has_noted r.monitor ≡ false)
      → stop_agent agent_id status now c ≡ query (get_metadata agent_id) settled
  stop_agent-settled d =
      stop_agent-noted
      ∙ >>-returns (await_monitor agent_id r.monitor now) (query (get_metadata agent_id)) noted
          settled tt (await_monitor-settled r.monitor d)

  -- A worker of an agent that has a record, and whose end the monitor has not noted yet, is stopped:
  -- its process has ended, its control socket is closed and its agent is in the state `stopped`.
  pub stop_running :
      has_noted r.monitor ≡ false
      → let (result, c') = stop_agent agent_id status now c in
        (m : Metadata) × (result ≡ ok m)
        × (m.state ≡ stopped)
        × (get_metadata agent_id c'.store ≡ ok m)
        × (r' : Runtime) × (runtime_of agent_id c' ≡ some r')
        × (alive r' ≡ false)
        × (r'.serving ≡ false)
  unfolding settled ending final
  stop_running d =
      let t = updated_record noted_record final now in
      let read =
        get_metadata-Holds agent_id t settled.store (insert-Holds agent_id _ noted.store held t) in
      rw (stop_agent-settled d) (
        t.metadata,
        read,
        finished-final_state,
        read,
        record finished { timer = false; serving = false; monitor = concluded },
        rw lookup-insert (rw eq_refl),
        finished-alive,
        refl,
      )
