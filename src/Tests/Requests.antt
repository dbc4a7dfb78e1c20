-- ===== src/Tests/Requests.antt =====
-- The theorems on the scheduler at concrete inputs.
use pocket_mo_e.Prelude.{
  ◌+◌, ◌*◌, ◌≤◌, length, list_eq, nat_eq, ◌≢◌, ◌≡◌, refl, [], ◌∷◌, ◌++◌, none, some, true, false,
  ok, arith, inl,
}
use pocket_mo_e.Prelude.Dict
use pocket_mo_e.Prelude.Text.{codes, one_of, upper_code}
use pocket_mo_e.Partition.{getenv}
use pocket_mo_e.Scheduler.{
  Queues, empty, submit, has_work, mark_prefill_done, mark_request_done, prefill,
}
use pocket_mo_e.Scheduler.Laws.Refs.{erase, has_ref, NotIn}
use pocket_mo_e.Scheduler.Laws.Queues.{
  IsWellFormed, empty-IsWellFormed, submit-IsWellFormed, Running, mark_prefill_done-queues,
  mark_request_done-queues,
}
use pocket_mo_e.Scheduler.Laws.Steps.{prefills, here, next, Reach-IsWellFormed}
use pocket_mo_e.Scheduler.Laws.Order.{serve, serve-order}
use pocket_mo_e.Scheduler.Phases.{
  Os, Resources, delivered, active_key, pd_key, attn_int8_suffixes, apply_phase_resources,
  enter_phase, apply_phase_attention_env, attention_env, set_server_paused,
}
use pocket_mo_e.Scheduler.Phases.Env.{apply_phase_resources-switches, apply_phase_resources-again}

abbrev one_request : Queues
one_request = (submit (7 ∷ 8 ∷ []) 16 empty).1

abbrev two_requests : Queues
two_requests = (submit (9 ∷ []) 4 one_request).1

two_requests-IsWellFormed : IsWellFormed two_requests
two_requests-IsWellFormed =
    submit-IsWellFormed (9 ∷ []) 4 one_request
      (submit-IsWellFormed (7 ∷ 8 ∷ []) 16 empty empty-IsWellFormed)

first_waits : has_ref 0 two_requests.prefill_queue ≡ true
unfolding submit has_ref
first_waits = refl

Reach-IsWellFormed_example : IsWellFormed (mark_prefill_done 0 two_requests)
Reach-IsWellFormed_example =
    Reach-IsWellFormed two_requests-IsWellFormed (next here (prefills 0 first_waits))

four_rounds : length two_requests.decode_queue + 2 * length two_requests.prefill_queue ≤ 4
unfolding submit
four_rounds = omega arith

serve-order_example :
    ((serve 4 two_requests).0 ≡ two_requests.decode_queue ++ two_requests.prefill_queue)
    × (has_work (serve 4 two_requests).1 ≡ false)
serve-order_example = serve-order 4 two_requests two_requests-IsWellFormed four_rounds

mark_prefill_done-queues_example :
    ((mark_prefill_done 0 two_requests).prefill_queue ≡ erase 0 two_requests.prefill_queue)
    × ((mark_prefill_done 0 two_requests).decode_queue ≡ two_requests.decode_queue ++ 0 ∷ [])
    × Running (mark_prefill_done 0 two_requests).requests 0
mark_prefill_done-queues_example =
    mark_prefill_done-queues 0 two_requests two_requests-IsWellFormed first_waits

mark_request_done-queues_example :
    ((mark_request_done 0 two_requests).prefill_queue ≡ erase 0 two_requests.prefill_queue)
    × ((mark_request_done 0 two_requests).decode_queue ≡ erase 0 two_requests.decode_queue)
    × NotIn 0 (mark_request_done 0 two_requests).prefill_queue
    × NotIn 0 (mark_request_done 0 two_requests).decode_queue
mark_request_done-queues_example =
    mark_request_done-queues 0 two_requests two_requests-IsWellFormed (inl first_waits)

abbrev linux : Os
linux = record { has_affinity = true; has_libnuma = false; kill_outcome = λ pid sig. delivered }

abbrev started : Resources
started = record {
  current_phase = none;
  current_runtime_threads = none;
  pause_server_during_prefill = false;
  server_pid = none;
  server_paused = none;
  environ = (codes "DEEPSEEK_PD_PREFILL_WKV_INT8", codes "1") ∷ [];
  calls = [];
}

abbrev prefilling : Resources
prefilling = record started {
  current_phase = some prefill;
  environ =
      (codes "DEEPSEEK_PD_PREFILL_WKV_INT8", codes "1")
      ∷ (codes "DEEPSEEK_PD_ACTIVE_PHASE", prefill)
      ∷ (codes "DEEPSEEK_ACTIVE_WKV_INT8", codes "1")
      ∷ [];
}

started-prefilling : apply_phase_resources linux prefill started ≡ ok prefilling
unfolding apply_phase_resources enter_phase one_of apply_phase_attention_env attention_env
    set_server_paused Dict.put Dict.get Dict.remove pd_key active_key getenv upper_code
started-prefilling = refl

phase_is_new : started.current_phase ≢ some prefill
phase_is_new e = absurd (cc)

suffix_known : one_of (codes "WKV_INT8") attn_int8_suffixes ≡ true
unfolding one_of
suffix_known = refl

apply_phase_resources-switches_example :
    (prefilling.current_phase ≡ some prefill)
    × (Dict.get (active_key (codes "WKV_INT8")) prefilling.environ
        ≡ Dict.get (pd_key prefill (codes "WKV_INT8")) started.environ)
apply_phase_resources-switches_example =
    apply_phase_resources-switches linux prefill (codes "WKV_INT8") started prefilling
      started-prefilling phase_is_new suffix_known

apply_phase_resources-again_example : apply_phase_resources linux prefill prefilling ≡ ok prefilling
apply_phase_resources-again_example =
    apply_phase_resources-again linux prefill started prefilling started-prefilling
