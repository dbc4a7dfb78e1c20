-- ===== src/Scheduler/Phases.antt =====
-- What a change of phase does to the process (runtime/pd_scheduler.py): the environment, and the
-- calls of the operating system, which are recorded in order. What those calls answer is a
-- parameter.
pub mod Keys
pub mod Env
use pocket_mo_e.Prelude.{
  ℕ, zero, suc, ◌+◌, List, [], ◌∷◌, ◌++◌, map, Option, none, some, Bool, true, false, not, ◌&&◌,
  ◌||◌, Result, ok, err, value_error, any, list_eq, nat_eq, option_eq, ◌==◌, if◌then◌else◌,
}
use mathlib.Core.Option
use pocket_mo_e.Prelude.Dict
use pocket_mo_e.Prelude.Dict.{Dict}
use pocket_mo_e.Prelude.Int.{ℤ, pos, ltb_ℤ}
use pocket_mo_e.Prelude.Text.{Text, codes, upper, lower, one_of, split, strip, parse_int, int_text}
use pocket_mo_e.Partition.{Environ, getenv, truthy}
use pocket_mo_e.Scheduler.{prefill, decode}
use pocket_mo_e.Scheduler.CpuList.{parse_cpu_list}

-- `_ATTN_INT8_SUFFIXES`
abbrev pub attn_int8_suffixes : List Text
attn_int8_suffixes =
    codes "WQ_A_INT8"
    ∷ codes "WQ_B_INT8"
    ∷ codes "WKV_INT8"
    ∷ codes "WO_A_INT8"
    ∷ codes "WO_B_INT8"
    ∷ codes "INDEXER_WQ_B_INT8"
    ∷ []

-- `_VALID_PHASES`
abbrev pub valid_phases : List Text
valid_phases = prefill ∷ decode ∷ []

pub data Signal : Type 0 where
  sigstop sigcont : Signal

pub data Call : Type 0 where
  set_affinity : List ℤ → Call
  kill : ℤ → Signal → Call
  configure_threads : ℤ → Call
  numa_run_on_node : ℤ → Call

pub data KillOutcome : Type 0 where
  delivered no_process refused : KillOutcome

-- The answers of the operating system: whether `os.sched_setaffinity` and libnuma are there, and
-- what `os.kill` does.
pub record Os : Type 0 where
  pub has_affinity : Bool
  pub has_libnuma : Bool
  pub kill_outcome : ℤ → Signal → KillOutcome

-- The fields of `PDScheduler` for resources, with the environment of the process and its calls.
pub record Resources : Type 0 where
  pub current_phase : Option Text
  pub current_runtime_threads : Option ℤ
  pub pause_server_during_prefill : Bool
  pub server_pid : Option ℤ
  pub server_paused : Option Bool
  pub environ : Environ
  pub calls : List Call

unfoldable pub pd_key : Text → Text → Text
pd_key phase suffix = codes "DEEPSEEK_PD_" ++ (upper phase ++ codes "_" ++ suffix)

unfoldable pub active_key : Text → Text
active_key suffix = codes "DEEPSEEK_ACTIVE_" ++ suffix

is_set : Environ → Text → Bool
is_set env name = not (getenv env name [] == [])

phase_vars : List Text
phase_vars = codes "CPUS" ∷ codes "OMP_THREADS" ∷ codes "NUMA_NODE" ∷ []

-- `has_phase_overrides`
unfoldable pub has_phase_overrides : Environ → Bool
unfolding is_set phase_vars
has_phase_overrides env =
    any (λ phase. any (λ suffix. is_set env (pd_key phase suffix)) phase_vars) valid_phases
    || (truthy (getenv env (codes "DEEPSEEK_PD_PAUSE_SERVER_DURING_PREFILL") (codes "0"))
        || truthy (getenv env (codes "DEEPSEEK_PD_PHASE_AUTO_SELECT") (codes "0")))

set_or_pop : Text → Option Text → Environ → Environ
set_or_pop key none env = Dict.remove key env
set_or_pop key (some v) env = Dict.put key v env

-- the loop of `_apply_phase_attention_env`
unfoldable pub attention_env : Text → List Text → Environ → Environ
unfolding set_or_pop
attention_env phase [] env = env
attention_env phase (suffix ∷ suffixes) env =
    attention_env phase suffixes
      (set_or_pop (active_key suffix) (Dict.get (pd_key phase suffix) env) env)

-- `_apply_phase_attention_env`
unfoldable pub apply_phase_attention_env : Text → Resources → Resources
apply_phase_attention_env phase s = record s {
  environ = attention_env phase attn_int8_suffixes s.environ;
}

after_kill : Bool → KillOutcome → Resources → Resources
after_kill paused delivered s = record s { server_paused = some paused }
after_kill paused no_process s = record s { server_pid = none }
after_kill paused refused s = s

abbrev signal_for : Bool → Signal
signal_for paused = if paused then sigstop else sigcont

same_bool : Option Bool → Bool → Bool
same_bool none b = false
same_bool (some true) b = b
same_bool (some false) b = not b

signal_server : Os → Bool → Option ℤ → Resources → Resources
unfolding after_kill same_bool
signal_server os paused none s = s
signal_server os paused (some pid) s =
    if same_bool s.server_paused paused
    then s
    else after_kill paused (os.kill_outcome pid (signal_for paused))
        (record s { calls = s.calls ++ kill pid (signal_for paused) ∷ [] })

-- `_set_server_paused`
unfoldable pub set_server_paused : Os → Bool → Resources → Resources
unfolding signal_server
set_server_paused os paused s =
    if not s.pause_server_during_prefill then s else signal_server os paused s.server_pid s

apply_cpus : List ℤ → Resources → Resources
apply_cpus [] s = s
apply_cpus (c ∷ cs) s = record s { calls = s.calls ++ set_affinity (c ∷ cs) ∷ [] }

apply_affinity : Os → Text → Resources → Resources
unfolding apply_cpus
apply_affinity os phase s =
    let cpus_env = getenv s.environ (pd_key phase (codes "CPUS")) [] in
    if not (cpus_env == []) && os.has_affinity then apply_cpus (parse_cpu_list cpus_env) s else s

at_least_one : ℤ → ℤ
at_least_one n = if ltb_ℤ n (pos 1) then pos 1 else n

apply_threads : Option ℤ → Resources → Resources
unfolding at_least_one
apply_threads none s = s
apply_threads (some n) s = record s {
  current_runtime_threads = some (at_least_one n);
  environ = Dict.put (codes "OMP_NUM_THREADS") (int_text (at_least_one n)) s.environ;
  calls = s.calls ++ configure_threads (at_least_one n) ∷ [];
}

apply_omp : Text → Resources → Resources
unfolding apply_threads
apply_omp phase s =
    let omp_env = getenv s.environ (pd_key phase (codes "OMP_THREADS")) [] in
    if omp_env == [] then s else apply_threads (parse_int omp_env) s

-- `[int(x) for x in spec.split(",") if x.strip()]`
numa_nodes : List Text → Option (List ℤ)
numa_nodes [] = some []
numa_nodes (x ∷ xs) =
    let rest = numa_nodes xs in
    if strip x == []
    then rest
    else elim (parse_int x) [ none ↦ none | some n ↦ Option.map (λ ns. n ∷ ns) rest ]

run_on_first : Os → Option (List ℤ) → Resources → Resources
run_on_first os none s = s
run_on_first os (some []) s = s
run_on_first os (some (n ∷ ns)) s =
    if os.has_libnuma then record s { calls = s.calls ++ numa_run_on_node n ∷ [] } else s

-- `_try_apply_numa_node`
unfoldable pub try_apply_numa_node : Os → Text → Resources → Resources
unfolding numa_nodes run_on_first
try_apply_numa_node os spec s = run_on_first os (numa_nodes (split b',' spec)) s

apply_numa : Os → Text → Resources → Resources
apply_numa os phase s =
    let numa_env = getenv s.environ (pd_key phase (codes "NUMA_NODE")) [] in
    if numa_env == [] then s else try_apply_numa_node os numa_env s

-- what `apply_phase_resources` does when the phase is new
unfoldable pub enter_phase : Os → Text → Resources → Resources
unfolding apply_affinity apply_omp apply_numa
enter_phase os phase s =
    let s1 = apply_phase_attention_env phase (record s { current_phase = some phase }) in
    let s2 = set_server_paused os (phase == prefill) s1 in
    apply_numa os phase (apply_omp phase (apply_affinity os phase s2))

-- `apply_phase_resources`
unfoldable pub apply_phase_resources : Os → Text → Resources → Result Resources
apply_phase_resources os phase s =
    if one_of phase valid_phases
    then ok (
        let s' = record s {
          environ = Dict.put (codes "DEEPSEEK_PD_ACTIVE_PHASE") phase s.environ;
        } in
        if s.current_phase == some phase then s' else enter_phase os phase s')
    else err value_error
