-- ===== src/Scheduler/Phases/Env.antt =====
-- What a change of phase leaves in the environment, and that a repeated one changes nothing.
use pocket_mo_e.Prelude.{
  ◌≡◌, ◌≢◌, refl, sym, ap, subst, value_error, ◌∙◌, List, [], ◌∷◌, Option, none, some, Bool, true,
  false, ok, err, arith, list_eq, nat_eq, ◌==◌, if◌then◌else◌, eq_of_beq, beq_refl, beq-false,
  ok-injective, Bool-cases, inl, inr, option_eq,
}
use pocket_mo_e.Prelude.Dict
use pocket_mo_e.Prelude.Int.{ℤ}
use pocket_mo_e.Prelude.Dict.{Dict, get-put, get-remove, put-get}
use pocket_mo_e.Prelude.Text.{Text, codes, one_of}
use pocket_mo_e.Scheduler.{prefill, decode}
use pocket_mo_e.Scheduler.Phases.{
  Os, Resources, attn_int8_suffixes, valid_phases, pd_key, active_key, attention_env,
  apply_phase_attention_env, set_server_paused, apply_affinity, apply_omp, apply_threads,
  apply_numa, enter_phase, apply_phase_resources, apply_cpus, run_on_first, try_apply_numa_node,
}
use pocket_mo_e.Scheduler.Phases.Keys.{
  active_phase, active-ne-active_phase, get-attention_env_other, get-attention_env,
}

-- The later steps of a change of phase: what they leave of the environment, and the phase.
abbrev Frames : Resources → Resources → Type 0
Frames s s' =
    (s'.current_phase ≡ s.current_phase)
    × ((key : Text)
        → key ≢ codes "OMP_NUM_THREADS"
        → Dict.get key s'.environ ≡ Dict.get key s.environ)

set_server_paused-Frames :
    (os : Os) (paused : Bool) (s : Resources)
    → ((set_server_paused os paused s).current_phase ≡ s.current_phase)
      × ((set_server_paused os paused s).environ ≡ s.environ)
unfolding set_server_paused
set_server_paused-Frames os paused s = ground arith

apply_cpus-Frames :
    (cpus : List ℤ) (s : Resources)
    → ((apply_cpus cpus s).current_phase ≡ s.current_phase)
      × ((apply_cpus cpus s).environ ≡ s.environ)
unfolding apply_cpus
apply_cpus-Frames [] s = (refl, refl)
apply_cpus-Frames (c ∷ cs) s = (refl, refl)

apply_affinity-Frames :
    (os : Os) (phase : Text) (s : Resources)
    → ((apply_affinity os phase s).current_phase ≡ s.current_phase)
      × ((apply_affinity os phase s).environ ≡ s.environ)
unfolding apply_affinity
apply_affinity-Frames os phase s = ground (arith, apply_cpus-Frames _ s)

run_on_first-Frames :
    (os : Os) (nodes : Option (List ℤ)) (s : Resources)
    → ((run_on_first os nodes s).current_phase ≡ s.current_phase)
      × ((run_on_first os nodes s).environ ≡ s.environ)
unfolding run_on_first
run_on_first-Frames os none s = (refl, refl)
run_on_first-Frames os (some []) s = (refl, refl)
run_on_first-Frames os (some (n ∷ ns)) s = ground arith

apply_numa-Frames :
    (os : Os) (phase : Text) (s : Resources)
    → ((apply_numa os phase s).current_phase ≡ s.current_phase)
      × ((apply_numa os phase s).environ ≡ s.environ)
unfolding apply_numa try_apply_numa_node
apply_numa-Frames os phase s = ground (arith, run_on_first-Frames os _ s)

apply_threads-Frames : (n : Option ℤ) (s : Resources) → Frames s (apply_threads n s)
unfolding apply_threads
apply_threads-Frames none s = (refl, λ key n. refl)
apply_threads-Frames (some z) s = (
  refl,
  λ key n.
      get-put (codes "OMP_NUM_THREADS") key _ s.environ
      ∙ rw (beq-false (codes "OMP_NUM_THREADS") key (λ e. n (sym e))) refl,
)

if-Frames : (b : Bool) (s s' : Resources) → Frames s s' → Frames s (if b then s else s')
if-Frames true s s' f = (refl, λ key n. refl)
if-Frames false s s' f = f

apply_omp-Frames : (phase : Text) (s : Resources) → Frames s (apply_omp phase s)
unfolding apply_omp
apply_omp-Frames phase s = if-Frames _ s _ (apply_threads-Frames _ s)

-- After `enter_phase`.
enter_phase-Frames :
    (os : Os) (phase key : Text) (s : Resources)
    → key ≢ codes "OMP_NUM_THREADS"
    → ((enter_phase os phase s).current_phase ≡ some phase)
      × (Dict.get key (enter_phase os phase s).environ
          ≡ Dict.get key (attention_env phase attn_int8_suffixes s.environ))
unfolding enter_phase apply_phase_attention_env
enter_phase-Frames os phase key s n =
    let s1 = apply_phase_attention_env phase (record s { current_phase = some phase }) in
    let s2 = set_server_paused os (phase == prefill) s1 in
    let s3 = apply_affinity os phase s2 in
    let s4 = apply_omp phase s3 in
    let p = set_server_paused-Frames os (phase == prefill) s1 in
    let a = apply_affinity-Frames os phase s2 in
    let o = apply_omp-Frames phase s3 in
    let m = apply_numa-Frames os phase s4 in
    (
      m.0 ∙ o.0 ∙ a.0 ∙ p.0,
      ap (Dict.get key) m.1 ∙ o.1 key n ∙ ap (Dict.get key) a.1 ∙ ap (Dict.get key) p.1,
    )

active-ne-omp : (suffix : Text) → active_key suffix ≢ codes "OMP_NUM_THREADS"
unfolding active_key
active-ne-omp suffix e = ground arith

pd-ne-active_phase :
    (phase suffix : Text) → one_of phase valid_phases ≡ true → active_phase ≢ pd_key phase suffix
unfolding pd_key one_of
pd-ne-active_phase phase suffix v e = elim (Bool-cases (phase == prefill)) [
  | inl t ↦
      let f : active_phase ≡ pd_key prefill suffix =
        e ∙ ap (λ p. pd_key p suffix) (eq_of_beq phase prefill t) in
      ground arith
  | inr n ↦
      let t : (phase == decode) ≡ true = ground arith in
      let f : active_phase ≡ pd_key decode suffix =
        e ∙ ap (λ p. pd_key p suffix) (eq_of_beq phase decode t) in
      ground arith
]

abbrev named : Text → Resources → Resources
named phase s = record s { environ = Dict.put active_phase phase s.environ }

applied :
    (os : Os) (phase : Text) (s s' : Resources)
    → apply_phase_resources os phase s ≡ ok s'
    → (one_of phase valid_phases ≡ true)
      × ((if s.current_phase == some phase
            then named phase s
            else enter_phase os phase (named phase s))
          ≡ s')
unfolding apply_phase_resources
applied os phase s s' h = elim (Bool-cases (one_of phase valid_phases)) [
  | inl t ↦ (
    t,
    ok-injective (
        subst
          (λ b.
            (if b
              then ok (
                  if s.current_phase == some phase
                  then named phase s
                  else enter_phase os phase (named phase s))
              else err value_error)
            ≡ ok s')
          t h),
  )
  | inr f ↦ ground arith
]

-- When `apply_phase_resources` succeeds for a phase that is not the current one, the process is in
-- that phase and, for each of the switches `_ATTN_INT8_SUFFIXES`, the ACTIVE variable has the
-- value the variable of the phase had before: set to it when that was set, absent when it was not.
pub apply_phase_resources-switches :
    (os : Os) (phase suffix : Text) (s s' : Resources)
    → apply_phase_resources os phase s ≡ ok s'
    → s.current_phase ≢ some phase
    → one_of suffix attn_int8_suffixes ≡ true
    → (s'.current_phase ≡ some phase)
      × (Dict.get (active_key suffix) s'.environ ≡ Dict.get (pd_key phase suffix) s.environ)
apply_phase_resources-switches os phase suffix s s' h n m =
    let a = applied os phase s s' h in
    let entered : enter_phase os phase (named phase s) ≡ s' =
      subst (λ b. (if b then named phase s else enter_phase os phase (named phase s)) ≡ s')
        (beq-false s.current_phase (some phase) n) a.1 in
    let f =
      enter_phase-Frames os phase (active_key suffix) (named phase s) (active-ne-omp suffix) in
    (
      ap (λ r. r.current_phase) (sym entered) ∙ f.0,
      ap (λ r. Dict.get (active_key suffix) r.environ) (sym entered)
          ∙ f.1
          ∙ get-attention_env phase suffix attn_int8_suffixes (named phase s).environ
          ∙ rw m (
              get-put active_phase (pd_key phase suffix) phase s.environ
              ∙ rw
                  (beq-false active_phase (pd_key phase suffix)
                    (pd-ne-active_phase phase suffix a.0))
                  refl),
    )

named-idle :
    (phase : Text) (s : Resources)
    → Dict.get active_phase s.environ ≡ some phase
    → named phase s ≡ s
named-idle phase s e = ap (λ v. record s { environ = v }) (put-get active_phase phase s.environ e)

named-active :
    (phase : Text) (s : Resources) → Dict.get active_phase (named phase s).environ ≡ some phase
named-active phase s = get-put active_phase active_phase phase s.environ

in_phase :
    (os : Os) (phase : Text) (s s' : Resources)
    → apply_phase_resources os phase s ≡ ok s'
    → (s'.current_phase ≡ some phase) × (Dict.get active_phase s'.environ ≡ some phase)
in_phase os phase s s' h =
    let a = applied os phase s s' h in
    elim (Bool-cases (s.current_phase == some phase)) [
      | inl t ↦
          let e : named phase s ≡ s' =
            subst (λ b. (if b then named phase s else enter_phase os phase (named phase s)) ≡ s') t
              a.1 in
          (
            ap (λ r. r.current_phase) (sym e) ∙ eq_of_beq s.current_phase (some phase) t,
            ap (λ r. Dict.get active_phase r.environ) (sym e) ∙ named-active phase s,
          )
      | inr n ↦
          let e : enter_phase os phase (named phase s) ≡ s' =
            subst (λ b. (if b then named phase s else enter_phase os phase (named phase s)) ≡ s') n
              a.1 in
          let f = enter_phase-Frames os phase active_phase (named phase s) (λ x. ground arith) in
          (
            ap (λ r. r.current_phase) (sym e) ∙ f.0,
            ap (λ r. Dict.get active_phase r.environ) (sym e)
                ∙ f.1
                ∙ get-attention_env_other phase active_phase attn_int8_suffixes
                    (named phase s).environ active-ne-active_phase
                ∙ named-active phase s,
          )
    ]

-- After `apply_phase_resources` succeeded, applying the same phase again succeeds and changes
-- nothing: neither the environment nor the log of calls to the operating system.
pub apply_phase_resources-again :
    (os : Os) (phase : Text) (s s' : Resources)
    → apply_phase_resources os phase s ≡ ok s'
    → apply_phase_resources os phase s' ≡ ok s'
unfolding apply_phase_resources
apply_phase_resources-again os phase s s' h =
    let i = in_phase os phase s s' h in
    rw
      (
        (applied os phase s s' h).0,
        ap (λ c. c == some phase) i.0,
        beq_refl (some phase),
        named-idle phase s' i.1,
      )
      refl
