-- ===== src/Scheduler/Phases/Keys.antt =====
-- What the change of phase leaves under each key of the environment.
use pocket_mo_e.Prelude.{
  ◌≡◌, ◌≢◌, refl, ◌∙◌, List, [], ◌∷◌, Option, none, some, arith, list_eq, nat_eq, ◌==◌,
  if◌then◌else◌, eq_of_beq, beq_refl, beq-false, option_eq,
}
use pocket_mo_e.Prelude.Dict
use pocket_mo_e.Prelude.Dict.{Dict, get-put, get-remove, put-get}
use pocket_mo_e.Prelude.Text.{Text, codes, one_of}
use pocket_mo_e.Partition.{Environ}
use pocket_mo_e.Scheduler.Phases.{pd_key, active_key, set_or_pop, attention_env}

abbrev pub active_phase : Text
active_phase = codes "DEEPSEEK_PD_ACTIVE_PHASE"

active-ne-pd : (suffix phase rest : Text) → active_key suffix ≢ pd_key phase rest
unfolding active_key pd_key
active-ne-pd suffix phase rest e = ground arith

pub active-ne-active_phase : (suffix : Text) → active_key suffix ≢ active_phase
unfolding active_key
active-ne-active_phase suffix e = ground arith

active_key-injective : (a b : Text) → active_key a ≡ active_key b → a ≡ b
unfolding active_key
active_key-injective a b e = cc

-- What one round of the loop does to a key of the environment.
get-set_or_pop :
    (key j : Text) (v : Option Text) (env : Environ)
    → Dict.get j (set_or_pop key v env) ≡ (if key == j then v else Dict.get j env)
unfolding set_or_pop
get-set_or_pop key j none env = get-remove key j env
get-set_or_pop key j (some v) env = get-put key j v env

-- Only the ACTIVE keys change.
pub get-attention_env_other :
    (phase key : Text) (suffixes : List Text) (env : Environ)
    → ((suffix : Text) → active_key suffix ≢ key)
    → Dict.get key (attention_env phase suffixes env) ≡ Dict.get key env
unfolding attention_env
get-attention_env_other phase key [] env n = refl
get-attention_env_other phase key (x ∷ xs) env n =
    get-attention_env_other phase key xs _ n
    ∙ get-set_or_pop (active_key x) key (Dict.get (pd_key phase x) env) env
    ∙ rw (beq-false (active_key x) key (n x)) refl

get_pd-set_or_pop :
    (phase suffix x : Text) (v : Option Text) (env : Environ)
    → Dict.get (pd_key phase suffix) (set_or_pop (active_key x) v env)
      ≡ Dict.get (pd_key phase suffix) env
get_pd-set_or_pop phase suffix x v env =
    get-set_or_pop (active_key x) (pd_key phase suffix) v env
    ∙ rw (beq-false (active_key x) (pd_key phase suffix) (active-ne-pd x phase suffix)) refl

pub get-attention_env :
    (phase suffix : Text) (suffixes : List Text) (env : Environ)
    → Dict.get (active_key suffix) (attention_env phase suffixes env) ≡ (
        if one_of suffix suffixes
        then Dict.get (pd_key phase suffix) env
        else Dict.get (active_key suffix) env)
unfolding attention_env one_of
get-attention_env phase suffix [] env = refl
get-attention_env phase suffix (x ∷ xs) env =
    let v = Dict.get (pd_key phase x) env in
    rw
      (
        get-attention_env phase suffix xs (set_or_pop (active_key x) v env),
        get_pd-set_or_pop phase suffix x v env,
        get-set_or_pop (active_key x) (active_key suffix) v env,
      )
      (ground (
        arith,
        eq_of_beq suffix x,
        active_key-injective x suffix,
        eq_of_beq (active_key x) (active_key suffix),
        beq_refl suffix,
        beq_refl (active_key suffix),
      ))
